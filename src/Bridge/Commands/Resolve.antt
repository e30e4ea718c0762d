-- ===== src/Bridge/Commands/Resolve.antt =====
-- A request resolves to a command exactly when the spec of its device allows it
-- (resolveCommand of apis/miot-bridge-api/src/services/DeviceCommandService.ts).
