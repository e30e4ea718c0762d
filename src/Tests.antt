-- ===== src/Tests.antt =====
-- Runs on concrete inputs: each theorem about the program at an input that meets its hypotheses.
mod MiotClock
mod MiotPackets
mod MiotCalls
mod HealthChecks
mod ResilientCalls
mod Chunks
mod IndexingRuns
mod Polling
mod Notifications
mod BridgeCommands
mod IndexerRuns
mod Authentications
mod Tokens
mod LoopRuns
