-- ===== src/Lib.antt =====
-- A model of the core of homelab-apps, a monorepo of services for a home network, and what holds of it.
-- Some of its packages carry the logic that the services share, and are modelled here, with the chunker
-- and the indexing loop of the knowledge base and the core of the MIoT bridge.
--
-- packages/miot-device speaks Xiaomi's MIoT protocol over UDP. A device (MiotDevice) owns a clock
-- (DeviceClock) that derives the stamp of each packet; it runs one command at a time through a
-- transport (MiotTransport), which builds and parses packets (packet/*) and settles one promise per
-- socket. A command that fails is retried once behind a fresh handshake.
--   Miot/Clock      DeviceClock.ts: sync, observe, restore, reset, next, snapshot
--   Miot/Error      MiotError.ts: the constructor, is, afterStampRefresh; Attempt is a result or a throw
--   Miot/Packet     packet/*.ts: new OutgoingPacket(...).raw, new IncomingPacket(...), parseHello
--   Miot/Exchange   the handlers on one socket, as a machine over their events
--   Miot/Io         the state that commands share, and their sequencing: await, throw and catch
--   Miot/Transport  MiotTransport.ts: handshake, getProperty(ies), setProperty, callAction; the responses and
--                   the errors made of them are in Transport/Responses
--   Miot/Device     MiotDevice.ts: discover, connect, the commands, runWithStamp
-- The network and the stamp store are scripts: for each socket the events that reach it, for each call
-- of the store its result. An exchange whose script has ended meets its timer. MD5, AES and JSON are the
-- record Packet.Crypto; what is relied on of them is Packet.CryptoLaws.
--
-- packages/health rolls the results of health checks up into a report, and packages/tsed-health serves
-- it to the probes of a cluster and drains the process before it stops.
--   Health/Report    report.ts: isReady, rollUp, buildReport
--   Health/Registry  HealthRegistry.ts: runOne, runAll, and evaluate as a machine over its callers, the
--                    end of the pass in flight and the release of it
--   Health/Probes    HealthController.ts and HealthCheckService.ts, and checks/breakerCheck.ts
--   Health/Drain     the probes of a process that is shutting down
--   Health/Shutdown  createShutdownHandler.ts and ShutdownState.ts, as a machine over signals, the ends
--                    of the awaited promises and the hard deadline
--
-- packages/resilience retries work under a circuit breaker, a timeout and a parent's abort signal.
--   Resilience       ResiliencePolicy.ts: the retry loop of execute, and the filter of the breaker
--   Resilience/Call  executeWithParentCancellation, as a machine over the aborts, the microtask and the
--                    end of the work
--
-- packages/auth decides who a caller is, and packages/tsed-auth guards the routes with it.
--   Auth             Authenticator.ts: authenticate over the verifiers of a route's methods (Auth/Chain)
--   Auth/Guard       tsed-auth's AuthGuard.ts: use, decodeMethods, satisfies
--   Auth/Jwt         verifiers/JwtVerifier.ts: extract (Auth/Bearer) and verify
--   Auth/Build       buildVerifiers, and verifiers/UnauthenticatedVerifier.ts
-- What jose, JSON.parse and the source of keys answer during a request are parameters, Jwt.Library.
--
-- apis/knowledge-base-api cuts the text of a note into chunks that an embedding model can take, in
-- runs of one background loop.
--   Chunker          services/MarkdownChunkerService.ts: split, paragraphs, hardSplit, tail
--   Chunker/Joined, Chunker/Kept and Chunker/Blocks follow the lines of a text through the cuts
--   Chunker/Fence    markdown/FenceTracker.ts
--   Chunker/Table    isTable, its regular expressions read as scans
--   Indexing         services/IndexingLoopService.ts: the chain of indexing runs and its queue, as a
--                    machine over its events
--   Indexing/Run     one run of it: run and runLocked over the indexer
--   Indexer          services/IndexerService.ts: index, from the changes of the source to the vectors
--   Indexer/Tables, Indexer/Vectors
--                    storage/postgres/DocumentRepository.ts and EmbeddingRepository.ts: what their statements
--                    make of the tables
-- What of a run of the indexer may throw is a list of its looks at the abort signal and of its questions to
-- the database and the source, in their order, and whether the embedder answers is a list too. The chunks
-- of a document are a parameter.
--
-- apis/miot-bridge-api polls the properties that its clients subscribed to and tells them of changes.
--   Poller           services/DevicePropertyPollerService.ts: subscriptions, dueDevices, readDevice
--   Bridge/Dispatch  services/NotificationDispatchService.ts: the queue that paces the notifications, its
--                    handlers in any order (Dispatch/Reach)
--   Bridge/Spec      mappers/SimplifiedMiotSpecV2Mapper.ts: what the published spec of a device and the
--                    overrides of its model come to
--   Bridge/Service   services/MiotDeviceRegistry.ts, and what commands leave behind
--   Bridge/Commands  services/DeviceCommandService.ts: execute and executeRaw
--   Bridge/Reading   services/DeviceCommandService.ts: getProperties
-- The storage of the bridge is a record of answers, Service.Storage, and its devices are one of operations,
-- Service.Device, with the calls that Miot/Device models.
--
-- StringUtils.isNotEmpty is a parameter wherever it is asked; CommonUtils.isEmpty of a list or a text is
-- that it has no members.
--
-- Prelude has the names, lists, integers, decimals and texts that all share; Tests has runs on concrete inputs.
--
-- Numbers. The values of device properties, and the lists and ranges that a spec allows for them, are
-- decimals with any number of places, compared and divided exactly (Prelude/Decimal): the rounding of
-- doubles, for which the code tolerates a thousand-millionth of a step, is left out. Status codes and ids
-- are integers.
--
-- Bounds. Instants are whole milliseconds: of the monotonic clock a natural number, of the wall clock
-- an integer. The search for a free key of the report has fuel for one underscore more than the longest
-- key is long, and the retry loop for one attempt more than there are retries; both are proved enough,
-- as are the rounds in which a line is cut to a limit above 0 (the configuration has at least 200). A row
-- of a table is scanned in one round for each unit that it has. The loop that embeds has fuel for one round more
-- than there are chunks without a vector, which is proved enough.
-- A packet's device id and stamp are written as 32-bit numbers and its length as a 16-bit number,
-- with the throw of the write out of range; only the text of that throw is approximated.
--
-- Not modelled: log lines, telemetry, sockets and timers themselves (their events are given), the
-- breaker and the timeout of the resilience library (the outcome of an attempt is given), dependency
-- injection, and the services, user interfaces and scripts of the repository.
pub mod Prelude
pub mod Miot
pub mod Health
pub mod Resilience
pub mod Auth
pub mod Bridge
pub mod Chunker
pub mod Indexer
pub mod Indexing
pub mod Poller
mod Tests
