-- ===== src/Lib.antt =====
-- A verification library for pi-codex-adaptor, the extension that lets Pi run OpenAI Codex models.
-- The modules follow the TypeScript of the repository; each function of the code is a function
-- here, with the words of the code in lower case.
--
-- The program and its parts. Pi loads the extension, which reads a configuration, decides for each
-- model whether it serves it, registers routes with Pi, and sends the requests of a session through
-- the provider of its own instance to a native bridge. While a Codex model is active it replaces
-- the core tools of Pi by managed tools. A long conversation is compacted remotely.
--
-- Prelude: lists, Boolean tests, texts and maps that the other modules share. Value: the JavaScript
-- values that a parser is given, where a number keeps what the code tests of it (an integer, a
-- fraction, an infinity or NaN).
--
-- Config: src/domain/config.ts. Schema has the types and createDefaultConfig; Issues the helpers
-- that push issues (record, exactKeys, enumValue, booleanValue, issue), as steps that return a
-- value and the issues pushed; Parse is parseConfig with a function for each of its parts; Context,
-- Evaluate and Save are the capability context, evaluateConfigSettings and validateConfigForSave.
-- Encode writes a configuration as JSON independently of the parser, for the round trip. Complete,
-- Valid, Strict, RoundTrip and Gate hold the proofs.
--
-- ToolProfile: src/integration/pi/codex-tool-profile.ts, with the tool names of
-- src/domain/capability.ts. Names has the functions on lists of tool names, Ownership the check of
-- who has registered a tool, State and Coordinator the class CodexToolProfile: its fields, with the
-- state of Pi, are the record Profile, and a method returns the next record. Pi is the interface
-- PiHost and IsLawful is what is assumed of it: a list of distinct registered names becomes the
-- active list, and the registry stays. The real path of an entry is a parameter.
--
-- Compaction: src/application/compaction.ts. Phases and Exclusion are CodexCompactionCoordinator
-- with its calls as a step function; Store and Accounting are CodexCompactionStore; Threshold is
-- resolveCompactionThreshold and shouldCreateAutomaticCheckpoint. Items and Checkpoint are the
-- table of response items and validateCompactionOutput, Saved is createRemoteCompactionCheckpoint
-- and parseRemoteCompactionCheckpoint, none where these throw; Strict says which values are strict
-- JSON; Output, Checked, Persisted and Keys hold the proofs. The strict JSON test of
-- src/application/structured-json.ts is that of values that are trees.
--
-- Routing: src/integration/pi/provider-session-router.ts (Router, with the invariant in Bindings,
-- the answers in Dispatch and the reachable states in Reached) and
-- src/integration/pi/codex-provider-request-guard.ts (Guard, with Approval and Liveness over
-- sequences of calls). Objects are named by the order in which they are made. A dispatcher is given
-- the snapshot of its options, which may throw. The collector may take any binding, and the
-- finalizer may run at any time after that. The guard keeps a record by its generation, and the
-- record of the asynchronous scope is an argument of the calls that read it. The helpers on JSON
-- (freezing, the digest, copies) are parameters, none or false where the code throws; approve keeps
-- its order, so that a digest that throws leaves the request stored. The hook of
-- src/integration/pi/codex-compaction-replay.ts appears as the call that records a failure where
-- approve throws; approve alone is a call of its own.
--
-- Provider: src/domain/provider-activation.ts, src/application/provider-activation.ts and
-- src/integration/pi/provider-dispatcher.ts. The registry of Pi is the interface Registry, with
-- IsRegistry for what is assumed of it.
--
-- The tool update_plan, module Plan: src/domain/plan.ts and src/application/update-plan.ts. The
-- view is the list of the updates that it has been given.
--
-- Bridge: src/infrastructure/codex-bridge/protocol.ts, identity.ts and client.ts. Frames is
-- ServerFrameDecoder with the functions on frames, as lists of bytes, Stream a reader of single
-- bytes that it is compared with, Lines its behaviour on whole streams; Identity is
-- verifyHandshake. Messages has the messages of the bridge. Client, Route and Calls are
-- BridgeClient: its fields, with the promises it has settled and the messages it has written, are
-- the record Client; each call, timer, signal, chunk, end of a handler and end of the transport is
-- a Step, and step takes a client to the next. A promise continuation that runs at once is part of
-- the step that causes it; where the code awaits something from outside (the handshake, a handler,
-- the result of a shutdown) a step of its own goes on. Ids are arguments, and a run takes only
-- fresh ones. Table, Closing, Tracking, Routed, Called and Reached hold the invariant of the tables
-- and that every step keeps it; Promises, Ended and Drained what callers rely on. The JSON
-- functions, the text coders and the schemas are the parameters parse and encode.
--
-- Settings: src/ui/terminal/settings-model.ts, with src/application/security-policy.ts. Rows has
-- the state of SettingsModel and the rows it shows, Model its operations on the draft, Keys
-- handleKey with its dialogs and the calls of the overlay as the data type Act. Moves says what
-- keys outside the dialogs may change, Guarded and Closing what a key needs to enable a dangerous
-- policy or to close, Clean the invariants over sequences of calls, Saving the passage to the
-- parser of the configuration.
--
-- Capabilities: src/domain/capability.ts and src/application/resolve-effective-capabilities.ts.
-- Metadata has the parsers of what the native runtime answers (parseModelResolution,
-- parseToolResolution), where a CapabilityError is its code and reason; Resolve is the resolution
-- of a snapshot, with the runtime as a record of functions that return or throw, and
-- capabilityContextFromSnapshot, which gives the save gate of Config its context. Backed says what
-- a snapshot has in the bridge for what it reports, Saved what the save gate then lets through.
-- Keyed is capabilityCacheKey, as the array that JSON.stringify prints.
--
-- Storage: src/infrastructure/configuration/file-config-repository.ts and
-- src/application/configuration.ts. Disk is the file system: the configuration, its backup and the
-- temporary file, with a list of faults, of which each operation meets the next, and programs on it
-- that finish, throw or die. Repository is FileConfigurationRepository, Service the rest of it with
-- ConfigurationService, whose listeners are in Listeners: the process may die before each of them
-- is told. Triples are rules for what holds after a program under any faults; Atomic applies them
-- to the writing of one file, Saving to save, Loading and Creating to restoreBackup and
-- loadOrCreate; Undone is about runs where nothing fails.
--
-- The Examples of each part hold tests and apply the theorems to concrete data.
--
-- Bounds. Numbers of the code are natural numbers where the code makes them (generations, counts)
-- and Number where it reads them; the safe integer bound is 2^53 - 1. No loop needs fuel: each runs
-- over a list.
--
-- Not modelled: the processes, binaries and environment of the bridge and its runtime
-- (src/infrastructure), the cache of resolved capabilities, redaction and diagnostics, the property
-- descriptors and cycles that the strict JSON test looks at, the message conversion and the tools
-- themselves, the drawing of the terminal interface, the error stream and the process-wide slot of
-- the router, generated code, scripts and the native code.
pub mod Prelude
pub mod Value
pub mod Config
pub mod ToolProfile
pub mod Bridge
pub mod Capabilities
pub mod Storage
pub mod Compaction
pub mod Routing
pub mod Provider
pub mod Plan
pub mod Settings
