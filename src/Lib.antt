-- ===== src/Lib.antt =====
-- A verification library for the collaboration server in source/.
--
-- The server keeps one USD stage for each session. Websocket threads submit commands to a queue of
-- the session, a single consumer applies them to the stage, and broadcasts and acknowledgements go
-- back to the clients; HTTP requests pass the rate limits first. The modules model the parts whose
-- correctness is the program's own:
--
-- - Mailbox: `BoundedMpscMailbox` (source/session/BoundedMpscMailbox.h), the lock-free ring under
--   the command queue. `TryEmplace` is the relation `Emplace` between the places where a producer
--   can stand, `TryPop` the relation `Pop`; Mailbox/Machine interleaves any number of producers and
--   the one consumer, each access to an atomic variable being one step. Mailbox/Invariant says
--   what holds after every step, Mailbox/Safety what follows for the callers.
-- - Scheduler: `SessionCommandScheduler` (source/session/SessionCommandScheduler.h and
--   SessionCommandScheduler.cpp), which admits commands to the mailboxes and sees to it that they are
--   drained. `Move` is a step of an activity (a submission, a drain task, a tear-down), `Reachable`
--   interleaves any number of them. Scheduler/Invariant, Commands and Shutdown say what a step
--   keeps, Safety what follows, Batch how long `DrainBatch` takes.
-- - Executor: `WorkerExecutor` (source/concurrency/WorkerExecutor.h and WorkerExecutor.cpp), the
--   thread pool that the drains run on. `Reachable` interleaves the calls of `Post` and `Stop` with
--   the steps of the threads (`Internal`); the state counts the workers at each place, since they do
--   not differ. Invariant says where the workers are, Tasks where the tasks are, Safety and Shutdown
--   what follows.
-- - Versions: `SessionVersions` (source/session/SessionVersions.h and SessionVersions.cpp), which
--   decides whether a client's update was made on the current state. Versions/History says the rule
--   over the plain list of recorded events.
-- - Session: a session (source/session/Session.h) and the consumer of its commands
--   (source/session/SessionManager.cpp). Stage is the parameter `StageOps`, what USD and the
--   dispatchers do, of which nothing is assumed; Send has the frames to clients, Notices
--   `OnObjectsChanged` (source/session/StageNoticeListener.cpp), Snapshot the join snapshot,
--   Handlers the `HandleCommand` overloads, Registry the clients that attach and detach. Run makes
--   a session's life of commands, of clients that come and go, and of what the io threads
--   (source/controller/WebSocketController.cpp) send by themselves.
--   Protocol lists the steps that all of this is made of (Refines), from which History, Versioning
--   and Stamps tell what a client can rely on. Answers, Settled, Echo, Outcomes and
--   Announced speak of single commands. Outdated says what a change of a prim means for the updates
--   of the other clients, with the notices that report a prim (Reports).
-- - Server: what surrounds the sessions. Socket has the handlers of
--   source/controller/WebSocketController.cpp and the submissions that they call, with the result of
--   the look-up and the answers of the scheduler as arguments; Table the table of sessions with its
--   reaper (source/session/SessionManager.cpp). Talk lets clients, the consumer and the other
--   submissions act on a session in any order: Messages, Requests and Editors are about that.
-- - Prims: `PrimDispatcher` (source/session/PrimDispatcher.cpp), which creates prims and takes them
--   away and back for the sessions, over the parameter `Usd`, of which nothing is assumed. Names is
--   the loop of `UniqueChildPath`, Nesting the prims that `HasGprimAncestor` looks at; Creation and
--   Answers are about `Create`, Changes about `SetActive`.
-- - RateLimit: `SlidingWindowLimiter` (Window) and `LoginThrottler` (Throttle) of
--   source/middleware/RateLimiter.h. A mutex makes each call one step, and the reading of the clock
--   is an argument of the call. Handler is `RateLimitHandler` (source/middleware/RateLimitHandler.h),
--   which asks both before a request reaches its route: whom a request comes from (Client), which
--   requests go on (Verdict), and what becomes of the others (Rejected).
-- - Jwt: `JwtAuthHandler` (source/middleware/JwtAuthHandler.h and JwtAuthHandler.cpp), which asks
--   for a token before a request reaches its route: the cache of keys and how it is filled (Keys),
--   the checks of a request and of its token (Verify), the configuration (Oidc,
--   source/middleware/OidcConfiguration.cpp). jwt-cpp, the JSON library and the HTTP client are the
--   parameter `Libraries`, of which nothing is assumed. Signed and Accepted say which requests go on,
--   Cached which keys there are, Refresh when they change, Audiences how the configuration is read.
-- - Locator: `UsdFileLocator` (source/utils/UsdFileLocator.h), which decides on the paths that
--   clients send: `PercentDecode` (Decode), `ValidatePath` and `Resolve` (Path) and
--   `ValidateUploadTarget` (Upload). The file system and `std::filesystem::path` are the parameter
--   `FileSystem`, of which nothing is assumed.
-- - MiniPng: source/thumbnails/MiniPng.h, which writes pictures: `ZlibWrapStored` and `Adler32`, and
--   `Write` with its chunks (Png). Readers by RFC 1950, RFC 1951 and the PNG specification are what
--   they are held against (Inflate, Adler, Zlib, Pixels, Reader).
-- - Bytes: searches and cuts in the bytes of a `std::string`.
-- - Base: names of the libraries, Boolean tests, lists, maps as functions from keys, the bytes of a
--   `std::string`, 64-bit words.
--
-- Atomic operations are taken as sequentially consistent, and a compare-exchange may fail for no
-- reason, as the weak one may. Positions and counters wrap at 2 ^ 64 as in the source; a theorem
-- that needs less than a wrap says so in its hypotheses. A mailbox that has carried 2 ^ 63
-- values is out of reach of a running server, and so are 2 ^ 64 submissions at a time, which
-- `pending_count_` counts. The loop of `ZlibWrapStored` recurs on fuel, one more than there are
-- bytes, which is enough. In Prims, `UniqueChildPath` recurs on a number of tries, for which one
-- more than the number of a free name is enough, and `HasGprimAncestor` on a number of prims, for
-- which the number of prims from the parent up to the pseudo-root is enough, both included; with
-- less it answers that there is a gprim. A 64-bit number is printed in at most twenty digits. No
-- other part recurs on fuel.
--
-- In Session, the consumer runs each command whole, and clients come and go between commands;
-- the serialization of a message succeeds; a handler's call that throws has the result that its
-- catch block sets; and all notices of an authoring call come while it runs. `server_seq` counts
-- the versions handed out and is read modulo 2 ^ 64. Notices of a root layer that two sessions
-- share, which come on the thread of the other session, are left out. In Server, the look-up of a
-- session and what follows it are one step, and so is the teardown of a session.
--
-- Not modelled: the USD library, the Crow framework and the protobuf messages, which are not
-- part of the repository's own logic; logging; rendering; the routes and the controllers
-- other than that of the websockets.
pub mod Base
pub mod Bytes
pub mod Executor
pub mod Jwt
pub mod Locator
pub mod Mailbox
pub mod MiniPng
pub mod Prims
pub mod RateLimit
pub mod Scheduler
pub mod Server
pub mod Session
pub mod Versions
