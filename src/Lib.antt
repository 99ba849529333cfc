-- ===== src/Lib.antt =====
-- CppChat: a C++ instant-messaging server: the chat server (ChatServerShared/), the pure code that it
-- shares with its clients (shared/), the server that keeps pictures and files (ResourceServer/) and the
-- server that assigns users to chat nodes (StatusServer/).
--
-- A client's TCP connection is a CSession: its bytes are cut into frames (MsgNode, the read side of
-- CSession), each frame's request is given to the business executor, and the replies go through the
-- session's send queue. A login binds the session to a user and a device; its credential, its session
-- and its route are leases in Redis (RedisMgr), and its reply, the contacts of the user, is cut into
-- frames that fit the wire (LoginSnapshot). Two chat nodes share Redis. The executor runs
-- HandleMessage (Dispatch), whose handlers call the services; the services borrow their connections to
-- MySQL and Redis from pools (Pools). The status server hands out the token with which a client logs in
-- (Status); a login writes the token with which the resource server lets it in (Uploads).
--
-- Files and the code that they model:
--   Base: lists, integers, texts (a text is the list of its bytes) and 64-bit counters; no code.
--   Executor: ChatServerShared/BusinessExecutor.{h,cpp}. The state is the class's members; `submit`,
--     `begin_stop`, `stop`, `wake` and `complete` are its sections under the mutex, in any order.
--     Executor/Steps has the interleavings; Invariant, Fifo, Progress, Rest and Balance the proofs.
--   Framing: ChatServerShared/MsgNode.{h,cpp} and AsyncReadHead, AsyncReadBody, AsyncReadFull,
--     AsyncReadLength of ChatServerShared/CSession.cpp. Framing/Stream has the round trip.
--   Session: the sending, closing and login side of ChatServerShared/CSession.{h,cpp}. What
--     boost::asio::post puts on the strand is a list of jobs; Session/Steps runs them in any order,
--     which includes the strand's own; Queue, Delivery, Wakeup, Closing and Retiring have the proofs.
--   LoginSnapshot: ChatServerShared/LoginSnapshot.h.
--   Media: shared/media/pcmwave.h.
--   Redis: what RedisMgr uses of a Redis server, as an interface with its documented laws; Redis/Store
--     is an instance.
--   Leases: ChatServerShared/RedisMgr.cpp (RegisterSession, RefreshSession, ReleaseSession,
--     Destinations, Read) and ChatServerShared/ServicePolicy.h. A Lua script is one step; it may run
--     or not when its caller gets no answer (Fate). Leases/Keys tells the keys apart.
--   Calls: the script of RedisMgr::VoiceTransition and shared/media/callpolicy.h. `decide` is the
--     script's part on an existing call, Calls/Script its reading and writing of Redis. cjson and
--     Lua's numbers are parameters; cjson rounds times, so what is read back of a call may differ
--     from what was written in its times and credits.
--   Messages: ChatServerShared/MessageService.cpp (Store, PresentMessage; in Messages/Access
--     CreatePrivate, Load and ListThreads; in Messages/Delivery Deliver, with GetSessions of UserMgr.cpp).
--   ContactTags: ChatServerShared/ContactTags.h.
--   MetricsLog: ChatServerShared/MetricsLogPolicy.h.
--   Login: Login of ChatServerShared/SessionService.cpp, over Leases and Session. What other threads do
--     to the node before the lock is taken and before the session is bound is any function.
--   Server: ChatServerShared/UserMgr.cpp, and the admission, the cleanup and the
--     scan (Server/Maintain) of ChatServerShared/CServer.cpp.
--   Locks: ChatServerShared/DistLock.cpp; PublishNode and RemoveNode of ChatServerShared/RedisMgr.cpp.
--     The turns of the loop of Acquire before its deadline are a list.
--   Requests: ChatServerShared/RequestContract.h.
--   Uploads: ResourceServer/ResourceStore.cpp, ResourceProtocol.h and ResourceAuthorizer.cpp. The state
--     is what the disk has of one file id and its mark in Redis (Entry); the mutex of a file makes each
--     request one step. What fails around a request - a file that does not open, a short write, Redis -
--     is its Outside. Checks and Handlers have the operations; Held, Sound, Init and Chunks the
--     invariant, Owner the access rules, Base64, Transfer and Fetch the way of a file through it.
--   Status: StatusServer/StatusServiceImpl.cpp. The map of nodes is a list, in the order in which the
--     unordered map gives them; Choice, Sorting and Order are about getChatServer,
--     Tickets about the tokens.
--   Pools: ChatServerShared/MySqlPool.{h,cpp} (Pools/MysqlPool) and RedisConPool.{h,cpp}
--     (Pools/RedisPool). A call under way is an entry of a list of calls; a section under the mutex and
--     an access to an atomic is a step of a call, and the calls' steps come in any order.
--   Dispatch: ChatServerShared/LogicSystem.cpp: HandleMessage, the table of handlers and the login here,
--     the handlers in Contacts, Chats, Threads and Profile. A handler is a Program: the calls of services that it makes, one after another, each with what it does on the
--     answer, and the frames that it sends. Answers are arbitrary, and services
--     return; what throws is the conversion of a JSON value. FillChatJson and FillUserJson are not
--     modelled: their results are in the answers. Values has JSON values and the reading of a request,
--     Gate and Paging the theorems, the other modules their lemmas for each handler.
--   Examples: tests and concrete instances.
--
-- Bounds and choices. Most loops of the code are structural recursions over lists. Three functions
-- take fuel: the digits of std::to_string, where the number itself is enough since each step divides
-- by 10, the scan of the connections, whose budget is where the code sees that it has to stop, and a
-- client's downloads, where the size of the file is enough since each reply brings a byte or more.
-- Counters of type std::uint64_t wrap at 2^64 (add64, sub64). A section that holds a mutex, or that
-- runs on the strand, is one step; every theorem on runs is for all orders of such steps. A duration
-- is a number of an abstract type where the code uses double, since the theorems do not depend on
-- rounding. The byte order of boost, std::hash, the functions of OpenSSL and the text of a JSON value
-- are parameters, with what the code relies on as named hypotheses, which the examples instantiate.
--
-- Not modelled: sockets, threads, timers and their cancellation beyond the order of the callbacks;
-- logging, configuration and the start of the processes; the SQL of the data layer; generated protobuf
-- code; the services behind the handlers beyond those named above; the gate, the verification server,
-- and the Qt and Android clients, except for the shared code above.
mod Base
pub mod Executor
pub mod Framing
pub mod Session
pub mod LoginSnapshot
pub mod Redis
pub mod Leases
pub mod Calls
pub mod Locks
pub mod Login
pub mod Server
pub mod Messages
pub mod MetricsLog
pub mod Requests
pub mod ContactTags
pub mod Media
pub mod Uploads
pub mod Status
pub mod Pools
pub mod Dispatch
mod Examples
