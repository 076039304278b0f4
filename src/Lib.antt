-- ===== src/Lib.antt =====
-- A model of rocketsocket, a Rocket.Chat client in Rust, with its correctness theorems.
--
-- The program keeps one websocket to a server. A runner owns a session (the handshake and the
-- login), a correlator (the calls that wait for a reply), a liveness policy (when to ping, and when
-- to give the connection up) and a back-off (how long to wait before the next connection). The
-- client beside it remembers the subscriptions in a registry, which routes events by stream and
-- event name and is replayed after a reconnect. What the streams carry goes into a cache of rooms,
-- users, subscriptions and messages. A bot hears of an event only if the filters of its handler pass
-- it.
--
-- The files, by the source that they model:
--   Protocol                crates/rocketsocket-model/src/protocol.rs: decoded frames and errors; Errors
--                           and Streams have the methods of `DdpError` and the events of streams.
--   Realtime/Backoff        crates/rocketsocket-realtime/src/backoff.rs: `Backoff`.
--   Realtime/Liveness       crates/rocketsocket-realtime/src/liveness.rs: `LivenessPolicy`.
--   Realtime/Session        crates/rocketsocket-realtime/src/session.rs: `Session`. The method
--                           `disconnected` is `socket_gone`.
--   Realtime/Correlate      crates/rocketsocket-realtime/src/correlate.rs: `Correlator`.
--                           Correlate/Wire follows the frames of its calls.
--   Realtime/Connection     crates/rocketsocket-realtime/src/connection.rs: `Runner`, with State (its
--                           own state), Frames (what the server sends), Polls (`poll_step`), Drive
--                           (`drive`) and Run (`run`); `new` and `disconnected` are `State.new` and
--                           `connection_ended`. Tracking, Writing, Waiting, Queued, Published and
--                           Finished have its theorems.
--   Realtime/Subscription   crates/rocketsocket-realtime/src/subscription.rs: `Registry`. The
--                           methods `insert` and `remove` are `subscribe` and `forget`.
--   Realtime/Supervise      crates/rocketsocket-realtime/src/client.rs: `Client::subscribe`, `supervise`
--                           and `stream_key_of`, over the frames as Protocol/Streams reads them.
--   Realtime/Replay         crates/rocketsocket-realtime/src/client.rs: `replay`.
--   Realtime/Standby        crates/rocketsocket-realtime/src/standby.rs: `Standby`. The methods
--                           `new` and `pending` are `no_waiters` and `waiting`.
--   Bot/Filter              crates/rocketsocket/src/filter.rs: `Filters::local_verdict`.
--   Bot/Roles               crates/rocketsocket/src/roles.rs: `RoleDirectory`, its slots as addresses,
--                           and `entry` as two steps, `cached` and `store_answer`.
--   Bot/Framework           crates/rocketsocket/src/framework.rs: `Framework::dispatch`. The `OnceCell`
--                           `me` is set by `own_id`.
--   Rest/Pagination         crates/rocketsocket-rest/src/pagination.rs: `Pagination`, `PageInfo`. The
--                           method `Pagination::next_page` is `following`.
--   Rest/Error              crates/rocketsocket-rest/src/error.rs: `ApiErrorKind`, `ApiError`,
--                           `FailureEnvelope`, `truncate` and `RateLimit`.
--   Rest/Client             crates/rocketsocket-rest/src/client.rs: `decode`, and `RestError` of
--                           error.rs.
--   Datetime                crates/rocketsocket-model/src/datetime.rs: `Timestamp`.
--   Cache/Resource          crates/rocketsocket-cache/src/resource.rs: `ResourceType`.
--   Cache/Config            crates/rocketsocket-cache/src/config.rs: `Config`.
--   Cache/Merge             crates/rocketsocket-cache/src/merge.rs: `merge_documents`.
--   Cache/Entity            crates/rocketsocket-model/src/entity.rs: what the cache reads of it.
--   Cache/Update            crates/rocketsocket-cache/src/update.rs: `UpdateCache::update`, a function
--                           for each type.
--   Cache/Store, Cache/Rooms, Cache/Users, Cache/Messages
--                           crates/rocketsocket-cache/src/cache.rs: `Cache`, its shared helpers and
--                           its operations.
-- Base has the shared names and lemmas, and Map the model of `HashMap` as an association list.
-- Each component has a module Tests with concrete runs. A method that takes `&mut self` gives the
-- new state, beside what it returns; where the source's name is a word that the model needs for
-- another purpose, the comment of the definition names the method.
--
-- Numbers are natural numbers. A `u64` that wraps is taken modulo 2 ^ 64, a `u32` that saturates is
-- capped by `min`, and a saturating subtraction is the subtraction of natural numbers. Durations
-- and instants count nanoseconds. The loops on fuel are `trim`, which takes an id off a ring in
-- each turn, so the length of the ring is enough, and `evict`, which takes a room away in each
-- turn, so the number of rooms is enough; the others recurse on a list or a count. The loops of the
-- runner recurse on the answers that the socket, the channels and the clock give to its polls.
--
-- Parameters, with what is assumed of them: the random generator (`Rng`), `dashmap::DashMap`
-- (`DashMap`), JSON values and the conversions that `serde` derives (`Json`, `Serde`, `Entities`),
-- the receiver's end of a oneshot channel (`is_open`), what the runner takes from elsewhere
-- (`Env`), the outcomes of the requests that a replay makes (`answer`), the range of dates
-- (`is_representable`), what the server answers to a lookup of roles (`Inquiry`, `World`), and what
-- reading a response takes from `std`, `reqwest` and `serde_json` (`Library`, `Decoder`). The
-- views of a JSON value (`Views`), the typed events (`World.decode`) and whether a text is read as
-- a number (`reads_as`) are parameters too. The operations of the cache, the supervisor and the
-- replay run whole, so tasks that interleave with them are outside the model.
--
-- Not modelled: the socket, the handle of a connection, REST but for its paging and the reading of
-- responses, the bot framework but for its filters, roles and dispatch, the typed events, the code
-- generator, the macros, and the decoding of frames and entities by `serde`.
pub mod Base
pub mod Bot
pub mod Cache
pub mod Datetime
pub mod Map
pub mod Protocol
pub mod Realtime
pub mod Rest
