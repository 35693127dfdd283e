-- ===== src/Lib.antt =====
-- The core of the Tyche engine: the event queues, the tables and the job router of tyche/cpp, the
-- modules that are its clients, and the messages and the shared memory between them; and one of the
-- modules, the gateway that publishes the market data of CTP.
--
-- An engine connects modules. A module registers with the interfaces it has, sends heartbeats, and
-- exchanges events and jobs with other modules. An event is put into the queue of its topic by the
-- ingress worker or a client and taken out by the egress worker; a job is a request that the router
-- hands to one of the modules that handle its topic, in turn, and whose response goes back to the
-- requester. A monitor unregisters modules that fall silent and drops queues that nobody uses.
--
-- Which file models which code (paths below src/tyche/cpp):
--   Ring           engine/ring_buffer.h: `RingBuffer`. Sequences, Contents, Push, Pop, Start, Refine
--                  and Waiting hold its invariant and its refinement of the bounded queue of Queue.
--   Frame          engine/topic_queue.h: `Frame` and `QueueItem`; Laws.
--   TopicQueue     engine/topic_queue.h and .cpp: `TopicQueue`, a ring buffer with a backpressure
--                  strategy; Strategy compares it with the bounded queue of the strategy.
--   ShardedMap     engine/sharded_topic_map.h and .cpp: `ShardedTopicQueueMap`. Homed has its
--                  invariant, Finite, Create and Snapshot what it is as a finite map.
--   Intern         string_intern.h: `StringIntern`; Stable.
--   Heartbeat      engine/heartbeat_manager.h and .cpp; Expiry and Silence.
--   Types          types.h: enumerations, their strings, `Interface` and `ModuleInfo`; Names.
--   Message        message.h: `Message` and the payload values that the engine reads.
--   Engine         engine/engine.h and engine.cpp: the state of `TycheEngine` and the registration
--                  of modules; Registry.
--   Engine.Jobs    engine.cpp: the handlers of `_job_router_worker`; Pending, Dispatch, Reply.
--   Engine.Timeouts  engine.cpp: `process_timeout`, `process_recovery`, the loop of the job router
--                  and `_job_timeout_worker`; Rounds, Overrun, Due, Spared and GivenUp.
--   Engine.Bridge  engine/shared_memory_bridge.cpp: a message that the bridge takes out of a queue.
--   TopicIndex     engine/topic_queue_index.h; Growth.
--   Spin           engine/adaptive_spin.h; Idle.
--   Engine.Events  engine.cpp: `inject_event`, `_enqueue_from_xsub`, the egress, heartbeat and
--                  monitor workers; Usage and Collection.
--   Engine.Steps   the workers' rounds and the clients' calls as a step relation; Tables and Reach.
--   Wire           message.cpp: messages as msgpack objects; Unpack: and back. Plain, RoundTrip.
--   TycheModule    module.h and module.cpp: a module's handlers, events and dispatch; Requests its
--                  jobs. Handlers, Waiting, Replies and Delivery hold what becomes of them.
--   Registration   module.cpp `_register_with_engine` and engine.cpp `_registration_egress_worker`;
--                  Client has the module's side; Handshake.
--   SharedQueue    engine/shared_memory_queue.h and .cpp, and the topic of shared_memory_bridge.cpp.
--                  Lap, Reading, Start and FirstLap: while no slot is used twice; Replay: after that.
--   DeadLetter     engine/dead_letter_store.h and .cpp: the JSON of a dead letter; Files its files,
--                  `persist` and `replay`. Printable, Records and Lines: the lines that come back.
--   Flat           flat_message.h and flat_serializer.h; Returned.
--   Engine.Admin   engine.cpp `_admin_worker`: the answers to queries; Complete.
-- And below src/modules/ctp_gateway_cpp/src:
--   Quote          quote_tick.h and the conversions of md_spi.cpp and ctp_gateway.cpp; Limits.
--                  Validator: quote_validator.h; Accepted.
--   Gateway        ctp_gateway.h and .cpp: quotes, the ring of option ticks, its thread and the status.
--                  Buffer, Stream, Drained, Rounds, Mixed and Delivered: what becomes of the quotes.
--   Gateway.Instruments  `resolve_instruments`; Catalogue, Ready, Found and Unavailable.
--   Gateway.Lifecycle    `start`, `stop` and what they call; Stopped.
--   Gateway.Config       config.cpp; Usable.
--   Gateway.Loader       ctp_loader.cpp: the paths of libraries; Named.
--   Session        md_spi.cpp and td_spi.cpp: the two connections. Subscribed, Authenticated.
-- And of both:
--   Common         lists, association lists for unordered maps, machine words, Boolean tests.
--   Tests          the theorems at concrete inputs.
--
-- Numbers. A size_t or uint64_t is a natural number with its wrap-around written out (`% 2 ^ 64`). The
-- signed difference of two positions is an integer of 64 bits, two's complement. Times are natural
-- numbers of an arbitrary unit, in place of doubles. The doubles and floats of a message are
-- parameters, with the conversions that msgpack and the code make. The positions of the queue in
-- shared memory are numbers of 32 bits. The liveness of a module is an `int` that wraps around where
-- the code would overflow it, which C++ leaves undefined.
--
-- Concurrency. An operation is one step: it runs with no other thread between. Of the
-- compare-exchanges it makes, a list says which ones fail spuriously, and of the yields of a blocked
-- producer, how many items the consumer takes meanwhile. Such a list is the fuel of the loops of the
-- ring buffer and of the queue in shared memory: a theorem that a call returns asks for a list that
-- lets one compare-exchange through. The fuel of the loop that empties the gateway's buffer is the
-- list that says which ticks can be published; one longer than the buffer is enough.
-- The rounding up of a number of buckets has 64 rounds, enough for every request up to 2^63. The
-- workers of the engine share its state under locks; a round of a worker is one step, and rounds
-- follow one another in any order.
--
-- Third parties. msgpack is the record `Msgpack` of Wire: how it packs a double, and the bytes of an
-- object; where a theorem needs it, decoding what was encoded gives the object back. How doubles are
-- printed and what their bytes are, are the records `Printer` and `FloatBits`. The engine's own
-- handlers take a codec with no hypothesis. Handlers of events and jobs are parameters of a module.
-- The JSON library is the record `Json`, the arithmetic of doubles and `sscanf` the record `Numbers`.
-- The interfaces of CTP call the callbacks of Session, in any order; what is asked of them is a list.
-- A gateway's calls that publish may throw, as lists of truth values say.
--
-- Not modelled: sockets, threads, sleeps, log lines, the mapping of shared memory, the bridge's
-- threads, the layout of quote ticks in flat messages, directories and most errors of the file system,
-- command lines, the object pool, and interleavings inside one operation of a ring buffer or of the
-- queue in shared memory. Of the CTP gateway: the vendor's headers, the loading of libraries, the mock
-- for tests. In `stop` and in the results on the end of its thread, no quote arrives meanwhile.
pub mod Common
pub mod Queue
pub mod Frame
pub mod Types
pub mod TopicQueue
pub mod ShardedMap
pub mod Intern
pub mod Heartbeat
pub mod Message
pub mod Engine
pub mod Ring
pub mod TopicIndex
pub mod Spin
pub mod Wire
pub mod TycheModule
pub mod Registration
pub mod SharedQueue
pub mod DeadLetter
pub mod Flat
pub mod Tests
pub mod Quote
pub mod Gateway
pub mod Session
