-- ===== src/Lib.antt =====
-- A model of redis_proxy, a RESP proxy that multiplexes client connections over a few backend
-- connections, with proofs about it.
--
-- The parts and the files that model them:
--
-- - Status.antt: include/redis_proxy/status.h.
-- - Rules.antt, Rules/Bytes.antt, Rules/Table.antt: src/command_rules.cpp. `allow`, `deny`,
--   `set_rule_for_test`, `default_rules` and `validate` are the methods of `CommandRules`;
--   the hash map is an association list.
-- - Buffer/Block.antt, Buffer/Store.antt, Buffer/Chain.antt, Buffer/IoBuffer.antt: src/buffer.cpp.
--   A `BufferBlock*` is an address in a `Store`, which holds the blocks and the free list of the
--   `BlockPool`; every method takes the store and returns the new one. `Buffer/Health.antt` says that
--   the reference counts are exact, `Buffer/IoBuffer/Valid.antt` what a valid `IoBuffer` is.
-- - Signal.antt: src/coroutine_signal.cpp. A `Latch` is a signal with the coroutine that waits on it.
-- - Session.antt, Session/Loops.antt, Session/Parsing.antt: src/client_session.cpp. A `World` is the
--   channels of a worker and its sessions. `deliver` is what `onBackendReply` and `onBackendFailure` do,
--   with the calls back into the pool. `Session/Moves.antt` has the steps between suspension points.
--   The rounds of the loops are `writer_round` and `scan`; `peekFrame` is an argument of `scan`.
--   `Session/Stopping.antt` has `stop` of the pool.
--   `Session/Reading.antt` has the parse loop over the input buffer and the parser, and
--   `Session/Passing.antt` a whole round of `readerLoop`.
-- - Parser.antt: src/resp_parser.cpp. The RESP library is a `Resp`. `Parser/Commands.antt` says which of its
--   answers are commands.
-- - Config.antt: src/config.cpp. What the C library, the files and `Endpoint` answer is a `Host`.
-- - Worker.antt: src/worker.cpp, the hand-over of descriptors between two threads, and the end of sessions.
--   `poll_again` is a return of `co_poll` with nothing to read.
-- - Server.antt: src/proxy_server.cpp and src/main.cpp. `accept` is a round of `acceptLoop`; a `Move` is
--   one of these or a step of a worker.
-- - Socket.antt, Socket/Ownership.antt: src/co_socket.cpp. `Socket/Reading.antt` has `readSome` and
--   `Socket/Writing.antt` has `writeAll`; the answers of the kernel are arguments.
-- - Pool.antt: src/backend_pool.cpp. The vector of channels is a list; a channel is its index.
-- - Channel.antt, Channel/Connection.antt: src/backend_channel.cpp. `Channel/Reading.antt` has the loop that
--   cuts replies off the input; a reply is kept by its owner or given back to the pool. A method returns the new channel and the calls that it makes into the
--   owners of the batches. The coroutines run on one thread, so what happens between two suspension
--   points is one `Event`, and `step` is the code that runs for it.
--
-- Buffers serve both ends of the proxy: a session cuts its input into chains, a channel writes the
-- chains of its batches and cuts the replies off its own input.
--
-- Bounds and fuel: sizes in bytes are unbounded numbers, since memory bounds them; `uint32_t` counts
-- and `queued_commands_` wrap as in the source. The loop of `IoBuffer::append` has as much fuel as there
-- are bytes, and each round writes one at least. `scan` counts down `max_pipeline_commands_per_read`, and
-- `gather_output` the 64 chains of a write. Fewer than 2 ^ 64 replies are outstanding in a
-- session. The loop of `unpack` has as much fuel as the largest
-- arena has slots, and that of `read_replies` one more than there are bytes. All other loops are
-- recursions on lists.
--
-- The loops of `readSome` and `writeAll` are recursions on the list of the kernel's answers; a list that
-- is over stands for a call that still waits.
--
-- Not modelled: threads and the scheduling of coroutines, beyond the orders in which their steps can
-- interleave; the load generator in bench; the libraries under (libco, cpp_util, jemalloc), whose source is not part of
-- the repository.
pub mod Base
pub mod Status
pub mod Rules
pub mod Buffer
pub mod Signal
pub mod Channel
pub mod Pool
pub mod Parser
pub mod Session
pub mod Config
pub mod Worker
pub mod Socket
pub mod Server
mod Tests
