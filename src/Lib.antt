-- ===== src/Lib.antt =====
-- A multithreaded exchange: an order book for one instrument with price-time matching, the binary
-- protocol through which clients reach it, the engine thread that owns the book, and the write-ahead log
-- from which the book is recovered. This library models these and the sessions.
--
-- The parts and their files:
-- * core/types.hpp is Types, core/order.hpp and core/order.cpp are Order. An order is a record whose
--   `kind` stands for its class; a virtual function dispatches on it.
-- * core/price_level.hpp and core/price_level.cpp are PriceLevel, on the nodes of Queue. A list iterator is
--   the id of the order that its node holds, since iterators are stable and ids are unique.
-- * core/order_book.hpp is OrderBook: a side is the list of its levels in the comparator's order, and the
--   index from ids to levels. core/book_iterator.hpp is BookIterator.
-- * core/matching_strategy.hpp and core/price_time_strategy.cpp are Strategy: `plan` computes the
--   executions at one level on a working copy of the queue.
-- * core/book.hpp, core/fill.hpp and core/book.cpp are Book: Book/Types has the state, the results and the
--   queries, Book/Plan has planAgainst and prepareSubmit, Book/Commit has commitSubmit, and Book itself
--   submit, cancel and modify. A template parameter that names a side is an argument.
-- * core/wire.hpp is Wire, net/protocol.hpp and net/protocol.cpp are Protocol. An encoder appends to a
--   list of bytes; a reader is the list of the bytes that it has not read; an exception is an `err`.
-- * net/frame_assembler.hpp and net/frame_assembler.cpp are Assembler: the buffer, the read position and
--   the limit. Assembler/Frames and Assembler/Stream relate it to the encoders.
-- * core/command.hpp, core/apply.hpp and core/apply.cpp are Command: `apply_command` is applyCommand, and
--   `history` applies commands in order.
-- * concurrent/thread_safe_queue.hpp is ThreadSafeQueue: an operation is the part of it that runs under
--   the mutex, and `none` where it waits. ThreadSafeQueue/Monitor has the threads around it: waiters,
--   woken threads and notifications to come, with every interleaving as a sequence of steps.
-- * concurrent/thread_pool.hpp and concurrent/thread_pool.cpp are ThreadPool, whose workers take steps.
-- * core/engine.hpp, core/engine.cpp and core/command_log.hpp are Engine. The log is a parameter, an
--   interface that the write-ahead log fills. Engine/Loop serves a list of commands; Engine/Serves and
--   Engine/Replay compare the engine with the commands that its log took.
-- * store/crc32.hpp is Crc32, store/wal_record.hpp and store/wal_record.cpp are WalRecord,
--   store/write_ahead_log.hpp and store/write_ahead_log.cpp are WriteAheadLog: a file is its bytes, and
--   what `write`, the clock and fdatasync answer is a list in the state.
-- * store/recovery.hpp and store/recovery.cpp are Recovery; what the database answers is an argument.
-- * net/session.hpp and net/session.cpp are Session: the functions, with the socket's answers as lists;
--   Session/Threads has the atomic steps of the threads that send, close and read, Session/Kept and
--   Session/Steps what every sequence of them keeps, Session/Loops the loops as such steps, and
--   Session/Drain that one event reads all that there is.
-- * net/server.cpp is Server as far as it turns messages into commands and fills into messages.
-- * analytics/side_stats.hpp, analytics/l2_feed.hpp and touchQty of analytics/book_metrics.cpp are
--   SideStats.
--
-- How they interact: submit validates, plans the executions against the opposite side without changing
-- it, then commits them, and rests what is left. The specification says it directly: Strategy/Match
-- consumes the orders of one level, Matching sweeps the levels, Entry rests the remainder. Strategy/Simulation
-- and Matching/Plan relate the plan to it, Matching/Commit and Matching/Sweep the commit, Entry/Refine
-- both, and Entry/Rest has the order that comes to rest; Entry/Reject has the ids that are taken or unknown, Entry/Cancel those that are
-- withdrawn. Validity says when a side and a book are
-- well formed: levels sorted, none empty, their sums true, every order live and at its price, the index
-- exactly the orders that rest, no id twice, and the best prices apart.
--
-- Around the book: a session cuts its bytes into frames, the server makes commands of them and pushes
-- them into the queue, and the engine thread pops one at a time, appends it to the log and applies it.
-- Recovery reads the records of the log and applies the same commands; Recovery/Live joins the engine, the
-- log and the recovery, for commands that their records give back, and Recovery/Storable says which orders
-- of the server these are. An iceberg that shows its whole quantity is not one of them: it is recorded as a
-- limit order.
--
-- Numbers: quantities, ids and sequence numbers are natural numbers, and every addition and subtraction on
-- them wraps at 2 ^ 64 as in the source. Prices are integers without a bound, since the matching only
-- compares them; the protocol states that they fit 64 bits. Assertions are compiled out, as in the
-- build's default configuration; a broken EXCHANGE_PRECONDITION and a dangling iterator are `none`.
--
-- Fuel: the planner's loop, and the matching that specifies it, take one round more than the quantity on
-- offer, since each round takes at least one lot of a live order. The engine's loop takes one round more
-- than the closed queue has commands, the replay one more than the file has bytes, the loop over the
-- frames one more than there are bytes buffered, and a loop over an iterator one more than there are
-- orders: a round takes a command, a record, a frame or an order. The loops over a socket have no such
-- bound, since a peer may send for ever: on answers of which none ends the loop their result is `none`.
--
-- Not modelled: memory allocation, whose failure is not a value here; the type erasure of
-- concurrent/task.hpp; opening and reading files, the database, sockets and polling, which are I/O; the
-- server's tables of sessions and accounts; vwap, midPrice, microPrice and imbalance, which are floating
-- point; tests and benchmarks.
pub mod Prelude
pub mod Types
pub mod Order
pub mod Queue
pub mod PriceLevel
pub mod Strategy
pub mod OrderBook
pub mod Book
pub mod Matching
pub mod Validity
pub mod Entry
pub mod ThreadSafeQueue
pub mod Command
pub mod Engine
pub mod Wire
pub mod Protocol
pub mod Assembler
pub mod Crc32
pub mod WalRecord
pub mod WriteAheadLog
pub mod Recovery
pub mod Tests
pub mod Session
pub mod Server
pub mod BookIterator
pub mod SideStats
pub mod ThreadPool
