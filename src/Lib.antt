-- ===== src/Lib.antt =====
-- my_server_framework: a server framework of coroutines (serverframework/). Fibers run on threads
-- under a scheduler; `IOManager` is a scheduler that waits for descriptors and timers, and gives the
-- fibers and callbacks that wait for them back to the scheduler; `ByteArray` is the buffer that
-- protocols read and write; `StringUtil` and `FSUtil` are helpers. The parts that are modelled:
--
-- * ByteArray.antt (serverframework/util/bytearray.h, bytearray.cc, endian_conv.h): the chain of
--   nodes is two lists of blocks, those before `cur_` and those from it on, so that `cur_` is null
--   where the second is empty. Chain has the loops over the nodes (`write`, `read`, `SetPosition`,
--   `GetReadBuffers`), Buffer the state and the operations without types, Fixed the accessors of a
--   fixed width, Varint those of a variable length with the zigzag map, Strings the strings. An
--   operation returns a Result: a value, `std::out_of_range`, a read through the null pointer, a write
--   past a local array or a signed overflow. File is the abstract buffer, a string of bytes and a position,
--   of which Refine and Reading speak.
-- * Lock.antt (serverframework/env/mutex.h): threads that share a mutex, each with a guard, as steps in any
--   order; CasLock is the mutex of one atomic flag, and ReadWrite has the guards that read and write.
-- * Timer.antt (serverframework/util/timer.h, timer.cc): `TimerManager` with its timers on a heap by
--   address, and the set of them as a list in the order of `Comparator`. The clock, which is
--   `GetElapsedMS`, and the addresses of new timers are arguments.
-- * IoManager.antt (serverframework/net/iomanager.h, iomanager.cc): the contexts of the descriptors;
--   Calls has `AddEvent`, `DelEvent`, `CancelEvent`, `CancelAll` and what `Idle` does with each event
--   reported; Idle has a round of `Idle` with the timers. The answers of `epoll_ctl` are an argument,
--   any function of the request; what is scheduled is a list, and a failed ASSERT is `none`.
-- * Fiber.antt (serverframework/fiber/fiber.h, fiber.cc): the states of fibers on one thread,
--   which of them executes, and whose code each context has.
-- * Scheduler.antt (serverframework/fiber/scheduler.h, scheduler.cc): the queue and the counts, and the
--   walk over the queue in `Run`; System has any number of threads in `Run` as a step relation, in
--   which a step is what a thread does between two locks and the steps come in any order.
-- * FdManager.antt (serverframework/net/fd_manager.h, fd_manager.cc): the contexts of descriptors; `fstat`
--   and the original `fcntl` are a record of operations on a state of the system.
-- * Hook.antt (serverframework/net/hook.cc): `do_io` over the outcomes of the original function, each
--   with what happens while the fiber is away, on the `IOManager` and `TimerManager` above; Waits has
--   the event that comes and the timer that ends a wait, and Calls the other hooks.
-- * Socket.antt and TcpServer.antt (serverframework/net/socket.cc, tcp/tcp_server.cc): the state of a
--   socket and of a server, over what the system's calls return.
-- * Stream.antt (serverframework/util/stream.cc): the loops that read and write a fixed size.
-- * Address.antt (serverframework/net/address.cc): the order of addresses and the masks of IPv4; Ipv6 has
--   those of IPv6, and Written what addresses write.
-- * Log.antt (serverframework/log/log.h, log.cc): levels, items and their output; Pattern the parser of
--   a format, one step for a character; Loggers the loggers and the file appender; Define the definitions
--   of loggers in the configuration, and Listener what a change of them does.
-- * Config.antt (serverframework/config/config.h, config.cc): the variables, their listeners and
--   what is loaded from a tree of YAML; Files the files that are read again; Casts the containers.
-- * Env.antt (serverframework/env/env.cc): the command line.
-- * Url.antt and Text.antt (serverframework/util/util.cc): the URL codec with its tables, trimming,
--   and the parts of a path. Strings are lists of bytes.
-- * Files.antt (serverframework/util/util.cc): trees of files that are listed and removed, and directories
--   that are made, over what the system calls return for a path; fuel bounds the depth of a tree.
-- * Prelude.antt holds tests, lists, splices and bits over the native numbers.
--
-- Numbers are natural numbers. `uint64_t` and `size_t` wrap where that is written: the times of the
-- timers, the count of pending events, the differences in `ByteArray`. Sums of a position and a
-- length in `ByteArray` do not wrap, since a buffer fits the memory, and `ceil` of its quotients of
-- doubles is exact below 2 ^ 53. The loops over a varint have the rounds that the code has (5 and
-- 10), those of `Stream` have a round for each byte asked for, the recursion over directories has fuel, and
-- what is proved of it asks for as much as the tree is deep; the waiting for a lock takes as many turns as
-- it takes, and Lock/Progress.antt has a number of rounds that is enough. All others go down a list or a
-- tree, so that none runs out of fuel. `bswap_16`, `bswap_32` and
-- `bswap_64` are a parameter of which only the documented reversal of the bytes is used, and it is
-- shown for a concrete function in ByteArray/Fixed/Host.antt.
--
-- Not modelled: threads, semaphores and processes of the system (serverframework/env/thread.cc, mutex.cc,
-- util/daemon.cc), the resolver, the `Tickle` of `Schedule` in a round
-- of `Idle`, and what is only passed on to the system. Outside Lock.antt an operation
-- under a lock is one step.
pub mod Prelude
pub mod Lock
pub mod ByteArray
pub mod Timer
pub mod IoManager
pub mod Fiber
pub mod Scheduler
pub mod FdManager
pub mod Hook
pub mod Socket
pub mod TcpServer
pub mod Stream
pub mod Address
pub mod Log
pub mod Config
pub mod Env
pub mod Url
pub mod Text
pub mod Files
