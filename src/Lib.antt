-- ===== src/Lib.antt =====
-- hlib, a C++ library of building blocks for event-driven Linux programs: what of it is modelled,
-- and what the theorems show. Paths are from the root of the repository.
--
-- The parts. Bytes are kept in a `Buffer` (src/hlib_buffer.cpp), which grows over `::realloc`. A
-- `Sink` (src/hlib_sink.cpp) is an interface to which bytes are written, here to a buffer, and a
-- `Source` (src/hlib_source.cpp) one from which they are read. The classes `Serializer` and
-- `Deserializer` (include/hlib/serial.hpp) write scalars to a sink and read them from a source, in
-- one of two byte orders. The functions on texts (src/hlib_string.cpp) read numbers, take texts
-- apart, and encode bytes as base64 text in a buffer. `uri_parse` (src/hlib_uri.cpp) takes a URI
-- apart, and reads its port with those functions; `to_string` prints it with those of
-- src/hlib_format.cpp, which socket addresses (src/hlib_sock_addr.cpp) and times
-- (src/hlib_time.cpp) use too. An `EventBus` (src/hlib_event_bus.cpp) pushes the callbacks of its
-- subscriptions on event queues (src/hlib_event_queue.cpp), which the event loop runs.
--
-- Which file models which part.
--  Base       what all parts share: Boolean tests, sequences and how they are cut, bit fields that
--             do not overlap, signed integers, exceptions, and `std::string::find`.
--  Buffer     `class Buffer`, function by function. Buffer holds the state and `realloc`, Capacity
--             `reserve`, `extend`, `resize`, `shrink`, `reset` and `clear`, Edit `insert`, `append`,
--             `assign` and `erase`, Transfer the constructors, the moves, the accesses, `copy` and
--             `extract`, and Pooled `BufferAllocator`. A suffix tells the overloads apart: `insert`
--             throws, and `insert_nothrow` is the form with `std::nothrow`. The other files below
--             Buffer are proofs.
--  Serial     the specialisations of `transform`: `write_int16` and `read_int16` of Serial/Be are
--             those of namespace be for std::int16_t, and so on. Serial/Codec is the interface that
--             a byte order offers to the streams.
--  Stream     `Sink`, `Source`, and the classes over them in Stream/Serializer and
--             Stream/Deserializer.
--  Strings    Numeral is what the C library does in `strtol` and `strtoul`, Integers the functions
--             `stob` to `stof64`, Parts those that search, trim, split, fill, join and replace, and
--             Base64 the encoding.
--             Strings/Dispatch has the templates `string_to` of include/hlib/string.hpp.
--  Format     the numbers that `format` and `format_to` are asked to print.
--  Uri        `uri_parse`, the table of default ports and the functions on targets, in
--             Uri/Escaping the percent encoding, and in Uri/Printing `to_string` and its like.
--  Result     the template `Result` (include/hlib/result.hpp) with `class Error`.
--  Container  the functions of include/hlib/container.hpp.
--  SockAddr   `class SockAddr` (src/hlib_sock_addr.cpp).
--  Fsm        the template `FSM` (include/hlib/fsm.hpp), which stands alone. Fsm/Running has the
--             step relation that it is compared with.
--  EventQueue `class EventQueue` (src/hlib_event_queue.cpp), over a timer that is set or not.
--  EventBus   `class EventBus` (src/hlib_event_bus.cpp), over those event queues. EventBus/Map is what
--             it uses of std::unordered_map.
--  Latch      `class Latch` (src/hlib_latch.cpp), with the steps of the threads that use it.
--  File       the reads and writes of descriptors and C streams, and the types by extension
--             (src/hlib_file.cpp). File/Storing and File/Collecting are about reads into a buffer.
--  EventLoop  `class EventLoop` (src/hlib_event_loop.cpp), over the calls of epoll in EventLoop/Kernel.
--             What other threads do to a loop between a wait and the lock is an argument.
--  DescriptorIo `class FileDescriptorIO` (src/hlib_fdio.cpp), which that loop tells of events, over the
--             sinks and sources of Stream. DescriptorIo/Handling has `onEvent`; its locked parts are
--             in the parent.
--  Time       `Duration` and `Clock` (src/hlib_time.cpp): their operators in Time/Duration and
--             Time/Clock, their texts in Time/Printing, and `to_clock` in Time/Parsing.
--
-- How the code is rendered. A block of memory is the list of its bytes and a pointer into it an
-- offset; a null pointer is `none`. A function that can fail an assertion, leave its block, or throw
-- out of a function marked noexcept returns an Option, and `none` is that fault. A function that can
-- throw returns a `Return`. A std::size_t is a number whose additions wrap at 2^64. What `::realloc`
-- grants, and what fresh memory holds, are up to an argument of type `Allocator`. A std::string is
-- the list of its bytes, and the locale is "C". A long has 64 bits. The base of a conversion is not
-- negative. `strtof` and `strtod` are an argument, and so are the functions of the system that take
-- times apart and put them together, those that convert internet addresses, and those that read and
-- write files, which act on a world of any type. The seconds of a time are integers, and the theorem
-- on sums shows when they stay in 64 bits.
--
-- Fuel. Some loops do not run down a list. The loop of `dispatch` in EventLoop and `flush` beside
-- it run as long as the system has events or bytes. Their fuel is any number of rounds, and a loop
-- that is interrupted needs one more than its rounds with the one that reports the interrupt.
-- The loop of reads in File takes the number of reads; a file of one batch needs two. The others:
-- `count` of Strings/Parts and `skip_text` of Stream/Deserializer take the number of rounds as
-- fuel. One round more than the length of the text is enough, which the theorems on them show, but
-- for `count` of an empty pattern.
--
-- What is not modelled. The overloads that only forward to another, the adapters of sinks and
-- sources for containers other than the buffer, `memory_copy`, and the join with a formatter.
-- Times are not multiplied or divided by a double, and not made from one or from a ratio. The
-- timer, the pool and the arithmetic of ratios are not modelled either, nor are the members of a
-- socket address's union apart from family, address, port and path. Of files, the forms for a
-- std::istream and a std::ostream, permissions, `File`, `Pipe` and the guess of a type from the
-- contents are left out. A descriptor is opened from another descriptor only, and its sources are
-- not shared with the caller. Sockets, processes, signals and resource usage are calls of the
-- operating system, and the test framework is no part of the library.
pub mod Base
pub mod Buffer
pub mod Serial
pub mod Stream
pub mod Strings
pub mod Format
pub mod Uri
pub mod Result
pub mod Container
pub mod SockAddr
pub mod File
pub mod Fsm
pub mod EventQueue
pub mod DescriptorIo
pub mod EventLoop
pub mod EventBus
pub mod Latch
pub mod Time
