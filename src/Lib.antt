-- ===== src/Lib.antt =====
-- A Kafka broker in C++ that speaks four APIs: ApiVersions, DescribeTopicPartitions, Fetch and
-- Produce. At its start the broker reads the metadata log into a cache. Then, for each client, a
-- session reads a frame, parses it into a request, sends the request through the middlewares to the
-- controller, and writes the response back as a frame. The controller looks topics up in the cache
-- and reads and appends the log files of partitions.
--
-- The files, and what they model:
-- - Common: machine words (Word), lists (Lists), Boolean tests (Tests), bit operations (Bits), texts
--   (Text), and the results of code that can fail (Results): a value, an exception, undefined
--   behaviour, or no end within the fuel. Returns has the rules for what holds of a result.
-- - Core/Reader and its children: src/core/reader.cpp, reader.hpp and primitive_deserializers.hpp. A
--   reader is a function of the span and the offset. Core/Writer: src/core/writer.cpp, writer.hpp and
--   primitive_serializers.hpp, as functions of the buffer. Core/Wire is the wire format, stated without
--   the program; Core/RoundTrip, Core/ZigZag and Core/Bounds hold theorems about both.
-- - Core/Hexdump: src/core/hexdump.cpp and hexdump.hpp, as the bytes that go to the stream. Its child
--   Terminal is a terminal that counts columns, stated without the program; Widths, Columns, Box
--   and Layout are about what it shows of the parts, the lines and the whole of a dump.
-- - Metadata/Topic: src/metadata/dto/topic.hpp. Metadata/Cache: src/metadata/cache.hpp, its maps as
--   association lists. Metadata/Parser: src/metadata/parser.cpp; its Records and Batches describe a
--   metadata log as a row of batches of records, and Stuck is about a batch length of -12, as the
--   Stuck of Storage/LogParser is.
-- - Storage/LogFiles: src/storage/disk_reader.cpp and log_writer.cpp. Storage/LogParser:
--   src/storage/log_parser.cpp; its Batches and Extract describe a log as a row of batches,
--   and Ends is about any bytes.
--   LogFiles/Append and Paths are about logs over a file system without failures, and their paths.
-- - Api/Registry: src/api/registry.cpp. Api/Dto/ApiVersions, Describe, Fetch, Produce, Request and
--   Response: the files of these names in src/api/dto. The children Decode give the layout of what is
--   read, and Encode and Frame that of what is written; Request/Fields is about whatever bytes
--   come in.
-- - Api/Handler: src/api/types.hpp. Api/Controller: src/api/controller.cpp, with a child for each of
--   three handlers, one, Visible, for a Produce and a Fetch behind it, one, Unwritten, for logs that
--   cannot be written, and one, Ends, for a Fetch of any bytes. Api/Middleware and
--   Api/Router: src/api/middleware.cpp and router.cpp, with the pipeline that src/main.cpp builds; the
--   children of Api/Router follow the pipeline (Pipeline), its answers (Safety, Answers), and the files
--   under it (Moves, Extends). Api/ClientSession:
--   src/api/client_session.cpp; Rounds is about any handler, and Offers, Asks and EndToEnd about the
--   pipeline behind the socket.
-- - Api/Program: the handlers and middlewares once more, cut at each access to what threads share, the
--   files and the console, with a child for src/api/controller.cpp (Controller) and for the pipeline
--   (Pipeline). Runs and Refines compare them with the handlers as functions of the whole world;
--   Ensures and Rules are a logic of rely and guarantee, Answers says what an answer has to be while
--   other threads write, and Fetch, Produce and Safety are about the programs in that logic.
-- - Broker: src/main.cpp. What it does before its loop is a function; the loop is a step relation: a
--   client is accepted, an accept fails, or the session of one client makes a round. Starts is about
--   the way into the loop, Later about all reachable states. Broker/Threads: the same loop where a step
--   is one access of one thread; its children Steps, Keeps and Invariant are about all reachable
--   states, and Arrives, Middle and Rounds about a thread that goes on alone, and whole rounds.
-- - Tests: the theorems at concrete inputs, and runs.
--
-- An integer of w bits is its bit pattern, a natural number; `signed` gives the integer that a pattern
-- stands for. A field of a fixed width wraps where the source's type does. The host is little-endian,
-- as `std::byteswap` in the program supposes. A read outside the span that the source does not test
-- for is `undefined`.
--
-- The file system (Storage/FileSystem) and the socket (Api/ClientSession) are no part of the program:
-- they are parameters, a state with its operations. A theorem that needs more of the file system says
-- so by a hypothesis, `IsReliable`: directories can be made, and an append goes behind what is there.
--
-- Loops over a list or a count are structural, and `write_unsigned_varint` recurses on the order of
-- the numbers. Four loops run on fuel. `extract_records_from_offset` has 2 * n + 3 rounds for a log of
-- n bytes, and a round that goes on to a later place takes one byte at least, so only a round that does
-- not go forward, with a batch length of -12 or less, can use them up.
-- `parse_batches` has one round more than there are bytes: a round that does not come back to an offset
-- takes a new one. A session has the fuel that it is given, one round for each request and one for
-- the end of the connection. The rows of a hex dump have one round for each byte and one for the end.
--
-- src/main.cpp gives each client a detached thread, and the threads share the files and the console. In
-- Broker/Threads they interleave between any two accesses. The opening and reading of a file is one
-- access, as is the opening and writing of one, and the printing of a line or of a dump; a thread's
-- socket and its memory are its own. The first thread says that it waits, and then
-- the acceptor may bring any client or fail.
--
-- Not modelled: a file that opens and whose size cannot be had, for which the vector of
-- src/storage/disk_reader.cpp throws; what a reader sees of a file while the operating system carries a write out, and dumps
-- of two threads mixed line by line; the opening of the port; the colours and durations of the log,
-- which has a dump as its title and bytes; the texts of errors and the addresses of clients; stack
-- traces; what a stream holds of a text whose writing was ended by an exception; and a failure to
-- allocate memory.
pub mod Common
pub mod Core
pub mod Metadata
pub mod Storage
pub mod Api
pub mod Broker
pub mod Tests
