-- ===== src/Lib.antt =====
-- Verification of wind_breaker, an HTTP server in C.
--
-- The program. A listener thread polls the listening sockets and the connections (poll array). A
-- connection gets a slot of the session table; its bytes are read into the slot's buffer, and the
-- session then goes from stage to stage: parser, loader, response builder, sender. The workers of a
-- stage take a session out with `pop_request` and give it back with `push_request`, which sets the
-- status bit of the next stage and wakes its workers. A session that must be closed is removed from
-- the table and its descriptor is marked, for the listener to close it.
--
-- Which file models which part:
--   Session.Word    src/static.h (WORK_STATUS) and the status byte of a session; the byte is read as
--                   its eight flags, and Word.Laws relates them to the bit operations of the source
--   Session.Table   src/data_structures/session.c: the arrays and the taking and giving back of slots
--   Session.Push    push_request of the same file, with the entry of new connections
--   Session.Pop     pop_request and pop_request_by_fd of the same file
--   MarkedFds       src/data_structures/marked_fds.c
--   PollArray       src/data_structures/poll_array.c
--   Buffer          src/data_structures/buffer.c
--   Static          src/static.h and src/static.c: requests, responses, the files that may be served
--   StaticFile      src/utils/static_file.c: is_safe_path and find_static_file; StaticFile.Read,
--                   read_static_file
--   Request         src/http/request.c: the checks of a request; Request.Negotiation, the media types,
--                   languages and encodings that they admit; Request.Parse, its parser
--   Response        src/http/response.c: the header fields; Response.Print, to_string
--   Handlers        src/handlers/: handle_a, handle_b, handle_c and handle_d, with their loops and rounds
--                   from pop_request to push_request; Protocol, the statuses that follow a stage; Staged
--                   and Rounds, what a round keeps; Passing and Cycle, the way of a session through the
--                   workers; Stop, the end of the loops
--   Parser, Builder, Sender  src/handlers/parser.c, src/handlers/builder.c and
--                   src/handlers/sender.c: what one round does to the objects of its session
--   Loader          src/handlers/loader.c: one round; Loader.ErrorPage and Loader.Page, the error
--                   pages and the files as they stand; Loader.Load, the pages from the database;
--                   Loader.Replace, str_replace
--   Socket          src/socket.c: recv_bio and recv_ssl
--   Ssl             src/utils/ssl.c
--   Listener        src/listener.c: the loop of _listen and handle_request_async
--                   Listener.Port, get_listener_socket; Listener.Loop, listen_async; Socket.Calls,
--                   the other functions of src/socket.c
--   Workers         src/worker.c: the starting and the joining of the threads
--   Shutdown        src/shutdown/stop.c; Session.Pop.Shutdown, how the workers end
--   Startup         src/main.c: the statements of main, and handle_exit at each of them
--   System          the threads together, from the state that src/main.c makes: what a step of any
--                   of them does to the shared state, and which states are reached
--   Migration       src/utils/db_migration.c
--   Properties      src/properties.c: init_properties; Properties.Access, the other functions
--   Logger          src/utils/logger.c: the start, the messages, the remapping and the end; Text, the
--                   printing of a line; Line, what a line is; Keeps, Records and Series, messages one
--                   after the other; Start, whole runs
--   Hash            src/utils/hash.c
--   Compression     src/utils/compression.c
--   Prelude         what they share: Boolean tests, C arrays as lists, C strings, C integers, and
--                   code that may stop the process
--   Tests           every theorem below at a concrete input
--
-- How state is modelled. The static variables of a C file are a record that each operation takes and
-- returns. The operations of the session table run under its mutex, so each is one step; a wait on a
-- condition variable is an outcome of the step. The parallel arrays of session.c are one list of
-- slots, since the code permutes them together. What a worker writes into the objects of its session
-- goes by their addresses and is a step of its own, so the threads interleave at every call of the
-- shared operations. A failed assertion and an access outside an array are the result `none`. Numbers
-- are natural numbers, with the wrap-around of the source's type written out where a value can reach
-- it.
--
-- Bounds and fuel. The loops over the slots, the bits and the poll array run on the number of rounds
-- that the source gives them. The loop of `ensure_capacity_` doubles a capacity of 64 bits and runs on
-- fuel 64, since 64 doublings reach every capacity of 64 bits. A decimal number is printed with 20 digits,
-- which is enough for 64 bits.
-- The loop of `recv_bio` runs on fuel: one round more than there are reads that give bytes is enough.
-- A round of the listener runs on the list of what the kernel answers at each visit of a descriptor,
-- and ends when the descriptors or the answers do.
--
-- The log buffer has 4 MiB, as in the source. The log file is the bytes in front of the mapped window,
-- and the window itself. A temporary file of compression.c is its bytes and the position in it, which the
-- descriptor that zlib gets shares.
--
-- What is a parameter. Memory: which requests it grants and what fresh bytes hold. OpenSSL's
-- handshake, digest and socket results, zlib, SQLite, the clock, regexec, strtol, sscanf, atoi and
-- qsort, the contents of files and directories, realpath, stat and access, what poll, accept and
-- getsockopt answer, the calls that open, size and map the log file, the times and the formatted
-- messages of the log, and rand.
--
-- What is not modelled: the calls of the logger in the other files, the installing of signal handlers
-- and the freeing of memory at exit. They are calls of the operating system and of the libraries, or
-- have no part in what the theorems are about.
pub mod Prelude
pub mod Buffer
pub mod Static
pub mod MarkedFds
pub mod PollArray
pub mod Handlers
pub mod Session
pub mod Response
pub mod StaticFile
pub mod Request
pub mod Sender
pub mod Parser
pub mod Builder
pub mod Logger
pub mod Hash
pub mod Compression
pub mod Workers
pub mod Startup
pub mod Shutdown
pub mod Loader
pub mod Socket
pub mod Ssl
pub mod Listener
pub mod System
pub mod Migration
pub mod Properties
pub mod Tests
