-- ===== src/Lib.antt =====
-- A verification library for this multi-threaded variant of the lighttpd web server (src/ of the
-- repository, in C).
--
-- The parts, and how they meet. Every part keeps its text in growing byte strings, `buffer`
-- (src/buffer.c). Headers, environment variables and configuration stand in `array`s (src/array.c),
-- lists of entries with a sorted index, whose keys are compared by `buffer_caseless_compare`. The
-- main loop of src/server.c runs connections again through two queues (src/joblist.c). The cache of
-- file attributes keeps its entries in splay trees (src/splaytree.c). What is sent and received
-- stands in queues of chunks (src/chunk.c), and src/etag.c compares the tags of conditional
-- requests.
--
-- Which file models what:
-- - Base and its children: lists, tests, signed integers, `Outcome` (a result, a failed
--   `force_assert`, or an access outside the memory of the program), and memory as lists of bytes.
-- - Buffer: `buffer` and its routines in src/buffer.c and src/buffer.h. Each function has the name
--   of the C function; it takes the buffer's state and returns the new one in an `Outcome`.
--   Buffer/Holds has the abstract view, the string that a buffer holds; Buffer/Append and
--   Buffer/Whole prove copying and appending against it. Buffer/Compare is the order of keys,
--   Buffer/Decimal and Buffer/Hex are digits, Buffer/Encode the encodings and escapes with their
--   two passes, Buffer/Url URL decoding, on strings (Buffer/Url/Decode) and in place, Buffer/Equal
--   the tests of equality, Buffer/Number numbers in buffers (Buffer/Decimal/Value,
--   Buffer/Number/Integer and Buffer/Number/Hexadecimal prove what they are), Buffer/Edit changes
--   in place and CGI names, Buffer/Path `buffer_path_simplify`.
-- - Base64: src/base64.c, with the tables as functions. Base64/Digits has the text of RFC 4648,
--   Base64/Groups and Base64/Decode compare the decoder with it, Base64/Tuples and Base64/Encode
--   the encoder, and Base64/RoundTrip has the round trip.
-- - Splaytree: src/splaytree.c. A key is an `int` that is not negative, so that the difference of two
--   keys fits in an `int`: the only callers, in src/stat_cache.c, strip the highest bit of the hash
--   that they take for a key. Splaytree/Contents has the entries and the sizes, Splaytree/Rounds
--   a round of the loop, Splaytree/Splay the whole splay; Splaytree/Order is the order of keys,
--   Splaytree/Search the search that the loop does, Splaytree/Insert and Splaytree/Delete insertion
--   and deletion.
-- - Array: `array` and `data_unset` in src/array.c and src/array.h. Array/Search proves the binary
--   search, Array/Lookup and Array/Insert the operations on it once the key is there, Array/Keyed the
--   insertion with the key that is made up, Array/Map the view as a map.
-- - Chunk: src/chunk.c, queues of octets in memory and in files. Chunk/Contents has the octets that
--   a queue holds and its invariant, Chunk/Unused the cache of unused chunks; Chunk/Append,
--   Chunk/Join, Chunk/Steal, Chunk/Written and Chunk/Clean prove the operations against them.
--   Chunk/Memory models the memory to read into at the end of a queue, Chunk/Tempfile the temporary
--   files that octets are appended to, and Chunk/Tempfile/Steal what moves to another queue by way
--   of them, with the opening of files, of which Chunk/Tempfile/Steal/Open is about the range.
-- - HttpChunk: src/http_chunk.c, what it needs of a connection as a record. HttpChunk/Decode is a
--   reader of the chunked coding that owes nothing to the code; HttpChunk/Length is about the line
--   with a length, HttpChunk/Append about one call, HttpChunk/Ranges about ranges of files, and
--   HttpChunk/Whole about a whole body, which a caller makes by the calls of src/http_chunk.c, as
--   long as the data is kept in memory or stands in the files of the caller.
-- - Etag: src/etag.c. Etag/Matching compares one listed tag, Etag/Listed a list of tags, and
--   Etag/Search proves what is found and what is missed.
-- - Connections: the part of `connection_handle_read_state` in src/connections.c that searches the
--   chunks of the read queue for the end of a request header and copies the header.
--   Connections/Header has the search on joined bytes, Connections/Search and Connections/Chunks
--   compare it with the code's, Connections/Places, Connections/Take and Connections/Read are about
--   the copy. Connections/Handle is `connection_handle_handle_request_state` with the error
--   handlers of the configuration; the calls of the response and of the plugins are a record of
--   functions. Connections/Details has what a connection knows of a request and of its response, and
--   how the resets of src/connections.c and src/connections-glue.c clear it, with `array_reset` and
--   the reset of a string entry of src/data_string.c in Array/Reset; Connections/Details/Clean is
--   about what they leave. (The authority, path and query of the URI are not cleared by the source,
--   nor are they in the model.) Connections/Cycle has the states between two requests. Connections/Io has the states that read, write
--   and linger, with `connection_write_chunkqueue` of src/connections-glue.c; Connections/Machine
--   is the table of the states with the loop that calls them, Connections/Machine/Moves says which
--   state may follow which. What each part does to the state is in the modules named State.
-- - Keyvalue: the tables of src/keyvalue.c and the searches in them.
-- - Joblist: src/joblist.c, both queues and the mutex that they share, for one thread.
-- - Tests: runs, and the theorems at concrete inputs.
--
-- Numbers. `size_t` has 64 bits and its wrap-around is written out; a byte is a number below 256.
-- `off_t` is a number that is not negative and does not wrap: sums of octets are far below 2^63.
-- Fuel: the binary search has one round for each entry and one more, the loops of URL decoding have
-- one for each byte of the buffer, the loop of a splay has one for each node, and all are proved to
-- return; `buffer_path_simplify` has one round for each byte, too. The loop of `joblist_call` has
-- one for each queued connection and one more, and is proved to return what the connections do. The
-- loop that writes to temporary files, the one that writes a response and the one that calls the
-- states of a connection have the rounds that their caller gives, and say when they have not ended:
-- how many they need depends on the file system, on the plugins and on the network.
--
-- Parameters. The file system under the temporary files of src/chunk.c is a `FileSystem`, whose
-- calls may answer anything; what src/stat_cache.c says of a file that src/http_chunk.c opens is an
-- argument. The C library's `malloc` and `realloc`, where they succeed, are an `Allocator`: what
-- new memory holds is left open. (Where they fail, `force_assert` ends the process.) The mutex of
-- pthread is a `Pthread`, of which it is assumed that a thread that locks a mutex which it holds
-- does not return. `joblist_call` and `fdwaitqueue_call` take the connection state machine of
-- src/connections.c as a parameter. The handling of a request takes the calls of src/response.c and
-- of the plugins as parameters, with what they leave alone as hypotheses; so do reading and writing
-- with the network and the times of a connection. The library of state machines, which src/ does
-- not have, calls the handler that the table has for the state that was set.
--
-- Not modelled: freeing (it leaves no state behind), NULL buffers where the source does not test
-- for them, `buffer_append_strftime`, the flyweight and prototype libraries that the source calls,
-- printing, the preparation of a response and the handler of events in src/connections.c, the
-- events that it registers, closing, unlinking and unmapping of files, the substitution of patterns
-- in src/keyvalue.c, and the parts of the server that no file above names.
pub mod Base
pub mod Buffer
pub mod Array
pub mod Joblist
pub mod Base64
pub mod Chunk
pub mod Connections
pub mod Etag
pub mod HttpChunk
pub mod Keyvalue
pub mod Splaytree
pub mod Tests
