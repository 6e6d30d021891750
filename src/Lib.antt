-- ===== src/Lib.antt =====
-- A model of the core of Clarion: the C++ serialization library libraries/clio, the sessions of
-- libraries/net, and the base 58 text of libraries/clcrypto.
--
-- Parts, and the files that model them:
-- Prelude: names shared by all modules; Bits and Xor hold the laws of the bit operations.
-- Stream: libraries/clio/include/clio/stream.hpp. Outcome has the errors and the result of code that
--   may throw; Input and Check the two input streams, a window of bytes; Vector, Size and FixedBuf the
--   output streams, and Sink the laws that the serializers rely on, Leaves the readers that stay in
--   their window; Memory integers as they lie in memory (little endian, as on every platform the
--   program is built for); Pretty the indent.
-- Varint: varuint32_to_bin, varuint32_from_bin, varuint64_from_bin and the signed variants of
--   to_bin.hpp, from_bin.hpp, to_bin/varint.hpp and from_bin/varint.hpp.
-- Bin: the overloads of to_bin and from_bin. Types has the serializable C++ types as data, Write and
--   Read the overloads as clauses, Convert the two passes of convert_to_bin.
-- Key: to_key.hpp. Types has the C++ types and the order of their values, Write the overloads of
--   to_key, Encode the key that they write, Order the byte strings that compare as given; Convert the
--   two passes of convert_to_key.
-- Frac: fracpack.hpp. Types has the C++ types and what the templates ask of them, Memory the memory
--   that is packed into, Write and Size the packer and its size, Read and Check the unpacker and the
--   checker, Pointer frac_ptr. Encode says what the packed form is in the code, of which fracpack.md
--   gives another account in places: members in place and a heap behind them; Place and
--   Pieces say how a packer fills memory, Taken how a reader takes members out of it, Follow how a
--   reader goes where the checker went, Counted what the checker counts, Versions how a
--   struct and its extension read each other. Valid has the types and the values that the format
--   serves: nothing of no bytes, no optional in an optional, no alternative with offsets, and structs
--   that are either copied whole or kept on the heap.
-- Proto: to_protobuf.hpp and from_protobuf.hpp of libraries/clio/include/clio. Types has the C++ types
--   and their wire types, Write the writers, which are functions of the stream that they write to, Read
--   the readers. Encode says what the bytes of a value are and which values can be sent; Numbers has
--   its keys; Written compares the writers with it; Loops, Members, Fields and Objects follow the
--   readers through it; Unknown, Versions and Earlier compare two versions of a struct; Found and Safe
--   run the readers on any input. A varuint32 is a varint to the writer and, being reflected, a struct to
--   the reader, so it has its own place in Types and in the readers.
-- Compress: compress.hpp of libraries/clio/include/clio. Pack and Unpack have the two directions, Tags
--   the tag of a word, Words the inputs that can be compressed, Rounds, Packed and Zeros what the
--   rounds of the loops write; Safe runs the unpacker on any input.
-- Base58: libraries/clcrypto/base58.cpp. Convert has both conversions, Numbers and Steps the numbers
--   that their lists of digits stand for, Buffer the conversion into a buffer of the caller's.
-- Name: name.hpp, get_type_name.hpp and murmur.hpp of libraries/clio/include/clio. Strict and Lenient
--   have the readers, Print the printer, Murmur the hash of what is no name.
-- Net: libraries/net/websocket_session.cpp. Session has the handlers, which return the new state, and
--   none where Boost.Beast would be asked for a second write; Delivery the states they reach together;
--   Hub libraries/net/shared_state.cpp, which hands a message to all sessions.
--
-- How code is read: a byte is a number below 256; a w-bit word is a number with its wrap-around written
-- out; a stream's window is the list of its bytes; a signed integer is given by its bit pattern. A
-- method returns its new state, in a Result where it may throw. A size_t has 64 bits, and a size_t that
-- counts objects in memory does not wrap. `stuck` is no outcome of the program: fuel that ran out, bytes
-- that are copied from behind a stream's window, a write behind the object that it is to fill, or an
-- overload that does not compile. Exhausted memory (std::bad_alloc) is not modelled.
--
-- Fuel: the writer's do-while loop shifts seven bits out of a 32-bit value each round, so five rounds are
-- enough; the loop over the carry of a base 58 digit divides a byte by 58 each round, so three are. The
-- loops of the protobuf readers read a key each round, which has a byte at least, so as many rounds as the
-- stream has bytes are enough. The loop of capp_pack takes a word each round and has one round more for
-- the end, and that of capp_unpack takes a byte at least, so the length of the stream is enough for both.
--
-- Not modelled: std::set, std::map, std::deque, std::list, arrays T[N] of another type than arithmetic ones,
-- an input_stream as a value and a 32-bit size_t in the binary format; length, suffix and prefix
-- of a name; the views of fracpack, which a macro generates; the formats JSON and flatbuf; any.hpp, json.hpp,
-- query.hpp and schema.hpp of libraries/clio/include/clio/protobuf; the keys of libraries/clcrypto, which
-- call OpenSSL; the coroutines of libraries/clintrinsics; the HTTP server.
-- libraries/fc, libraries/appbase and external/rapidjson are copies of other projects' libraries.
-- Boost.Beast, which performs the reads and writes of a session, calls the handlers as its documentation
-- says: one completion for each write, and the handlers of a session one after the other.
pub mod Prelude
pub mod Stream
pub mod Varint
pub mod Bin
pub mod Base58
pub mod Compress
pub mod Frac
pub mod Key
pub mod Name
pub mod Net
pub mod Proto
