-- ===== src/Lib.antt =====
-- redisclient, a C++ client of the Redis server: the library below src/redisclient.
--
-- The parts and how they interact. A command is a list of buffers (RedisBuffer.h), which
-- `makeCommand` of RedisClientImpl.cpp turns into the bytes of a request. The bytes that come back go
-- through one incremental parser (RedisParser.cpp), which takes them in chunks of any size, keeps its
-- place in between and leaves a value (RedisValue.cpp) when a reply is complete. Two clients share
-- these parts and the state in RedisClientImpl.h. The synchronous one (RedisSyncClient.cpp,
-- PipeLine.cpp) writes a request, or several at once, and reads until as many replies are complete.
-- The asynchronous one (RedisAsyncClient.cpp) posts requests to a strand, queues them behind the
-- write that is under way, keeps the handlers of the replies in a queue and those of subscriptions in
-- a multimap, and reacts when a connection, a write or a read has ended.
--
-- The files.
--   Common: shared names, lists over native numbers, `Result` with its faults, integers, decimals.
--   Value: RedisValue.h and RedisValue.cpp; Value/Inspect, Value/Equality and Value/Access are about
--     `inspect`, `==`, and the tests, casts and checked accessors.
--   Parser: `parse` and the loop of `parseChunk`. Parser/Step has a function for each case of the
--     switch, Parser/Complete the block of a completed value with the stacks of arrays, Parser/Number
--     `bufferToLong`. Parser/Bytewise is a parser that gets one byte at a time; Parser/Frames has the
--     stacks as one list of open arrays; Parser/Kept is what the loop keeps, for any property of a
--     step, and Parser/Calls that for any calls; Parser/Flat and Parser/Nested are two such
--     properties.
--     The other files below Parser are about the equality with the loop, chunks and pieces, bounds, and
--     printed replies; Parser/Arrays is about the mark of an array, behind which none is read.
--   Buffer, Command: RedisBuffer.h, `bufferAppend` and `makeCommand`; Command/Decode is a reader of
--     requests that stands for the server.
--   Socket: `socketWriteImpl`, `socketWrite`, `socketReadSomeImpl` and `socketReadSome`.
--   Client: the connection state, error handlers and ThrowError.h; Client/Ends: how an operation ends.
--   Client/Sync: `syncReadResponse` and both `doSyncCommand`; Client/Sync/Safe: what holds of them
--     whatever the system answers; Client/SyncApi: RedisSyncClient.cpp and PipeLine.cpp;
--     Client/Connect: `connect` of RedisSyncClient.cpp; Client/SyncOptions: its timeouts and options.
--   Client/Async: the queues and `doProcessMessage`; Client/Async/Loops: `asyncWrite`, `asyncRead`,
--     `doAsyncCommand` and `handleAsyncConnect`; Client/Async/Subscriptions: `subscribe` and its kin;
--     Client/AsyncApi: RedisAsyncClient.cpp. Client/AsyncApi/Events has all that can happen to an
--     asynchronous client as one step each: a call of an operation, a task of the strand, the end of a
--     connection, a write or a read. Below Client/AsyncApi/Sound is what holds behind any number of
--     them, below Client/AsyncApi/States the abstract machine of the connection, and in
--     Client/AsyncApi/Ids the ids of subscriptions; Client/AsyncApi/Keeping is what operations leave
--     true of the state and the subscriptions, for any property of these.
--   Examples: the programs of examples/. Examples/Console is what they share, a client and the lines
--     that are written, and Examples/Serving a server that prints a reply to each request.
--     Examples/SyncPrograms has sync_set_get.cpp, sync_pipeline.cpp and sync_timeout.cpp, and
--     Examples/Benchmark sync_benchmark.cpp, with the text search of `printOPS`. Examples/PubSub has
--     the two clients of async_pubsub.cpp, which share no state but the object that holds them, and
--     Examples/AsyncSetGet async_set_get.cpp, with a server that is an argument and all orders of what
--     may happen.
--   Tests: runs on concrete input.
--
-- How the code is read. A byte is its value as an unsigned number. A `long int` has 64 bits and its
-- overflow is a fault, since it is undefined; `size_t` wraps around where the code adds to it for
-- good. An operation that fails an `assert`, throws out of `boost::get` or runs into undefined
-- behaviour ends in a fault (Common/Outcome). Whether `assert` is there is the argument `build`: the
-- default build type of CMakeLists.txt defines NDEBUG. An operation of a client is a function of its
-- state that returns, throws, ends in a fault or waits for the system (Client). What the system
-- answers to each call of `send`, `recv`, `poll` and the like is an argument, a list of attempts; a
-- call that fails is taken to set `errno` to a number above 0; where the list ends before the loop
-- does, the operation waits. The caller's handlers are an argument as well: a function that may
-- change the client in any way, as a handler may call every operation of it. So is the function that
-- the caller of either client installs for errors (`OnError`), which the model takes to be one; the
-- messages it gets are kept in the state too. What the caller's own code does besides is a list of
-- marks in the state of an asynchronous client: in Examples/PubSub the begin, the cancelling and the
-- end of a wait and the messages that are shown, in Examples/AsyncSetGet the lines that are written
-- and the call of `stop`. The loop of a program that never ends is as many rounds of it as one likes.
-- In Examples/Benchmark the clock is an argument of each round, and the exception of `stoul` one that
-- any failed command might be; it leaves the program all the same.
--
-- Fuel. The parser's loop reads a byte at least in each round, so that the length of the chunk is
-- enough, and the loops of the clients over a buffer get the length of the buffer. The outer loop of
-- `syncReadResponse` takes an attempt to read in each round but the first. How often the error
-- handler of the subscriber in Examples/PubSub may be called inside of itself is the room of the
-- stack, which is an argument.
--
-- The code does not compile as it stands: the model reads `result.crlf` in line 395 of
-- RedisClientImpl.cpp as `result, crlf`, the definition of `doSyncCommand` in line 500 as that of
-- `doAsyncCommand`, the type tests of RedisValue.h as those that `castTo` makes, and the two
-- definitions of `connect` in RedisAsyncClient.cpp, which have one signature, as two operations.
--
-- Not modelled: the tests, the build files, what boost::program_options makes of a command line,
-- debug output, memory that runs out, how long a timeout is, and the life times of the objects.
pub mod Common
pub mod Value
pub mod Parser
pub mod Buffer
pub mod Command
mod Tests
pub mod Socket
pub mod Client
pub mod Examples
