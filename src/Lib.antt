-- ===== src/Lib.antt =====
-- A model of the confab programs of SCLOrkTools, the C++ code under src/common and src/confab: a chat
-- server, and a store of digital assets with its HTTP server and client.
--
-- The parts and the files that model them:
--
--   * Version (src/common/Version.cpp): version numbers. Version.antt has the class and its operators,
--     Version/Order.antt its order, Version/Text.antt its text.
--   * Chat (src/confab/ChatServer.cpp, ChatCommands.cpp.in, confab-server.cpp): the chat server.
--     Chat/Defs.antt has the server's state and the ring of its last 128 messages (`queueMessage`),
--     Chat/Handlers.antt the cases of `handleMessage`, composed in its order; a handler takes the
--     state to a state and a list of the calls of liblo that it makes (sent and freed messages).
--     Chat/Maps.antt is `std::unordered_map`. Chat/History.antt sets the ring against the list of
--     all messages ever queued, Chat/News.antt says what each message adds to it and
--     Chat/Growth.antt follows this through the handlers, Chat/Requests.antt through the answers to
--     `/chatGetMessages`, Chat/Overflow.antt after the greatest number; Chat/Clients.antt and
--     Chat/Tidy.antt are about the two maps. Chat/Service.antt has the liblo thread and `main` of
--     src/confab/confab-server.cpp, Chat/Serving.antt is about its run.
--   * Asset (src/confab/Asset.cpp): Asset/Types.antt, Asset/Strtoull.antt (what the program uses of
--     `strtoull` in base 16), Asset/Keys.antt (keys and ids as texts, `parseListIds`),
--     and Asset/Flat.antt (`flatten` and the copy from a FlatAsset, which is modelled by what
--     flatbuffers' accessors return). Asset/RoundTrip.antt is about keys and their texts,
--     Asset/ListIds.antt about lists of ids, Asset/Records.antt about records.
--   * Database (src/confab/AssetDatabase.cpp): Database/Interfaces.antt says what the code relies on
--     of leveldb, a sorted map with iterators over a snapshot and with atomic batches;
--     Database/Defs.antt has the operations of the class. Database/Sorted.antt and Database/Valid.antt
--     are about seeks, Database/Find.antt about `findAsset`, Database/Store.antt and
--     Database/Chunks.antt about what is stored. Lists: Database/Prefixes.antt and
--     Database/Ranges.antt are about keys, Database/Items.antt about the entries that a seek leaves,
--     Database/Pages.antt about `getListNext`, Database/Keyed.antt and Database/Listing.antt about
--     what is put on lists, Database/Beginning.antt about reading it back. Database/Memory.antt is a
--     database in memory that has all the laws of the interface, for the examples.
--   * Http (src/confab/HttpEndpoint.cpp, HttpClient.cpp): Http/Interfaces.antt has the requests and
--     answers, and base64, flatbuffers' verifier and builder, xxHash and the network as parameters;
--     Http/Endpoint.antt the request handlers, which call the database, Http/Client.antt the client's
--     requests, and Http/File.antt the upload of a file. Http/Served.antt is about what is answered after a
--     post, Http/Pieces.antt and Http/Upload.antt about the upload.
--   * Cache (src/confab/CacheManager.cpp): the files that have been downloaded. Cache/Disk.antt
--     has the paths and files of the disk, Cache/TimeQueue.antt the priority queue, Cache/Defs.antt
--     the state of the class and `makeRoomFor`, `checkCache` and `checkExistingEntries`,
--     Cache/Download.antt `download`, which asks the client for the chunks. Cache/Tracked.antt says
--     when the queue and the size agree with the files; Cache/Queues.antt, Cache/Room.antt,
--     Cache/Latest.antt, Cache/Validate.antt, Cache/Scan.antt, Cache/Entries.antt, Cache/Start.antt,
--     Cache/Kept.antt, Cache/Lookup.antt and Cache/Steps.antt are about the operations, alone and in
--     sequence.
--   * Osc (src/confab/OscHandler.cpp): the messages of SuperCollider. Osc/Messages.antt reads the
--     arguments of a message (`ProcessMessage`); Osc/Handlers.antt, Osc/Loading.antt and
--     Osc/Tasks.antt have the tasks, which call the database, the client and the cache, and send
--     packets. Osc/Spelled.antt is about messages, Osc/Replies.antt, Osc/Answers.antt and
--     Osc/Sequence.antt about what is sent, Osc/Cached.antt and Osc/Reloaded.antt about assets and
--     files that are asked for again.
--   * Wire: the client, the server, its database and the cache together. Wire/Chunks.antt has the server
--     as the client's network, and what its database holds after an upload; Wire/Transfer.antt is about
--     the download of chunks, Wire/Files.antt about whole files.
--   * Startup (src/confab/ConfabCommon.cpp, `open` and `close` of AssetDatabase.cpp): Startup.antt has
--     the start and the end of a program, Startup/Sentinel.antt is about the file that keeps a second
--     one out. Config.antt (src/confab/Config.cpp) is the record of the program's version.
--   * Program (src/confab/confab.cpp): Program.antt has `main`, which composes the start, the scan of
--     the cache, the messages and the end; Program/Sessions.antt is about sessions on a machine.
--
-- Prelude.antt has the shared types, tests, integers, list functions and lemmas, Dict.antt maps with
-- one value to a key, Samples.antt small libraries and servers. The files named Tests run the model on
-- concrete inputs.
--
-- Integers and bounds: the serial numbers of the chat server are natural numbers, where the program
-- has an `int`, which is right up to 2^31 - 1 messages; what a client sends is any integer, and the
-- sums and differences with it are cut to 32 bits (`to_int`), as a compiler does that lets them
-- wrap around. Keys have 64 bits where a theorem says so. `steady_clock` counts nanoseconds.
-- Numbers are laid out as a little-endian machine does.
--
-- Loops: the loop of `parseListIds` has as many rounds as the text has bytes, each of which it passes
-- at least once; the loops over a file have one round more than the file has bytes. The loop of
-- `findAsset` has rounds for an argument, since it need not end; `running` is out of rounds. An access
-- outside of a buffer or through a null pointer is a result of its own (`none`, `wild`, `fault`,
-- `undefined`). The loop of `makeRoomFor` has rounds for an argument, of which two to an entry and one
-- more are enough; the download has one round to a chunk, whose number the program counts in an `int`.
--
-- Not modelled: the set-up of liblo, leveldb, Pistache and oscpack and their threads (two handlers
-- never run at once here); logging, the parsing of flags, and signals; a file that changes while it
-- is uploaded or validated, a disk that is full, and directories that cannot be read. A packet of
-- oscpack is its address and values, and `packet_size` the bytes it takes. An exception of a
-- callback ends the task. A promise that is rejected ends the program (`std::terminate`), as an
-- outcome beside those that are undefined. An answer to a post is the whole state of the database
-- at once, so that a failure in the middle of leveldb's write is its own answer, false, and changes
-- nothing.
pub mod Prelude
pub mod Dict
pub mod Version
pub mod Chat
pub mod Asset
pub mod Database
pub mod Http
pub mod Samples
pub mod Cache
pub mod Osc
pub mod Wire
pub mod Startup
pub mod Config
pub mod Program
