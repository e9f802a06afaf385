-- ===== src/Lib.antt =====
-- gmmff sends files and messages between two or more machines. A signaling server (cmd/gmmff,
-- `serve`) pairs them in slots: an initiator creates a slot and gets a code, peers join it by that
-- code, and the server relays their handshakes until they talk over WebRTC data channels, where
-- the transfer protocol runs.
--
-- The files:
-- - Prelude: numbers, lists, bytes, maps, and the tests on them. Go strings and byte slices are
--   lists of bytes, maps are association lists, `int` values that a client chooses are ℤ.
-- - Slot: internal/slot/slot.go. A record `Slot`, and a function for each method (Join is `join`,
--   RemovePeer is `remove_peer`); a method that changes its receiver returns the new record. Times
--   are numbers of nanoseconds, and the present is an argument. Slot/Membership is about who is in
--   a slot, Slot/Invariant about its lifecycle, Slot/Admission about whom Join admits.
-- - Store: internal/store/store.go. The record `SlotStore` is the interface of that name with the
--   laws that the broker relies on; Store/Mem is MemStore and Store/Redis the type Store, each
--   with its instance (`mem_store`, `redis_store`). The Redis client and the JSON codec are
--   parameters with their documented behaviour, and no other client writes to the database.
--   Store/MemCodes and Store/MemIndex are about the two maps of MemStore.
-- - Protocol: pkg/protocol/protocol.go, the messages. Payloads of a client stay bytes until a
--   `Decoder`, which stands for json.Unmarshal, is applied.
-- - Broker: internal/broker/broker.go, over any `SlotStore`. A handler takes the hub and returns
--   the next one, or `none` for a panic. Broker/Hub has the state and the sending of messages (a
--   queue holds them as they are before json.Marshal, which compacts a payload and escapes some
--   of its characters), Broker/Create, Join, Leave and Relay the handlers of these names, and
--   Broker/Run handleMessage and the event loop. The three channels of Run, which `select` reads
--   in no fixed order, are a list of events in the order in which they are read. Not modelled:
--   the WebSocket pumps.
-- - Codes: internal/crypto/codegen.go and internal/signaling/code.go: the word list, the
--   generation and validation of codes, and their split into what the server sees and what it does
--   not. A random number is an argument, `none` where the system has none.
-- - Transfer: internal/transfer/transfer.go. Transfer/Frames has the wire format, Transfer/Names
--   the names of received files, Transfer/Receive the in-memory receiver ReceiveStateMem, and
--   Transfer/Window the send loop of runFromReader: a list of events is what the loop meets at
--   each turn, an acknowledgement, a read or a cancellation. SHA-256, the JSON codec and the
--   functions of the package strings on Unicode text are parameters. The hash that is running is
--   the bytes that went into it. Transfer/Folder is the part of the package os that the receiver on
--   disk uses, a parameter: what a directory holds under each name, and calls that may fail, with
--   their documented behaviour. Transfer/Partial is that receiver, ReceiveState, with its partial
--   file, its sidecar file and the search for a free name; it returns the next state of the
--   directory, what Feed returns, and what was passed to sendAck and sendResume. Of its children,
--   Keeps is about the files that it leaves alone, Going and Saved about what it has on disk,
--   Working, Resume and InMemory about a directory in which no call fails; Saving is the owner
--   that feeds it, and Directory such a directory as a list of files.
-- - Schedule: internal/schedule/store.go, handler.go, config.go and cleanup.go. Schedule/Disk is
--   the part of the package os that the store uses, a parameter: a record of a state and calls
--   that may fail, with their documented behaviour. A file is named by its directory, pending or
--   complete, an identifier, and one of two names. Schedule/Meta has the sidecars, with the JSON
--   codec as a parameter, and Schedule/Store a function for each method (OpenDownload is
--   `open_download`), which returns the next state with a result; of the errors, the kinds that a
--   caller tells apart. An operation runs without interference from another one. Files, Budget,
--   Keeps, History and Limit are about the download counter, Uploads, Finish and Download about a
--   whole upload, Ids and Guards about what is refused, and Begun about what a first request
--   leaves. Schedule/Config has the limits and the address of a client, over the package net as a
--   parameter; Schedule/Handler and Requests have a function for each HTTP handler, which takes
--   the decoded request (`none` where decoding fails) and returns an answer or a status. Access,
--   Bounds, Chunks and Bodies are about these. Schedule/Cron parses the fields of a cron
--   expression, and Sorting is about it. Memory, Fields and Addresses are a file system, a codec
--   and a network for the tests.
-- - Schedule/Client: internal/schedule/client.go. AES-GCM, SHA-256 and encoding/hex are the record
--   `Crypto`, a parameter with their documented behaviour. Upload talks to a `Remote`, a record of
--   the requests and their answers, with the three random values as arguments; Download takes the
--   answer to its request, and what it wrote is the result. Reading is io.ReadFull. Whole and
--   Sending are about the two loops, Served has the handlers as a `Remote`, Answered is about a
--   download of what was sent, Delivered about client and server together, and Authentic about a
--   server that does not keep to the rules; Toy is a `Crypto` for the tests.
-- - Turn: internal/turn/turn.go, a function for each function of the file; the packages strings and
--   net/url, and HMAC, are parameters. Turn/Accepted is about what passes.
-- - Pake: internal/pake/session.go, a function for each method of Session; HMAC-SHA256, HKDF and
--   base64 are parameters. Pake/Agreement is about two peers.
-- - Chat: internal/chat/session.go. A list of events is what the select of RunCLI takes at each turn,
--   with the frames that arrive in between; the callbacks leave what they were called with in a list.
--   Chat/Exchange is about what the two sides see of each other.
--
-- Bounds: the sequence numbers of the send loop wrap at 2 ^ 64, and its theorem asks for fewer
-- events than there are numbers left. createSlot makes 5 attempts (`max_code_attempts`), and the
-- recursion counts them down. The search of uniquePath runs on fuel, which is enough if it is more
-- than the names that are taken. The loop of Upload runs on a fuel of one more than the bytes of
-- the file, which is enough as every round but the last takes a byte. The loop of sanitiseName
-- runs on a fuel of the length of the name, which is enough as every round shortens it. The loop
-- over the values of a cron field runs on a fuel of 256; a field has at most 60 values. All other
-- loops run over lists. Counts of peers and sizes of files stay far below the range of Go's `int`,
-- and are not wrapped.
--
-- Not modelled: what is I/O or library calls (HTTP and WebSocket wiring, WebRTC, terminal and
-- browser front ends), the single requests of the client, the calendar and the environment of
-- internal/schedule, and internal/archive.
pub mod Prelude
pub mod Slot
pub mod Store
pub mod Protocol
pub mod Broker
pub mod Codes
pub mod Transfer
pub mod Schedule
pub mod Turn
pub mod Pake
pub mod Chat
