-- ===== src/Lib.antt =====
-- A verification library of P2P Chat, a peer-to-peer chat program over ZeroMQ.
--
-- The program. A message (Include/Message.hpp, Source/Message.cpp) has a type, a payload and a
-- timestamp, and travels as one frame. The peer manager (Include/PeerManager.hpp,
-- Source/PeerManager.cpp) holds the peers by id and the local peer, and writes them to a file and
-- reads them again. The network manager (Include/Network.hpp, Source/Network.cpp) listens on a router
-- socket, opens a dealer socket for each peer that it connects to, receives frames in two threads, and
-- stores the peers that handshakes introduce in the peer manager. The command line
-- (Include/CliInterface.hpp, Source/CliInterface.cpp) gives the network manager two handlers, which
-- write to the peer manager and to the queue of lines to display, and runs the commands that are typed
-- on the two managers. The crypto manager (Include/Crypto.hpp, Source/Crypto.cpp) makes keys, IDs,
-- signatures and secrets over OpenSSL. The main program (Source/Main.cpp) makes the parts, gives the
-- local peer a key and an ID, loads the peers, and starts and stops the network and the command line.
-- Source/Network_coroutines_wip.cpp is an unfinished second network manager over Boost.Asio, which
-- CMakeLists.txt does not build: a coroutine for each connection reads messages from a stream, and
-- handshakes put their session in a map under the peer's id.
--
-- The files.
--   Message        Words: big-endian words and the clock's time points. Wire: `Serialize` and
--                  `Deserialize`. Payloads: the factories `Create...`. RoundTrip, Canonical, Bounds,
--                  PeerLists: proofs.
--   PeerManager    Defs: the peers and the methods. File: `SavePeersToFile` and `LoadPeersFromFile`.
--                  Lookup, Histories, SavedLine, Loading, Reload: proofs.
--   Network        State: what `NetworkManager::Impl` holds. Sockets: ZeroMQ's calls, ownership and
--                  the mutex. Sending: `SendToPeer`, `SendViaRouter`, `BroadcastMessage`,
--                  `GetConnectedPeers`. Lifecycle: `Start`, `Stop`, `ConnectToPeer`,
--                  `DisconnectPeer`. Handshake, Receiving: `HandleMessage`, `RouteMessages`,
--                  `PollMessages`. RouterThread: the thread of `RouteMessages` beside `Stop`, turn by
--                  turn. The other modules are proofs: StopRace about these turns, Connecting,
--                  Running, Broadcasting, Introductions, Senders, Meetings, Safety and Rounds about
--                  single operations, Reachable about all sequences of calls, with Clean,
--                  CleanRounds, Held, HeldCalls and HeldRounds for its invariant.
--   Cli            Words: `ParseCommand`. Display: the queue, the lines, the two handlers. Commands:
--                  `RegisterCommands`, `ProcessCommand`, the `Handle...` methods and the loop of
--                  `Run`. DisplayThread: `startDisplayThread`, `queueDisplay` and `Stop`, turn by
--                  turn. Splitting, Queue, Resting, Printing, Stopping, Safety, Outcomes, Arrivals,
--                  Saying: proofs.
--   Crypto         Objects: the calls of OpenSSL and the objects that are live. Keys: `Impl`,
--                  `GenerateKeyPair` and `GeneratePeerId`. Ciphers: `Encrypt` and `Decrypt`.
--                  Signatures: `Sign` and `Verify`. Secrets: `DeriveSharedSecret`. Held, KeysHeld,
--                  ContextsHeld and Released (which objects are live), Verifying, PeerIds, Unchecked:
--                  proofs.
--   Main           Process: what a process holds, and what may happen to it. Stages: `main`, from
--                  `identify` and `start_up` to `run_cli` and `shut_down`. Outcomes, Starting,
--                  Greeting, Succeeding and Stopping (how each stage ends), Dialling, Remembering,
--                  Saving, Status: proofs.
--   Coroutine      Source/Network_coroutines_wip.cpp. Objects: `Session` and `NetworkManager::Impl`,
--                  and who holds a session. Reading: the framing in `Session::Run`. Sessions:
--                  `HandleSessionMessage` and the rounds of a session. Manager: the methods and
--                  `AcceptLoop`. Framing, Streams, Arrivals (what bytes come to), Effects, Handling,
--                  Ending, Running, Stopping, Broadcasting, Greeting, and Validity, Preserving, Calls,
--                  Reachable, Naming and Identity for all sequences of actions: proofs.
--   Std            What the code uses of C++: results with exceptions and undefined behaviour,
--                  computations on a state, text, numbers and their parsing, and
--                  `std::unordered_map`.
--   Base           Lists, integers and Boolean tests.
-- Definitions have the source's names in snake_case: `HandleMessage` is `handle_message`.
--
-- How the code is modelled. An operation of the peer manager is a function on its state. One of the
-- network manager is a function from the state to a result and a state, where the result is a value,
-- an exception, or an outcome without return: undefined behaviour, or a thread that waits for ever.
-- A socket is a number, and every call of ZeroMQ is noted in a history. Bytes and characters are
-- numbers. Machine integers keep their wrap-around: sizes in 32 bits, the lengths in payloads and
-- ports in 16, timestamps in 64 bits with a sign.
--   - ZeroMQ is outside the repository: it is a function that says of each call, after what was called
--     before, whether it succeeds or throws `zmq::error_t`. What it delivers in a round of a loop is an
--     argument.
--   - The mutex over the sockets is a flag. It is not recursive: to lock it while it is held is to wait
--     for ever, which stands here for what the standard leaves undefined. The peer manager's own mutex
--     is held through each of its methods, which are single steps; only `GetLocalPeer` takes none.
--   - A thread's call is one step, and an interleaving of threads is a sequence of calls. A call
--     that waits for ever leaves its state to the calls of the other threads.
--   - `std::unordered_map` is the list of its entries, and the order of a loop over it is a parameter
--     that is only known to meet each entry once.
--   - The system clock counts nanoseconds in 64 bits, as in libstdc++. An operation reads it at most
--     once for what is kept, and that value is an argument. A message's time and the time at which a
--     peer is seen in one operation are the same value.
--   - `PeerInfo::port`, which `HandleMessage` leaves uninitialised for a sender without an address, is
--     a parameter of the platform.
--   - The handlers are functions on what the components share. They do not throw, and do not call the
--     network manager.
--   - OpenSSL is outside the repository: what it answers is any function of the calls made so far,
--     which name their objects by numbers. The use of a freed object and a write past a buffer are
--     undefined. SHA-256 is any function on bytes. The sizes of outputs are assumed where a theorem
--     says so.
--   - The arguments of the program come parsed, since Boost parses them; files are a map from names to
--     contents, and whether one can be opened for writing is a parameter. While the main thread waits,
--     the other threads' work is a sequence of events. A signal ends that sequence; the line that the
--     line editor still waits for then is an argument.
--   - The command line's state is the network manager's with one flag. The clock that its methods read
--     is a part of what the components share. A line that is typed is one step of the loop of `Run`;
--     beside it the display thread's work is a sequence of single prints. How the display thread
--     sleeps and is woken is modelled by itself, with the state of the thread, of `Stop`, and of the
--     threads that have queued a line and not yet notified. It wakes only when it is notified. In the
--     main program, whether it ends when `Stop` joins it is a parameter; where it does not, the main
--     thread waits for ever.
--   - Boost.Asio is outside the repository: the bytes that a socket delivers, a connection that is made
--     or accepted with the address of its other end, and whether a port can be bound, are arguments. A
--     read is complete when its buffer is full, and throws if the stream ends before or the socket is
--     closed; a write to a closed socket fails. A coroutine that is started by `co_spawn` is taken to
--     run at once to its first wait; each wait that ends is one step. A session is a number; a heap
--     holds the sessions, and one that no `shared_ptr` holds any more is freed, which closes its
--     socket. To go on with a freed session is undefined. The critical sections of `sessionsMutex_`
--     lie inside single steps.
--
-- Bounds and fuel. The code's functions have no fuel: loops run over lists, the bytes of a word are
-- written by counting down their number, and the loops of the threads are taken round by round. Only
-- the turns in which the display thread empties its queue or ends are counted, by `turns_left` and
-- `turns_stopped`, and the rounds of a session's coroutine, of which one more than there are bytes are
-- enough, as theorems show.
--
-- Not modelled: the text on standard output and error; the destruction of sockets failing; memory
-- running out; a thread that cannot be created; the colours and times of day of displayed lines, and the
-- line editor; in the main program, the text that the options are parsed from, and the signal
-- handlers; the router thread's use of the socket that `Stop` destroys, other than by itself in
-- RouterThread; the global tables of OpenSSL that `CryptoManager::Impl` sets up and cleans up; and, over
-- Boost.Asio, the destructor of the network manager, and writes that overlap on one socket.
pub mod Base
pub mod Std
pub mod Message
pub mod PeerManager
pub mod Network
pub mod Cli
pub mod Coroutine
pub mod Crypto
pub mod Main
