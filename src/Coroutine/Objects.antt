-- ===== src/Coroutine/Objects.antt =====
-- `Session` and `NetworkManager::Impl`: what they hold, and how sessions are shared and freed. A
-- number names a session, as a pointer does.
use cpp_p2pchat.Base.{
  ℕ, suc, Bool, true, false, ◌&&◌, ◌||◌, List, [], ◌∷◌, Option, none, some, ◌==◌, if◌then◌else◌,
}
use cpp_p2pchat.Std.Result.{Bytes}
use cpp_p2pchat.Std.UnorderedMap.{UnorderedMap}
use cpp_p2pchat.Message.{Message, serialize}
use cpp_p2pchat.Network.{Shared, MessageHandler, ConnectionHandler}

-- an address as text, and a port
abbrev pub Endpoint : Type 0
Endpoint = Bytes × ℕ

-- `endpoint` is what `remote_endpoint()` gives, `none` if it throws. `reading`: the coroutine `Run` of
-- this session waits in a read. `alive`: the object is not freed. `written` are the frames that were
-- handed to the socket, the last first.
pub record Session : Type 0 where
  pub peer_id : Bytes
  pub is_outgoing : Bool
  pub endpoint : Option Endpoint
  pub is_open : Bool
  pub reading : Bool
  pub alive : Bool
  pub written : List Bytes

-- a number that no session has had yet
unfoldable pub no_session : Session
no_session = record {
  peer_id = [];
  is_outgoing = false;
  endpoint = none;
  is_open = false;
  reading = false;
  alive = false;
  written = [];
}

-- `Session(socket, handler, connHandler, isOutgoing)`
unfoldable pub make_session : Option Endpoint → Bool → Session
make_session endpoint is_outgoing = record {
  peer_id = [];
  is_outgoing = is_outgoing;
  endpoint = endpoint;
  is_open = true;
  reading = false;
  alive = true;
  written = [];
}

-- `HasPeerId`
unfoldable pub has_peer_id : Session → Bool
has_peer_id s = elim s.peer_id [ [] ↦ false | _ ∷ _ ↦ true ]

-- the destruction of the session, which closes its socket
unfoldable pub destroyed : Session → Session
destroyed s = record s { alive = false; is_open = false }

-- `socket_.close()`
unfoldable pub closed : Session → Session
closed s = record s { is_open = false }

-- a frame that is written, unless the socket is not open
unfoldable pub handed : Bytes → Session → Session
handed frame s = if s.is_open then record s { written = frame ∷ s.written } else s

-- `acceptor`: whether it is open, if there is one. `accept_loops` counts the coroutines `AcceptLoop`
-- that wait for a connection. `heap` holds the sessions, `next_session` is the first number without one.
pub record Manager (D : Type 0) : Type 0 where
  pub shared : Shared D
  pub message_handler : Option (MessageHandler D)
  pub connection_handler : Option (ConnectionHandler D)
  pub acceptor : Option Bool
  pub running : Bool
  pub accept_loops : ℕ
  pub sessions : UnorderedMap ℕ
  pub heap : ℕ → Session
  pub next_session : ℕ

-- whether an entry of the map points to the session
unfoldable pub is_listed : ℕ → UnorderedMap ℕ → Bool
is_listed i [] = false
is_listed i ((id, j) ∷ m) = j == i || is_listed i m

module _ {D : Type 0} where
  -- `Impl(io, pm)`
  unfoldable pub make_manager : Shared D → Manager D
  make_manager shared = record {
    shared = shared;
    message_handler = none;
    connection_handler = none;
    acceptor = none;
    running = false;
    accept_loops = 0;
    sessions = [];
    heap = λ i. no_session;
    next_session = 0;
  }

  -- a change of one session
  unfoldable pub change : ℕ → (Session → Session) → Manager D → Manager D
  change i f n = record n { heap = λ j. if j == i then f (n.heap j) else n.heap j }

  -- `std::make_shared<Session>(...)`; its number is the old `next_session`
  unfoldable pub add_session : Session → Manager D → Manager D
  add_session s n = record n {
    heap = λ j. if j == n.next_session then s else n.heap j;
    next_session = suc n.next_session;
  }

  -- Whether a `shared_ptr` to the session is left: in the map, or in the frame of the coroutine of
  -- `ConnectToPeer`, which waits for `Start` to end. The coroutine of an accepted connection has none.
  unfoldable pub is_held : ℕ → Manager D → Bool
  is_held i n = is_listed i n.sessions || (n.heap i).is_outgoing && (n.heap i).reading

  -- A `shared_ptr` to the session goes: with the last one the session is destroyed.
  unfoldable pub release : ℕ → Manager D → Manager D
  unfolding change
  release i n = if is_held i n then n else change i destroyed n

  -- the release of a pointer that may be null
  unfoldable pub release_old : Option ℕ → Manager D → Manager D
  release_old none n = n
  release_old (some i) n = release i n

  unfoldable pub close_socket : ℕ → Manager D → Manager D
  unfolding change
  close_socket i n = change i closed n

  -- `if (connectionHandler_) { connectionHandler_(peerId, connected); }`
  unfoldable pub tell_connection : Bytes → Bool → Manager D → Manager D
  tell_connection peer_id connected n = elim n.connection_handler [
    | none ↦ n
    | some handler ↦ record n { shared = handler peer_id connected n.shared }
  ]

  -- `Session::SendMessage`: a write to a socket that is not open fails, which is not reported.
  unfoldable pub write_message : ℕ → Message → Manager D → Manager D
  unfolding change
  write_message i message n = change i (handed (serialize message)) n
