-- ===== src/Network/State.antt =====
-- What `NetworkManager::Impl` holds, and what the platform decides for it.
use cpp_p2pchat.Base.{ℕ, Bool, false, List, [], Option, none, some}
use cpp_p2pchat.Std.Result.{Bytes}
use cpp_p2pchat.Std.UnorderedMap.{UnorderedMap, Iteration}
use cpp_p2pchat.Message.{Message}
use cpp_p2pchat.PeerManager.{PeerInfo, PeerManager}

-- The two kinds of ZeroMQ socket that the program opens.
pub data SocketType : Type 0 where
  router dealer : SocketType

-- The calls of ZeroMQ; a number names a socket.
pub data Call : Type 0 where
  create : SocketType → ℕ → Call
  set_router_mandatory set_linger close : ℕ → Call
  set_routing_id bind connect send_more send_dontwait : ℕ → Bytes → Call

-- The calls that were made, the last first, each with whether it succeeded.
abbrev pub History : Type 0
History = List (Call × Bool)

-- ZeroMQ, which is not part of the program, is any function that says of each call, after what was
-- called before, whether it succeeds or throws `zmq::error_t`. `stray_port` is what an uninitialised
-- `PeerInfo::port` holds, and the orders are those of loops over the two maps.
pub record Platform : Type 0 where
  pub accepts : History → Call → Bool
  pub sockets_order : Iteration ℕ
  pub peers_order : Iteration PeerInfo
  pub stray_port : ℕ

-- The peer manager that all components refer to, and what the handlers write to.
pub record Shared (D : Type 0) : Type 0 where
  pub manager : PeerManager
  pub display : D

abbrev pub MessageHandler : Type 0 → Type 0
MessageHandler D = Bytes → Message → Shared D → Shared D

abbrev pub ConnectionHandler : Type 0 → Type 0
ConnectionHandler D = Bytes → Bool → Shared D → Shared D

-- `locked`: somebody holds `socketsMutex_`. A missing handler is an empty `std::function`.
pub record Network (D : Type 0) : Type 0 where
  pub shared : Shared D
  pub message_handler : Option (MessageHandler D)
  pub connection_handler : Option (ConnectionHandler D)
  pub router_socket : Option ℕ
  pub dealer_sockets : UnorderedMap ℕ
  pub locked : Bool
  pub running : Bool
  pub router_thread : Bool
  pub poller_thread : Bool
  pub listen_port : ℕ
  pub next_socket : ℕ
  pub history : History

module _ {D : Type 0} where
  -- `Impl(pm)`: no sockets, no handlers, not running
  unfoldable pub make_network : Shared D → Network D
  make_network shared = record {
    shared = shared;
    message_handler = none;
    connection_handler = none;
    router_socket = none;
    dealer_sockets = [];
    locked = false;
    running = false;
    router_thread = false;
    poller_thread = false;
    listen_port = 0;
    next_socket = 0;
    history = [];
  }

  unfoldable pub set_message_handler : MessageHandler D → Network D → Network D
  set_message_handler handler n = record n { message_handler = some handler }

  unfoldable pub set_connection_handler : ConnectionHandler D → Network D → Network D
  set_connection_handler handler n = record n { connection_handler = some handler }

  -- `if (connectionHandler_) { connectionHandler_(peerId, connected); }`
  unfoldable pub notify_connection : Bytes → Bool → Network D → Network D
  notify_connection peer_id connected n = elim n.connection_handler [
    | none ↦ n
    | some handler ↦ record n { shared = handler peer_id connected n.shared }
  ]

  -- `if (userMessageHandler_) { userMessageHandler_(peerId, msg); }`
  unfoldable pub notify_message : Bytes → Message → Network D → Network D
  notify_message peer_id msg n = elim n.message_handler [
    | none ↦ n
    | some handler ↦ record n { shared = handler peer_id msg n.shared }
  ]
