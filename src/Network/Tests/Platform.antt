-- ===== src/Network/Tests/Platform.antt =====
-- Platforms, peers and a network manager to test with.
use cpp_p2pchat.Base.{true, false, [], ◌∷◌, none, some, pos}
use cpp_p2pchat.Std.Text.{codes}
use cpp_p2pchat.Std.UnorderedMap.{in_order}
use cpp_p2pchat.Message.{Message, text}
use cpp_p2pchat.PeerManager.{PeerInfo}
use cpp_p2pchat.Network.State.{Network, Shared, Platform}

abbrev pub willing : Platform
willing = record {
  accepts = λ h c. true;
  sockets_order = in_order;
  peers_order = in_order;
  stray_port = 7;
}

abbrev pub ann : PeerInfo
ann = record {
  id = codes "ann";
  address = codes "10.0.0.7";
  port = 5555;
  public_key = 4 ∷ 255 ∷ [];
  is_connected = true;
  last_seen = pos 3;
}

abbrev pub self : PeerInfo
self = record ann { id = codes "me"; is_connected = false }

abbrev pub shared : Shared (Unit {0})
shared = record {
  manager = record { peers = (codes "ann", ann) ∷ []; local_peer = self };
  display = tt;
}

-- a running manager with a router socket
abbrev pub listener : Network (Unit {0})
listener = record {
  shared = shared;
  message_handler = none;
  connection_handler = none;
  router_socket = some 0;
  dealer_sockets = [];
  locked = false;
  running = true;
  router_thread = true;
  poller_thread = true;
  listen_port = 5555;
  next_socket = 1;
  history = [];
}

abbrev pub hello : Message
hello = record { type = text; payload = codes "hello"; timestamp = pos 5 }
