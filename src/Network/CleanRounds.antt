-- ===== src/Network/CleanRounds.antt =====
-- Without a dealer socket: what the rounds of the two threads keep.
use cpp_p2pchat.Base.{ℕ, Bool, List, [], ◌∷◌, Option, none, some, ℤ, Bool-cases, inl, inr}
use cpp_p2pchat.Std.Result.{Bytes}
use cpp_p2pchat.Std.Keeps.{Keeps, keeps_rules, Keeps-bind}
use cpp_p2pchat.Message.{Message}
use cpp_p2pchat.Network.State.{Network, Platform}
use cpp_p2pchat.Std.Text.{str_eq}
use cpp_p2pchat.Network.Handshake.{is_handshake}
use cpp_p2pchat.Network.Receiving.{
  Arrival, quiet, failed, arrived, answer_handshake, meet_peer, handle_message, receive,
  route_round, poll_socket, poll_one, poll_sockets, poll_round,
}
use cpp_p2pchat.Network.Clean.{
  Clean, with_lock-Clean, send_via_router-Clean, store_peer-Clean, notify_connection-Clean,
  notify_message-Clean,
}

module _ {D : Type 0} (env : Platform) (now : ℤ) where
  answer_handshake-Clean :
      (b : Bool) (sender id : Bytes)
      → Keeps {S = Network D} (Clean b) (answer_handshake env now sender id)
  unfolding answer_handshake
  answer_handshake-Clean b sender id = elim (Bool-cases (str_eq sender id)) [
    | inl e ↦ rw (e, answer_handshake) (search (keeps_rules, send_via_router-Clean))
    | inr e ↦ rw (e, answer_handshake) (search keeps_rules)
  ]

  meet_peer-Clean :
      (b : Bool) (sender : Bytes) (parsed : Option (Bytes × Bytes))
      → Keeps {S = Network D} (Clean b) (meet_peer env now sender parsed)
  unfolding meet_peer
  meet_peer-Clean b sender none = search keeps_rules
  meet_peer-Clean b sender (some (id, key)) =
      search (keeps_rules, store_peer-Clean, notify_connection-Clean, answer_handshake-Clean) depth
        12

  handle_message-Clean :
      (b : Bool) (sender : Bytes) (msg : Message)
      → Keeps {S = Network D} (Clean b) (handle_message env now sender msg)
  unfolding handle_message
  handle_message-Clean b sender msg = elim (Bool-cases (is_handshake msg.type)) [
    | inl e ↦ rw e (search (keeps_rules, meet_peer-Clean, notify_message-Clean))
    | inr e ↦ rw e (search (keeps_rules, notify_message-Clean))
  ]

  receive-Clean :
      (b : Bool) (sender frame : Bytes)
      → Keeps {S = Network D} (Clean b) (receive env now sender frame)
  unfolding receive
  receive-Clean b sender frame = search (keeps_rules, handle_message-Clean)

  pub route_round-Clean :
      (b : Bool) (arrival : Arrival (Bytes × Bytes))
      → Keeps {S = Network D} (Clean b) (route_round env now arrival)
  unfolding route_round
  route_round-Clean b (arrived (identity, frame)) = search (keeps_rules, receive-Clean)
  route_round-Clean b _ = search keeps_rules

  poll_socket-Clean :
      (b : Bool) (id : Bytes) (o : Option ℕ) (arrival : Arrival Bytes)
      → Keeps {S = Network D} (Clean b) (poll_socket env now id o arrival)
  unfolding poll_socket
  poll_socket-Clean b id none arrival = search keeps_rules
  poll_socket-Clean b id (some i) (arrived frame) = receive-Clean b id frame
  poll_socket-Clean b id (some i) failed = search keeps_rules
  poll_socket-Clean b id (some i) _ = search keeps_rules

  poll_one-Clean :
      (b : Bool) (id : Bytes) (arrival : Arrival Bytes)
      → Keeps {S = Network D} (Clean b) (poll_one env now id arrival)
  unfolding poll_one
  poll_one-Clean b id quiet = search keeps_rules
  poll_one-Clean b id _ = search (keeps_rules, with_lock-Clean, poll_socket-Clean)

  poll_sockets-Clean :
      (b : Bool) (arrivals : Bytes → Arrival Bytes) (ids : List Bytes)
      → Keeps {S = Network D} (Clean b) (poll_sockets env now arrivals ids)
  unfolding poll_sockets
  poll_sockets-Clean b arrivals [] = search keeps_rules
  poll_sockets-Clean b arrivals (id ∷ ids) =
      Keeps-bind _ _ (poll_one-Clean b id (arrivals id)) (λ _. poll_sockets-Clean b arrivals ids)

  pub poll_round-Clean :
      (b : Bool) (arrivals : Bytes → Arrival Bytes)
      → Keeps {S = Network D} (Clean b) (poll_round env now arrivals)
  unfolding poll_round
  poll_round-Clean b arrivals = search (keeps_rules, with_lock-Clean, poll_sockets-Clean)
