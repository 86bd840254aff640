-- ===== src/Network/Introductions.antt =====
-- What an arriving message does: handshakes introduce peers, other messages are handed on, and
-- errors stay in the round.
use cpp_p2pchat.Base.{
  ℕ, ◌+◌, ◌%◌, ◌^◌, ◌<◌, ◌≡◌, ◌⊎◌, inl, inr, refl, true, false, ◌++◌, none, some, arith, ℤ, length,
  length-append, drop, take-append, drop-append,
}
use native.Mathlib.Nat.{add_comm}
use native.Mathlib.Numerals.{towards_suc}
use cpp_p2pchat.Std.Result.{Bytes, Exception, ok, throw}
use cpp_p2pchat.Std.Exec.{◌>>=◌, catch_zmq}
use cpp_p2pchat.Message.{Message, be_bytes, create_handshake_message}
use cpp_p2pchat.PeerManager.{get_local_peer}
use cpp_p2pchat.Network.State.{Network, Platform, notify_connection, notify_message}
use cpp_p2pchat.Network.Handshake.{is_handshake, id_length, parse_handshake}
use cpp_p2pchat.Network.Sending.{send_frames, send_via_router}
use cpp_p2pchat.Network.Sockets.{zmq_call}
use cpp_p2pchat.Network.Receiving.{
  sender_endpoint, introduced, actual_peer_id, store_peer, answer_handshake, meet_peer,
  handle_message,
}

id_length-create :
    (n : ℕ) (rest : Bytes) → n < 2 ^ 16 → id_length (be_bytes 2 (n % 2 ^ 16) ++ rest) ≡ n
unfolding id_length be_bytes
id_length-create n rest h = omega arith

take-be_bytes : (n : ℕ) (rest : Bytes) → drop 2 (be_bytes 2 n ++ rest) ≡ rest
unfolding be_bytes
take-be_bytes n rest = refl

length-prefixed : (n : ℕ) (rest : Bytes) → length (be_bytes 2 n ++ rest) ≡ 2 + length rest
unfolding be_bytes
length-prefixed n rest = omega arith

drop_prefixed : (n k : ℕ) (rest : Bytes) → drop (2 + k) (be_bytes 2 n ++ rest) ≡ drop k rest
unfolding be_bytes
drop_prefixed n k rest = rw add_comm (simp towards_suc refl)

-- The payload that `CreateHandshakeMessage` writes for an id of fewer than 2^16 bytes is taken
-- apart into this id and this key.
pub parse_handshake-create :
    (now : ℤ) (id key : Bytes)
    → length id < 2 ^ 16
    → parse_handshake (create_handshake_message now id key).payload ≡ some (id, key)
unfolding parse_handshake create_handshake_message
parse_handshake-create now id key h =
    let prefix = length id % 2 ^ 16 in
    rw
      (
        id_length-create (length id) (id ++ key) h,
        length-prefixed prefix (id ++ key),
        length-append id key,
        take-be_bytes prefix (id ++ key),
        drop_prefixed prefix (length id) (id ++ key),
        take-append id key (length id) refl,
        drop-append id key (length id) refl,
      )
      (ground arith)

send_via_router_returns :
    {D : Type 0} (env : Platform) (id : Bytes) (message : Message) (n : Network D)
    → (send_via_router env id message n).0 ≡ ok tt
unfolding send_via_router send_frames zmq_call catch_zmq ◌>>=◌
send_via_router_returns env id message n = ground arith

answer_handshake_returns :
    {D : Type 0} (env : Platform) (now : ℤ) (sender id : Bytes) (n : Network D)
    → (answer_handshake env now sender id n).0 ≡ ok tt
unfolding answer_handshake ◌>>=◌
answer_handshake_returns env now sender id n = ground (
  arith,
  send_via_router_returns env id
      (create_handshake_message now (get_local_peer n.shared.manager).id
        (get_local_peer n.shared.manager).public_key)
      n,
)

module _ {D : Type 0} (env : Platform) (now : ℤ) (n : Network D) (sender : Bytes)
    (msg : Message) where
  -- A message that is no handshake, or a handshake whose payload is too short for its own length
  -- prefix, changes nothing: it is handed to the user's handler under the sender's id.
  pub handle_message-other :
      (is_handshake msg.type ≡ false) ⊎ (parse_handshake msg.payload ≡ none)
      → handle_message env now sender msg n ≡ (ok tt, notify_message sender msg n)
  unfolding handle_message meet_peer actual_peer_id ◌>>=◌
  handle_message-other (inl h) = ground arith
  handle_message-other (inr h) = ground arith

  -- A handshake from a sender whose id has a colon and no number behind it is dropped: the exception
  -- of `std::stoi` leaves before the peer is stored and before any handler is called.
  pub handle_message-bad_port :
      (id key : Bytes) (e : Exception)
      → is_handshake msg.type ≡ true
      → parse_handshake msg.payload ≡ some (id, key)
      → sender_endpoint env.stray_port sender ≡ throw e
      → handle_message env now sender msg n ≡ (throw e, n)
  unfolding handle_message meet_peer ◌>>=◌
  handle_message-bad_port id key e h p q = ground arith

  -- the state once the peer is stored and the connection handler has run
  abbrev pub met : Bytes → Bytes → Bytes × ℕ → Network D
  met id key endpoint = notify_connection id true (store_peer (introduced now id key endpoint) n)

  -- A handshake stores the peer that it names, connected and with the address and port of the
  -- sender's id, then tells the connection handler, and at the end the user's handler, both under the
  -- peer's own id. Between the two a sender whose id is the peer's is answered through the router.
  pub handle_message-meets :
      (id key : Bytes) (endpoint : Bytes × ℕ)
      → is_handshake msg.type ≡ true
      → parse_handshake msg.payload ≡ some (id, key)
      → sender_endpoint env.stray_port sender ≡ ok endpoint
      → let (r, m) = answer_handshake env now sender id (met id key endpoint) in
        (r ≡ ok tt) × (handle_message env now sender msg n ≡ (ok tt, notify_message id msg m))
  unfolding handle_message meet_peer actual_peer_id ◌>>=◌
  handle_message-meets id key endpoint h p q =
      ground (arith, answer_handshake_returns env now sender id (met id key endpoint))
