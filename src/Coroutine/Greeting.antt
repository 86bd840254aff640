-- ===== src/Coroutine/Greeting.antt =====
-- From the bytes of a peer's handshake to a peer that messages can be sent to.
use cpp_p2pchat.Base.{
  ℕ, ◌<◌, ◌^◌, ◌≡◌, ◌≢◌, ◌∙◌, refl, ap, true, [], ◌∷◌, ◌++◌, some, arith, ℤ, length,
}
use cpp_p2pchat.Std.Result.{Bytes, ok}
use cpp_p2pchat.Std.UnorderedMap.{find}
use cpp_p2pchat.Message.{Message, serialize, create_handshake_message}
use cpp_p2pchat.Message.Canonical.{Small}
use cpp_p2pchat.Network.{is_handshake}
use cpp_p2pchat.Network.Introductions.{parse_handshake-create}
use cpp_p2pchat.Coroutine.Objects.{Manager, has_peer_id, change, handed, write_message}
use cpp_p2pchat.Coroutine.Sessions.{handle_session_message, resume}
use cpp_p2pchat.Coroutine.Manager.{send_found, send_to}
use cpp_p2pchat.Coroutine.Streams.{IsSendable}
use cpp_p2pchat.Coroutine.Effects.{heard}
use cpp_p2pchat.Coroutine.Handling.{named, met, handle_session_message-introduces}
use cpp_p2pchat.Coroutine.Running.{Runs, as_read, answered-Runs, resume-serialized}

module _ {D : Type 0} (now : ℤ) (i : ℕ) (id key : Bytes) (n : Manager D) (runs : Runs (n.heap i))
    (new : (n.heap i).peer_id ≡ []) (filled : id ≢ []) where
  -- a message that is sent to the peer
  send_to-written :
      (msg : Message) (m : Manager D)
      → find id m.sessions ≡ some i
      → (m.heap i).is_open ≡ true
      → ((send_to id msg m).heap i).written ≡ serialize msg ∷ (m.heap i).written
  unfolding send_to send_found write_message change handed
  send_to-written msg m found open_socket = rw found (ground (arith, open_socket))

  -- A peer's serialized handshake that comes over a connection that is read, and on which nobody has
  -- introduced itself: the coroutine goes on with what is behind it; if the socket gives the address of
  -- the other end, the peer is stored under its id, connected, seen now, with its key and this address
  -- and port, and otherwise it is not stored; then the connection handler, and then the user's handler
  -- have been told, if there are such; and from now on a message that is sent to the peer's id is written
  -- to this connection. Its id is not empty and has fewer than 2^16 bytes, the handshake can be sent, and
  -- what is behind it consists of bytes.
  pub resume-greets :
      (t : ℤ) (rest : Bytes) (msg : Message)
      → length id < 2 ^ 16
      → IsSendable (create_handshake_message t id key)
      → Small rest
      → let hello = create_handshake_message t id key in
        let (r, m) = resume now i (serialize hello ++ rest) n in
        (r ≡ ok rest)
        × (m.shared ≡ heard n.message_handler id (as_read hello) (met now i id key n))
        × (find id m.sessions ≡ some i)
        × (((send_to id msg m).heap i).written ≡ serialize msg ∷ (m.heap i).written)
  resume-greets t rest msg short sendable small =
      let hello = create_handshake_message t id key in
      let m = handle_session_message now i (as_read hello) n in
      let greets : is_handshake hello.type ≡ true =
        unfold create_handshake_message is_handshake in refl in
      let (session, found, shared) =
        handle_session_message-introduces now i id key n (as_read hello) greets new
          (parse_handshake-create t id key short) in
      let up : (m.heap i).is_open ≡ true =
        ap (λ s. s.is_open) session ∙ (answered-Runs now i id key n runs).1 in
      let has : has_peer_id (named now i id key n) ≡ true = unfold has_peer_id in ground arith in
      rw (resume-serialized now i hello rest n sendable small runs)
        (refl, shared ∙ rw has refl, found, send_to-written msg m found up)
