-- ===== src/Cli/Arrivals.antt =====
-- What the command line shows of the messages that arrive, with the handlers that `Run` installs.
use cpp_p2pchat.Base.{
  ℕ, ◌+◌, ◌^◌, ◌<◌, ◌≡◌, refl, true, List, [], ◌∷◌, ◌++◌, some, arith, take, ℤ, length, inl,
  append_assoc,
}
use cpp_p2pchat.Std.Result.{Bytes, ok}
use cpp_p2pchat.Std.Text.{codes, str_eq_refl, Lacks}
use cpp_p2pchat.Std.Exec.{◌>>=◌, catch_zmq, catch_all}
use cpp_p2pchat.Message.{Message, serialize, create_handshake_message, create_text_message}
use cpp_p2pchat.Message.RoundTrip.{IsMessage, FitsInt64, whole_millis, deserialize-serialize}
use cpp_p2pchat.PeerManager.{get_peer}
use cpp_p2pchat.PeerManager.Lookup.{get_peer-after}
use cpp_p2pchat.Network.{
  Network, Platform, notify_connection, notify_message, is_handshake, parse_handshake, arrived,
  receive, route_round, introduced, store_peer, answer_handshake,
}
use cpp_p2pchat.Network.Introductions.{
  parse_handshake-create, met, handle_message-meets, handle_message-other,
}
use cpp_p2pchat.Network.Rounds.{
  answer_handshake-shared, create_handshake_message-IsMessage, sender_endpoint-no_colon,
}
use cpp_p2pchat.Cli.Display.{
  Line, Console, queue_display, display_message, display_handshake, on_message, on_connection,
  incoming, success, system,
}

create_text_message-IsMessage :
    (t : ℤ) (s : Bytes) → FitsInt64 t → length s < 2 ^ 32 → IsMessage (create_text_message t s)
unfolding create_text_message
create_text_message-IsMessage t s fits small = record { typed = tt; sized = small; timed = fits }

module _ (env : Platform) (now : ℤ) (n : Network Console) where
  -- From end to end, with the message handler that `Run` installs: a text of fewer than 2^32 bytes that
  -- a peer serializes, with a timestamp of 64 bits, and that the router receives is queued for display
  -- once, behind the lines that are queued, as it was written and with the first eight characters of
  -- the sender's id. Nothing else changes.
  pub route_round-text :
      (t : ℤ) (sender s : Bytes)
      → length s < 2 ^ 32
      → FitsInt64 t
      → n.message_handler ≡ some on_message
      → route_round env now (arrived (sender, serialize (create_text_message t s))) n ≡ (
        ok tt,
        record n {
          shared = record n.shared {
            display = record n.shared.display {
              queue = n.shared.display.queue ++ incoming (take 8 sender) s ∷ [];
            };
          };
        },
      )
  unfolding route_round receive catch_zmq catch_all notify_message on_message display_message
      queue_display is_handshake create_text_message ◌>>=◌
  route_round-text t sender s small fits installed =
      let msg = create_text_message t s in
      let received = record msg { timestamp = whole_millis t } in
      ground (
        arith,
        deserialize-serialize msg (create_text_message-IsMessage t s fits small),
        handle_message-other env now n sender received (inl refl),
      )

  -- what the two lines say of a peer that introduces itself
  abbrev pub greeted : Bytes → List Line
  greeted id =
      success (codes "Connected to peer: " ++ id)
      ∷ system (codes "Handshake received from " ++ id)
      ∷ []

  after_met :
      (id key : Bytes) (endpoint : Bytes × ℕ) (msg : Message)
      → n.connection_handler ≡ some on_connection
      → let shared = (met env now n id msg id key endpoint).shared in
        (get_peer id shared.manager
          ≡ some (record {
            id = id;
            address = endpoint.0;
            port = endpoint.1;
            public_key = key;
            is_connected = true;
            last_seen = n.shared.display.clock;
          }))
        × (shared.display.queue
            ≡ n.shared.display.queue ++ success (codes "Connected to peer: " ++ id) ∷ [])
        × ((met env now n id msg id key endpoint).message_handler ≡ n.message_handler)
  unfolding notify_connection on_connection store_peer introduced queue_display
  after_met id key endpoint msg installed =
      let peer = introduced now id key endpoint in
      let clock = n.shared.display.clock in
      ground (
        arith,
        str_eq_refl id,
        (get_peer-after n.shared.manager peer id id true clock).0,
        (get_peer-after (store_peer peer n).shared.manager peer id id true clock).2,
      )

  pub told :
      (id key : Bytes) (msg : Message) (m : Network Console)
      → is_handshake msg.type ≡ true
      → parse_handshake msg.payload ≡ some (id, key)
      → m.message_handler ≡ some on_message
      → (notify_message id msg m).shared
        ≡ queue_display (system (codes "Handshake received from " ++ id)) m.shared
  unfolding notify_message on_message display_handshake is_handshake
  told id key msg m h p installed = ground arith

  -- From end to end, with the two handlers that `Run` installs: a peer's handshake that the router
  -- receives under the peer's own id stores the peer under its id, connected and seen at the time of the
  -- clock, with its key, no address and the port that the uninitialised field held. Two lines are queued
  -- behind those that are queued, that it is connected and that its handshake was received. The id holds
  -- no colon and has fewer than 2^16 bytes, it fits in 32 bits with the key and its length, and the
  -- handshake's timestamp in 64 bits.
  pub route_round-greets :
      (t : ℤ) (id key : Bytes)
      → length id < 2 ^ 16
      → 2 + (length id + length key) < 2 ^ 32
      → FitsInt64 t
      → Lacks b':' id
      → n.message_handler ≡ some on_message
      → n.connection_handler ≡ some on_connection
      → let (r, m) =
          route_round env now (arrived (id, serialize (create_handshake_message t id key))) n in
        (r ≡ ok tt)
        × (get_peer id m.shared.manager
            ≡ some (record {
              id = id;
              address = [];
              port = env.stray_port;
              public_key = key;
              is_connected = true;
              last_seen = n.shared.display.clock;
            }))
        × (m.shared.display.queue ≡ n.shared.display.queue ++ greeted id)
  unfolding route_round receive catch_zmq catch_all queue_display create_handshake_message
      is_handshake ◌>>=◌
  route_round-greets t id key short small fits plain by_message by_connection =
      let msg = create_handshake_message t id key in
      let received = record msg { timestamp = whole_millis t } in
      let endpoint : Bytes × ℕ = ([], env.stray_port) in
      let m = met env now n id received id key endpoint in
      let answered = answer_handshake env now id id m in
      let after = after_met id key endpoint received by_connection in
      let parsed = parse_handshake-create t id key short in
      let kept = answer_handshake-shared env now id id m in
      let handled =
        handle_message-meets env now n id received id key endpoint refl parsed
          (sender_endpoint-no_colon env.stray_port id plain) in
      ground (
        arith,
        deserialize-serialize msg (create_handshake_message-IsMessage t id key fits small),
        handled,
        kept,
        after,
        told id key received answered.1 refl parsed,
        append_assoc n.shared.display.queue (success (codes "Connected to peer: " ++ id) ∷ [])
            (system (codes "Handshake received from " ++ id) ∷ []),
      )
