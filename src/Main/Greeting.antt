-- ===== src/Main/Greeting.antt =====
-- A session in which one peer introduces itself, and then `quit` is typed.
use cpp_p2pchat.Base.{
  ℕ, ◌+◌, ◌^◌, ◌<◌, ◌≡◌, refl, ap, sym, ◌∙◌, Bool, true, false, List, [], ◌∷◌, some, ℤ, arith,
  length, if◌then◌else◌,
}
use cpp_p2pchat.Std.Result.{Bytes, Result, Fault, ok, throw, undefined}
use cpp_p2pchat.Std.Text.{codes, Lacks, str_eq_refl, str_eq, is_space}
use cpp_p2pchat.Std.Exec.{◌>>=◌, pure, modify, catch_zmq, catch_all}
use cpp_p2pchat.Std.Keeps.{After}
use cpp_p2pchat.Std.UnorderedMap.{insert, adjust, find}
use cpp_p2pchat.Message.{Message, serialize, create_handshake_message}
use cpp_p2pchat.Message.RoundTrip.{FitsInt64, whole_millis, deserialize-serialize}
use cpp_p2pchat.PeerManager.{PeerInfo, with_status, add_peer, update_peer_status}
use cpp_p2pchat.Network.{
  Network, Platform, arrived, route_round, receive, introduced, notify_connection, store_peer,
  answer_handshake, is_handshake, set_message_handler, set_connection_handler,
}
use cpp_p2pchat.Network.Clean.{Clean}
use cpp_p2pchat.Network.CleanRounds.{route_round-Clean}
use cpp_p2pchat.Network.Introductions.{parse_handshake-create, met, handle_message-meets}
use cpp_p2pchat.Network.Rounds.{
  answer_handshake-shared, create_handshake_message-IsMessage, sender_endpoint-no_colon,
}
use cpp_p2pchat.Cli.{
  Cli, Console, on_network, on_shared, show, queue_display, on_message, on_connection, begin_run,
  handle_quit, process_command, parse_command, commands,
}
use cpp_p2pchat.Cli.Arrivals.{told}
use cpp_p2pchat.Cli.Outcomes.{process_command-quits}
use cpp_p2pchat.Main.Process.{Machine, Event, typed, routes}
use cpp_p2pchat.Main.Stages.{happen, read_line, session}
use cpp_p2pchat.Main.Outcomes.{Outcome, Does, Does-bind}

-- the peer as the session leaves it
abbrev pub greeter : Platform → Bytes → Bytes → ℤ → PeerInfo
greeter env id key now = with_status true now (introduced now id key ([], env.stray_port))

abbrev pub now_of : Cli → ℤ
now_of c = c.network.shared.display.clock

-- before the session: no peers
abbrev pub Alone : Cli → Type 0
Alone c = Clean false c.network × (c.network.shared.manager.peers ≡ [])

abbrev pub Listening : Cli → Type 0
Listening c =
    Alone c
    × (c.network.message_handler ≡ some on_message)
    × (c.network.connection_handler ≡ some on_connection)
    × (c.running ≡ true)

module _ (env : Platform) (id key : Bytes) where
  -- The peer is the only one.
  abbrev pub Met : Bool → Cli → Type 0
  Met running c =
      Clean false c.network
      × (c.network.shared.manager.peers ≡ (id, greeter env id key (now_of c)) ∷ [])
      × (c.running ≡ running)

module _ {E : Cli → Type 0} {W : Fault → Cli → Type 0} where
  pub begin_run-Does : (env : Platform) → Does Alone (begin_run env) (λ _. Listening) E W
  unfolding begin_run show on_shared queue_display set_message_handler set_connection_handler modify
      ◌>>=◌
  begin_run-Does env = record { at = λ c h. (h, refl, refl, refl) }

-- the peer's handshake arrives, and then `quit` is typed
abbrev pub greet_and_quit : Bytes → Bytes → ℤ → List Event
greet_and_quit id key t =
    routes (arrived (id, serialize (create_handshake_message t id key))) ∷ typed (codes "quit") ∷ []

module _ (m : Machine) (id key : Bytes) where
  only_peer :
      (n : Network Console) (now : ℤ)
      → n.shared.manager.peers ≡ []
      → (update_peer_status id true now
          (add_peer (introduced now id key ([], m.platform.stray_port)) n.shared.manager)).peers
        ≡ (id, greeter m.platform id key now) ∷ []
  unfolding update_peer_status add_peer introduced insert adjust
  only_peer n now h = ground (arith, str_eq_refl id)

  met_manager :
      (n : Network Console) (now : ℤ) (sender : Bytes) (msg : Message)
      → n.connection_handler ≡ some on_connection
      → let peer = introduced now id key ([], m.platform.stray_port) in
        let shared = (met m.platform now n sender msg id key ([], m.platform.stray_port)).shared in
        (shared.manager
          ≡ update_peer_status id true n.shared.display.clock (add_peer peer n.shared.manager))
        × (shared.display.clock ≡ n.shared.display.clock)
        × ((met m.platform now n sender msg id key ([], m.platform.stray_port)).message_handler
            ≡ n.message_handler)
  unfolding notify_connection on_connection store_peer queue_display
  met_manager n now sender msg installed = ground arith

  -- What a handshake that the router receives makes of the peer manager.
  route_round-met :
      (n : Network Console) (now t : ℤ)
      → length id < 2 ^ 16
      → 2 + (length id + length key) < 2 ^ 32
      → FitsInt64 t
      → Lacks b':' id
      → n.message_handler ≡ some on_message
      → n.connection_handler ≡ some on_connection
      → let (r, after) =
          route_round m.platform now
            (arrived (id, serialize (create_handshake_message t id key)))
            n in
        (r ≡ ok tt)
        × (after.shared.manager
            ≡ update_peer_status id true n.shared.display.clock
                (add_peer (introduced now id key ([], m.platform.stray_port)) n.shared.manager))
        × (after.shared.display.clock ≡ n.shared.display.clock)
  unfolding route_round receive catch_zmq catch_all queue_display create_handshake_message
      is_handshake ◌>>=◌
  route_round-met n now t short small fits plain by_message by_connection =
      let env = m.platform in
      let msg = create_handshake_message t id key in
      let received = record msg { timestamp = whole_millis t } in
      let endpoint : Bytes × ℕ = ([], env.stray_port) in
      let after = met env now n id received id key endpoint in
      let answered = answer_handshake env now id id after in
      let parsed = parse_handshake-create t id key short in
      ground (
        arith,
        deserialize-serialize msg (create_handshake_message-IsMessage t id key fits small),
        handle_message-meets env now n id received id key endpoint refl parsed
            (sender_endpoint-no_colon env.stray_port id plain),
        answer_handshake-shared env now id id after,
        met_manager n now id received by_connection,
        told env now n id key received answered.1 refl parsed,
      )

  module _ (E : Cli → Type 0) (W : Fault → Cli → Type 0) where
    greeted :
        (r : Result (Unit {0})) (n : Network Console) (c : Cli)
        → After (Clean false) (r, n)
        → r ≡ ok tt
        → n.shared.manager.peers ≡ (id, greeter m.platform id key n.shared.display.clock) ∷ []
        → c.running ≡ true
        → Outcome (λ _. Met m.platform id key true) E W (r, record c { network = n })
    greeted (ok a) n c h e p running = (h, p, running)
    greeted (throw x) n c h e p running = cc
    greeted (undefined u) n c h e p running = cc

    greets-Does :
        (t : ℤ)
        → length id < 2 ^ 16
        → 2 + (length id + length key) < 2 ^ 32
        → FitsInt64 t
        → Lacks b':' id
        → Does Listening
            (happen m (routes (arrived (id, serialize (create_handshake_message t id key)))))
            (λ _. Met m.platform id key true)
            E
            W
    unfolding happen on_network
    greets-Does t short small fits plain = record {
      at = λ c h.
          let n = c.network in
          let now = now_of c in
          let met = route_round-met n now t short small fits plain h.1 h.2 in
          let frame = arrived (id, serialize (create_handshake_message t id key)) in
          greeted _ _ c ((route_round-Clean m.platform now false frame).at n h.0.0) met.0
            (ap (λ manager. manager.peers) met.1
              ∙ only_peer n now h.0.1
              ∙ ap (λ time. (id, greeter m.platform id key time) ∷ []) (sym met.2))
            h.3;
    }

    quit_line : (c : Cli) → c.running ≡ true → happen m (typed (codes "quit")) c ≡ handle_quit c
    unfolding happen read_line parse_command find commands is_space insert str_eq
    quit_line c running =
        let quitted = process_command m.platform (codes "quit") c in
        ap (λ b. if b then quitted else (ok tt, c)) running
        ∙ process_command-quits m.platform c (codes "quit") (codes "quit") [] refl refl

    quits-Does :
        Does
          (Met m.platform id key true)
          (happen m (typed (codes "quit")))
          (λ _. Met m.platform id key false)
          E
          W
    unfolding handle_quit show on_shared queue_display ◌>>=◌
    quits-Does = record { at = λ c h. rw (quit_line c h.2) (h.0, h.1, refl) }

    pub session-Does :
        (t : ℤ)
        → length id < 2 ^ 16
        → 2 + (length id + length key) < 2 ^ 32
        → FitsInt64 t
        → Lacks b':' id
        → Does Alone
            (begin_run m.platform >>= λ _. session m (greet_and_quit id key t))
            (λ _. Met m.platform id key false)
            E
            W
    unfolding session pure
    session-Does t short small fits plain = Does-bind _ _ (begin_run-Does m.platform) λ _.
        Does-bind _ _ (greets-Does t short small fits plain) λ _.
          Does-bind {Q = λ _. Met m.platform id key false} _ _ quits-Does
            λ _. record { at = λ c h. h }
