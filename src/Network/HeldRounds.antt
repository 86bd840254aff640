-- ===== src/Network/HeldRounds.antt =====
-- The rounds of the two threads, and the mutex that waiting leaves held.
use cpp_p2pchat.Base.{
  ◌≡◌, ◌≢◌, refl, ℕ, Bool, List, [], ◌∷◌, Option, none, some, ℤ, Bool-cases, Option-cases, inl, inr,
  arith,
}
use cpp_p2pchat.Std.Result.{
  Bytes, Result, ok, throw, undefined, relock, signed_overflow, out_of_bounds, dangling, unended,
}
use cpp_p2pchat.Std.Exec.{lift}
use cpp_p2pchat.Std.Text.{str_eq, split_at}
use cpp_p2pchat.Std.Numbers.{stoi, magnitude, take_sign, skip_space}
use cpp_p2pchat.Message.{Message, deserialize, range, time_point}
use cpp_p2pchat.PeerManager.{PeerInfo}
use cpp_p2pchat.Network.State.{Network, Platform, notify_connection, notify_message}
use cpp_p2pchat.Network.Handshake.{is_handshake}
use cpp_p2pchat.Network.Receiving.{
  sender_endpoint, store_peer, Arrival, quiet, failed, arrived, answer_handshake, meet_peer,
  handle_message, receive, route_round, poll_socket, poll_one, poll_sockets, poll_round,
}
use cpp_p2pchat.Network.Held.{Holds, Holds-bind, holds_rules}
use cpp_p2pchat.Network.HeldCalls.{send_via_router-Holds}

-- a result that is no waiting
abbrev Prompt : {A : Type 0} → Result A → Type 0
Prompt (undefined relock) = ⊥
Prompt _ = Unit {0}

Prompt-of_ne : {A : Type 0} (r : Result A) → r ≢ undefined relock → Prompt r
Prompt-of_ne (ok a) h = tt
Prompt-of_ne (throw e) h = tt
Prompt-of_ne (undefined relock) h = h refl
Prompt-of_ne (undefined signed_overflow) h = tt
Prompt-of_ne (undefined out_of_bounds) h = tt
Prompt-of_ne (undefined dangling) h = tt
Prompt-of_ne (undefined unended) h = tt

deserialize-Prompt : (frame : Bytes) → Prompt (deserialize frame)
deserialize-Prompt frame =
    Prompt-of_ne (deserialize frame)
      (λ h. unfold deserialize range time_point in (ground (arith, h)))

magnitude-cases : (base : ℕ) (s : Bytes) → magnitude base s ≢ undefined relock
unfolding magnitude
magnitude-cases base [] h = ground arith
magnitude-cases base (c ∷ s) h = ground arith

stoi-prompt : (s : Bytes) → stoi s ≢ undefined relock
unfolding stoi
stoi-prompt s h = ground (arith, magnitude-cases 10 (take_sign (skip_space s)).1)

sender_endpoint-prompt :
    (stray : ℕ) (sender : Bytes) → sender_endpoint stray sender ≢ undefined relock
unfolding sender_endpoint
sender_endpoint-prompt stray sender h = elim (Option-cases (split_at b':' sender)) [
  | inl e ↦ ground (arith, e)
  | inr ((address, port), e) ↦ ground (arith, e, stoi-prompt port)
]

module _ {A D : Type 0} where
  lift-Holds : (r : Result A) → Prompt r → Holds {D = D} (lift r)
  unfolding lift
  lift-Holds (ok a) h = record { waits = λ n. tt; stays = λ n e. e }
  lift-Holds (throw x) h = record { waits = λ n. tt; stays = λ n e. e }
  lift-Holds (undefined relock) h = absurd h
  lift-Holds (undefined signed_overflow) h = record { waits = λ n. tt; stays = λ n e. e }
  lift-Holds (undefined out_of_bounds) h = record { waits = λ n. tt; stays = λ n e. e }
  lift-Holds (undefined dangling) h = record { waits = λ n. tt; stays = λ n e. e }
  lift-Holds (undefined unended) h = record { waits = λ n. tt; stays = λ n e. e }

module _ {D : Type 0} where
  deserialize-Holds : (frame : Bytes) → Holds {D = D} (lift (deserialize frame))
  deserialize-Holds frame = lift-Holds _ (deserialize-Prompt frame)

  sender_endpoint-Holds :
      (stray : ℕ) (sender : Bytes) → Holds {D = D} (lift (sender_endpoint stray sender))
  sender_endpoint-Holds stray sender =
      lift-Holds _ (Prompt-of_ne _ (sender_endpoint-prompt stray sender))

  store_peer-locked : (p : PeerInfo) (n : Network D) → (store_peer p n).locked ≡ n.locked
  unfolding store_peer
  store_peer-locked p n = refl

  notify_connection-locked :
      (id : Bytes) (c : Bool) (n : Network D) → (notify_connection id c n).locked ≡ n.locked
  unfolding notify_connection
  notify_connection-locked id c n = ground arith

  notify_message-locked :
      (id : Bytes) (msg : Message) (n : Network D) → (notify_message id msg n).locked ≡ n.locked
  unfolding notify_message
  notify_message-locked id msg n = ground arith

module _ {D : Type 0} (env : Platform) (now : ℤ) where
  answer_handshake-Holds : (sender id : Bytes) → Holds {D = D} (answer_handshake env now sender id)
  unfolding answer_handshake
  answer_handshake-Holds sender id = elim (Bool-cases (str_eq sender id)) [
    | inl e ↦ rw (e, answer_handshake) (search (holds_rules, send_via_router-Holds))
    | inr e ↦ rw (e, answer_handshake) (search holds_rules)
  ]

  meet_peer-Holds :
      (sender : Bytes) (parsed : Option (Bytes × Bytes))
      → Holds {D = D} (meet_peer env now sender parsed)
  unfolding meet_peer
  meet_peer-Holds sender none = search holds_rules
  meet_peer-Holds sender (some (id, key)) =
      search
        (
          holds_rules, sender_endpoint-Holds, store_peer-locked, notify_connection-locked,
          answer_handshake-Holds,
        )
        depth 12

  handle_message-Holds :
      (sender : Bytes) (msg : Message) → Holds {D = D} (handle_message env now sender msg)
  unfolding handle_message
  handle_message-Holds sender msg = elim (Bool-cases (is_handshake msg.type)) [
    | inl e ↦ rw e (search (holds_rules, meet_peer-Holds, notify_message-locked))
    | inr e ↦ rw e (search (holds_rules, notify_message-locked))
  ]

  receive-Holds : (sender frame : Bytes) → Holds {D = D} (receive env now sender frame)
  unfolding receive
  receive-Holds sender frame = search (holds_rules, deserialize-Holds, handle_message-Holds)

  pub route_round-Holds :
      (arrival : Arrival (Bytes × Bytes)) → Holds {D = D} (route_round env now arrival)
  unfolding route_round
  route_round-Holds (arrived (identity, frame)) = search (holds_rules, receive-Holds)
  route_round-Holds _ = search holds_rules

  poll_socket-Holds :
      (id : Bytes) (o : Option ℕ) (arrival : Arrival Bytes)
      → Holds {D = D} (poll_socket env now id o arrival)
  unfolding poll_socket
  poll_socket-Holds id none arrival = search holds_rules
  poll_socket-Holds id (some i) (arrived frame) = receive-Holds id frame
  poll_socket-Holds id (some i) failed = lift-Holds _ tt
  poll_socket-Holds id (some i) _ = search holds_rules

  poll_one-Holds :
      (id : Bytes) (arrival : Arrival Bytes) → Holds {D = D} (poll_one env now id arrival)
  unfolding poll_one
  poll_one-Holds id quiet = search holds_rules
  poll_one-Holds id _ = search (holds_rules, poll_socket-Holds)

  poll_sockets-Holds :
      (arrivals : Bytes → Arrival Bytes) (ids : List Bytes)
      → Holds {D = D} (poll_sockets env now arrivals ids)
  unfolding poll_sockets
  poll_sockets-Holds arrivals [] = search holds_rules
  poll_sockets-Holds arrivals (id ∷ ids) =
      Holds-bind _ _ (poll_one-Holds id (arrivals id)) (λ _. poll_sockets-Holds arrivals ids)

  pub poll_round-Holds :
      (arrivals : Bytes → Arrival Bytes) → Holds {D = D} (poll_round env now arrivals)
  unfolding poll_round
  poll_round-Holds arrivals = search (holds_rules, poll_sockets-Holds)
