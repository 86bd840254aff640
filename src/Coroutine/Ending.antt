-- ===== src/Coroutine/Ending.antt =====
-- The end of a connection, by itself or by `DisconnectPeer`, and what is left behind.
use cpp_p2pchat.Base.{
  ℕ, ◌≡◌, ◌≢◌, refl, ap, ◌==◌, inl, inr, ◌∙◌, true, false, [], none, some, arith, if◌then◌else◌, ℤ,
  Bool-cases,
}
use mathlib.Core.Bool.{or-true}
use cpp_p2pchat.Std.Result.{Bytes}
use cpp_p2pchat.Std.Text.{str_eq_refl}
use cpp_p2pchat.Std.UnorderedMap.{find, erase, find-erase}
use cpp_p2pchat.Message.{Message}
use cpp_p2pchat.Network.{Shared}
use cpp_p2pchat.Coroutine.Objects.{
  Manager, Session, has_peer_id, change, closed, destroyed, handed, is_held, is_listed, release,
  close_socket, tell_connection, write_message,
}
use cpp_p2pchat.Coroutine.Sessions.{handle_session_message, handle_error, finished, end_session}
use cpp_p2pchat.Coroutine.Manager.{drop_found, drop_peer, send_found, send_to}
use cpp_p2pchat.Coroutine.Validity.{changed}
use cpp_p2pchat.Coroutine.Effects.{told, heard, tell_connection-told}
use cpp_p2pchat.Coroutine.Handling.{handle_session_message-other}

-- a session whose coroutine has ended
abbrev pub Ended : Session → Type 0
Ended s = (s.reading ≡ false) × (s.is_open ≡ false)

destroyed-Ended : (i : ℕ) (h : ℕ → Session) → Ended (h i) → Ended (changed i destroyed h i)
unfolding destroyed
destroyed-Ended i h ended = ground arith

module _ {D : Type 0} where
  release-fields :
      (i : ℕ) (n : Manager D)
      → release i n ≡ record n { heap = if is_held i n then n.heap else changed i destroyed n.heap }
  unfolding release change
  release-fields i n =
      elim (is_held i n)
        as (λ b.
          (if b then n else change i destroyed n)
          ≡ record n { heap = if b then n.heap else changed i destroyed n.heap }) [
            | true ↦ refl
            | false ↦ refl
          ]

  -- what is shared once the connection handler knows that the connection is lost
  abbrev pub lost : ℕ → Manager D → Shared D
  lost i n =
      if has_peer_id (n.heap i)
      then told n.connection_handler (n.heap i).peer_id false n.shared
      else n.shared

  handle_error-fields :
      (i : ℕ) (n : Manager D)
      → handle_error i n ≡ record n { shared = lost i n; heap = changed i closed n.heap }
  unfolding handle_error close_socket change
  handle_error-fields i n =
      rw (tell_connection-told (n.heap i).peer_id false n)
        (elim (has_peer_id (n.heap i))
          as (λ b.
            change i closed (
              if b
              then record n { shared = told n.connection_handler (n.heap i).peer_id false n.shared }
              else n)
            ≡ record n {
              shared =
                  if b
                  then told n.connection_handler (n.heap i).peer_id false n.shared
                  else n.shared;
              heap = changed i closed n.heap;
            }) [ true ↦ refl | false ↦ refl ])

  -- the manager when the coroutine is over and the session not yet given up
  abbrev settled : ℕ → Manager D → Manager D
  settled i n = record n { shared = lost i n; heap = changed i finished (changed i closed n.heap) }

  end_session-release : (i : ℕ) (n : Manager D) → end_session i n ≡ release i (settled i n)
  unfolding end_session change
  end_session-release i n =
      ap (λ m. release i (record m { heap = changed i finished m.heap })) (handle_error-fields i n)

  settled-Ended : (i : ℕ) (n : Manager D) → Ended ((settled i n).heap i)
  unfolding finished closed
  settled-Ended i n = ground arith

  pub end_session-fields :
      (i : ℕ) (n : Manager D)
      → let e = end_session i n in
        (e.sessions ≡ n.sessions) × (e.shared ≡ lost i n) × Ended (e.heap i)
  end_session-fields i n =
      let m = settled i n in
      let over = settled-Ended i n in
      rw (end_session-release i n, release-fields i m)
        (
          refl,
          refl,
          elim (is_held i m)
              as (λ b. Ended ((if b then m.heap else changed i destroyed m.heap) i)) [
                | true ↦ over
                | false ↦ destroyed-Ended i m.heap over
              ],
        )

  write_message-closed :
      (i j : ℕ) (msg : Message) (n : Manager D)
      → (n.heap i).is_open ≡ false
      → (write_message i msg n).heap j ≡ n.heap j
  unfolding write_message change handed
  write_message-closed i j msg n h = elim (Bool-cases (j == i)) [
    | inl same ↦
        let at_i : j ≡ i = ground arith in rw (same, ap (λ k. (n.heap k).is_open) at_i ∙ h) refl
    | inr other ↦ rw other refl
  ]

module _ {D : Type 0} (id : Bytes) (i : ℕ) (n : Manager D) (listed : find id n.sessions ≡ some i)
    (has_id : (n.heap i).peer_id ≡ id) (filled : id ≢ []) where
  named : has_peer_id (n.heap i) ≡ true
  unfolding has_peer_id
  named = ground arith

  lost-told : lost i n ≡ told n.connection_handler id false n.shared
  lost-told = rw (named, has_id) refl

  -- A connection that is lost is told to the connection handler, and its session stays in the map under
  -- its id, which is not empty. A message that is sent to the id then is written to no socket.
  pub end_session-stays_listed :
      (msg : Message) (j : ℕ)
      → let e = end_session i n in
        (e.shared ≡ told n.connection_handler id false n.shared)
        × (find id e.sessions ≡ some i)
        × ((send_to id msg e).heap j ≡ e.heap j)
  end_session-stays_listed msg j =
      let e = end_session i n in
      let (sessions, shared, ended) = end_session-fields i n in
      let found : find id e.sessions ≡ some i = ap (find id) sessions ∙ listed in
      (
        shared ∙ lost-told,
        found,
        unfold send_to send_found in rw found (write_message-closed i j msg e ended.1),
      )

  -- the manager without the entry
  abbrev dropped : Manager D
  dropped = record n {
    sessions = erase id n.sessions;
    shared = told n.connection_handler id false n.shared;
  }

  drop_peer-dropped :
      (n.heap i).is_outgoing ≡ true → (n.heap i).reading ≡ true → drop_peer id n ≡ dropped
  unfolding drop_peer drop_found
  drop_peer-dropped outgoing reading =
      let m = record n { sessions = erase id n.sessions } in
      let kept : release i m ≡ m =
        unfold release is_held in
        rw (outgoing, reading, or-true (is_listed i (erase id n.sessions))) refl in
      ap (λ o. drop_found id o n) listed
      ∙ ap (tell_connection id false) kept
      ∙ tell_connection-told id false m

  -- `DisconnectPeer` tells the connection handler and takes the session out of the map, and the
  -- connection goes on: where we opened it and it is read, its session is as before, and a message
  -- that comes over it still goes to the user's handler under the id.
  pub drop_peer-goes_on :
      (now : ℤ) (msg : Message)
      → (n.heap i).is_outgoing ≡ true
      → (n.heap i).reading ≡ true
      → let m = drop_peer id n in
        (find id m.sessions ≡ none)
        × (m.heap i ≡ n.heap i)
        × (m.shared ≡ told n.connection_handler id false n.shared)
        × (handle_session_message now i msg m
            ≡ record m { shared = heard m.message_handler id msg m.shared })
  drop_peer-goes_on now msg outgoing reading = rw (drop_peer-dropped outgoing reading) (
    find-erase id id n.sessions ∙ rw str_eq_refl refl,
    refl,
    refl,
    handle_session_message-other now i msg dropped (inl named) ∙ rw (named, has_id) refl,
  )
