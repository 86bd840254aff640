-- ===== src/Coroutine/Identity.antt =====
-- The id of a session in all sequences of actions.
use cpp_p2pchat.Base.{
  ℕ, zero, suc, ◌≡◌, ◌≢◌, refl, sym, ◌∙◌, inl, inr, Bool, true, false, List, [], ◌∷◌, Option, none,
  some, arith, ◌==◌, ℤ, Bool-cases,
}
use mathlib.Core.Bool.{false≢true}
use cpp_p2pchat.Std.Result.{Bytes}
use cpp_p2pchat.Std.Exec.{◌>>=◌}
use cpp_p2pchat.Std.UnorderedMap.{find, erase, Iteration}
use cpp_p2pchat.Message.{Message, create_handshake_message}
use cpp_p2pchat.PeerManager.{get_local_peer}
use cpp_p2pchat.Coroutine.Objects.{
  Endpoint, Session, Manager, make_session, add_session, release, close_socket, write_message,
}
use cpp_p2pchat.Coroutine.Manager.{
  session_numbers, close_acceptor, accepts, accept_again, start_accepting, start_reading, accepted,
  accept_round, connect_session, drop_found, drop_peer, send_found, send_to, send_to_all,
  close_sockets, release_all, broadcast, stop_all, Action, handle_messages, handle_connections,
  start, stop, accept, connect, disconnect, send, send_all, deliver, act, on_messages,
  on_connections,
}
use cpp_p2pchat.Coroutine.Calls.{act-deliver}
use cpp_p2pchat.Coroutine.Reachable.{Reach, Reach-IsValid}
use cpp_p2pchat.Coroutine.Naming.{
  HasId, HasId-if, HasId-change, HasId-release, HasId-write, HasId-tell, HasId-close, HasId-resume,
}

module _ {D : Type 0} (i : ℕ) (id : Bytes) where
  HasId-add :
      (s : Session) (n : Manager D)
      → i ≢ n.next_session
      → HasId i id n
      → HasId i id (add_session s n)
  unfolding add_session
  HasId-add s n other h = elim (Bool-cases (i == n.next_session)) [
    | inl same ↦ absurd (other (ground arith))
    | inr apart ↦ ground (arith, apart, h)
  ]

  HasId-start_reading : (j : ℕ) (n : Manager D) → HasId i id n → HasId i id (start_reading j n)
  unfolding start_reading
  HasId-start_reading j n h = HasId-change i id j (λ s. record s { reading = true }) n (λ s. refl) h

  HasId-again : (n : Manager D) → HasId i id n → HasId i id (accept_again n)
  unfolding accept_again
  HasId-again n h = HasId-if i id (accepts n) (record n { accept_loops = suc n.accept_loops }) n h h

  HasId-accepted :
      (o : Option (Option Endpoint)) (n : Manager D)
      → i ≢ n.next_session
      → HasId i id n
      → HasId i id (accepted o n)
  unfolding accepted
  HasId-accepted none n other h = h
  HasId-accepted (some e) n other h =
      let a = add_session (make_session e false) n in
      HasId-release i id n.next_session (start_reading n.next_session a)
        (HasId-start_reading n.next_session a (HasId-add (make_session e false) n other h))

  HasId-accept :
      (o : Option (Option Endpoint)) (n : Manager D) (loops : ℕ)
      → n.accept_loops ≡ loops
      → i ≢ n.next_session
      → HasId i id n
      → HasId i id (accept_round o n)
  unfolding accept_round
  HasId-accept o n zero e other h = rw e h
  HasId-accept o n (suc loops) e other h =
      let m = record n { accept_loops = loops } in
      rw e (HasId-again (accepted o m) (HasId-accepted o m other h))

  HasId-connect :
      (now : ℤ) (o : Option (Option Endpoint)) (n : Manager D)
      → i ≢ n.next_session
      → HasId i id n
      → HasId i id (connect_session now o n)
  unfolding connect_session
  HasId-connect now none n other h = h
  HasId-connect now (some e) n other h =
      let self = get_local_peer n.shared.manager in
      let hello = create_handshake_message now self.id self.public_key in
      let a = add_session (make_session e true) n in
      HasId-start_reading n.next_session (write_message n.next_session hello a)
        (HasId-write i id n.next_session hello a (HasId-add (make_session e true) n other h))

  HasId-drop :
      (k : Bytes) (o : Option ℕ) (n : Manager D) → HasId i id n → HasId i id (drop_found k o n)
  unfolding drop_found
  HasId-drop k none n h = h
  HasId-drop k (some j) n h =
      let m = record n { sessions = erase k n.sessions } in
      HasId-tell i id k false (release j m) (HasId-release i id j m h)

  HasId-send :
      (o : Option ℕ) (m : Message) (n : Manager D) → HasId i id n → HasId i id (send_found o m n)
  unfolding send_found
  HasId-send none m n h = h
  HasId-send (some j) m n h = HasId-write i id j m n h

  HasId-send_to_all :
      (is : List ℕ) (m : Message) (n : Manager D) → HasId i id n → HasId i id (send_to_all is m n)
  unfolding send_to_all
  HasId-send_to_all [] m n h = h
  HasId-send_to_all (j ∷ is) m n h =
      HasId-send_to_all is m (write_message j m n) (HasId-write i id j m n h)

  HasId-close_sockets :
      (is : List ℕ) (n : Manager D) → HasId i id n → HasId i id (close_sockets is n)
  unfolding close_sockets
  HasId-close_sockets [] n h = h
  HasId-close_sockets (j ∷ is) n h =
      HasId-close_sockets is (close_socket j n) (HasId-close i id j n h)

  HasId-release_all : (is : List ℕ) (n : Manager D) → HasId i id n → HasId i id (release_all is n)
  unfolding release_all
  HasId-release_all [] n h = h
  HasId-release_all (j ∷ is) n h = HasId-release_all is (release j n) (HasId-release i id j n h)

  HasId-start :
      (bound : Bool) (n : Manager D) → HasId i id n → HasId i id (start_accepting bound n).1
  unfolding start_accepting
  HasId-start true n h = HasId-again (record n { acceptor = some true; running = true }) h
  HasId-start false n h = h

  module _ (order : Iteration ℕ) where
    HasId-stop : (n : Manager D) → HasId i id n → HasId i id (stop_all order n)
    unfolding stop_all
    HasId-stop n h =
        let numbers = session_numbers (order.arrange n.sessions) in
        let n' = record n { running = false; acceptor = close_acceptor n.acceptor } in
        let m = close_sockets numbers n' in
        HasId-release_all numbers (record m { sessions = [] }) (HasId-close_sockets numbers n' h)

    HasId-act :
        (a : Action D) (n : Manager D)
        → id ≢ []
        → i ≢ n.next_session
        → HasId i id n
        → HasId i id (act order a n).1
    unfolding act ◌>>=◌
    HasId-act (handle_messages handler) n filled other h = unfold on_messages in h
    HasId-act (handle_connections handler) n filled other h = unfold on_connections in h
    HasId-act (start bound) n filled other h = HasId-start bound n h
    HasId-act stop n filled other h = HasId-stop n h
    HasId-act (accept o) n filled other h = HasId-accept o n n.accept_loops refl other h
    HasId-act (connect now o) n filled other h = HasId-connect now o n other h
    HasId-act (disconnect k) n filled other h =
        unfold drop_peer in HasId-drop k (find k n.sessions) n h
    HasId-act (send k m) n filled other h = unfold send_to in HasId-send (find k n.sessions) m n h
    HasId-act (send_all m) n filled other h =
        unfold broadcast in HasId-send_to_all (session_numbers (order.arrange n.sessions)) m n h
    HasId-act (deliver now j bytes) n filled other h =
        rw (act-deliver order now j bytes n) (HasId-resume i id now j bytes n filled h)

    -- In every state that the manager can reach, a session that is alive and has introduced itself, by an
    -- id that is not empty, has the same id after any call and whatever arrives on any connection.
    pub Reach-HasId :
        (a : Action D) (n : Manager D)
        → Reach order n
        → (n.heap i).alive ≡ true
        → id ≢ []
        → (n.heap i).peer_id ≡ id
        → ((act order a n).1.heap i).peer_id ≡ id
    Reach-HasId a n r alive filled h =
        let v = Reach-IsValid order r in
        let other : i ≢ n.next_session =
          λ e. false≢true (sym (v.fresh i (omega (arith, e))) ∙ alive) in
        HasId-act a n filled other h
