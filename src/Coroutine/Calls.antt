-- ===== src/Coroutine/Calls.antt =====
-- The methods of the manager and the accepting of connections keep the invariant of the sessions.
use cpp_p2pchat.Base.{
  ℕ, zero, suc, ◌≡◌, refl, Bool, true, false, List, [], ◌∷◌, Option, none, some, arith, ℤ,
}
use cpp_p2pchat.Std.Result.{Bytes, Result, ok, throw, undefined}
use cpp_p2pchat.Std.Exec.{◌>>=◌, continue, pure}
use cpp_p2pchat.Std.UnorderedMap.{find, erase, Iteration}
use cpp_p2pchat.Message.{Message, create_handshake_message}
use cpp_p2pchat.PeerManager.{get_local_peer}
use cpp_p2pchat.Coroutine.Objects.{
  Endpoint, Manager, make_session, change, add_session, is_held, handed, release, close_socket,
  write_message,
}
use cpp_p2pchat.Coroutine.Manager.{
  session_numbers, close_acceptor, accepts, accept_again, start_accepting, start_reading, accepted,
  accept_round, connect_session, drop_found, drop_peer, send_found, send_to, send_to_all,
  close_sockets, release_all, broadcast, stop_all, Action, handle_messages, handle_connections,
  start, stop, accept, connect, disconnect, send, send_all, deliver, act, on_messages,
  on_connections,
}
use cpp_p2pchat.Coroutine.Sessions.{resume}
use cpp_p2pchat.Coroutine.Validity.{
  Valid-reading, Valid-erase, Valid-clear, Valid-opened, Valid-accepted, next-is_listed,
}
use cpp_p2pchat.Coroutine.Preserving.{
  IsValid, IsValid-release, IsValid-tell, IsValid-write, IsValid-close, IsValid-if, IsValid-resume,
}

module _ {D : Type 0} where
  IsValid-again : (n : Manager D) → IsValid n → IsValid (accept_again n)
  unfolding accept_again
  IsValid-again n v =
      IsValid-if (accepts n) (record n { accept_loops = suc n.accept_loops }) n (λ h. v) (λ h. v)

  IsValid-accepted :
      (o : Option (Option Endpoint)) (n : Manager D) → IsValid n → IsValid (accepted o n)
  unfolding accepted add_session start_reading change release is_held
  IsValid-accepted none n v = v
  IsValid-accepted (some e) n v =
      let m = start_reading n.next_session (add_session (make_session e false) n) in
      let free : is_held n.next_session m ≡ false =
        unfold make_session in ground (arith, next-is_listed n.sessions n.heap n.next_session v) in
      rw free (Valid-accepted n.sessions n.heap n.next_session v e)

  IsValid-accept_from :
      (o : Option (Option Endpoint)) (n : Manager D) (loops : ℕ)
      → n.accept_loops ≡ loops
      → IsValid n
      → IsValid (accept_round o n)
  unfolding accept_round
  IsValid-accept_from o n zero e v = rw e v
  IsValid-accept_from o n (suc others) e v =
      let m = record n { accept_loops = others } in
      rw e (IsValid-again (accepted o m) (IsValid-accepted o m v))

  alive-write :
      (i : ℕ) (m : Message) (n : Manager D)
      → (n.heap i).alive ≡ true
      → ((write_message i m n).heap i).alive ≡ true
  unfolding write_message change handed
  alive-write i m n h = ground (arith, h)

  IsValid-connect :
      (now : ℤ) (o : Option (Option Endpoint)) (n : Manager D)
      → IsValid n
      → IsValid (connect_session now o n)
  unfolding connect_session start_reading add_session change
  IsValid-connect now none n v = v
  IsValid-connect now (some e) n v =
      let self = get_local_peer n.shared.manager in
      let i = n.next_session in
      let opened = add_session (make_session e true) n in
      let m = write_message i (create_handshake_message now self.id self.public_key) opened in
      Valid-reading m.sessions m.heap m.next_session
        (IsValid-write i (create_handshake_message now self.id self.public_key) opened
          (Valid-opened n.sessions n.heap n.next_session v e))
        i
        (alive-write i (create_handshake_message now self.id self.public_key) opened
          (unfold make_session in ground arith))

  IsValid-drop :
      (id : Bytes) (o : Option ℕ) (n : Manager D) → IsValid n → IsValid (drop_found id o n)
  unfolding drop_found
  IsValid-drop id none n v = v
  IsValid-drop id (some i) n v =
      let m = record n { sessions = erase id n.sessions } in
      IsValid-tell id false (release i m)
        (IsValid-release i m (Valid-erase n.sessions n.heap n.next_session v id))

  IsValid-send :
      (o : Option ℕ) (m : Message) (n : Manager D) → IsValid n → IsValid (send_found o m n)
  unfolding send_found
  IsValid-send none m n v = v
  IsValid-send (some i) m n v = IsValid-write i m n v

  IsValid-send_to_all :
      (is : List ℕ) (m : Message) (n : Manager D) → IsValid n → IsValid (send_to_all is m n)
  unfolding send_to_all
  IsValid-send_to_all [] m n v = v
  IsValid-send_to_all (i ∷ is) m n v =
      IsValid-send_to_all is m (write_message i m n) (IsValid-write i m n v)

  IsValid-close_sockets : (is : List ℕ) (n : Manager D) → IsValid n → IsValid (close_sockets is n)
  unfolding close_sockets
  IsValid-close_sockets [] n v = v
  IsValid-close_sockets (i ∷ is) n v =
      IsValid-close_sockets is (close_socket i n) (IsValid-close i n v)

  IsValid-release_all : (is : List ℕ) (n : Manager D) → IsValid n → IsValid (release_all is n)
  unfolding release_all
  IsValid-release_all [] n v = v
  IsValid-release_all (i ∷ is) n v = IsValid-release_all is (release i n) (IsValid-release i n v)

  IsValid-start : (bound : Bool) (n : Manager D) → IsValid n → IsValid (start_accepting bound n).1
  unfolding start_accepting
  IsValid-start true n v = IsValid-again (record n { acceptor = some true; running = true }) v
  IsValid-start false n v = v

  -- What is left of the bytes is dropped, and the manager stays.
  rest_dropped : (r : Result Bytes × Manager D) → (continue r.0 (λ rest. pure tt) r.1).1 ≡ r.1
  unfolding pure
  rest_dropped (ok rest, n) = refl
  rest_dropped (throw e, n) = refl
  rest_dropped (undefined u, n) = refl

  module _ (order : Iteration ℕ) where
    IsValid-stop : (n : Manager D) → IsValid n → IsValid (stop_all order n)
    unfolding stop_all
    IsValid-stop n v =
        let numbers = session_numbers (order.arrange n.sessions) in
        let n' = record n { running = false; acceptor = close_acceptor n.acceptor } in
        let m = close_sockets numbers n' in
        let w = IsValid-close_sockets numbers n' v in
        IsValid-release_all numbers (record m { sessions = [] })
          (Valid-clear m.sessions m.heap m.next_session w)

    -- Whatever a call or an answer of Boost.Asio does, it leaves a valid manager.
    pub IsValid-act : (a : Action D) (n : Manager D) → IsValid n → IsValid (act order a n).1
    unfolding act ◌>>=◌
    IsValid-act (handle_messages handler) n v = unfold on_messages in v
    IsValid-act (handle_connections handler) n v = unfold on_connections in v
    IsValid-act (start bound) n v = IsValid-start bound n v
    IsValid-act stop n v = IsValid-stop n v
    IsValid-act (accept o) n v = IsValid-accept_from o n n.accept_loops refl v
    IsValid-act (connect now o) n v = IsValid-connect now o n v
    IsValid-act (disconnect id) n v = unfold drop_peer in IsValid-drop id (find id n.sessions) n v
    IsValid-act (send id m) n v = unfold send_to in IsValid-send (find id n.sessions) m n v
    IsValid-act (send_all m) n v =
        unfold broadcast in IsValid-send_to_all (session_numbers (order.arrange n.sessions)) m n v
    IsValid-act (deliver now i bytes) n v =
        rw (rest_dropped (resume now i bytes n)) (IsValid-resume now i bytes n v)

    pub act-deliver :
        (now : ℤ) (i : ℕ) (bytes : Bytes) (n : Manager D)
        → (act order (deliver now i bytes) n).1 ≡ (resume now i bytes n).1
    unfolding act ◌>>=◌
    act-deliver now i bytes n = rest_dropped (resume now i bytes n)
