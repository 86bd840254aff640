-- ===== src/Network/Sockets.antt =====
-- Calls of ZeroMQ, ownership of a socket by a `unique_ptr`, and the mutex over the sockets.
use cpp_p2pchat.Base.{ℕ, suc, true, false, [], ◌∷◌, if◌then◌else◌}
use cpp_p2pchat.Std.Result.{Result, ok, throw, undefined, zmq_error, relock}
use cpp_p2pchat.Std.Exec.{Exec, ◌>>◌, modify, pure}
use cpp_p2pchat.Std.UnorderedMap.{UnorderedMap}
use cpp_p2pchat.Network.State.{Network, Platform, Call, SocketType, create, close}

module _ {D : Type 0} where
  -- One call, noted in the history.
  unfoldable pub zmq_call : Platform → Call → Exec (Network D) (Unit {0})
  zmq_call env c n =
      let accepted = env.accepts n.history c in
      (
        if accepted then ok tt else throw zmq_error,
        record n { history = (c, accepted) ∷ n.history },
      )

  -- The destructor of a socket, which does not throw.
  unfoldable pub close_socket : ℕ → Network D → Network D
  close_socket socket n = record n { history = (close socket, true) ∷ n.history }

  -- `std::make_unique<zmq::socket_t>(context_, type)`
  unfoldable pub make_socket : Platform → SocketType → Exec (Network D) ℕ
  unfolding zmq_call
  make_socket env type n =
      let socket = n.next_socket in
      (zmq_call env (create type socket)
          >> modify (λ m. record m { next_socket = suc m.next_socket })
          >> pure socket)
        n

  -- A throw destroys the socket that a local `unique_ptr` owns.
  abbrev pub unwind : ℕ → Result (Unit {0}) × Network D → Result (Unit {0}) × Network D
  unwind socket (ok a, n) = (ok a, n)
  unwind socket (throw e, n) = (throw e, close_socket socket n)
  unwind socket (undefined u, n) = (undefined u, n)

  unfoldable pub owning : ℕ → Exec (Network D) (Unit {0}) → Exec (Network D) (Unit {0})
  unfolding close_socket
  owning socket m n = unwind socket (m n)

  unfoldable pub close_all : UnorderedMap ℕ → Network D → Network D
  unfolding close_socket
  close_all [] n = n
  close_all ((key, socket) ∷ entries) n = close_all entries (close_socket socket n)

  -- The end of a scope with a `lock_guard`: a thread that waits for ever keeps its lock.
  abbrev pub unlock : {A : Type 0} → Result A × Network D → Result A × Network D
  unlock (ok a, n) = (ok a, record n { locked = false })
  unlock (throw e, n) = (throw e, record n { locked = false })
  unlock (undefined u, n) = (undefined u, n)

  -- A scope that begins with `std::lock_guard<std::mutex> lock(socketsMutex_)`. The mutex is not
  -- recursive: to lock it while it is held is to wait for ever.
  unfoldable pub with_lock : {A : Type 0} → Exec (Network D) A → Exec (Network D) A
  with_lock m n =
      if n.locked then (undefined relock, n) else unlock (m (record n { locked = true }))
