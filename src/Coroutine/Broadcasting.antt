-- ===== src/Coroutine/Broadcasting.antt =====
-- `BroadcastMessage` over sessions, against `SendMessage`.
use cpp_p2pchat.Base.{ℕ, ◌≡◌, refl, ap, ◌∙◌, List, [], ◌∷◌, some, sym}
use cpp_p2pchat.Std.Result.{Bytes}
use cpp_p2pchat.Std.UnorderedMap.{UnorderedMap, Distinct, Iteration, find, find-head, find-tail}
use cpp_p2pchat.Message.{Message}
use cpp_p2pchat.Coroutine.Objects.{Manager, change, write_message}
use cpp_p2pchat.Coroutine.Manager.{
  session_numbers, session_ids, send_found, send_to, send_to_all, broadcast, listed_peers,
}

module _ {D : Type 0} (message : Message) where
  -- `SendMessage` to one peer after the other
  abbrev pub send_each : List Bytes → Manager D → Manager D
  send_each [] n = n
  send_each (id ∷ ids) n = send_each ids (send_to id message n)

  sessions-write : (i : ℕ) (n : Manager D) → (write_message i message n).sessions ≡ n.sessions
  unfolding write_message change
  sessions-write i n = refl

  send_to-found :
      (id : Bytes) (i : ℕ) (n : Manager D)
      → find id n.sessions ≡ some i
      → send_to id message n ≡ write_message i message n
  unfolding send_to send_found
  send_to-found id i n found = rw found refl

  -- The loop over some entries of the map is the sending to their ids.
  send_to_all-each :
      (l : UnorderedMap ℕ) (n : Manager D)
      → Distinct l
      → ((id : Bytes) (i : ℕ) → find id l ≡ some i → find id n.sessions ≡ some i)
      → send_to_all (session_numbers l) message n ≡ send_each (session_ids l) n
  unfolding send_to_all session_numbers session_ids
  send_to_all-each [] n d within = refl
  send_to_all-each ((id, i) ∷ l) n d within =
      send_to_all-each l (write_message i message n) d.1
        (λ k j found. sessions-kept k j (within k j (find-tail id k i j l d found)))
      ∙ ap (send_each (session_ids l)) (sym (send_to-found id i n (within id i (find-head id i l))))
    where
      sessions-kept :
          (k : Bytes) (j : ℕ)
          → find k n.sessions ≡ some j
          → find k (write_message i message n).sessions ≡ some j
      sessions-kept k j found = rw (sessions-write i n) found

  -- `BroadcastMessage` does what `SendMessage` does to each peer that `GetConnectedPeers` lists, in the
  -- order of the list. No id has two entries in the map.
  pub broadcast-each :
      (order : Iteration ℕ) (n : Manager D)
      → Distinct n.sessions
      → broadcast order message n ≡ send_each (listed_peers order n) n
  unfolding broadcast listed_peers
  broadcast-each order n d =
      send_to_all-each (order.arrange n.sessions) n (order.arrange-Distinct n.sessions d)
        λ id i found. sym (order.find-arrange n.sessions id d) ∙ found
