-- ===== src/Coroutine/Effects.antt =====
-- What the parts of `HandleSessionMessage` do to the fields of the manager.
use cpp_p2pchat.Base.{
  ℕ, ◌≡◌, refl, inl, inr, Bool, true, Option, none, some, arith, if◌then◌else◌, ℤ, Bool-cases,
}
use cpp_p2pchat.Std.Result.{Bytes}
use cpp_p2pchat.Std.UnorderedMap.{insert}
use cpp_p2pchat.Message.{Message}
use cpp_p2pchat.PeerManager.{add_peer}
use cpp_p2pchat.Network.{Shared, MessageHandler, ConnectionHandler, introduced}
use cpp_p2pchat.Coroutine.Objects.{
  Endpoint, Manager, has_peer_id, change, is_held, is_listed, release, release_old, tell_connection,
}
use cpp_p2pchat.Coroutine.Sessions.{store_endpoint, forward_message}

module _ {D : Type 0} where
  -- what the handlers leave of what is shared; a missing handler leaves it as it is
  abbrev pub told : Option (ConnectionHandler D) → Bytes → Bool → Shared D → Shared D
  told none id connected shared = shared
  told (some handler) id connected shared = handler id connected shared

  abbrev pub heard : Option (MessageHandler D) → Bytes → Message → Shared D → Shared D
  heard none id msg shared = shared
  heard (some handler) id msg shared = handler id msg shared

  -- the peer stored at the address of its connection, if there is one
  abbrev pub stored : ℤ → Bytes → Bytes → Option Endpoint → Shared D → Shared D
  stored now id key none shared = shared
  stored now id key (some (address, port)) shared = record shared {
    manager = record shared.manager {
      peers =
          insert id
            (record {
              id = id;
              address = address;
              port = port;
              public_key = key;
              is_connected = true;
              last_seen = now;
            })
            shared.manager.peers;
    };
  }

  pub tell_connection-told :
      (id : Bytes) (c : Bool) (n : Manager D)
      → tell_connection id c n ≡ record n { shared = told n.connection_handler id c n.shared }
  unfolding tell_connection
  tell_connection-told id c n =
      elim n.connection_handler
        as (λ o.
          (elim o [ none ↦ n | some handler ↦ record n { shared = handler id c n.shared } ])
          ≡ record n { shared = told o id c n.shared }) [ none ↦ refl | some f ↦ refl ]

  pub store_endpoint-stored :
      (now : ℤ) (id key : Bytes) (o : Option Endpoint) (n : Manager D)
      → store_endpoint now id key o n ≡ record n { shared = stored now id key o n.shared }
  unfolding store_endpoint add_peer introduced
  store_endpoint-stored now id key none n = refl
  store_endpoint-stored now id key (some (address, port)) n = refl

  pub forward_message-heard :
      (i : ℕ) (msg : Message) (n : Manager D)
      → forward_message i msg n ≡ (
          if has_peer_id (n.heap i)
          then record n { shared = heard n.message_handler (n.heap i).peer_id msg n.shared }
          else n)
  unfolding forward_message
  forward_message-heard i msg n =
      elim n.message_handler
        as (λ o.
          (if has_peer_id (n.heap i)
            then (elim o [
              | none ↦ n
              | some handler ↦ record n { shared = handler (n.heap i).peer_id msg n.shared }
            ])
            else n)
          ≡ (if has_peer_id (n.heap i)
              then record n { shared = heard o (n.heap i).peer_id msg n.shared }
              else n)) [ none ↦ refl | some f ↦ refl ]

  -- Where another session is given up, only the heap changes, and not at a session that is listed.
  pub release-kept :
      (i j : ℕ) (n : Manager D)
      → is_listed i n.sessions ≡ true
      → (release j n ≡ record n { heap = (release j n).heap }) × ((release j n).heap i ≡ n.heap i)
  unfolding release change
  release-kept i j n h = elim (Bool-cases (is_held j n)) [
    | inl held ↦ rw held (refl, refl)
    | inr free ↦ rw free (refl, unfold is_held in ground arith)
  ]

  pub release_old-kept :
      (i : ℕ) (o : Option ℕ) (n : Manager D)
      → is_listed i n.sessions ≡ true
      → (release_old o n ≡ record n { heap = (release_old o n).heap })
        × ((release_old o n).heap i ≡ n.heap i)
  unfolding release_old
  release_old-kept i none n h = (refl, refl)
  release_old-kept i (some j) n h = release-kept i j n h
