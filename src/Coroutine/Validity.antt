-- ===== src/Coroutine/Validity.antt =====
-- The invariant of the map of sessions and the heap, and the changes that keep it.
use cpp_p2pchat.Base.{
  ℕ, suc, ◌≤◌, ◌≡◌, ◌≢◌, ap, ◌∙◌, inl, inr, Bool-cases, true, false, ◌&&◌, [], ◌∷◌, Option, some,
  arith, ◌==◌, if◌then◌else◌,
}
use mathlib.Core.Bool.{false≢true}
use cpp_p2pchat.Std.Result.{Bytes}
use cpp_p2pchat.Std.Text.{str_eq_iff}
use cpp_p2pchat.Std.UnorderedMap.{
  UnorderedMap, Distinct, find, insert, erase, find-insert, find-erase, insert-Distinct,
  erase-Distinct, find-head, find-tail,
}
use cpp_p2pchat.Coroutine.Objects.{Endpoint, Session, make_session, is_listed, destroyed}

abbrev pub Heap : Type 0
Heap = ℕ → Session

-- The heap with one session changed, or put in its place.
abbrev pub changed : ℕ → (Session → Session) → Heap → Heap
changed i f heap j = if j == i then f (heap j) else heap j

abbrev pub placed : ℕ → Session → Heap → Heap
placed i s heap j = if j == i then s else heap j

-- Each id has one entry, and its session is alive, was opened by us, and has this id, if the id is not
-- empty. A session that we opened is alive while its coroutine reads; one that came in is freed, and so
-- is every number that no session has had.
pub record Valid (m : UnorderedMap ℕ) (heap : Heap) (next : ℕ) : Type 0 where
  pub distinct : Distinct m
  pub listed :
      (id : Bytes) (i : ℕ)
      → find id m ≡ some i
      → ((heap i).alive ≡ true) × ((heap i).is_outgoing ≡ true)
  pub keyed : (id : Bytes) (i : ℕ) → find id m ≡ some i → id ≢ [] → (heap i).peer_id ≡ id
  pub held : (i : ℕ) → (heap i).is_outgoing ≡ true → (heap i).reading ≡ true → (heap i).alive ≡ true
  pub incoming : (i : ℕ) → (heap i).is_outgoing ≡ false → (heap i).alive ≡ false
  pub fresh : (i : ℕ) → next ≤ i → (heap i).alive ≡ false

pub find-is_listed :
    (id : Bytes) (i : ℕ) (m : UnorderedMap ℕ) → find id m ≡ some i → is_listed i m ≡ true
unfolding find is_listed
find-is_listed id i [] h = ground (arith, h)
find-is_listed id i ((j, k) ∷ m) h = ground (arith, h, find-is_listed id i m)

pub is_listed-find :
    (i : ℕ) (m : UnorderedMap ℕ)
    → Distinct m
    → is_listed i m ≡ true
    → (id : Bytes) × (find id m ≡ some i)
unfolding is_listed
is_listed-find i [] d h = absurd (false≢true h)
is_listed-find i ((j, k) ∷ m) d h = elim (Bool-cases (k == i)) [
  | inl same ↦ (j, find-head j k m ∙ ap some (ground arith))
  | inr other ↦
      let (id, found) = is_listed-find i m d.1 (ground arith) in (id, find-tail j id k i m d found)
]

pub is_listed-insert :
    (id : Bytes) (i : ℕ) (m : UnorderedMap ℕ) → is_listed i (insert id i m) ≡ true
unfolding insert is_listed
is_listed-insert id i [] = ground arith
is_listed-insert id i ((j, k) ∷ m) = ground (arith, is_listed-insert id i m)

module _ (m : UnorderedMap ℕ) (heap : Heap) (next : ℕ) (v : Valid m heap next) (i : ℕ) where
  -- a change that leaves what the invariant speaks of
  pub Valid-changed :
      (f : Session → Session)
      → ((s : Session) → (f s).alive ≡ s.alive)
      → ((s : Session) → (f s).is_outgoing ≡ s.is_outgoing)
      → ((s : Session) → (f s).peer_id ≡ s.peer_id)
      → ((s : Session) → (f s).reading ≡ true → s.reading ≡ true)
      → Valid m (changed i f heap) next
  Valid-changed f alive outgoing id reading = record {
    distinct = v.distinct;
    listed = λ k j h. ground (arith, v.listed k j h, alive (heap j), outgoing (heap j));
    keyed = λ k j h e. ground (arith, v.keyed k j h e, id (heap j));
    held = λ j o r.
        ground (arith, o, r, v.held j, alive (heap j), outgoing (heap j), reading (heap j));
    incoming = λ j o. ground (arith, o, v.incoming j, alive (heap j), outgoing (heap j));
    fresh = λ j h. ground (arith, v.fresh j h, alive (heap j));
  }

  -- the destruction of a session that nothing holds
  pub Valid-destroyed :
      is_listed i m ≡ false
      → ((heap i).is_outgoing && (heap i).reading) ≡ false
      → Valid m (changed i destroyed heap) next
  unfolding destroyed
  Valid-destroyed unlisted idle = record {
    distinct = v.distinct;
    listed = λ k j h. ground (arith, v.listed k j h, find-is_listed k j m h);
    keyed = λ k j h e. ground (arith, v.keyed k j h e);
    held = λ j o r. ground (arith, o, r, v.held j);
    incoming = λ j o. ground (arith, o, v.incoming j);
    fresh = λ j h. ground (arith, v.fresh j h);
  }

  -- the naming of a session without an id
  pub Valid-named :
      (id : Bytes)
      → (heap i).peer_id ≡ []
      → Valid m (changed i (λ s. record s { peer_id = id }) heap) next
  Valid-named id nameless = record {
    distinct = v.distinct;
    listed = λ k j h. ground (arith, v.listed k j h);
    keyed = λ k j h e. ground (arith, v.keyed k j h e, e);
    held = λ j o r. ground (arith, o, r, v.held j);
    incoming = λ j o. ground (arith, o, v.incoming j);
    fresh = λ j h. ground (arith, v.fresh j h);
  }

  -- the listing of a live session under its id
  pub Valid-insert :
      (id : Bytes)
      → (heap i).alive ≡ true
      → (heap i).is_outgoing ≡ true
      → (heap i).peer_id ≡ id
      → Valid (insert id i m) heap next
  Valid-insert id alive outgoing same = record {
    distinct = insert-Distinct id i m v.distinct;
    listed = λ k j h.
        ground (arith, h, find-insert id k i m, str_eq_iff id k, v.listed k j, alive, outgoing);
    keyed =
        λ k j h e. ground (arith, h, find-insert id k i m, str_eq_iff id k, v.keyed k j, e, same);
    held = v.held;
    incoming = v.incoming;
    fresh = v.fresh;
  }

module _ (m : UnorderedMap ℕ) (heap : Heap) (next : ℕ) (v : Valid m heap next) where
  -- the start of a live session's coroutine
  pub Valid-reading :
      (i : ℕ)
      → (heap i).alive ≡ true
      → Valid m (changed i (λ s. record s { reading = true }) heap) next
  Valid-reading i alive = record {
    distinct = v.distinct;
    listed = λ k j h. ground (arith, v.listed k j h);
    keyed = λ k j h e. ground (arith, v.keyed k j h e);
    held = λ j o r. ground (arith, o, r, v.held j, alive);
    incoming = λ j o. ground (arith, o, v.incoming j);
    fresh = λ j h. ground (arith, v.fresh j h);
  }

  pub Valid-erase : (id : Bytes) → Valid (erase id m) heap next
  Valid-erase id = record {
    distinct = erase-Distinct id m v.distinct;
    listed = λ k j h. ground (arith, h, find-erase id k m, v.listed k j);
    keyed = λ k j h e. ground (arith, h, find-erase id k m, v.keyed k j, e);
    held = v.held;
    incoming = v.incoming;
    fresh = v.fresh;
  }

  pub Valid-clear : Valid [] heap next
  unfolding find
  Valid-clear = record {
    distinct = tt;
    listed = λ k j h. ground (arith, h);
    keyed = λ k j h e. ground (arith, h);
    held = v.held;
    incoming = v.incoming;
    fresh = v.fresh;
  }

  -- a new session that we opened
  pub Valid-opened :
      (endpoint : Option Endpoint)
      → Valid m (placed next (make_session endpoint true) heap) (suc next)
  unfolding make_session
  Valid-opened endpoint = record {
    distinct = v.distinct;
    listed = λ k j h. ground (arith, v.listed k j h, v.fresh next (omega arith));
    keyed = λ k j h e. ground (arith, v.keyed k j h e, v.listed k j h, v.fresh next (omega arith));
    held = λ j o r. ground (arith, o, r, v.held j);
    incoming = λ j o. ground (arith, o, v.incoming j);
    fresh = λ j h. ground (arith, v.fresh j, h);
  }

  -- No entry points to a number that no session has had.
  pub next-is_listed : is_listed next m ≡ false
  next-is_listed = elim (Bool-cases (is_listed next m)) [
    | inl is_in ↦
        let (id, found) = is_listed-find next m v.distinct is_in in
        ground (arith, v.listed id next found, v.fresh next (omega arith))
    | inr out ↦ out
  ]

  -- a connection that came in, whose coroutine is started and which nothing holds
  pub Valid-accepted :
      (endpoint : Option Endpoint)
      → Valid m
          (changed next destroyed (
            changed next
              (λ s. record s { reading = true })
              (placed next (make_session endpoint false) heap)))
          (suc next)
  unfolding make_session destroyed
  Valid-accepted endpoint = record {
    distinct = v.distinct;
    listed = λ k j h. ground (arith, v.listed k j h, v.fresh next (omega arith));
    keyed = λ k j h e. ground (arith, v.keyed k j h e, v.listed k j h, v.fresh next (omega arith));
    held = λ j o r. ground (arith, o, r, v.held j);
    incoming = λ j o. ground (arith, o, v.incoming j);
    fresh = λ j h. ground (arith, v.fresh j, h);
  }
