-- ===== src/Coroutine/Stopping.antt =====
-- `Stop` over sessions: what it closes, and what it leaves open.
use cpp_p2pchat.Base.{
  ℕ, ◌≡◌, refl, ap, sym, ◌∙◌, inl, inr, Bool, true, false, not, ◌&&◌, List, [], ◌∷◌, arith, ◌==◌,
  Bool-cases,
}
use mathlib.Core.Bool.{or-true}
use cpp_p2pchat.Std.UnorderedMap.{UnorderedMap, Distinct, Iteration}
use cpp_p2pchat.Coroutine.Objects.{
  Manager, change, closed, destroyed, is_held, is_listed, release, close_socket,
}
use cpp_p2pchat.Coroutine.Manager.{
  session_numbers, close_acceptor, close_sockets, release_all, accepts, stop_all,
}
use cpp_p2pchat.Coroutine.Validity.{find-is_listed, is_listed-find}

-- A loop over a map meets the sessions that are in it.
is_listed-arrange :
    (order : Iteration ℕ) (i : ℕ) (m : UnorderedMap ℕ)
    → Distinct m
    → is_listed i (order.arrange m) ≡ is_listed i m
is_listed-arrange order i m d = elim (Bool-cases (is_listed i m)) [
  | inl is_in ↦
      let (id, found) = is_listed-find i m d is_in in
      find-is_listed id i (order.arrange m) (order.find-arrange m id d ∙ found) ∙ sym is_in
  | inr out ↦ elim (Bool-cases (is_listed i (order.arrange m))) [
    | inl met ↦
        let (id, found) = is_listed-find i (order.arrange m) (order.arrange-Distinct m d) met in
        met ∙ sym (find-is_listed id i m (sym (order.find-arrange m id d) ∙ found))
    | inr unmet ↦ unmet ∙ sym out
  ]
]

module _ {D : Type 0} (i : ℕ) where
  abbrev up : Manager D → Bool
  up n = (n.heap i).is_open

  close_sockets-closes :
      (m : UnorderedMap ℕ) (n : Manager D)
      → up (close_sockets (session_numbers m) n) ≡ (up n && not (is_listed i m))
  unfolding close_sockets session_numbers is_listed
  close_sockets-closes [] n = ground arith
  close_sockets-closes ((id, j) ∷ m) n =
      close_sockets-closes m (close_socket j n) ∙ unfold close_socket change closed in ground arith

  -- The giving up of a session closes nothing else.
  release-up : (j : ℕ) (n : Manager D) → (j == i ≡ true → up n ≡ false) → up (release j n) ≡ up n
  unfolding release change destroyed
  release-up j n h = elim (Bool-cases (is_held j n)) [
    | inl held ↦ rw held refl
    | inr free ↦ rw free (elim (Bool-cases (j == i)) [
      | inl same ↦ ground (arith, h same)
      | inr other ↦ ground arith
    ])
  ]

  release_all-up :
      (m : UnorderedMap ℕ) (n : Manager D)
      → (is_listed i m ≡ true → up n ≡ false)
      → up (release_all (session_numbers m) n) ≡ up n
  unfolding release_all session_numbers is_listed
  release_all-up [] n h = refl
  release_all-up ((id, j) ∷ m) n h =
      let first = release-up j n (λ e. h (rw e refl)) in
      release_all-up m (release j n) (λ e. first ∙ h (rw (e, or-true) refl)) ∙ first

module _ {D : Type 0} where
  -- nothing but the sessions themselves is different
  abbrev Kept : Manager D → Manager D → Type 0
  Kept m n = (m.sessions ≡ n.sessions) × (m.running ≡ n.running) × (m.shared ≡ n.shared)

  Kept-trans : (l m n : Manager D) → Kept l m → Kept m n → Kept l n
  Kept-trans l m n (a, b, c) (d, e, f) = (a ∙ d, b ∙ e, c ∙ f)

  release-Kept : (i : ℕ) (n : Manager D) → Kept (release i n) n
  unfolding release change
  release-Kept i n = elim (Bool-cases (is_held i n)) [
    | inl held ↦ rw held (refl, refl, refl)
    | inr free ↦ rw free (refl, refl, refl)
  ]

  release_all-Kept : (is : List ℕ) (n : Manager D) → Kept (release_all is n) n
  unfolding release_all
  release_all-Kept [] n = (refl, refl, refl)
  release_all-Kept (i ∷ is) n =
      Kept-trans (release_all is (release i n)) (release i n) n (release_all-Kept is (release i n))
        (release-Kept i n)

  close_sockets-Kept : (is : List ℕ) (n : Manager D) → Kept (close_sockets is n) n
  unfolding close_sockets close_socket change
  close_sockets-Kept [] n = (refl, refl, refl)
  close_sockets-Kept (i ∷ is) n = close_sockets-Kept is (close_socket i n)

-- `Stop` closes the sockets of the sessions in the map, and of no other, empties the map and ends the
-- accepting. Any other session, as that of a connection whose peer has not introduced itself, is open
-- afterwards if it was before, and what is shared is as it was. No id has two entries in the map.
pub stop_all-closes :
    {D : Type 0} (order : Iteration ℕ) (i : ℕ) (n : Manager D)
    → Distinct n.sessions
    → let m = stop_all order n in
      ((m.heap i).is_open ≡ ((n.heap i).is_open && not (is_listed i n.sessions)))
      × (m.sessions ≡ [])
      × (accepts m ≡ false)
      × (m.shared ≡ n.shared)
unfolding stop_all accepts
stop_all-closes order i n d =
    let m = order.arrange n.sessions in
    let n' = record n { running = false; acceptor = close_acceptor n.acceptor } in
    let c = close_sockets (session_numbers m) n' in
    let listed = is_listed-arrange order i n.sessions d in
    let shut = close_sockets-closes i m n' in
    let numbers = session_numbers m in
    let (kept, halted, same) = close_sockets-Kept numbers n' in
    let (emptied, halted', same') = release_all-Kept numbers (record c { sessions = [] }) in
    let off : (n.heap i).is_open && not true ≡ false = ground arith in
    (
      release_all-up i m (record c { sessions = [] })
            (λ e. shut ∙ ap (λ b. (n.heap i).is_open && not b) e ∙ off)
          ∙ shut
          ∙ ap (λ b. (n.heap i).is_open && not b) listed,
      emptied,
      rw (halted' ∙ halted) refl,
      same' ∙ same,
    )
