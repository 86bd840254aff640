-- ===== src/Std/UnorderedMap.antt =====
-- `std::unordered_map<std::string, V>` as the list of its entries, and the order in which a loop
-- over it meets them.
use cpp_p2pchat.Base.{◌≡◌, refl, List, [], ◌∷◌, Option, none, some, arith, if◌then◌else◌}
use cpp_p2pchat.Std.Result.{Bytes}
use cpp_p2pchat.Std.Text.{str_eq, str_eq_iff, str_eq_refl}

abbrev pub UnorderedMap {ℓ} : Type ℓ → Type ℓ
UnorderedMap V = List (Bytes × V)

module _ {ℓ} {V : Type ℓ} where
  -- `m.find(k)`, with `none` for `end()`
  unfoldable pub find : Bytes → UnorderedMap V → Option V
  find k [] = none
  find k ((j, v) ∷ m) = if str_eq j k then some v else find k m

  -- `m[k] = v`
  unfoldable pub insert : Bytes → V → UnorderedMap V → UnorderedMap V
  insert k v [] = (k, v) ∷ []
  insert k v ((j, w) ∷ m) = if str_eq j k then (j, v) ∷ m else (j, w) ∷ insert k v m

  -- `m.erase(k)`
  unfoldable pub erase : Bytes → UnorderedMap V → UnorderedMap V
  erase k [] = []
  erase k ((j, v) ∷ m) = let rest = erase k m in if str_eq j k then rest else (j, v) ∷ rest

  -- an assignment to `it->second` behind `m.find(k)`, if there is such an entry
  unfoldable pub adjust : Bytes → (V → V) → UnorderedMap V → UnorderedMap V
  adjust k f [] = []
  adjust k f ((j, v) ∷ m) = if str_eq j k then (j, f v) ∷ m else (j, v) ∷ adjust k f m

  -- No key has two entries.
  abbrev pub Distinct : UnorderedMap V → Type ℓ
  Distinct [] = Unit
  Distinct ((k, v) ∷ m) = (find k m ≡ none) × Distinct m

  pub find-insert :
      (k j : Bytes) (v : V) (m : UnorderedMap V)
      → find j (insert k v m) ≡ (if str_eq k j then some v else find j m)
  unfolding find insert
  find-insert k j v [] = refl
  find-insert k j v ((i, w) ∷ m) =
      ground (arith, str_eq_iff k j, str_eq_iff i k, str_eq_iff i j, find-insert k j v m)

  pub find-erase :
      (k j : Bytes) (m : UnorderedMap V)
      → find j (erase k m) ≡ (if str_eq k j then none else find j m)
  unfolding find erase
  find-erase k j [] = ground arith
  find-erase k j ((i, w) ∷ m) =
      ground (arith, str_eq_iff k j, str_eq_iff i k, str_eq_iff i j, find-erase k j m)

  abbrev mapped : (V → V) → Option V → Option V
  mapped f none = none
  mapped f (some v) = some (f v)

  pub find-adjust :
      (k j : Bytes) (f : V → V) (m : UnorderedMap V)
      → find j (adjust k f m) ≡ (if str_eq k j then mapped f (find j m) else find j m)
  unfolding find adjust
  find-adjust k j f [] = ground arith
  find-adjust k j f ((i, w) ∷ m) =
      ground (arith, str_eq_iff k j, str_eq_iff i k, str_eq_iff i j, find-adjust k j f m)

  pub insert-Distinct :
      (k : Bytes) (v : V) (m : UnorderedMap V) → Distinct m → Distinct (insert k v m)
  unfolding find insert
  insert-Distinct k v [] d = (refl, tt)
  insert-Distinct k v ((j, w) ∷ m) d =
      ground (arith, find-insert k j v m, str_eq_iff j k, str_eq_iff k j, insert-Distinct k v m d.1)

  pub erase-Distinct : (k : Bytes) (m : UnorderedMap V) → Distinct m → Distinct (erase k m)
  unfolding erase
  erase-Distinct k [] d = tt
  erase-Distinct k ((j, w) ∷ m) d = ground (arith, find-erase k j m, erase-Distinct k m d.1)

  pub adjust-Distinct :
      (k : Bytes) (f : V → V) (m : UnorderedMap V) → Distinct m → Distinct (adjust k f m)
  unfolding adjust
  adjust-Distinct k f [] d = tt
  adjust-Distinct k f ((j, w) ∷ m) d =
      ground (arith, find-adjust k j f m, str_eq_iff j k, adjust-Distinct k f m d.1)

module _ {ℓ} {V : Type ℓ} where
  -- An entry behind the first is found.
  pub find-tail :
      (j k : Bytes) (w v : V) (m : UnorderedMap V)
      → Distinct ((j, w) ∷ m)
      → find k m ≡ some v
      → find k ((j, w) ∷ m) ≡ some v
  unfolding find
  find-tail j k w v m d h = ground (arith, str_eq_iff j k)

  pub find-head : (j : Bytes) (w : V) (m : UnorderedMap V) → find j ((j, w) ∷ m) ≡ some w
  unfolding find
  find-head j w m = ground (arith, str_eq_refl j)

-- The order of a loop `for (const auto& [key, value] : m)`, which the standard leaves open: each
-- entry comes once.
pub record Iteration (V : Type 0) : Type 0 where
  pub arrange : UnorderedMap V → UnorderedMap V
  pub arrange-Distinct : (m : UnorderedMap V) → Distinct m → Distinct (arrange m)
  pub find-arrange : (m : UnorderedMap V) (k : Bytes) → Distinct m → find k (arrange m) ≡ find k m

-- the order of the list
abbrev pub in_order : {V : Type 0} → Iteration V
in_order = record { arrange = λ m. m; arrange-Distinct = λ m d. d; find-arrange = λ m k d. refl }

module _ {V : Type 0} (it : Iteration V) where
  -- The first entry that a loop meets is in the map.
  arrange-cons :
      (k : Bytes) (v : V) (m r : UnorderedMap V)
      → Distinct m
      → it.arrange m ≡ (k, v) ∷ r
      → find k m ≡ some v
  unfolding find
  arrange-cons k v m r d h = ground (arith, it.find-arrange m k d, str_eq_refl k)

  no_entry : (l : UnorderedMap V) → it.arrange [] ≡ l → l ≡ []
  unfolding find
  no_entry [] h = refl
  no_entry ((k, v) ∷ r) h = ground (arith, arrange-cons k v [] r tt h)

  -- A loop over a map without entries makes no round.
  pub arrange-nil : it.arrange [] ≡ []
  arrange-nil = no_entry (it.arrange []) refl
