-- ===== src/Std/Text.antt =====
-- The `std::string` operations that the program uses, over bytes.
use Prim.Native.Char.{code}
use Prim.Native.String.{String}
use cpp_p2pchat.Base.{
  ℕ, ◌≡◌, ◌≢◌, ◌↔◌, refl, Bool, true, false, ◌&&◌, ◌||◌, [], ◌∷◌, ◌++◌, Option, none, some, arith,
  ◌==◌, leb, All,
}
use cpp_p2pchat.Std.Result.{Bytes}

-- the bytes of an ASCII literal
abbrev pub codes : String → Bytes
codes String.[] = []
codes (String.◌∷◌ c s) = code c ∷ codes s

-- `a == b` on strings
unfoldable pub str_eq : Bytes → Bytes → Bool
str_eq [] [] = true
str_eq [] (b ∷ bs) = false
str_eq (a ∷ as') [] = false
str_eq (a ∷ as') (b ∷ bs) = a == b && str_eq as' bs

str_eq_sound : (a b : Bytes) → str_eq a b ≡ true → a ≡ b
unfolding str_eq
str_eq_sound [] [] h = refl
str_eq_sound [] (b ∷ bs) h = ground arith
str_eq_sound (a ∷ as') [] h = ground arith
str_eq_sound (a ∷ as') (b ∷ bs) h = ground (arith, str_eq_sound as' bs)

pub str_eq_refl : (a : Bytes) → str_eq a a ≡ true
unfolding str_eq
str_eq_refl [] = refl
str_eq_refl (a ∷ as') = ground (arith, str_eq_refl as')

str_eq_complete : (a b : Bytes) → a ≡ b → str_eq a b ≡ true
str_eq_complete a b h = ground (arith, str_eq_refl a)

pub str_eq_iff : (a b : Bytes) → (str_eq a b ≡ true) ↔ (a ≡ b)
str_eq_iff a b = (str_eq_sound a b, str_eq_complete a b)

-- `s.find(c)` and the two halves that `substr` takes round it: the text before the first `c` and
-- the text behind it; `none` for `npos`.
unfoldable pub split_at : ℕ → Bytes → Option (Bytes × Bytes)
split_at c [] = none
split_at c (x ∷ s) = elim (x == c) [
  | true ↦ some ([], s)
  | false ↦ elim (split_at c s) [ none ↦ none | some (a, b) ↦ some (x ∷ a, b) ]
]

-- `std::getline(stream, s, c)`: the text up to the next `c`, or up to the end, and what is left;
-- `none`, a failed stream, if nothing is left to read.
unfoldable pub getline : ℕ → Bytes → Option (Bytes × Bytes)
unfolding split_at
getline c [] = none
getline c (x ∷ s) = elim (split_at c (x ∷ s)) [ none ↦ some (x ∷ s, []) | some p ↦ some p ]

abbrev pub Lacks : ℕ → Bytes → Type 0
Lacks c = All (λ x. x ≢ c)

pub split_at-append :
    (c : ℕ) (s rest : Bytes) → Lacks c s → split_at c (s ++ c ∷ rest) ≡ some (s, rest)
unfolding split_at
split_at-append c [] rest h = ground arith
split_at-append c (x ∷ s) rest h = ground (arith, split_at-append c s rest h.1)

pub split_at-none : (c : ℕ) (s : Bytes) → Lacks c s → split_at c s ≡ none
unfolding split_at
split_at-none c [] h = refl
split_at-none c (x ∷ s) h = ground (arith, split_at-none c s h.1)

pub getline-append :
    (c : ℕ) (s rest : Bytes) → Lacks c s → getline c (s ++ c ∷ rest) ≡ some (s, rest)
unfolding getline
getline-append c [] rest h = ground (arith, split_at-append c [] rest h)
getline-append c (x ∷ s) rest h = ground (arith, split_at-append c (x ∷ s) rest h)

pub getline_last : (c x : ℕ) (s : Bytes) → Lacks c (x ∷ s) → getline c (x ∷ s) ≡ some (x ∷ s, [])
unfolding getline
getline_last c x s h = ground (arith, split_at-none c (x ∷ s) h)

-- `std::isspace` of the C locale
unfoldable pub is_space : ℕ → Bool
is_space c = c == 32 || (leb 9 c && leb c 13)
