-- ===== src/Std/Numbers/Decimal.antt =====
-- A printed number is read back.
use cpp_p2pchat.Base.{
  ℕ, zero, suc, ◌+◌, ◌*◌, ◌/◌, ◌%◌, ◌^◌, ◌≤◌, ◌<◌, ◌≡◌, refl, ap, ◌∙◌, false, [], ◌∷◌, some, arith,
  All, Bool-cases, ltb, inl, inr, lt→ltb,
}
use cpp_p2pchat.Std.Result.{Bytes, ok}
use cpp_p2pchat.Std.Numbers.{
  digit, emit, to_string, digit_value, is_digit, scan, skip_space, take_sign, take_prefix,
  magnitude, stoul,
}

digit_value-digit : (d : ℕ) → d < 10 → digit_value (digit d) ≡ some d
unfolding digit digit_value
digit_value-digit d h = ground arith

scan-digit : (acc d : ℕ) (s : Bytes) → d < 10 → scan 10 acc (digit d ∷ s) ≡ scan 10 (acc * 10 + d) s
unfolding scan
scan-digit acc d s h = rw (digit_value-digit d h, scan) (rw (lt→ltb d 10 h, scan))

scan-last : (n : ℕ) (out : Bytes) → scan 10 (n / 10) (digit (n % 10) ∷ out) ≡ scan 10 n out
scan-last n out = rw (scan-digit (n / 10) (n % 10) out (omega arith)) (ground arith)

scan-emit : (fuel n : ℕ) (out : Bytes) → n ≤ fuel → scan 10 0 (emit fuel n out) ≡ scan 10 n out
unfolding emit
scan-emit zero n out h = ground (arith, scan-last n out)
scan-emit (suc fuel) n out h =
    ground (arith, scan-last n out, scan-emit fuel (n / 10) (digit (n % 10) ∷ out))

-- The text starts with a digit.
abbrev StartsWithDigit : Bytes → Type 0
StartsWithDigit s = (d : ℕ) × (t : Bytes) × (d < 10) × (s ≡ digit d ∷ t)

emit-StartsWithDigit : (fuel n : ℕ) (out : Bytes) → StartsWithDigit (emit fuel n out)
unfolding emit
emit-StartsWithDigit zero n out = (n % 10, out, omega arith, refl)
emit-StartsWithDigit (suc fuel) n out = elim (Bool-cases (ltb n 10)) [
  | inl e ↦ rw e (n % 10, out, omega arith, refl)
  | inr e ↦ rw e (emit-StartsWithDigit fuel (n / 10) (digit (n % 10) ∷ out))
]

skip_space-digit : (d : ℕ) (t : Bytes) → d < 10 → skip_space (digit d ∷ t) ≡ digit d ∷ t
unfolding skip_space digit
skip_space-digit d t h = ground arith

take_sign-digit : (d : ℕ) (t : Bytes) → d < 10 → take_sign (digit d ∷ t) ≡ (false, digit d ∷ t)
unfolding take_sign digit
take_sign-digit d t h = ground arith

take_prefix-decimal : (s : Bytes) → take_prefix 10 s ≡ s
unfolding take_prefix
take_prefix-decimal [] = refl
take_prefix-decimal (a ∷ []) = refl
take_prefix-decimal (a ∷ b ∷ []) = refl
take_prefix-decimal (a ∷ b ∷ c ∷ s) = refl

magnitude-digit :
    (d : ℕ) (t : Bytes) → d < 10 → magnitude 10 (digit d ∷ t) ≡ ok (scan 10 0 (digit d ∷ t))
unfolding magnitude
magnitude-digit d t h = rw (digit_value-digit d h, is_digit) (rw (lt→ltb d 10 h))

stoul-digits :
    (s : Bytes) (n : ℕ) → StartsWithDigit s → scan 10 0 s ≡ n → n < 2 ^ 64 → stoul 10 s ≡ ok n
unfolding stoul
stoul-digits s n (d, t, small, e) v h =
    rw (e, skip_space-digit d t small, stoul)
      (rw (take_sign-digit d t small, take_prefix-decimal, magnitude-digit d t small)
        (ground (arith, ap (scan 10 0) e)))

-- Every 64-bit number is read back from its decimal print.
pub stoul-to_string : (n : ℕ) → n < 2 ^ 64 → stoul 10 (to_string n) ≡ ok n
unfolding to_string
stoul-to_string n h =
    stoul-digits (emit n n []) n (emit-StartsWithDigit n n [])
      (scan-emit n n [] (omega arith) ∙ (unfold scan in refl)) h

-- A print holds decimal digits only.
emit-digits :
    (P : ℕ → Type 0) (fuel n : ℕ) (out : Bytes)
    → ((d : ℕ) → d < 10 → P (digit d))
    → All P out
    → All P (emit fuel n out)
unfolding emit
emit-digits P zero n out p h = (p (n % 10) (omega arith), h)
emit-digits P (suc fuel) n out p h =
    let one = p (n % 10) (omega arith) in
    elim (Bool-cases (ltb n 10)) [
      | inl e ↦ rw e (one, h)
      | inr e ↦ rw e (emit-digits P fuel (n / 10) _ p (one, h))
    ]

pub to_string-digits :
    (P : ℕ → Type 0) (n : ℕ) → ((d : ℕ) → d < 10 → P (digit d)) → All P (to_string n)
unfolding to_string
to_string-digits P n p = emit-digits P n n [] p tt
