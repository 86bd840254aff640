-- ===== src/Std/Numbers.antt =====
-- Numbers in text: `std::to_string`, `std::stoul` and `std::stoi`, as `strtoul` and `strtol` read
-- them in the C locale with a 64-bit `long`, and two-digit hexadecimal output
-- (`std::hex << std::setw(2) << std::setfill('0')`).
pub mod Decimal
pub mod Hex
use cpp_p2pchat.Base.{
  ℕ, zero, suc, ◌+◌, ◌-◌, ◌*◌, ◌/◌, ◌%◌, ◌^◌, Bool, true, false, ◌&&◌, ◌||◌, [], ◌∷◌, Option, none,
  some, ◌==◌, leb, ltb, if◌then◌else◌, ℤ, pos, neg,
}
use cpp_p2pchat.Std.Result.{Bytes, Result, ok, throw, invalid_argument, out_of_range, ◌>>=◌}
use cpp_p2pchat.Std.Text.{is_space}

-- One digit below 16, as `std::hex` and the decimal formats write it.
unfoldable pub digit : ℕ → ℕ
digit d = if ltb d 10 then b'0' + d else b'a' + (d - 10)

-- The decimal digits of `n` before `out`; each round drops one digit, so `n` rounds are enough.
unfoldable pub emit : ℕ → ℕ → Bytes → Bytes
unfolding digit
emit zero n out = digit (n % 10) ∷ out
emit (suc fuel) n out =
    let rest = emit fuel (n / 10) (digit (n % 10) ∷ out) in
    if ltb n 10 then digit (n % 10) ∷ out else rest

-- `std::to_string`, or `<<` under `std::dec`, of an unsigned number
unfoldable pub to_string : ℕ → Bytes
unfolding emit
to_string n = emit n n []

-- `<< std::hex << std::setw(2) << std::setfill('0')` of a byte
unfoldable pub hex_byte : ℕ → Bytes
unfolding digit
hex_byte b = digit (b / 16) ∷ digit (b % 16) ∷ []

-- The value of a digit in any base up to 36.
unfoldable pub digit_value : ℕ → Option ℕ
digit_value c =
    if leb b'0' c && leb c b'9'
    then some (c - b'0')
    else if leb b'a' c && leb c b'z'
    then some (c - b'a' + 10)
    else if leb b'A' c && leb c b'Z'
    then some (c - b'A' + 10)
    else none

unfoldable pub is_digit : ℕ → ℕ → Bool
unfolding digit_value
is_digit base c = elim (digit_value c) [ none ↦ false | some d ↦ ltb d base ]

-- The value of the digits at the front, behind `acc`; what follows them is ignored.
unfoldable pub scan : ℕ → ℕ → Bytes → ℕ
unfolding digit_value
scan base acc [] = acc
scan base acc (c ∷ s) = elim (digit_value c) [
  | none ↦ acc
  | some d ↦ elim (ltb d base) [ true ↦ scan base (acc * base + d) s | false ↦ acc ]
]

unfoldable pub skip_space : Bytes → Bytes
unfolding is_space
skip_space [] = []
skip_space (c ∷ s) = let rest = skip_space s in if is_space c then rest else c ∷ s

-- An optional sign, and whether it was a minus.
unfoldable pub take_sign : Bytes → Bool × Bytes
take_sign [] = (false, [])
take_sign (c ∷ s) =
    if c == b'-' then (true, s) else if c == b'+' then (false, s) else (false, c ∷ s)

-- In base 16 an optional prefix `0x`, if a digit follows it.
unfoldable pub take_prefix : ℕ → Bytes → Bytes
unfolding is_digit
take_prefix base (z ∷ x ∷ c ∷ s) =
    if base == 16 && (z == b'0' && ((x == b'x' || x == b'X') && is_digit 16 c))
    then c ∷ s
    else z ∷ x ∷ c ∷ s
take_prefix base s = s

-- The magnitude that the digits spell; no digit is `std::invalid_argument`.
unfoldable pub magnitude : ℕ → Bytes → Result ℕ
unfolding is_digit scan
magnitude base [] = throw invalid_argument
magnitude base (c ∷ s) =
    if is_digit base c then ok (scan base 0 (c ∷ s)) else throw invalid_argument

-- `std::stoul(s, nullptr, base)`: a minus sign is taken, and the result then wraps.
unfoldable pub stoul : ℕ → Bytes → Result ℕ
stoul base s =
    let (minus, t) = take_sign (skip_space s) in
    magnitude base (take_prefix base t) >>= λ n.
    if ltb (2 ^ 64 - 1) n
    then throw out_of_range
    else ok (if minus then (2 ^ 64 - n) % 2 ^ 64 else n)

-- `std::stoi(s)`: the range is that of a 32-bit `int`.
unfoldable pub stoi : Bytes → Result ℤ
stoi s =
    let (minus, t) = take_sign (skip_space s) in
    magnitude 10 t >>= λ n.
    if minus
    then (if ltb (2 ^ 31) n then throw out_of_range else ok (neg n))
    else if ltb (2 ^ 31 - 1) n
    then throw out_of_range
    else ok (pos n)
