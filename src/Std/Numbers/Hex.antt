-- ===== src/Std/Numbers/Hex.antt =====
-- A byte written in two hexadecimal digits is read back.
use cpp_p2pchat.Base.{ℕ, zero, suc, ◌<◌, ◌≡◌, refl, Bool, true, false, ◌&&◌, arith, ◌==◌}
use cpp_p2pchat.Std.Result.{Result, ok}
use cpp_p2pchat.Std.Numbers.{hex_byte, stoul, skip_space, take_sign, take_prefix, magnitude}

-- A test that every number from 0 up to a bound passes, by evaluation.
passes : (ℕ → Bool) → ℕ → Bool
passes test zero = true
passes test (suc last) = passes test last && test last

passes-at : (test : ℕ → Bool) (bound i : ℕ) → i < bound → passes test bound ≡ true → test i ≡ true
unfolding passes
passes-at test zero i small h = absurd (omega arith)
passes-at test (suc last) i small h = ground (arith, passes-at test last i)

returns : ℕ → Result ℕ → Bool
returns n (ok m) = m == n
returns n _ = false

returns_sound : (n : ℕ) (r : Result ℕ) → returns n r ≡ true → r ≡ ok n
unfolding returns
returns_sound n r h = ground arith

hex_round_trip : ℕ → Bool
unfolding returns
hex_round_trip b = returns b (stoul 16 (hex_byte b))

hex_table : passes hex_round_trip 256 ≡ true
unfolding passes hex_round_trip stoul skip_space take_sign take_prefix magnitude hex_byte
hex_table = refl

-- Every byte is read back from its two hexadecimal digits.
pub stoul-hex_byte : (b : ℕ) → b < 256 → stoul 16 (hex_byte b) ≡ ok b
unfolding hex_round_trip
stoul-hex_byte b h =
    returns_sound b (stoul 16 (hex_byte b)) (passes-at hex_round_trip 256 b h hex_table)
