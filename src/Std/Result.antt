-- ===== src/Std/Result.antt =====
-- How a C++ call ends: it returns, it throws, or its behaviour is undefined.
use cpp_p2pchat.Base.{ℕ, List, ◌≡◌, refl}

-- A `std::string`, or a `std::vector<uint8_t>`: the values of its bytes.
abbrev pub Bytes : Type 0
Bytes = List ℕ

-- The exceptions that the program throws or catches; all derive from `std::exception`. `system_error`
-- is Boost.Asio's.
pub data Exception : Type 0 where
  runtime_error : Bytes → Exception
  invalid_argument out_of_range zmq_error system_error : Exception

-- What makes the behaviour undefined. `relock` is a second lock of a `std::mutex` by the thread
-- that holds it: the thread waits for itself. `dangling` is the use of an object that was freed.
-- `unended` is a join of a thread that does not end, which waits for ever.
pub data Fault : Type 0 where
  signed_overflow out_of_bounds relock dangling unended : Fault

pub data Result {ℓ} (A : Type ℓ) : Type ℓ where
  ok : A → Result A
  throw : Exception → Result A
  undefined : Fault → Result A

infixl 5 ◌>>=◌
abbrev pub ◌>>=◌ {ℓ κ} : {A : Type ℓ} {B : Type κ} → Result A → (A → Result B) → Result B
ok a >>= f = f a
throw e >>= f = throw e
undefined u >>= f = undefined u

pub bind-cong {ℓ κ} :
    {A : Type ℓ} {B : Type κ} (r : Result A) (f g : A → Result B)
    → ((a : A) → f a ≡ g a)
    → (r >>= f) ≡ (r >>= g)
bind-cong (ok a) f g h = h a
bind-cong (throw e) f g h = refl
bind-cong (undefined u) f g h = refl

pub bind-map {ℓ} :
    {A B C : Type ℓ} (r : Result A) (f : A → B) (g : B → Result C)
    → ((r >>= λ a. ok (f a)) >>= g) ≡ (r >>= λ a. g (f a))
bind-map (ok a) f g = refl
bind-map (throw e) f g = refl
bind-map (undefined u) f g = refl
