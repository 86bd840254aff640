-- ===== src/Crypto/Objects.antt =====
-- The calls of OpenSSL that the program makes. OpenSSL is not part of the program: what a call
-- answers is any function of it and of the calls before. The program's part is which calls it
-- makes, on which objects, and which of them it frees.
use cpp_p2pchat.Base.{
  ℕ, suc, Bool, true, false, List, [], ◌∷◌, Option, none, some, ◌==◌, ltb, ◌&&◌, ◌||◌,
  if◌then◌else◌, ℤ, pos, negsuc, length,
}
use cpp_p2pchat.Std.Result.{Bytes, ok, undefined, dangling, out_of_bounds}
use cpp_p2pchat.Std.Exec.{Exec, ◌>>=◌, pure}

-- A number names an object: a BIO, a key, or a context. A function that is called twice, first for
-- the size of its output and then for the output, has two constructors.
pub data Call : Type 0 where
  new_keygen_ctx new_mem_bio new_md_ctx : Call
  new_mem_buf : Bytes → Call
  new_pkey_ctx : ℕ → Call
  keygen_init set_curve keygen : ℕ → Call
  write_public write_private : ℕ → ℕ → Call
  mem_data read_public read_private : ℕ → Call
  encrypt_init decrypt_init derive_init : ℕ → Call
  encrypt_size encrypt_into decrypt_size decrypt_into : ℕ → Bytes → Call
  sign_init verify_init derive_set_peer : ℕ → ℕ → Call
  sign_update verify_update verify_final : ℕ → Bytes → Call
  sign_size sign_into derive_into : ℕ → Call
  free : ℕ → Call

-- The calls that were made, the last first.
abbrev pub Calls : Type 0
Calls = List Call

-- `makes`: whether a call that creates an object gives one or a null pointer. `status`: its `int`
-- result. `size` and `output`: what it stores through its pointers.
pub record OpenSsl : Type 0 where
  pub makes : Calls → Call → Bool
  pub status : Calls → Call → ℤ
  pub size : Calls → Call → ℕ
  pub output : Calls → Call → Bytes
  pub sha256 : Bytes → Bytes

-- The objects that are not freed, the newest first, and the calls.
pub record Library : Type 0 where
  pub live : List ℕ
  pub next : ℕ
  pub calls : Calls

-- the objects that a call is given
abbrev pub objects_of : Call → List ℕ
objects_of (new_pkey_ctx k) = k ∷ []
objects_of (keygen_init c) = c ∷ []
objects_of (set_curve c) = c ∷ []
objects_of (keygen c) = c ∷ []
objects_of (write_public b k) = b ∷ k ∷ []
objects_of (write_private b k) = b ∷ k ∷ []
objects_of (mem_data b) = b ∷ []
objects_of (read_public b) = b ∷ []
objects_of (read_private b) = b ∷ []
objects_of (encrypt_init c) = c ∷ []
objects_of (decrypt_init c) = c ∷ []
objects_of (derive_init c) = c ∷ []
objects_of (encrypt_size c m) = c ∷ []
objects_of (encrypt_into c m) = c ∷ []
objects_of (decrypt_size c m) = c ∷ []
objects_of (decrypt_into c m) = c ∷ []
objects_of (sign_init c k) = c ∷ k ∷ []
objects_of (verify_init c k) = c ∷ k ∷ []
objects_of (derive_set_peer c k) = c ∷ k ∷ []
objects_of (sign_update c m) = c ∷ []
objects_of (verify_update c m) = c ∷ []
objects_of (verify_final c m) = c ∷ []
objects_of (sign_size c) = c ∷ []
objects_of (sign_into c) = c ∷ []
objects_of (derive_into c) = c ∷ []
objects_of (free i) = i ∷ []
objects_of _ = []

abbrev pub is_live : ℕ → List ℕ → Bool
is_live i [] = false
is_live i (j ∷ l) = j == i || is_live i l

abbrev pub all_live : List ℕ → List ℕ → Bool
all_live [] l = true
all_live (i ∷ is) l = is_live i l && all_live is l

abbrev pub remove : ℕ → List ℕ → List ℕ
remove i [] = []
remove i (j ∷ l) = elim (j == i) [ true ↦ l | false ↦ j ∷ remove i l ]

-- A call with an object that was freed is undefined. The value is the calls before this one.
unfoldable pub issue : Call → Exec Library Calls
issue c s =
    if all_live (objects_of c) s.live
    then (ok s.calls, record s { calls = c ∷ s.calls })
    else (undefined dangling, s)

unfoldable pub new_object : Exec Library ℕ
new_object s = (ok s.next, record s { live = s.next ∷ s.live; next = suc s.next })

-- `EVP_PKEY_free`, `EVP_PKEY_CTX_free`, `EVP_MD_CTX_free` or `BIO_free`
unfoldable pub free_object : ℕ → Exec Library (Unit {0})
unfolding issue
free_object i s = (issue (free i) >>= λ _ t. (ok tt, record t { live = remove i t.live })) s

-- the test `status <= 0`
unfoldable pub failed : ℤ → Bool
failed (pos n) = n == 0
failed (negsuc n) = true

-- the test `status == 1`
unfoldable pub is_one : ℤ → Bool
is_one (pos n) = n == 1
is_one (negsuc n) = false

-- To write more than a buffer holds is undefined.
unfoldable pub store : ℕ → ℤ → Bytes → Exec Library (ℤ × Bytes)
store room status output s =
    if ltb room (length output) then (undefined out_of_bounds, s) else (ok (status, output), s)

module _ (env : OpenSsl) where
  -- a call that creates an object; `none` is a null pointer
  unfoldable pub make : Call → Exec Library (Option ℕ)
  unfolding issue new_object
  make c = do
    before ← issue c
    elim (env.makes before c) [ true ↦ (do i ← new_object; pure (some i)) | false ↦ pure none ]

  unfoldable pub ask : Call → Exec Library ℤ
  unfolding issue
  ask c = do before ← issue c; pure (env.status before c)

  -- a call for the size of an output
  unfoldable pub measure : Call → Exec Library (ℤ × ℕ)
  unfolding issue
  measure c = do before ← issue c; pure (env.status before c, env.size before c)

  -- a call that writes to a buffer of `room` bytes
  unfoldable pub fill : Call → ℕ → Exec Library (ℤ × Bytes)
  unfolding issue
  fill c room = do before ← issue c; store room (env.status before c) (env.output before c)

  -- `BIO_get_mem_data`, and a copy of the bytes
  unfoldable pub read_memory : ℕ → Exec Library Bytes
  unfolding issue
  read_memory bio = do before ← issue (mem_data bio); pure (env.output before (mem_data bio))
