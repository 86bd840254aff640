-- ===== src/Crypto/Tests.antt =====
-- The operations on keys, run with an OpenSSL that takes every call.
use cpp_p2pchat.Base.{
  ℕ, zero, suc, ◌≡◌, refl, true, ◌&&◌, [], ◌∷◌, length, take, All, arith, pos, negsuc,
}
use cpp_p2pchat.Std.Result.{Bytes, ok}
use cpp_p2pchat.Std.Text.{codes}
use cpp_p2pchat.Std.Numbers.{hex_byte}
use cpp_p2pchat.Std.Exec.{◌>>=◌}
use cpp_p2pchat.PeerManager.{parse_key}
use cpp_p2pchat.Crypto.Objects.{
  OpenSsl, Library, new_mem_buf, read_public, free, make, free_object, ask, failed, is_one, fill,
  store,
}
use cpp_p2pchat.Crypto.Keys.{
  generate_key_pair, generate_peer_id, deserialize_key, deserialize_public_key,
  deserialize_private_key,
}
use cpp_p2pchat.Crypto.Ciphers.{encrypt, decrypt}
use cpp_p2pchat.Crypto.Signatures.{sign, verify, verify_with}
use cpp_p2pchat.Crypto.Secrets.{derive_shared_secret, zeros, derive_with}
use cpp_p2pchat.Crypto.Held.{Held, Ends}
use cpp_p2pchat.Crypto.ContextsHeld.{OutputsFit}
use cpp_p2pchat.Crypto.Released.{operations-release}
use cpp_p2pchat.Crypto.Verifying.{verify-decides, accepts_by}
use cpp_p2pchat.Crypto.PeerIds.{IsHexDigit, IsDigest, generate_peer_id-names}
use cpp_p2pchat.Crypto.Unchecked.{with_answer, derive_shared_secret-unchecked}

-- the bytes from a number down to 1
abbrev count_down : ℕ → Bytes
count_down zero = []
count_down (suc n) = suc n ∷ count_down n

abbrev willing : OpenSsl
willing = record {
  makes = λ before c. true;
  status = λ before c. pos 1;
  size = λ before c. 3;
  output = λ before c. 7 ∷ 8 ∷ 9 ∷ [];
  sha256 = λ text. count_down 32;
}

-- one object that somebody else has made
abbrev in_use : Library
in_use = record { live = 4 ∷ []; next = 5; calls = [] }

abbrev pem : Bytes
pem = codes "key"

willing_fits : OutputsFit willing
willing_fits = record {
  encrypted = λ ctx text h. omega arith;
  decrypted = λ ctx text h. omega arith;
  signed = λ ctx h. omega arith;
  derived = λ h ctx. omega arith;
}

operations-release_example :
    Ends (λ _. Held (4 ∷ [])) (generate_key_pair willing in_use)
    × Ends (λ _. Held (4 ∷ [])) (encrypt willing (codes "hi") pem in_use)
    × Ends (λ _. Held (4 ∷ [])) (decrypt willing (codes "hi") pem in_use)
    × Ends (λ _. Held (4 ∷ [])) (sign willing (codes "hi") pem in_use)
    × Ends (λ _. Held (4 ∷ [])) (verify willing (codes "hi") (codes "sig") pem in_use)
    × Ends (λ _. Held (4 ∷ [])) (derive_shared_secret willing pem (codes "sig") in_use)
operations-release_example =
    operations-release willing (4 ∷ []) willing_fits in_use (codes "hi") pem (codes "sig")
      (refl, (omega arith, tt))

verify-decides_example :
    (verify willing (codes "hi") (codes "sig") pem in_use).0
    ≡ ok (
        willing.makes [] (new_mem_buf pem)
        && (willing.makes (new_mem_buf pem ∷ []) (read_public 5)
            && accepts_by willing
                (free 5 ∷ read_public 5 ∷ new_mem_buf pem ∷ [])
                6
                (codes "hi")
                (codes "sig")))
verify-decides_example = verify-decides willing (codes "hi") (codes "sig") pem in_use

derive_shared_secret-unchecked_example :
    derive_shared_secret (with_answer (λ before. negsuc 0) willing) pem (codes "other") in_use
    ≡ derive_shared_secret willing pem (codes "other") in_use
derive_shared_secret-unchecked_example =
    derive_shared_secret-unchecked (λ before. negsuc 0) willing pem (codes "other") in_use

digest : IsDigest (willing.sha256 pem)
digest = ground arith

generate_peer_id-names_example :
    (length (generate_peer_id willing pem) ≡ 16)
    × All IsHexDigit (generate_peer_id willing pem)
    × (parse_key (generate_peer_id willing pem) ≡ ok (take 8 (willing.sha256 pem)))
generate_peer_id-names_example = generate_peer_id-names willing pem digest

-- the ID, in full
peer_id_text : generate_peer_id willing pem ≡ codes "201f1e1d1c1b1a19"
unfolding generate_peer_id hex_byte
peer_id_text = refl

-- a signature is good, and its key is freed
verified :
    ((verify willing (codes "hi") (codes "sig") pem in_use).0 ≡ ok true)
    × ((verify willing (codes "hi") (codes "sig") pem in_use).1.live ≡ 4 ∷ [])
unfolding verify ◌>>=◌ deserialize_public_key deserialize_key make free_object verify_with ask
    failed is_one
verified = (refl, refl)

-- a secret of three bytes, padded
derived : (derive_shared_secret willing pem pem in_use).0 ≡ ok (7 ∷ 8 ∷ 9 ∷ zeros 29)
unfolding derive_shared_secret ◌>>=◌ deserialize_private_key deserialize_key make free_object
    deserialize_public_key derive_with ask failed fill store
derived = refl
