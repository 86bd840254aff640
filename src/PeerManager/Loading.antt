-- ===== src/PeerManager/Loading.antt =====
-- Reading the peers file returns or throws, whatever the file holds.
use cpp_p2pchat.Base.{
  ℕ, ◌-◌, ◌^◌, ◌≡◌, refl, Bool, true, false, List, [], ◌∷◌, Option, none, some, ℤ, if◌then◌else◌,
  ltb,
}
use cpp_p2pchat.Std.Result.{Bytes, Result, ok, throw, undefined, ◌>>=◌}
use cpp_p2pchat.Std.Numbers.{stoul, magnitude, is_digit, take_sign, take_prefix, skip_space}
use cpp_p2pchat.PeerManager.Defs.{PeerInfo, PeerManager, add_peer}
use cpp_p2pchat.PeerManager.File.{
  parse_key, split_line, parse_fields, lines, load_lines, load_peers_from_file,
}

-- a value or an exception
abbrev pub Definite : {A : Type 0} → Result A → Type 0
Definite (ok a) = Unit {0}
Definite (throw e) = Unit {0}
Definite (undefined u) = ⊥

module _ {A : Type 0} where
  Definite-if :
      (b : Bool) (x y : Result A) → Definite x → Definite y → Definite (if b then x else y)
  Definite-if true x y hx hy = hx
  Definite-if false x y hx hy = hy

module _ {A B : Type 0} where
  Definite-bind :
      (r : Result A) (f : A → Result B)
      → Definite r
      → ((a : A) → Definite (f a))
      → Definite (r >>= f)
  Definite-bind (ok a) f h k = k a
  Definite-bind (throw e) f h k = tt
  Definite-bind (undefined u) f h k = absurd h

magnitude-Definite : (base : ℕ) (s : Bytes) → Definite (magnitude base s)
unfolding magnitude
magnitude-Definite base [] = tt
magnitude-Definite base (c ∷ s) = Definite-if (is_digit base c) _ _ tt tt

pub stoul-Definite : (base : ℕ) (s : Bytes) → Definite (stoul base s)
unfolding stoul
stoul-Definite base s =
    let signed = take_sign (skip_space s) in
    Definite-bind (magnitude base (take_prefix base signed.1)) _ (magnitude-Definite base _)
      (λ n. Definite-if (ltb (2 ^ 64 - 1) n) _ _ tt tt)

parse_key-Definite : (s : Bytes) → Definite (parse_key s)
unfolding parse_key
parse_key-Definite [] = tt
parse_key-Definite (a ∷ []) = Definite-bind (stoul 16 (a ∷ [])) _ (stoul-Definite 16 _) (λ b. tt)
parse_key-Definite (a ∷ c ∷ s) =
    Definite-bind (stoul 16 (a ∷ c ∷ [])) _ (stoul-Definite 16 _)
      (λ b. Definite-bind (parse_key s) _ (parse_key-Definite s) (λ key. tt))

parse_fields-Definite :
    (now : ℤ) (fields : Bytes × Bytes × Bytes × Bytes) → Definite (parse_fields now fields)
unfolding parse_fields
parse_fields-Definite now (id, address, port_text, key_hex) =
    Definite-bind (stoul 10 port_text) _ (stoul-Definite 10 _)
      (λ port. Definite-bind (parse_key key_hex) _ (parse_key-Definite key_hex) (λ key. tt))

parsed-Definite :
    (r : Result PeerInfo) (next : PeerInfo → Result (Unit {0}) × PeerManager) (pm : PeerManager)
    → Definite r
    → ((peer : PeerInfo) → Definite (next peer).0)
    → Definite
        (elim r as (λ _. Result (Unit {0}) × PeerManager) [
          | ok peer ↦ next peer
          | throw e ↦ (throw e, pm)
          | undefined u ↦ (undefined u, pm)
        ]).0
parsed-Definite (ok peer) next pm h k = k peer
parsed-Definite (throw e) next pm h k = tt
parsed-Definite (undefined u) next pm h k = absurd h

loaded_line-Definite :
    (now : ℤ) (line : Bytes) (rest : List Bytes) (pm : PeerManager)
    (fields : Option (Bytes × Bytes × Bytes × Bytes))
    → split_line line ≡ fields
    → ((next : PeerManager) → Definite (load_lines now rest next).0)
    → Definite (load_lines now (line ∷ rest) pm).0
unfolding load_lines
loaded_line-Definite now line rest pm none e k = rw (e, load_lines) (k pm)
loaded_line-Definite now line rest pm (some fields) e k =
    rw (e, load_lines)
      (parsed-Definite (parse_fields now fields) (λ peer. load_lines now rest (add_peer peer pm)) pm
        (parse_fields-Definite now fields) (λ peer. k (add_peer peer pm)))

load_lines-Definite :
    (now : ℤ) (text : List Bytes) (pm : PeerManager) → Definite (load_lines now text pm).0
load_lines-Definite now [] pm = unfold load_lines in tt
load_lines-Definite now (line ∷ rest) pm =
    loaded_line-Definite now line rest pm _ refl (load_lines-Definite now rest)

-- Loading returns, or throws: its behaviour is always defined.
pub load_peers_from_file-Definite :
    (now : ℤ) (file : Option Bytes) (pm : PeerManager)
    → Definite (load_peers_from_file now file pm).0
unfolding load_peers_from_file
load_peers_from_file-Definite now none pm = tt
load_peers_from_file-Definite now (some content) pm = load_lines-Definite now (lines content) pm
