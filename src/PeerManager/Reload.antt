-- ===== src/PeerManager/Reload.antt =====
-- The peers file: what is saved is loaded, and what is lost.
use cpp_p2pchat.Base.{
  ◌≡◌, ◌≢◌, refl, ◌∙◌, sym, Bool, true, false, List, [], ◌∷◌, ◌++◌, Option, none, some, arith,
  if◌then◌else◌, ℤ, inl, inr, ◌⊎◌, All,
}
use cpp_p2pchat.Std.Result.{Bytes, ok}
use cpp_p2pchat.Std.Text.{str_eq_iff, Lacks}
use cpp_p2pchat.Std.UnorderedMap.{UnorderedMap, Iteration, Distinct, find, find-tail, find-head}
use cpp_p2pchat.PeerManager.Defs.{PeerInfo, PeerManager, add_peer, get_peer}
use cpp_p2pchat.PeerManager.File.{
  newline, save_line, save_lines, save_peers_to_file, lines, load_lines, load_peers_from_file,
}
use cpp_p2pchat.PeerManager.SavedLine.{
  IsStorable, reloaded, split-saved_key, split-saved_keyless, parse-saved, save_line-Lacks,
}
use cpp_p2pchat.PeerManager.Lookup.{Keyed, IsValid, get_peer-after}

-- Text up to a newline is one line.
lines-append : (s rest : Bytes) → Lacks newline s → lines (s ++ newline ∷ rest) ≡ s ∷ lines rest
unfolding lines
lines-append [] rest h = refl
lines-append (c ∷ s) rest h = ground (arith, lines-append s rest h.1)

-- whether `publicKey` is empty
abbrev pub null : Bytes → Bool
null [] = true
null (b ∷ bs) = false

-- What a load of the file that was saved finds of a peer: nothing if its key is empty.
abbrev pub kept : ℤ → Option PeerInfo → Option PeerInfo
kept now none = none
kept now (some p) = if null p.public_key then none else some (reloaded now p)

-- the load, seen from the entries that were saved
added : ℤ → UnorderedMap PeerInfo → PeerManager → PeerManager
added now [] pm = pm
added now ((k, p) ∷ es) pm =
    added now es (if null p.public_key then pm else add_peer (reloaded now p) pm)

-- Every entry is storable.
abbrev Storable : UnorderedMap PeerInfo → Type 0
Storable = All (λ e. IsStorable e.1)

null-cases : (key : Bytes) → ((null key ≡ true) × (key ≡ [])) ⊎ ((null key ≡ false) × (key ≢ []))
null-cases [] = inl (refl, refl)
null-cases (b ∷ key) = inr (refl, cc)

-- One saved line adds its peer, or nothing if the key is empty.
load_saved_line :
    (now : ℤ) (p : PeerInfo) (rest : List Bytes) (pm : PeerManager)
    → IsStorable p
    → load_lines now (save_line p ∷ rest) pm
      ≡ load_lines now rest (if null p.public_key then pm else add_peer (reloaded now p) pm)
unfolding load_lines
load_saved_line now p rest pm v = elim (null-cases p.public_key) [
  | inl (e, h) ↦ rw (e, split-saved_keyless p v h, load_lines)
  | inr (e, h) ↦ rw (e, split-saved_key p v h, load_lines) (rw (parse-saved p v now))
]

load_lines-saved :
    (now : ℤ) (es : UnorderedMap PeerInfo) (pm : PeerManager)
    → Storable es
    → load_lines now (lines (save_lines es)) pm ≡ (ok tt, added now es pm)
unfolding save_lines added
load_lines-saved now [] pm h = unfold lines load_lines in refl
load_lines-saved now ((k, p) ∷ es) pm (h, hs) =
    rw
      (
        lines-append (save_line p) (save_lines es) (save_line-Lacks p h),
        load_saved_line now p (lines (save_lines es)) pm h,
      )
      (load_lines-saved now es _ hs)

or_else : Option PeerInfo → Option PeerInfo → Option PeerInfo
or_else none b = b
or_else (some a) b = some a

get_peer-added :
    (now : ℤ) (j : Bytes) (es : UnorderedMap PeerInfo) (pm : PeerManager)
    → Distinct es
    → Keyed es
    → get_peer j (added now es pm) ≡ or_else (kept now (find j es)) (get_peer j pm)
unfolding added or_else find reloaded
get_peer-added now j [] pm d k = refl
get_peer-added now j ((i, p) ∷ es) pm d k =
    let tail =
      λ (l : Bytes) (q : PeerInfo) (h : find l es ≡ some q). k l q (find-tail i l p q es d h) in
    rw (get_peer-added now j es _ d.1 tail) (
      ground (
        arith,
        k i p (find-head i p es),
        str_eq_iff i j,
        (get_peer-after pm (reloaded now p) [] j true now).0,
      ))

-- Where every entry of the map is storable, so is every entry that a loop meets.
Storable-of_find :
    (es : UnorderedMap PeerInfo)
    → Distinct es
    → ((k : Bytes) (p : PeerInfo) → find k es ≡ some p → IsStorable p)
    → Storable es
Storable-of_find [] d h = tt
Storable-of_find ((i, p) ∷ es) d h =
    (h i p (find-head i p es), Storable-of_find es d.1 (λ k q e. h k q (find-tail i k p q es d e)))

or_else-none : (o : Option PeerInfo) → or_else o none ≡ o
unfolding or_else
or_else-none none = refl
or_else-none (some p) = refl

get_peer-no_peers : (id : Bytes) (pm : PeerManager) → pm.peers ≡ [] → get_peer id pm ≡ none
unfolding get_peer find
get_peer-no_peers id pm h = rw h

module _ (it : Iteration PeerInfo) (pm fresh : PeerManager) (now : ℤ) (id : Bytes) where
  -- Peers that are saved to a file and loaded into a manager that has none are found again under
  -- their ids, with address, port and key unchanged, not connected and last seen now; those with
  -- an empty key are not found. No saved id or address may hold a vertical bar or a newline, ports fit
  -- in 16 bits, and keys consist of bytes.
  pub load-save :
      IsValid pm
      → ((k : Bytes) (p : PeerInfo) → get_peer k pm ≡ some p → IsStorable p)
      → fresh.peers ≡ []
      → let loaded = load_peers_from_file now (save_peers_to_file it true pm) fresh in
        (loaded.0 ≡ ok tt) × (get_peer id loaded.1 ≡ kept now (get_peer id pm))
  unfolding save_peers_to_file load_peers_from_file
  load-save v storable none_yet =
      let es = it.arrange pm.peers in
      let d = it.arrange-Distinct pm.peers v.distinct in
      let found = λ (k : Bytes). it.find-arrange pm.peers k v.distinct in
      let all : Storable es =
        Storable-of_find es d (λ k p h. storable k p (unfold get_peer in (sym (found k) ∙ h))) in
      rw (load_lines-saved now es fresh all) (
        refl,
        rw (get_peer-added now id es fresh d (λ k p h. v.keyed k p (sym (found k) ∙ h))) (
            rw (found id, get_peer-no_peers id fresh none_yet, or_else-none)
              (unfold get_peer in refl)),
      )
