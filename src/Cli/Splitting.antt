-- ===== src/Cli/Splitting.antt =====
-- Splitting a line into words and joining words.
use cpp_p2pchat.Base.{
  ◌≡◌, ◌≢◌, refl, false, List, [], ◌∷◌, ◌++◌, append-nil, All, Bool-cases, inl, inr,
}
use cpp_p2pchat.Std.Result.{Bytes}
use cpp_p2pchat.Std.Text.{is_space}
use cpp_p2pchat.Cli.Words.{add_word, first_word, parse_command, join_words}

-- characters without a space
abbrev pub Spaceless : Bytes → Type 0
Spaceless = All (λ c. is_space c ≡ false)

abbrev pub IsWord : Bytes → Type 0
IsWord w = (w ≢ []) × Spaceless w

first_word-append :
    (w s : Bytes) → Spaceless w → first_word (w ++ s) ≡ (w ++ (first_word s).0, (first_word s).1)
unfolding first_word
first_word-append [] s h = refl
first_word-append (c ∷ w) s (h, hs) = rw (h, first_word-append w s hs)

first_word-space : (s : Bytes) → first_word (b' ' ∷ s) ≡ ([], parse_command s)
unfolding first_word parse_command is_space
first_word-space s = refl

first_word-whole : (w : Bytes) → Spaceless w → first_word w ≡ (w, [])
unfolding first_word
first_word-whole [] h = refl
first_word-whole (c ∷ w) (h, hs) = rw (h, first_word-whole w hs)

add_word-IsWord : (w : Bytes) (words : List Bytes) → w ≢ [] → add_word w words ≡ w ∷ words
unfolding add_word
add_word-IsWord [] words h = absurd (h refl)
add_word-IsWord (c ∷ w) words h = refl

parse_command-first : (w s : Bytes) → IsWord w → parse_command (w ++ b' ' ∷ s) ≡ w ∷ parse_command s
unfolding parse_command
parse_command-first w s (h, hs) =
    rw (first_word-append w (b' ' ∷ s) hs, first_word-space s, append-nil)
      (add_word-IsWord w (parse_command s) h)

parse_command-last : (w : Bytes) → IsWord w → parse_command w ≡ w ∷ []
unfolding parse_command
parse_command-last w (h, hs) = rw (first_word-whole w hs) (add_word-IsWord w [] h)

-- Words that are joined by single spaces are split into the same words.
pub parse_command-join_words :
    (words : List Bytes) → All IsWord words → parse_command (join_words words) ≡ words
unfolding join_words
parse_command-join_words [] h = unfold parse_command first_word add_word in refl
parse_command-join_words (w ∷ []) (h, _) = parse_command-last w h
parse_command-join_words (w ∷ v ∷ words) (h, hs) =
    rw (parse_command-first w (join_words (v ∷ words)) h, parse_command-join_words (v ∷ words) hs)

add_word-All :
    (w : Bytes) (words : List Bytes)
    → Spaceless w
    → All IsWord words
    → All IsWord (add_word w words)
unfolding add_word
add_word-All [] words h hs = hs
add_word-All (c ∷ w) words h hs = ((cc, h), hs)

first_word-IsWord : (s : Bytes) → Spaceless (first_word s).0 × All IsWord (first_word s).1
unfolding first_word
first_word-IsWord [] = (tt, tt)
first_word-IsWord (c ∷ s) =
    let (spaceless, words) = first_word-IsWord s in
    elim (Bool-cases (is_space c)) [
      | inl e ↦ rw e (tt, add_word-All (first_word s).0 (first_word s).1 spaceless words)
      | inr e ↦ rw e ((e, spaceless), words)
    ]

-- Every word of a line is a word: it is not empty and holds no space.
parse_command-IsWord : (s : Bytes) → All IsWord (parse_command s)
unfolding parse_command
parse_command-IsWord s =
    add_word-All (first_word s).0 (first_word s).1 (first_word-IsWord s).0 (first_word-IsWord s).1

-- Whatever line is typed, its words joined by single spaces are split into the same words again:
-- only the number and kind of the spaces between words is lost.
pub parse_command-rejoined :
    (s : Bytes) → parse_command (join_words (parse_command s)) ≡ parse_command s
parse_command-rejoined s = parse_command-join_words (parse_command s) (parse_command-IsWord s)
