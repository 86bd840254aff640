-- ===== src/Cli/Words.antt =====
-- `ParseCommand`, and the joining of words by `HandleSend` and `HandleBroadcast`.
use cpp_p2pchat.Base.{List, [], ◌∷◌, ◌++◌, if◌then◌else◌}
use cpp_p2pchat.Std.Result.{Bytes}
use cpp_p2pchat.Std.Text.{is_space}

-- A word is read if it has a character.
unfoldable pub add_word : Bytes → List Bytes → List Bytes
add_word [] words = words
add_word (c ∷ w) words = (c ∷ w) ∷ words

-- the characters up to the first space, and the words behind it
unfoldable pub first_word : Bytes → Bytes × List Bytes
unfolding add_word
first_word [] = ([], [])
first_word (c ∷ s) =
    let (w, words) = first_word s in if is_space c then ([], add_word w words) else (c ∷ w, words)

-- the loop `while (iss >> arg)`
unfoldable pub parse_command : Bytes → List Bytes
unfolding add_word first_word
parse_command input = let (w, words) = first_word input in add_word w words

unfoldable pub join_words : List Bytes → Bytes
join_words [] = []
join_words (w ∷ []) = w
join_words (w ∷ v ∷ words) = w ++ b' ' ∷ join_words (v ∷ words)
