-- ===== src/Topic/Filter.antt =====
-- broker/src/topic/topic_storage.rs, `test_topic`: the syntax of topic filters. A string is its bytes.
pub mod Syntax
use yed_mq.Base.{
  ℕ, suc, Bool, true, false, not, ◌&&◌, ◌||◌, List, [], ◌∷◌, ◌==◌, ltb, if◌then◌else◌, Text, length,
}

-- The wildcards.
abbrev pub hash : Text
hash = b'#' ∷ []

abbrev pub plus : Text
plus = b'+' ∷ []

-- `s.contains(c)` for an ASCII character.
unfoldable pub contains : ℕ → Text → Bool
contains c [] = false
contains c (x ∷ s) = (x == c) || contains c s

-- `s.split("/")`: one part more than there are separators.
abbrev pub push_head : ℕ → List Text → List Text
push_head c [] = (c ∷ []) ∷ []
push_head c (w ∷ ws) = (c ∷ w) ∷ ws

unfoldable pub split : Text → List Text
split [] = [] ∷ []
split (c ∷ s) = let rest = split s in if c == b'/' then [] ∷ rest else push_head c rest

-- The loop of `test_topic`: `index` parts were read, of `parts`.
unfoldable pub test_parts : ℕ → ℕ → List Text → Bool
test_parts index parts [] = true
test_parts index parts (w ∷ ws) =
    let rest = test_parts (suc index) parts ws in
    if ltb 1 (length w)
    then if contains b'#' w || contains b'+' w then false else rest
    else if contains b'#' w && not (suc index == parts)
    then false
    else rest

unfoldable pub test_topic : Text → Bool
test_topic topic = test_parts 0 (length (split topic)) (split topic)
