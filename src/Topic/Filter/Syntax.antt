-- ===== src/Topic/Filter/Syntax.antt =====
-- broker/src/topic/topic_storage.rs: `test_topic` decides the syntax of a topic filter.
use yed_mq.Base.{
  ℕ, suc, ◌+◌, ◌≡◌, refl, sym, ap, ◌∙◌, not, ◌&&◌, ◌⊎◌, ◌↔◌, inl, inr, Bool, true, false, ◌||◌,
  List, [], ◌∷◌, arith, ◌==◌, Text, length, if◌then◌else◌, ltb, Bool-cases,
}
use yed_mq.Topic.Filter.{hash, plus, contains, split, test_parts, test_topic}

-- A level without wildcards.
abbrev pub IsPlain : Text → Type 0
IsPlain w = (contains b'#' w ≡ false) × (contains b'+' w ≡ false)

-- A wildcard stands for a whole level, and `#` only for the last.
abbrev pub WellFormed : List Text → Type 0
WellFormed [] = Unit {0}
WellFormed (w ∷ ws) = (IsPlain w ⊎ (w ≡ plus) ⊎ ((w ≡ hash) × (ws ≡ []))) × WellFormed ws

abbrev LevelOk : Text → Bool → Type 0
LevelOk w last = IsPlain w ⊎ (w ≡ plus) ⊎ ((w ≡ hash) × (last ≡ true))

level_ok : Text → Bool → Bool
level_ok w last =
    if ltb 1 (length w)
    then if contains b'#' w || contains b'+' w then false else true
    else if contains b'#' w && not last
    then false
    else true

level_ok_sound : (w : Text) (last : Bool) → level_ok w last ≡ true → LevelOk w last
unfolding level_ok contains
level_ok_sound [] last h = inl (refl, refl)
level_ok_sound (c ∷ []) last h = elim (Bool-cases (c == b'#')) [
  | inl sharp ↦ inr (inr (ground arith, ground arith))
  | inr other ↦ elim (Bool-cases (c == b'+')) [
    | inl cross ↦ inr (inl (ground arith))
    | inr plain ↦ inl (ground arith, ground arith)
  ]
]
level_ok_sound (c ∷ d ∷ w) last h = inl (ground arith, ground arith)

level_ok_complete : (w : Text) (last : Bool) → LevelOk w last → level_ok w last ≡ true
unfolding level_ok
level_ok_complete w last (inl plain) = ground arith
level_ok_complete w last (inr (inl e)) = rw e (unfold contains in refl)
level_ok_complete w last (inr (inr e)) = rw (e.0, e.1) (unfold contains in refl)

test_parts_step :
    (index parts : ℕ) (w : Text) (ws : List Text)
    → test_parts index parts (w ∷ ws)
      ≡ level_ok w (suc index == parts) && test_parts (suc index) parts ws
unfolding test_parts level_ok
test_parts_step index parts w ws = ground arith

last_part : (n : ℕ) (ws : List Text) → (suc n == n + suc (length ws)) ≡ true → ws ≡ []
last_part n [] h = refl
last_part n (w ∷ ws) h = absurd (ground arith)

test_parts_sound :
    (index parts : ℕ) (ws : List Text)
    → parts ≡ index + length ws
    → test_parts index parts ws ≡ true
    → WellFormed ws
test_parts_sound index parts [] e h = tt
test_parts_sound index parts (w ∷ ws) e h =
    let both : level_ok w (suc index == parts) && test_parts (suc index) parts ws ≡ true =
      sym (test_parts_step index parts w ws) ∙ h in
    (
      level (level_ok_sound w (suc index == parts) (ground arith)),
      test_parts_sound (suc index) parts ws (omega arith) (ground arith),
    )
  where
    level : LevelOk w (suc index == parts) → IsPlain w ⊎ (w ≡ plus) ⊎ ((w ≡ hash) × (ws ≡ []))
    level (inl plain) = inl plain
    level (inr (inl cross)) = inr (inl cross)
    level (inr (inr sharp)) = inr (inr (sharp.0, last_part index ws (rw e at sharp.1)))

test_parts_complete :
    (index parts : ℕ) (ws : List Text)
    → parts ≡ index + length ws
    → WellFormed ws
    → test_parts index parts ws ≡ true
test_parts_complete index parts [] e h = unfold test_parts in refl
test_parts_complete index parts (w ∷ ws) e h =
    test_parts_step index parts w ws
    ∙ rw (
      level_ok_complete w (suc index == parts) (level h.0),
      test_parts_complete (suc index) parts ws (omega arith) h.1,
    )
  where
    level : IsPlain w ⊎ (w ≡ plus) ⊎ ((w ≡ hash) × (ws ≡ [])) → LevelOk w (suc index == parts)
    level (inl plain) = inl plain
    level (inr (inl cross)) = inr (inl cross)
    level (inr (inr sharp)) =
        inr (inr (sharp.0, let n : length ws ≡ 0 = ap length sharp.1 in ground arith))

-- A filter is accepted exactly when each wildcard stands for a whole level and `#` is the last.
pub test_topic_iff : (topic : Text) → (test_topic topic ≡ true) ↔ WellFormed (split topic)
unfolding test_topic
test_topic_iff topic = (
  test_parts_sound 0 (length (split topic)) (split topic) (omega arith),
  test_parts_complete 0 (length (split topic)) (split topic) (omega arith),
)
