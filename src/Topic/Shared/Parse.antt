-- ===== src/Topic/Shared/Parse.antt =====
-- broker/src/topic/shared_subscription.rs: which strings are filters of shared subscriptions.
use yed_mq.Base.{
  ℕ, ◌≡◌, ◌≢◌, ◌↔◌, refl, sym, ap, ◌∙◌, true, false, Option, none, some, [], ◌∷◌, ◌++◌, ◌==◌, arith,
  Text, ok, err, Bool-cases, Option-cases, inl, inr, ==_iff, beq_self, nat_eq, if◌then◌else◌, All,
}
use yed_mq.Topic.Filter.{contains, split, test_topic}
use yed_mq.Topic.Filter.Syntax.{WellFormed, test_topic_iff}
use yed_mq.Topic.Shared.{
  SharedSubscriptionFilter, SharedSubscriptionFilterError, is_empty, is_valid_share_name,
  strip_prefix, cut, share_prefix, check_parts, parse_rest, parse_stripped,
  parse_shared_subscription_filter,
}

strip_prefix-some : (ps s : Text) {rest : Text} → strip_prefix ps s ≡ some rest → s ≡ ps ++ rest
unfolding strip_prefix
strip_prefix-some [] s e = cc
strip_prefix-some (p ∷ ps) [] e = cc
strip_prefix-some (p ∷ ps) (c ∷ s) {rest} e = ground (arith, strip_prefix-some ps s {rest = rest})

strip_prefix-append : (ps rest : Text) → strip_prefix ps (ps ++ rest) ≡ some rest
unfolding strip_prefix
strip_prefix-append [] rest = refl
strip_prefix-append (p ∷ ps) rest = rw (beq_self nat_eq p, strip_prefix-append ps rest)

cut-some :
    (c : ℕ) (s : Text) {before after : Text}
    → cut c s ≡ some (before, after)
    → (s ≡ before ++ c ∷ after) × (contains c before ≡ false)
unfolding cut contains
cut-some c [] e = cc
cut-some c (x ∷ s) {before} {after} e = elim (Bool-cases (x == c)) [
  | inl here ↦ ground (arith, ==_iff x c)
  | inr other ↦ elim (Option-cases (cut c s)) [
    | inl n ↦ absurd (ground (arith, n))
    | inr (parts, n) ↦ ground (arith, n, cut-some c s {before = parts.0} {after = parts.1} n)
  ]
]

pub cut-append :
    (c : ℕ) (before after : Text)
    → contains c before ≡ false
    → cut c (before ++ c ∷ after) ≡ some (before, after)
unfolding cut contains
cut-append c [] after h = ground arith
cut-append c (x ∷ before) after h = ground (arith, cut-append c before after)

-- A name that is not empty and has no separator and no wildcard.
abbrev pub IsShareName : Text → Type 0
IsShareName name = (name ≢ []) × All (λ c. (c ≢ b'/') × (c ≢ b'+') × (c ≢ b'#')) name

share_chars_sound :
    (s : Text)
    → contains b'/' s ≡ false
    → contains b'+' s ≡ false
    → contains b'#' s ≡ false
    → All (λ c. (c ≢ b'/') × (c ≢ b'+') × (c ≢ b'#')) s
unfolding contains
share_chars_sound [] a b c = tt
share_chars_sound (x ∷ s) a b c = (
  (ground arith, ground arith, ground arith),
  share_chars_sound s (ground arith) (ground arith) (ground arith),
)

share_chars_complete :
    (s : Text)
    → All (λ c. (c ≢ b'/') × (c ≢ b'+') × (c ≢ b'#')) s
    → (contains b'/' s ≡ false) × (contains b'+' s ≡ false) × (contains b'#' s ≡ false)
unfolding contains
share_chars_complete [] h = (refl, refl, refl)
share_chars_complete (x ∷ s) h = let rest = share_chars_complete s h.1 in ground (arith, rest, h.0)

is_valid_share_name_iff : (name : Text) → (is_valid_share_name name ≡ true) ↔ IsShareName name
unfolding is_valid_share_name
is_valid_share_name_iff [] = (λ e. absurd cc, λ h. absurd (h.0 refl))
is_valid_share_name_iff (c ∷ s) = (
  λ e. (λ z. absurd cc, share_chars_sound (c ∷ s) (ground arith) (ground arith) (ground arith)),
  λ h.
      let (slash, cross, sharp) = share_chars_complete (c ∷ s) h.1 in rw (slash, cross, sharp) refl,
)

-- What a parsed filter is: its parts, a name and a filter that is well formed.
abbrev pub IsShared : Text → SharedSubscriptionFilter → Type 0
IsShared raw f =
    (raw ≡ share_prefix ++ f.share_name ++ b'/' ∷ f.topic_filter)
    × (IsShareName f.share_name)
    × (f.topic_filter ≢ [])
    × (WellFormed (split f.topic_filter))

check_parts-some :
    (name filter : Text) {f : SharedSubscriptionFilter}
    → check_parts name filter ≡ ok (some f)
    → (f ≡ record { share_name = name; topic_filter = filter })
      × (is_valid_share_name name ≡ true)
      × (is_empty filter ≡ false)
      × (test_topic filter ≡ true)
unfolding check_parts
check_parts-some name filter e = ground arith

abbrev IsRest : Text → SharedSubscriptionFilter → Type 0
IsRest rest f =
    (rest ≡ f.share_name ++ b'/' ∷ f.topic_filter)
    × (is_valid_share_name f.share_name ≡ true)
    × (f.topic_filter ≢ [])
    × (test_topic f.topic_filter ≡ true)

is_empty-false : (s : Text) → is_empty s ≡ false → s ≢ []
is_empty-false [] e h = absurd cc
is_empty-false (c ∷ s) e h = cc

parse_rest-some :
    (rest : Text) (o : Option (Text × Text)) (f : SharedSubscriptionFilter)
    → cut b'/' rest ≡ o
    → parse_rest o ≡ ok (some f)
    → IsRest rest f
unfolding parse_rest
parse_rest-some rest none f p e = absurd cc
parse_rest-some rest (some (name, filter)) f p e =
    let (same, valid, some_filter, tested) = check_parts-some name filter e in
    let split = (cut-some b'/' rest p).0 in
    rw same (split, valid, is_empty-false filter some_filter, tested)

name_has_no_separator : (name : Text) → is_valid_share_name name ≡ true → contains b'/' name ≡ false
unfolding is_valid_share_name
name_has_no_separator name h = ground arith

check_parts-ok :
    (f : SharedSubscriptionFilter)
    → is_valid_share_name f.share_name ≡ true
    → f.topic_filter ≢ []
    → test_topic f.topic_filter ≡ true
    → check_parts f.share_name f.topic_filter ≡ ok (some f)
unfolding check_parts
check_parts-ok f v n t = rw (v, t) (filled f.topic_filter n)
  where
    filled :
        (s : Text)
        → s ≢ []
        → (if is_empty s then err SharedSubscriptionFilterError.empty_topic_filter else ok (some f))
          ≡ ok (some f)
    filled [] k = absurd (k refl)
    filled (c ∷ s) k = refl

-- A string is parsed to a shared filter exactly when it is `$share/`, a name that is not empty and has
-- no separator or wildcard, a `/`, and a filter that is not empty and whose wildcards stand for whole
-- levels, `#` only for the last.
pub parse-IsShared :
    (raw : Text) (f : SharedSubscriptionFilter)
    → (parse_shared_subscription_filter raw ≡ ok (some f)) ↔ IsShared raw f
unfolding parse_shared_subscription_filter
parse-IsShared raw f = (sound (strip_prefix share_prefix raw) refl, complete)
  where
    sound :
        (o : Option Text)
        → strip_prefix share_prefix raw ≡ o
        → parse_stripped o ≡ ok (some f)
        → IsShared raw f
    sound none p e = absurd cc
    sound (some rest) p e =
        let (parts, valid, filled, tested) = parse_rest-some rest (cut b'/' rest) f refl e in
        (
          strip_prefix-some share_prefix raw p ∙ ap (λ t. share_prefix ++ t) parts,
          (is_valid_share_name_iff f.share_name).0 valid,
          filled,
          (test_topic_iff f.topic_filter).0 tested,
        )

    complete : IsShared raw f → parse_stripped (strip_prefix share_prefix raw) ≡ ok (some f)
    complete (parts, named, filled, formed) =
        let valid = (is_valid_share_name_iff f.share_name).1 named in
        rw
          (
            parts,
            strip_prefix-append share_prefix (f.share_name ++ b'/' ∷ f.topic_filter),
            cut-append b'/' f.share_name f.topic_filter (name_has_no_separator f.share_name valid),
          )
          (check_parts-ok f valid filled ((test_topic_iff f.topic_filter).1 formed))

parse_rest-shared : (o : Option (Text × Text)) → parse_rest o ≢ ok none
unfolding parse_rest check_parts
parse_rest-shared none e = absurd cc
parse_rest-shared (some (name, filter)) e = absurd (ground arith)

-- A string is taken for an ordinary filter exactly when it does not start with `$share/`.
pub parse-ordinary :
    (raw : Text)
    → (parse_shared_subscription_filter raw ≡ ok none)
      ↔ ((rest : Text) → raw ≢ share_prefix ++ rest)
unfolding parse_shared_subscription_filter
parse-ordinary raw = (
  λ e rest p. parse_rest-shared (cut b'/' rest) (
      sym (
        ap parse_stripped
          (ap (strip_prefix share_prefix) p ∙ strip_prefix-append share_prefix rest))
      ∙ e),
  λ h. elim (Option-cases (strip_prefix share_prefix raw)) [
    | inl n ↦ ap parse_stripped n
    | inr (rest, n) ↦ absurd (h rest (strip_prefix-some share_prefix raw n))
  ],
)
