-- ===== src/Topic/Shared.antt =====
-- broker/src/topic/shared_subscription.rs: filters of shared subscriptions, `$share/<name>/<filter>`.
pub mod Parse
use yed_mq.Base.{
  ℕ, Bool, true, false, not, ◌&&◌, Option, none, some, List, [], ◌∷◌, ◌==◌, if◌then◌else◌, Text,
  Result, ok, err,
}
use yed_mq.Topic.Filter.{contains, test_topic}

pub record SharedSubscriptionFilter : Type 0 where
  pub share_name : Text
  pub topic_filter : Text

pub data SharedSubscriptionFilterError : Type 0 where
  empty_share_name empty_topic_filter invalid_share_name : SharedSubscriptionFilterError
  invalid_topic_filter : Text → SharedSubscriptionFilterError

-- `s.is_empty()`
abbrev pub is_empty : Text → Bool
is_empty [] = true
is_empty (c ∷ s) = false

pub is_valid_share_name : Text → Bool
is_valid_share_name name =
    if is_empty name
    then false
    else not (contains b'/' name) && not (contains b'+' name) && not (contains b'#' name)

-- `raw.strip_prefix(prefix)`
unfoldable pub strip_prefix : Text → Text → Option Text
strip_prefix [] s = some s
strip_prefix (p ∷ ps) [] = none
strip_prefix (p ∷ ps) (c ∷ s) = let rest = strip_prefix ps s in if p == c then rest else none

-- `s[..pos]` and `s[pos + 1..]` for the first position of `c`.
abbrev pub push_front : ℕ → Option (Text × Text) → Option (Text × Text)
push_front x none = none
push_front x (some (before, after)) = some (x ∷ before, after)

pub cut : ℕ → Text → Option (Text × Text)
cut c [] = none
cut c (x ∷ s) = let rest = cut c s in if x == c then some ([], s) else push_front x rest

abbrev pub share_prefix : Text
share_prefix = b'$' ∷ b's' ∷ b'h' ∷ b'a' ∷ b'r' ∷ b'e' ∷ b'/' ∷ []

-- The tests on a share name and an inner filter.
pub check_parts :
    Text → Text → Result SharedSubscriptionFilterError (Option SharedSubscriptionFilter)
check_parts share_name topic_filter =
    if not (is_valid_share_name share_name)
    then if is_empty share_name then err empty_share_name else err invalid_share_name
    else if is_empty topic_filter
    then err empty_topic_filter
    else if not (test_topic topic_filter)
    then err (invalid_topic_filter topic_filter)
    else ok (some (record { share_name = share_name; topic_filter = topic_filter }))

pub parse_rest :
    Option (Text × Text) → Result SharedSubscriptionFilterError (Option SharedSubscriptionFilter)
unfolding check_parts
parse_rest none = err empty_topic_filter
parse_rest (some (share_name, topic_filter)) = check_parts share_name topic_filter

pub parse_stripped :
    Option Text → Result SharedSubscriptionFilterError (Option SharedSubscriptionFilter)
unfolding parse_rest
parse_stripped none = ok none
parse_stripped (some rest) = parse_rest (cut b'/' rest)

unfoldable pub parse_shared_subscription_filter :
    Text → Result SharedSubscriptionFilterError (Option SharedSubscriptionFilter)
unfolding parse_stripped
parse_shared_subscription_filter raw = parse_stripped (strip_prefix share_prefix raw)
