-- ===== src/Topic/Tests.antt =====
-- broker/src/topic on concrete filters and a concrete tree.
use yed_mq.Base.{
  ◌≡◌, ◌↔◌, ◌≢◌, true, false, some, none, List, [], ◌∷◌, ◌++◌, Text, ok, if◌then◌else◌, insert,
  text_eq_instance,
}
use yed_mq.Topic.Filter.{plus, split, test_topic}
use yed_mq.Topic.Filter.Syntax.{WellFormed, test_topic_iff}
use yed_mq.Topic.Shared.{SharedSubscriptionFilter, parse_shared_subscription_filter, share_prefix}
use yed_mq.Topic.Shared.Parse.{IsShared, parse-IsShared, parse-ordinary}
use yed_mq.Topic.Tree.{
  TopicStorageNode, Subscription, node, leaf, no_leaf, new, recursion_subscribe,
  recursion_get_subscriptions,
}
use yed_mq.Topic.Tree.Stored.{stored, path_eq, stored-subscribe}
use yed_mq.Topic.Tree.Matching.{In, Receives, get_subscriptions-Receives}

-- `a/+`
abbrev filter : Text
filter = b'a' ∷ b'/' ∷ b'+' ∷ []

abbrev level_a : Text
level_a = b'a' ∷ []

abbrev alice : Text
alice = b'c' ∷ []

abbrev subscription : Subscription
subscription = record {
  client_identifier = alice;
  qos = 1;
  no_local = false;
  retain_as_published = false;
  shared_group = none;
  topic_filter = filter;
}

abbrev path : List Text
path = level_a ∷ plus ∷ []

abbrev tree : TopicStorageNode
tree = node [] none (
    leaf level_a (node [] none (leaf plus (node ((alice, subscription) ∷ []) none no_leaf) no_leaf))
      no_leaf)

test_topic_iff_example : (test_topic filter ≡ true) ↔ WellFormed (split filter)
test_topic_iff_example = test_topic_iff filter

abbrev workers : SharedSubscriptionFilter
workers = record { share_name = b'w' ∷ []; topic_filter = filter }

parse-IsShared_example :
    (parse_shared_subscription_filter (share_prefix ++ b'w' ∷ b'/' ∷ filter) ≡ ok (some workers))
    ↔ IsShared (share_prefix ++ b'w' ∷ b'/' ∷ filter) workers
parse-IsShared_example = parse-IsShared (share_prefix ++ b'w' ∷ b'/' ∷ filter) workers

parse-ordinary_example :
    (parse_shared_subscription_filter filter ≡ ok none)
    ↔ ((rest : Text) → filter ≢ share_prefix ++ rest)
parse-ordinary_example = parse-ordinary filter

stored-subscribe_example :
    stored (recursion_subscribe new path alice subscription) path
    ≡ (if path_eq path path then insert alice subscription (stored new path) else stored new path)
stored-subscribe_example = stored-subscribe new path path alice subscription

get_subscriptions-Receives_example :
    In subscription (recursion_get_subscriptions tree (level_a ∷ alice ∷ []))
    ↔ Receives tree (level_a ∷ alice ∷ []) subscription
get_subscriptions-Receives_example =
    get_subscriptions-Receives (level_a ∷ alice ∷ []) tree subscription
