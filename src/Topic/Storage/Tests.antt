-- ===== src/Topic/Storage/Tests.antt =====
-- broker/src/topic/topic_storage.rs on a tenant with one tree. The encoder moves each byte up by 64, so
-- that no byte is a colon.
use yed_mq.Base.{
  inr, ℕ, ◌+◌, ◌≡◌, refl, ap, false, some, none, List, [], ◌∷◌, ◌++◌, arith, Text, ok, lookup,
  insert, remove, text_eq_instance, ==_iff,
}
use yed_mq.Topic.Filter.{contains, split, test_topic}
use yed_mq.Topic.Shared.{parse_shared_subscription_filter, strip_prefix}
use yed_mq.Topic.Tree.{
  node, leaf, no_leaf, new, Subscription, TopicStorageNode, recursion_subscribe,
  recursion_unsubscription,
}
use yed_mq.Topic.Keys.{generate_key, key_in, node_key}
use yed_mq.Topic.Keys.Unique.{IsEncoder, key_in-injective}
use yed_mq.Topic.Storage.{TopicStorage, subscribe_with_options, unsubscribe}
use yed_mq.Topic.Storage.Delivery.{Delivered, subscription_of, subscribe-Delivered}
use yed_mq.Topic.Storage.Removal.{TenantRemoved, unsubscribe-Removed}

up : Text → Text
up [] = []
up (c ∷ s) = (c + 64) ∷ up s

up-IsEncoder : IsEncoder up
unfolding up contains
up-IsEncoder = record { injective = injective; no_colon = no_colon }
  where
    injective : (s t : Text) → up s ≡ up t → s ≡ t
    injective [] [] e = refl
    injective [] (d ∷ t) e = absurd cc
    injective (c ∷ s) [] e = absurd cc
    injective (c ∷ s) (d ∷ t) e = ground (arith, injective s t)

    no_colon : (s : Text) → contains b':' (up s) ≡ false
    no_colon [] = refl
    no_colon (c ∷ s) = ground (arith, no_colon s)

abbrev acme : Text
acme = b't' ∷ []

abbrev alice : Text
alice = b'c' ∷ []

abbrev level : Text
level = b'a' ∷ []

key_in-injective_example : (alice ≡ alice) × (some level ≡ some level)
key_in-injective_example =
    key_in-injective up up-IsEncoder alice alice (some level) (some level) refl

abbrev empty : TopicStorage
empty = record {
  retain_message_recorder = [];
  topic_info_recorder = (acme, []) ∷ [];
  topic_tree = (acme, new) ∷ [];
}

abbrev subscription : Subscription
subscription = subscription_of alice level 1 false false none

abbrev key : Text
key = b'$' ∷ b'n' ∷ b'o' ∷ b'r' ∷ b'm' ∷ b'a' ∷ b'l' ∷ b':' ∷ 163 ∷ []

abbrev subscribed : TopicStorage
subscribed = record {
  retain_message_recorder = [];
  topic_info_recorder = (acme, (163 ∷ b':' ∷ 161 ∷ [], 1) ∷ []) ∷ [];
  topic_tree =
      (acme, node [] none (leaf level (node ((key, subscription) ∷ []) none no_leaf) no_leaf)) ∷ [];
}

abbrev unsubscribed : TopicStorage
unsubscribed = record {
  retain_message_recorder = [];
  topic_info_recorder = (acme, []) ∷ [];
  topic_tree = (acme, node [] none (leaf level (node [] none no_leaf) no_leaf)) ∷ [];
}

subscribe-Delivered_example : Delivered subscribed acme level subscription
unfolding parse_shared_subscription_filter strip_prefix subscribe_with_options unsubscribe
    generate_key key_in node_key split test_topic yed_mq.Topic.Filter.test_parts contains
    recursion_subscribe recursion_unsubscription yed_mq.Topic.Tree.change_or_create
    yed_mq.Topic.Tree.change_existing yed_mq.Topic.Tree.get_leaf yed_mq.Topic.Tree.set_leaf
    yed_mq.Topic.Tree.find_leaf yed_mq.Topic.Tree.put_leaf yed_mq.Topic.Tree.add_subscription
    yed_mq.Topic.Tree.remove_subscriptions yed_mq.Topic.Tree.remove_keys
    yed_mq.Topic.Keys.legacy_normal_subscription_key lookup insert remove yed_mq.Base.text_eq up
subscribe-Delivered_example =
    subscribe-Delivered up empty acme alice level level 1 false false none {ts' = subscribed} refl
      refl (inr (inr (refl, tt))) (λ p. p.1)

unsubscribe-Removed_example : TenantRemoved up subscribed acme (level ∷ []) alice none unsubscribed
unfolding parse_shared_subscription_filter strip_prefix subscribe_with_options unsubscribe
    generate_key key_in node_key split test_topic yed_mq.Topic.Filter.test_parts contains
    recursion_subscribe recursion_unsubscription yed_mq.Topic.Tree.change_or_create
    yed_mq.Topic.Tree.change_existing yed_mq.Topic.Tree.get_leaf yed_mq.Topic.Tree.set_leaf
    yed_mq.Topic.Tree.find_leaf yed_mq.Topic.Tree.put_leaf yed_mq.Topic.Tree.add_subscription
    yed_mq.Topic.Tree.remove_subscriptions yed_mq.Topic.Tree.remove_keys
    yed_mq.Topic.Keys.legacy_normal_subscription_key lookup insert remove yed_mq.Base.text_eq up
unsubscribe-Removed_example =
    unsubscribe-Removed up subscribed acme alice level none {ts' = unsubscribed} refl refl
