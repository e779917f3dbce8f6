-- ===== src/Topic/Storage.antt =====
-- broker/src/topic/topic_storage.rs, `TopicStorage`: the trees of all tenants, and the records of topics
-- and retained messages. Each operation holds the locks that it needs to its end, so it is one step. The
-- Base64 encoder is a parameter.
pub mod Delivery
pub mod Removal
mod Tests
use yed_mq.Base.{
  ℕ, Bool, true, false, not, Option, none, some, List, [], ◌∷◌, ◌++◌, if◌then◌else◌, is_some, Text,
  Map, lookup, insert, remove, Result, ok, err, text_eq_instance,
}
use yed_mq.Mqtt.Packet.{Packet, Publish, publish}
use yed_mq.Mqtt.Expiry.{is_packet_expired}
use yed_mq.Topic.Filter.{split, test_topic}
use yed_mq.Topic.Shared.{
  SharedSubscriptionFilter, SharedSubscriptionFilterError, parse_shared_subscription_filter,
}
use yed_mq.Topic.Tree.{
  TopicStorageNode, Subscription, TopicStorageError, invalid_topic_filter, tenant_not_found,
  recursion_subscribe, recursion_unsubscription, recursion_get_subscriptions,
  recursion_retain_publish_packet, recursion_clean_retain_publish_packet,
}
use yed_mq.Topic.Tree
use yed_mq.Topic.Keys.{generate_key, key_in, node_key, legacy_normal_subscription_key}

pub record TopicStorage : Type 0 where
  pub retain_message_recorder : Map Text (Map Text (Text × ℕ))
  pub topic_info_recorder : Map Text (Map Text ℕ)
  pub topic_tree : Map Text TopicStorageNode

abbrev empty_share_name_message : Text
empty_share_name_message =
    b's' ∷ b'h' ∷ b'a' ∷ b'r' ∷ b'e' ∷ b'd' ∷ b' ' ∷ b's' ∷ b'u' ∷ b'b' ∷ b's' ∷ b'c' ∷ b'r' ∷ b'i'
    ∷ b'p' ∷ b't' ∷ b'i' ∷ b'o' ∷ b'n' ∷ b' ' ∷ b's' ∷ b'h' ∷ b'a' ∷ b'r' ∷ b'e' ∷ b' ' ∷ b'n'
    ∷ b'a' ∷ b'm' ∷ b'e' ∷ b' ' ∷ b'i' ∷ b's' ∷ b' ' ∷ b'e' ∷ b'm' ∷ b'p' ∷ b't' ∷ b'y' ∷ []

abbrev empty_topic_filter_message : Text
empty_topic_filter_message =
    b's' ∷ b'h' ∷ b'a' ∷ b'r' ∷ b'e' ∷ b'd' ∷ b' ' ∷ b's' ∷ b'u' ∷ b'b' ∷ b's' ∷ b'c' ∷ b'r' ∷ b'i'
    ∷ b'p' ∷ b't' ∷ b'i' ∷ b'o' ∷ b'n' ∷ b' ' ∷ b't' ∷ b'o' ∷ b'p' ∷ b'i' ∷ b'c' ∷ b' ' ∷ b'f'
    ∷ b'i' ∷ b'l' ∷ b't' ∷ b'e' ∷ b'r' ∷ b' ' ∷ b'i' ∷ b's' ∷ b' ' ∷ b'e' ∷ b'm' ∷ b'p' ∷ b't'
    ∷ b'y' ∷ []

abbrev invalid_share_name_message : Text
invalid_share_name_message =
    b's' ∷ b'h' ∷ b'a' ∷ b'r' ∷ b'e' ∷ b'd' ∷ b' ' ∷ b's' ∷ b'u' ∷ b'b' ∷ b's' ∷ b'c' ∷ b'r' ∷ b'i'
    ∷ b'p' ∷ b't' ∷ b'i' ∷ b'o' ∷ b'n' ∷ b' ' ∷ b's' ∷ b'h' ∷ b'a' ∷ b'r' ∷ b'e' ∷ b' ' ∷ b'n'
    ∷ b'a' ∷ b'm' ∷ b'e' ∷ b' ' ∷ b'c' ∷ b'o' ∷ b'n' ∷ b't' ∷ b'a' ∷ b'i' ∷ b'n' ∷ b's' ∷ b' '
    ∷ b'i' ∷ b'n' ∷ b'v' ∷ b'a' ∷ b'l' ∷ b'i' ∷ b'd' ∷ b' ' ∷ b'w' ∷ b'i' ∷ b'l' ∷ b'd' ∷ b'c'
    ∷ b'a' ∷ b'r' ∷ b'd' ∷ b' ' ∷ b'o' ∷ b'r' ∷ b' ' ∷ b's' ∷ b'e' ∷ b'p' ∷ b'a' ∷ b'r' ∷ b'a'
    ∷ b't' ∷ b'o' ∷ b'r' ∷ []

abbrev invalid_topic_filter_message : Text
invalid_topic_filter_message =
    b's' ∷ b'h' ∷ b'a' ∷ b'r' ∷ b'e' ∷ b'd' ∷ b' ' ∷ b's' ∷ b'u' ∷ b'b' ∷ b's' ∷ b'c' ∷ b'r' ∷ b'i'
    ∷ b'p' ∷ b't' ∷ b'i' ∷ b'o' ∷ b'n' ∷ b' ' ∷ b't' ∷ b'o' ∷ b'p' ∷ b'i' ∷ b'c' ∷ b' ' ∷ b'f'
    ∷ b'i' ∷ b'l' ∷ b't' ∷ b'e' ∷ b'r' ∷ b' ' ∷ b'i' ∷ b's' ∷ b' ' ∷ b'i' ∷ b'n' ∷ b'v' ∷ b'a'
    ∷ b'l' ∷ b'i' ∷ b'd' ∷ b':' ∷ b' ' ∷ []

-- `e.to_string()`
describe : SharedSubscriptionFilterError → Text
describe SharedSubscriptionFilterError.empty_share_name = empty_share_name_message
describe SharedSubscriptionFilterError.empty_topic_filter = empty_topic_filter_message
describe SharedSubscriptionFilterError.invalid_share_name = invalid_share_name_message
describe (SharedSubscriptionFilterError.invalid_topic_filter filter) =
    invalid_topic_filter_message ++ filter

-- `if !map.contains_key(tenant) { map.insert(tenant, v) }`
abbrev insert_new {ℓ} : {V : Type ℓ} → Text → V → Map Text V → Map Text V
insert_new tenant v m = if is_some (lookup tenant m) then m else insert tenant v m

unfoldable pub create_tenant : TopicStorage → Text → TopicStorage
create_tenant ts tenant = record {
  retain_message_recorder = insert_new tenant [] ts.retain_message_recorder;
  topic_info_recorder = insert_new tenant [] ts.topic_info_recorder;
  topic_tree = insert_new tenant Tree.new ts.topic_tree;
}

unfoldable pub new : TopicStorage
unfolding create_tenant
new =
    create_tenant
      (record { retain_message_recorder = []; topic_info_recorder = []; topic_tree = [] })
      (b'p' ∷ b'u' ∷ b'b' ∷ b'l' ∷ b'i' ∷ b'c' ∷ [])

unfoldable pub contains_tenant : TopicStorage → Text → Bool
contains_tenant ts tenant = is_some (lookup tenant ts.topic_tree)

-- `if let Some(items) = map.get_mut(tenant) { f(items) }`
abbrev update_items {ℓ} : {V : Type ℓ} → Text → (V → V) → Map Text V → Option V → Map Text V
update_items tenant f m none = m
update_items tenant f m (some items) = insert tenant (f items) m

abbrev update_at {ℓ} : {V : Type ℓ} → Text → (V → V) → Map Text V → Map Text V
update_at tenant f m = update_items tenant f m (lookup tenant m)

-- `entry(key).or_insert(qos)`
abbrev or_insert : Text → ℕ → Map Text ℕ → Map Text ℕ
or_insert key qos items = if is_some (lookup key items) then items else insert key qos items

-- The filter to store and the group, from the filter that was given.
abbrev pub target : Text → Option SharedSubscriptionFilter → Text × Option Text
target filter none = (filter, none)
target filter (some s) = (s.topic_filter, some s.share_name)

module _ (encode : Text → Text) where
  unfoldable pub subscribe_in :
      TopicStorage
      → Text
      → Text
      → Subscription
      → Option TopicStorageNode
      → Result TopicStorageError TopicStorage
  subscribe_in ts tenant filter s none = err (tenant_not_found tenant)
  subscribe_in ts tenant filter s (some root) = ok (record ts {
    topic_tree =
        insert tenant (recursion_subscribe root (split s.topic_filter) (node_key encode s) s)
          ts.topic_tree;
    topic_info_recorder =
        update_at tenant (or_insert (generate_key encode s.client_identifier filter) s.qos)
          ts.topic_info_recorder;
  })

  unfoldable pub subscribe_parsed :
      TopicStorage
      → Text
      → Text
      → Text
      → ℕ
      → Bool
      → Bool
      → Result SharedSubscriptionFilterError (Option SharedSubscriptionFilter)
      → Result TopicStorageError TopicStorage
  unfolding subscribe_in describe
  subscribe_parsed ts tenant client filter qos no_local as_published (err e) =
      err (invalid_topic_filter (describe e))
  subscribe_parsed ts tenant client filter qos no_local as_published (ok shared) =
      let (store_filter, shared_group) = target filter shared in
      if not (test_topic store_filter)
      then err (invalid_topic_filter store_filter)
      else subscribe_in ts tenant filter
          (record {
            client_identifier = client;
            qos = qos;
            no_local = no_local;
            retain_as_published = as_published;
            shared_group = shared_group;
            topic_filter = store_filter;
          })
          (lookup tenant ts.topic_tree)

  unfoldable pub subscribe_with_options :
      TopicStorage → Text → Text → Text → ℕ → Bool → Bool → Result TopicStorageError TopicStorage
  unfolding subscribe_parsed
  subscribe_with_options ts tenant client filter qos no_local as_published =
      subscribe_parsed ts tenant client filter qos no_local as_published
        (parse_shared_subscription_filter filter)

  unfoldable pub subscribe :
      TopicStorage → Text → Text → Text → ℕ → Result TopicStorageError TopicStorage
  unfolding subscribe_with_options
  subscribe ts tenant client filter qos =
      subscribe_with_options ts tenant client filter qos false false

  -- The keys to remove: a client without a group may still be filed under its plain name.
  abbrev pub keys_of : Text → Option Text → List Text
  keys_of client none = key_in encode client none ∷ legacy_normal_subscription_key client ∷ []
  keys_of client (some group) = key_in encode client (some group) ∷ []

  unfoldable pub unsubscribe_done :
      TopicStorage
      → Text
      → Text
      → Text
      → Result TopicStorageError TopicStorageNode
      → Result TopicStorageError TopicStorage
  unsubscribe_done ts tenant client filter (err e) = err e
  unsubscribe_done ts tenant client filter (ok root) = ok (record ts {
    topic_tree = insert tenant root ts.topic_tree;
    topic_info_recorder =
        update_at tenant (remove (generate_key encode client filter)) ts.topic_info_recorder;
  })

  unfoldable pub unsubscribe_in :
      TopicStorage
      → Text
      → Text
      → Text
      → Text
      → Option Text
      → Option TopicStorageNode
      → Result TopicStorageError TopicStorage
  unfolding unsubscribe_done
  unsubscribe_in ts tenant client filter store_filter group none = err (tenant_not_found tenant)
  unsubscribe_in ts tenant client filter store_filter group (some root) =
      unsubscribe_done ts tenant client filter
        (recursion_unsubscription root (split store_filter) (keys_of client group) client group)

  unfoldable pub unsubscribe_parsed :
      TopicStorage
      → Text
      → Text
      → Text
      → Result SharedSubscriptionFilterError (Option SharedSubscriptionFilter)
      → Result TopicStorageError TopicStorage
  unfolding unsubscribe_in describe
  unsubscribe_parsed ts tenant client filter (err e) = err (invalid_topic_filter (describe e))
  unsubscribe_parsed ts tenant client filter (ok shared) =
      let (store_filter, group) = target filter shared in
      unsubscribe_in ts tenant client filter store_filter group (lookup tenant ts.topic_tree)

  unfoldable pub unsubscribe :
      TopicStorage → Text → Text → Text → Result TopicStorageError TopicStorage
  unfolding unsubscribe_parsed
  unsubscribe ts tenant client filter =
      unsubscribe_parsed ts tenant client filter (parse_shared_subscription_filter filter)

abbrev found_in :
    Text → Option TopicStorageNode → Text → Result TopicStorageError (List Subscription)
found_in tenant none topic = err (tenant_not_found tenant)
found_in tenant (some root) topic = ok (recursion_get_subscriptions root (split topic))

unfoldable pub get_subscriptions :
    TopicStorage → Text → Text → Result TopicStorageError (List Subscription)
get_subscriptions ts tenant topic = found_in tenant (lookup tenant ts.topic_tree) topic

abbrev retain_in :
    TopicStorage
    → Text
    → Text
    → Publish
    → Option TopicStorageNode
    → Result TopicStorageError TopicStorage
retain_in ts tenant client p none = err (tenant_not_found tenant)
retain_in ts tenant client p (some root) = ok (record ts {
  topic_tree =
      insert tenant (recursion_retain_publish_packet root (split p.topic_name) (publish p))
        ts.topic_tree;
  retain_message_recorder =
      update_at tenant (insert p.topic_name (client, p.qos)) ts.retain_message_recorder;
})

unfoldable pub register_retain_publish_packet :
    TopicStorage → Text → Text → Packet → Result TopicStorageError TopicStorage
register_retain_publish_packet ts tenant client (publish p) =
    if not (test_topic p.topic_name)
    then err (invalid_topic_filter p.topic_name)
    else retain_in ts tenant client p (lookup tenant ts.topic_tree)
register_retain_publish_packet ts tenant client _ = ok ts

abbrev clean_done :
    TopicStorage
    → Text
    → Text
    → Result TopicStorageError TopicStorageNode
    → Result TopicStorageError TopicStorage
clean_done ts tenant filter (err e) = err e
clean_done ts tenant filter (ok root) = ok (record ts {
  topic_tree = insert tenant root ts.topic_tree;
  retain_message_recorder = update_at tenant (remove filter) ts.retain_message_recorder;
})

abbrev clean_in :
    TopicStorage → Text → Text → Option TopicStorageNode → Result TopicStorageError TopicStorage
clean_in ts tenant filter none = err (tenant_not_found tenant)
clean_in ts tenant filter (some root) =
    clean_done ts tenant filter (recursion_clean_retain_publish_packet root (split filter))

unfoldable pub clean_retain_publish_packet :
    TopicStorage → Text → Text → Result TopicStorageError TopicStorage
clean_retain_publish_packet ts tenant filter =
    clean_in ts tenant filter (lookup tenant ts.topic_tree)
