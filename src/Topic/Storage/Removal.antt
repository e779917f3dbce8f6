-- ===== src/Topic/Storage/Removal.antt =====
-- broker/src/topic/topic_storage.rs: what `unsubscribe` removes.
use yed_mq.Base.{
  ◌≡◌, ◌≢◌, refl, sym, ap, ◌∙◌, false, Option, none, some, List, Text, Map, lookup, Result, ok, err,
  text_eq_instance,
}
use yed_mq.Topic.Filter.{split}
use yed_mq.Topic.Shared.{
  SharedSubscriptionFilter, SharedSubscriptionFilterError, parse_shared_subscription_filter,
}
use yed_mq.Topic.Tree.{
  TopicStorageNode, Subscription, TopicStorageError, recursion_unsubscription, remove_keys, owned,
}
use yed_mq.Topic.Tree.Stored.{stored, stored-unsubscribe}
use yed_mq.Topic.Tree.Removal.{
  Mine, remove_keys-kept, remove_keys-gone, remove_keys-old, not_owned, not-Mine, path_other,
}
use yed_mq.Topic.Keys.{node_key, legacy_normal_subscription_key}
use yed_mq.Topic.Storage.{
  TopicStorage, target, keys_of, unsubscribe_done, unsubscribe_in, unsubscribe_parsed, unsubscribe,
}
use yed_mq.Topic.Storage.Delivery.{path_eq_self, lookup-written, written_tree}

module _ (encode : Text → Text) where
  -- From the tree before to the tree after: under the filter's path, the keys under which the client is
  -- filed in this group, and its plain name for no group, hold nothing of the client's in this group;
  -- what is not the client's in this group stays, and nothing is new; the other filters stay as they are.
  pub record Removed (path : List Text) (client : Text) (group : Option Text)
      (before after : TopicStorageNode) : Type 0 where
    pub gone :
        (s found : Subscription)
        → Mine client group s
        → lookup (node_key encode s) (stored after path) ≡ some found
        → ¬ Mine client group found
    pub gone_legacy :
        (found : Subscription)
        → group ≡ none
        → lookup client (stored after path) ≡ some found
        → ¬ Mine client group found
    pub kept :
        (k : Text) (s : Subscription)
        → lookup k (stored before path) ≡ some s
        → ¬ Mine client group s
        → lookup k (stored after path) ≡ some s
    pub old :
        (k : Text) (s : Subscription)
        → lookup k (stored after path) ≡ some s
        → lookup k (stored before path) ≡ some s
    pub others : (q : List Text) → q ≢ path → stored after q ≡ stored before q

  -- The trees of a tenant before and after a call.
  pub record TenantRemoved (ts : TopicStorage) (tenant : Text) (path : List Text) (client : Text)
      (group : Option Text) (ts' : TopicStorage) : Type 0 where
    pub before : TopicStorageNode
    pub after : TopicStorageNode
    pub was : lookup tenant ts.topic_tree ≡ some before
    pub becomes : lookup tenant ts'.topic_tree ≡ some after
    pub removed : Removed path client group before after

  cleared_key :
      (m : Map Text Subscription) (client : Text) (group : Option Text) (s : Subscription)
      → Mine client group s
      → owned client group
          (lookup (node_key encode s) (remove_keys m (keys_of encode client group) client group))
        ≡ false
  unfolding node_key
  cleared_key m client none s mine =
      rw (mine.0, mine.1) ((remove_keys-gone (keys_of encode client none) m client none).0)
  cleared_key m client (some g) s mine =
      rw (mine.0, mine.1) ((remove_keys-gone (keys_of encode client (some g)) m client (some g)).0)

  cleared_legacy :
      (m : Map Text Subscription) (client : Text) (group : Option Text)
      → group ≡ none
      → owned client group
          (lookup client (remove_keys m (keys_of encode client group) client group))
        ≡ false
  unfolding legacy_normal_subscription_key
  cleared_legacy m client none e = (remove_keys-gone (keys_of encode client none) m client none).1.0
  cleared_legacy m client (some g) e = absurd cc

  tree-Removed :
      (n : TopicStorageNode) (path : List Text) (client : Text) (group : Option Text)
      {n' : TopicStorageNode}
      → recursion_unsubscription n path (keys_of encode client group) client group ≡ ok n'
      → Removed path client group n n'
  tree-Removed n path client group {n'} e =
      let keys = keys_of encode client group in
      let here : stored n' path ≡ remove_keys (stored n path) keys client group =
        stored-unsubscribe n path path keys client group e ∙ rw (path_eq_self path) refl in
      record {
        gone = λ s found mine at.
            not-Mine client group _ found (cleared_key (stored n path) client group s mine)
              (sym (ap (lookup (node_key encode s)) here) ∙ at);
        gone_legacy = λ found plain at.
            not-Mine client group _ found (cleared_legacy (stored n path) client group plain)
              (sym (ap (lookup client) here) ∙ at);
        kept = λ k s at other.
            ap (lookup k) here
            ∙ remove_keys-kept keys (stored n path) client group k
                (ap (owned client group) at ∙ not_owned client group s other)
            ∙ at;
        old = λ k s at.
            remove_keys-old keys (stored n path) client group k (sym (ap (lookup k) here) ∙ at);
        others =
            λ q h. stored-unsubscribe n path q keys client group e ∙ rw (path_other path q h) refl;
      }

  unsubscribe_in-Removed :
      (ts : TopicStorage) (tenant client filter store_filter : Text) (group : Option Text)
      (o : Option TopicStorageNode) {ts' : TopicStorage}
      → lookup tenant ts.topic_tree ≡ o
      → unsubscribe_in encode ts tenant client filter store_filter group o ≡ ok ts'
      → TenantRemoved ts tenant (split store_filter) client group ts'
  unfolding unsubscribe_in
  unsubscribe_in-Removed ts tenant client filter store_filter group none w e = absurd cc
  unsubscribe_in-Removed ts tenant client filter store_filter group (some root) {ts'} w e =
      go
        (recursion_unsubscription root (split store_filter) (keys_of encode client group) client
          group)
        refl e
    where
      go :
          (r : Result TopicStorageError TopicStorageNode)
          → recursion_unsubscription root
              (split store_filter)
              (keys_of encode client group)
              client
              group
            ≡ r
          → unsubscribe_done encode ts tenant client filter r ≡ ok ts'
          → TenantRemoved ts tenant (split store_filter) client group ts'
      go (err x) p q = absurd (unfold unsubscribe_done in cc)
      go (ok root') p q = record {
        before = root;
        after = root';
        was = w;
        becomes = ap (lookup tenant) (written_tree q) ∙ lookup-written tenant root' ts.topic_tree;
        removed = tree-Removed root (split store_filter) client group p;
      }

  unsubscribe_rest-Removed :
      (ts : TopicStorage) (tenant client filter : Text)
      (r : Result SharedSubscriptionFilterError (Option SharedSubscriptionFilter))
      (shared : Option SharedSubscriptionFilter) {ts' : TopicStorage}
      → r ≡ ok shared
      → unsubscribe_parsed encode ts tenant client filter r ≡ ok ts'
      → let (store_filter, group) = target filter shared in
        TenantRemoved ts tenant (split store_filter) client group ts'
  unfolding unsubscribe_parsed
  unsubscribe_rest-Removed ts tenant client filter r shared p e =
      let (store_filter, group) = target filter shared in
      unsubscribe_in-Removed ts tenant client filter store_filter group
        (lookup tenant ts.topic_tree) refl (rw p at e)

  -- After a call of `unsubscribe` that succeeds, the key under which a subscription of the client to this
  -- filter is filed, in the group of a shared filter, holds none of it, nor does the client's plain name
  -- for an ordinary filter; the subscriptions of other clients and groups stay, none is added, and the
  -- other filters stay as they are.
  pub unsubscribe-Removed :
      (ts : TopicStorage) (tenant client filter : Text) (shared : Option SharedSubscriptionFilter)
      {ts' : TopicStorage}
      → parse_shared_subscription_filter filter ≡ ok shared
      → unsubscribe encode ts tenant client filter ≡ ok ts'
      → let (store_filter, group) = target filter shared in
        TenantRemoved ts tenant (split store_filter) client group ts'
  unfolding unsubscribe
  unsubscribe-Removed ts tenant client filter shared p e =
      unsubscribe_rest-Removed ts tenant client filter (parse_shared_subscription_filter filter)
        shared p e
