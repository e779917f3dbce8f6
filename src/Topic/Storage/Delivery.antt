-- ===== src/Topic/Storage/Delivery.antt =====
-- broker/src/topic/topic_storage.rs: who receives a topic after `subscribe_with_options` and after
-- `unsubscribe`.
use yed_mq.Base.{
  ℕ, ◌≡◌, refl, sym, ap, Bool, true, Option, none, some, List, [], ◌∷◌, arith, Text, text_eq, Map,
  lookup, insert, lookup-insert, beq_self, Result, ok, Bool-cases, inl, inr, text_eq_instance,
}
use yed_mq.Topic.Filter.{split, test_topic}
use yed_mq.Topic.Shared.{
  SharedSubscriptionFilter, SharedSubscriptionFilterError, parse_shared_subscription_filter,
}
use yed_mq.Topic.Tree.{
  TopicStorageNode, Subscription, TopicStorageError, recursion_subscribe,
  recursion_get_subscriptions, values,
}
use yed_mq.Topic.Tree.Stored.{stored, path_eq, stored-subscribe}
use yed_mq.Topic.Tree.Matching.{AtParent, In, Matches, get_subscriptions-Receives}
use yed_mq.Topic.Keys.{node_key}
use yed_mq.Topic.Storage.{
  TopicStorage, target, subscribe_in, subscribe_parsed, subscribe_with_options, get_subscriptions,
}

pub path_eq_self : (p : List Text) → path_eq p p ≡ true
unfolding path_eq
path_eq_self [] = refl
path_eq_self (w ∷ p) = rw (beq_self text_eq_instance w, path_eq_self p)

In-insert : (k : Text) (s : Subscription) (m : Map Text Subscription) → In s (values (insert k s m))
unfolding insert
In-insert k s [] = inl refl
In-insert k s ((i, x) ∷ m) = elim (Bool-cases (text_eq i k)) [
  | inl e ↦ rw e (inl refl)
  | inr e ↦ rw e (inr (In-insert k s m))
]

pub lookup-written :
    {V : Type 0} (k : Text) (v : V) (m : Map Text V) → lookup k (insert k v m) ≡ some v
lookup-written k v m = rw (lookup-insert k k v m, beq_self text_eq_instance k)

In-subscribe :
    (root : TopicStorageNode) (path : List Text) (key : Text) (s : Subscription)
    → In s (values (stored (recursion_subscribe root path key s) path))
In-subscribe root path key s =
    rw (stored-subscribe root path path key s, path_eq_self path)
      (In-insert key s (stored root path))

pub written_tree :
    {t t' : TopicStorage}
    → ◌≡◌ {A = Result TopicStorageError TopicStorage} (ok t) (ok t')
    → t'.topic_tree ≡ t.topic_tree
written_tree {t} {t'} e = let same : t ≡ t' = cc in ap (λ x. x.topic_tree) (sym same)

-- The subscription that a call files.
abbrev pub subscription_of :
    Text → Text → ℕ → Bool → Bool → Option SharedSubscriptionFilter → Subscription
subscription_of client filter qos no_local as_published shared = record {
  client_identifier = client;
  qos = qos;
  no_local = no_local;
  retain_as_published = as_published;
  shared_group = (target filter shared).1;
  topic_filter = (target filter shared).0;
}

-- The subscription is among those that a published topic finds.
abbrev pub Delivered : TopicStorage → Text → Text → Subscription → Type 0
Delivered ts tenant topic s =
    (found : List Subscription) × (get_subscriptions ts tenant topic ≡ ok found) × In s found

module _ (encode : Text → Text) where
  subscribe_in-Delivered :
      (ts : TopicStorage) (tenant filter topic : Text) (s : Subscription)
      (o : Option TopicStorageNode) {ts' : TopicStorage}
      → subscribe_in encode ts tenant filter s o ≡ ok ts'
      → Matches (split s.topic_filter) (split topic)
      → ¬ AtParent (split s.topic_filter) (split topic)
      → Delivered ts' tenant topic s
  unfolding subscribe_in get_subscriptions
  subscribe_in-Delivered ts tenant filter topic s none e m above = absurd cc
  subscribe_in-Delivered ts tenant filter topic s (some root) {ts'} e m above =
      let path = split s.topic_filter in
      let key = node_key encode s in
      let root' = recursion_subscribe root path key s in
      let tree : ts'.topic_tree ≡ insert tenant root' ts.topic_tree = written_tree e in
      (
        recursion_get_subscriptions root' (split topic),
        rw (tree, lookup-written tenant root' ts.topic_tree),
        (get_subscriptions-Receives (split topic) root' s).1
            (path, m, above, In-subscribe root path key s),
      )

  subscribe_parsed-Delivered :
      (ts : TopicStorage) (tenant client filter topic : Text) (qos : ℕ)
      (no_local as_published : Bool) (shared : Option SharedSubscriptionFilter) {ts' : TopicStorage}
      → subscribe_parsed encode ts tenant client filter qos no_local as_published (ok shared)
        ≡ ok ts'
      → Matches (split (target filter shared).0) (split topic)
      → ¬ AtParent (split (target filter shared).0) (split topic)
      → Delivered ts' tenant topic (subscription_of client filter qos no_local as_published shared)
  unfolding subscribe_parsed
  subscribe_parsed-Delivered ts tenant client filter topic qos no_local as_published shared e m
        above =
      elim (Bool-cases (test_topic (target filter shared).0)) [
        | inl tested ↦
            subscribe_in-Delivered ts tenant filter topic
              (subscription_of client filter qos no_local as_published shared)
              (lookup tenant ts.topic_tree) (rw tested at e) m above
        | inr bad ↦ absurd (ground (arith, bad))
      ]

  subscribe_rest-Delivered :
      (ts : TopicStorage) (tenant client filter topic : Text) (qos : ℕ)
      (no_local as_published : Bool)
      (r : Result SharedSubscriptionFilterError (Option SharedSubscriptionFilter))
      (shared : Option SharedSubscriptionFilter) {ts' : TopicStorage}
      → r ≡ ok shared
      → subscribe_parsed encode ts tenant client filter qos no_local as_published r ≡ ok ts'
      → Matches (split (target filter shared).0) (split topic)
      → ¬ AtParent (split (target filter shared).0) (split topic)
      → Delivered ts' tenant topic (subscription_of client filter qos no_local as_published shared)
  subscribe_rest-Delivered ts tenant client filter topic qos no_local as_published r shared p e m
        above =
      subscribe_parsed-Delivered ts tenant client filter topic qos no_local as_published shared
        (rw p at e) m above

  -- A client that subscribed to a filter is among the receivers of every topic that the filter matches,
  -- in the group of a shared filter, with the QoS and the options of its call; but for a topic that is
  -- the parent level of a filter that ends in `#`, as `a` is of `a/#`.
  pub subscribe-Delivered :
      (ts : TopicStorage) (tenant client filter topic : Text) (qos : ℕ)
      (no_local as_published : Bool) (shared : Option SharedSubscriptionFilter) {ts' : TopicStorage}
      → parse_shared_subscription_filter filter ≡ ok shared
      → subscribe_with_options encode ts tenant client filter qos no_local as_published ≡ ok ts'
      → Matches (split (target filter shared).0) (split topic)
      → ¬ AtParent (split (target filter shared).0) (split topic)
      → Delivered ts' tenant topic (subscription_of client filter qos no_local as_published shared)
  unfolding subscribe_with_options
  subscribe-Delivered ts tenant client filter topic qos no_local as_published shared p e m above =
      subscribe_rest-Delivered ts tenant client filter topic qos no_local as_published
        (parse_shared_subscription_filter filter) shared p e m above
