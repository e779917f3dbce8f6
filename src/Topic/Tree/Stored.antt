-- ===== src/Topic/Tree/Stored.antt =====
-- broker/src/topic/topic_storage.rs: what subscribing and unsubscribing do to the subscriptions that are
-- stored under each topic filter.
use yed_mq.Base.{
  ◌≡◌, refl, sym, ap, ◌∙◌, Bool, true, false, ◌&&◌, Option, none, some, List, [], ◌∷◌,
  if◌then◌else◌, arith, Text, text_eq, text_eq_iff, Map, insert, Result, ok, err, Bool-cases, inl,
  inr, text_eq_instance,
}
use yed_mq.Topic.Tree.{
  TopicStorageNode, Leaves, node, no_leaf, leaf, Subscription, TopicStorageError, subscriptions,
  new, find_leaf, put_leaf, get_leaf, set_leaf, or_new, find_or_create_leaf, add_subscription,
  change_or_create, change_existing, below, from_leaf, write_back, recursion_subscribe, remove_keys,
  remove_subscriptions, recursion_unsubscription,
}

-- The subscriptions under a path of levels, none where the tree has no such node.
unfoldable pub stored : TopicStorageNode → List Text → Map Text Subscription
stored n [] = subscriptions n
stored n (w ∷ ws) = from_leaf (get_leaf n w) (λ m. stored m ws)

unfoldable pub path_eq : List Text → List Text → Bool
path_eq [] [] = true
path_eq (v ∷ vs) (w ∷ ws) = text_eq v w && path_eq vs ws
path_eq _ _ = false

find-put :
    (v : Text) (m : TopicStorageNode) (w : Text) (ls : Leaves)
    → find_leaf w (put_leaf v m ls) ≡ (if text_eq v w then some m else find_leaf w ls)
unfolding find_leaf put_leaf
find-put v m w no_leaf = refl
find-put v m w (leaf u n ls) =
    ground (arith, find-put v m w ls, text_eq_iff u v, text_eq_iff u w, text_eq_iff v w)

pub get-set :
    (n : TopicStorageNode) (v : Text) (m : TopicStorageNode) (w : Text)
    → get_leaf (set_leaf n v m) w ≡ (if text_eq v w then some m else get_leaf n w)
unfolding get_leaf set_leaf
get-set (node subs retained leaves) v m w = find-put v m w leaves

stored-new : (ws : List Text) → stored new ws ≡ []
unfolding stored get_leaf find_leaf
stored-new [] = refl
stored-new (w ∷ ws) = refl

-- Under a child of the node with this level, or nothing.
stored-or_new :
    (o : Option TopicStorageNode) (ws : List Text)
    → stored (or_new o) ws ≡ from_leaf o (λ m. stored m ws)
stored-or_new none ws = stored-new ws
stored-or_new (some n) ws = refl

subscriptions-set :
    (n : TopicStorageNode) (w : Text) (m : TopicStorageNode)
    → subscriptions (set_leaf n w m) ≡ subscriptions n
unfolding set_leaf
subscriptions-set (node subs retained leaves) w m = refl

record Below (n : TopicStorageNode) (w : Text) (o : Option TopicStorageNode)
    (f : TopicStorageNode → Result TopicStorageError TopicStorageNode) (n' : TopicStorageNode)
    : Type 0 where
  child : TopicStorageNode
  changed : TopicStorageNode
  present : o ≡ some child
  change : f child ≡ ok changed
  written : n' ≡ set_leaf n w changed

below-ok :
    (n : TopicStorageNode) (w : Text) (o : Option TopicStorageNode)
    (f : TopicStorageNode → Result TopicStorageError TopicStorageNode) {n' : TopicStorageNode}
    → below n w o f ≡ ok n'
    → Below n w o f n'
below-ok n w none f e = absurd cc
below-ok n w (some m) f {n'} e = go (f m) refl e
  where
    go :
        (r : Result TopicStorageError TopicStorageNode)
        → f m ≡ r
        → write_back n w r ≡ ok n'
        → Below n w (some m) f n'
    go (err x) p q = absurd cc
    go (ok m') p q = record { child = m; changed = m'; present = refl; change = p; written = cc }

module _ (f : TopicStorageNode → TopicStorageNode)
    (g : Map Text Subscription → Map Text Subscription)
    (here : (n : TopicStorageNode) → subscriptions (f n) ≡ g (subscriptions n))
    (same : (n : TopicStorageNode) (w : Text) → get_leaf (f n) w ≡ get_leaf n w) where
  pub stored-change_or_create :
      (p q : List Text) (n : TopicStorageNode)
      → stored (change_or_create f n p) q ≡ (if path_eq p q then g (stored n q) else stored n q)
  unfolding stored change_or_create path_eq
  stored-change_or_create [] [] n = here n
  stored-change_or_create [] (w ∷ q) n = ap (λ o. from_leaf o (λ m. stored m q)) (same n w)
  stored-change_or_create (v ∷ p) [] n = subscriptions-set n v _
  stored-change_or_create (v ∷ p) (w ∷ q) n = elim (Bool-cases (text_eq v w)) [
    | inl e ↦ rw (
      get-set n v (change_or_create f (find_or_create_leaf n v) p) w,
      e,
      stored-change_or_create p q (find_or_create_leaf n v),
      stored-or_new (get_leaf n v) q,
      (text_eq_iff v w).0 e,
    )
    | inr e ↦ rw (get-set n v (change_or_create f (find_or_create_leaf n v) p) w, e)
  ]

  -- The same for a node that exists, where the change fails only when there is none.
  pub stored-change_existing :
      (p q : List Text) (n : TopicStorageNode) {n' : TopicStorageNode}
      → change_existing f n p ≡ ok n'
      → stored n' q ≡ (if path_eq p q then g (stored n q) else stored n q)
  unfolding stored change_existing path_eq
  stored-change_existing [] [] n {n'} e =
      let done : f n ≡ n' = cc in ap subscriptions (sym done) ∙ here n
  stored-change_existing [] (w ∷ q) n {n'} e =
      let done : f n ≡ n' = cc in
      ap (λ m. stored m (w ∷ q)) (sym done) ∙ ap (λ o. from_leaf o (λ m. stored m q)) (same n w)
  stored-change_existing (v ∷ p) [] n e =
      let b = below-ok n v (get_leaf n v) (λ m. change_existing f m p) e in
      ap subscriptions b.written ∙ subscriptions-set n v b.changed
  stored-change_existing (v ∷ p) (w ∷ q) n e =
      let b = below-ok n v (get_leaf n v) (λ m. change_existing f m p) e in
      elim (Bool-cases (text_eq v w)) [
        | inl same_level ↦
            let vw = (text_eq_iff v w).0 same_level in
            rw (
              b.written,
              get-set n v b.changed w,
              same_level,
              stored-change_existing p q b.child b.change,
              sym (ap (get_leaf n) vw) ∙ b.present,
            )
        | inr other ↦ rw (b.written, get-set n v b.changed w, other)
      ]

subscriptions-add :
    (key : Text) (s : Subscription) (n : TopicStorageNode)
    → subscriptions (add_subscription n key s) ≡ insert key s (subscriptions n)
unfolding add_subscription
subscriptions-add key s (node subs retained leaves) = refl

leaf-add :
    (key : Text) (s : Subscription) (n : TopicStorageNode) (w : Text)
    → get_leaf (add_subscription n key s) w ≡ get_leaf n w
unfolding add_subscription get_leaf
leaf-add key s (node subs retained leaves) w = refl

-- Subscribing files the subscription under its own filter, in place of one with the same key, and
-- touches no other filter.
pub stored-subscribe :
    (n : TopicStorageNode) (p q : List Text) (key : Text) (s : Subscription)
    → stored (recursion_subscribe n p key s) q
      ≡ (if path_eq p q then insert key s (stored n q) else stored n q)
unfolding recursion_subscribe
stored-subscribe n p q key s =
    stored-change_or_create (λ m. add_subscription m key s) (insert key s) (subscriptions-add key s)
      (leaf-add key s) p q n

subscriptions-remove :
    (keys : List Text) (client : Text) (group : Option Text) (n : TopicStorageNode)
    → subscriptions (remove_subscriptions n keys client group)
      ≡ remove_keys (subscriptions n) keys client group
unfolding remove_subscriptions
subscriptions-remove keys client group (node subs retained leaves) = refl

leaf-remove :
    (keys : List Text) (client : Text) (group : Option Text) (n : TopicStorageNode) (w : Text)
    → get_leaf (remove_subscriptions n keys client group) w ≡ get_leaf n w
unfolding remove_subscriptions get_leaf
leaf-remove keys client group (node subs retained leaves) w = refl

-- Unsubscribing, where it does not fail, takes the keys of this client and group out under its own
-- filter, and touches no other filter.
pub stored-unsubscribe :
    (n : TopicStorageNode) (p q keys : List Text) (client : Text) (group : Option Text)
    {n' : TopicStorageNode}
    → recursion_unsubscription n p keys client group ≡ ok n'
    → stored n' q ≡ (if path_eq p q then remove_keys (stored n q) keys client group else stored n q)
unfolding recursion_unsubscription
stored-unsubscribe n p q keys client group e =
    stored-change_existing (λ m. remove_subscriptions m keys client group)
      (λ m. remove_keys m keys client group) (subscriptions-remove keys client group)
      (leaf-remove keys client group) p q n e
