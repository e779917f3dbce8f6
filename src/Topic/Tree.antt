-- ===== src/Topic/Tree.antt =====
-- broker/src/topic/topic_storage.rs, `TopicStorageNode`: the tree of topic levels, with the subscriptions
-- and the retained message of each node. A node is reached through its parent's lock, and a change
-- below it is written back on the way up. `topic_parttern`, which no operation reads, is left out.
pub mod Stored
pub mod Matching
pub mod Removal
use yed_mq.Base.{
  ℕ, Bool, true, false, ◌&&◌, Option, none, some, List, [], ◌∷◌, ◌++◌, if◌then◌else◌, Text, text_eq,
  Map, lookup, insert, remove, Result, ok, err, text_eq_instance,
}
use yed_mq.Mqtt.Packet.{Packet}
use yed_mq.Topic.Filter.{hash, plus}

pub record Subscription : Type 0 where
  pub client_identifier : Text
  pub qos : ℕ
  pub no_local : Bool
  pub retain_as_published : Bool
  pub shared_group : Option Text
  pub topic_filter : Text

pub data TopicStorageError : Type 0 where
  invalid_topic_filter tenant_not_found topic_not_found internal_error : Text → TopicStorageError

mutual
  pub data TopicStorageNode : Type 0 where
    node : Map Text Subscription → Option Packet → Leaves → TopicStorageNode

  pub data Leaves : Type 0 where
    no_leaf : Leaves
    leaf : Text → TopicStorageNode → Leaves → Leaves

abbrev pub subscriptions : TopicStorageNode → Map Text Subscription
subscriptions (node subs retained leaves) = subs

abbrev pub retain_publish_packet : TopicStorageNode → Option Packet
retain_publish_packet (node subs retained leaves) = retained

abbrev pub leaves_of : TopicStorageNode → Leaves
leaves_of (node subs retained leaves) = leaves

abbrev pub new : TopicStorageNode
new = node [] none no_leaf

unfoldable pub find_leaf : Text → Leaves → Option TopicStorageNode
find_leaf w no_leaf = none
find_leaf w (leaf v n ls) = let rest = find_leaf w ls in if text_eq v w then some n else rest

unfoldable pub put_leaf : Text → TopicStorageNode → Leaves → Leaves
put_leaf w m no_leaf = leaf w m no_leaf
put_leaf w m (leaf v n ls) =
    let rest = put_leaf w m ls in if text_eq v w then leaf v m ls else leaf v n rest

unfoldable pub get_leaf : TopicStorageNode → Text → Option TopicStorageNode
get_leaf n w = find_leaf w (leaves_of n)

-- The write to a child.
unfoldable pub set_leaf : TopicStorageNode → Text → TopicStorageNode → TopicStorageNode
set_leaf (node subs retained leaves) w m = node subs retained (put_leaf w m leaves)

abbrev pub or_new : Option TopicStorageNode → TopicStorageNode
or_new none = new
or_new (some n) = n

-- The child, a new one where there is none.
abbrev pub find_or_create_leaf : TopicStorageNode → Text → TopicStorageNode
find_or_create_leaf n w = or_new (get_leaf n w)

unfoldable pub add_subscription : TopicStorageNode → Text → Subscription → TopicStorageNode
add_subscription (node subs retained leaves) key s = node (insert key s subs) retained leaves

abbrev pub values : Map Text Subscription → List Subscription
values [] = []
values ((k, s) ∷ m) = s ∷ values m

unfoldable pub get_subscriptions : TopicStorageNode → List Subscription
get_subscriptions n = values (subscriptions n)

unfoldable pub set_retain_publish_message : TopicStorageNode → Packet → TopicStorageNode
set_retain_publish_message (node subs retained leaves) p = node subs (some p) leaves

unfoldable pub clean_retain_publish_message : TopicStorageNode → TopicStorageNode
clean_retain_publish_message (node subs retained leaves) = node subs none leaves

abbrev pub same_group : Option Text → Option Text → Bool
same_group none none = true
same_group (some g) (some h) = text_eq g h
same_group _ _ = false

abbrev pub owned : Text → Option Text → Option Subscription → Bool
owned client group none = false
owned client group (some s) = text_eq s.client_identifier client && same_group s.shared_group group

-- `for key in keys`: the entry goes if it is this client's, in this group.
unfoldable pub remove_keys :
    Map Text Subscription → List Text → Text → Option Text → Map Text Subscription
remove_keys m [] client group = m
remove_keys m (key ∷ keys) client group =
    remove_keys (if owned client group (lookup key m) then remove key m else m) keys client group

unfoldable pub remove_subscriptions :
    TopicStorageNode → List Text → Text → Option Text → TopicStorageNode
remove_subscriptions (node subs retained leaves) keys client group =
    node (remove_keys subs keys client group) retained leaves

-- A change of the node at a path, with the nodes on the way created: `recursion_subscribe` and
-- `recursion_retain_publish_packet`, which never fail.
unfoldable pub change_or_create :
    (TopicStorageNode → TopicStorageNode) → TopicStorageNode → List Text → TopicStorageNode
change_or_create f n [] = f n
change_or_create f n (w ∷ ws) = set_leaf n w (change_or_create f (find_or_create_leaf n w) ws)

unfoldable pub recursion_subscribe :
    TopicStorageNode → List Text → Text → Subscription → TopicStorageNode
recursion_subscribe n path key s = change_or_create (λ m. add_subscription m key s) n path

unfoldable pub recursion_retain_publish_packet :
    TopicStorageNode → List Text → Packet → TopicStorageNode
recursion_retain_publish_packet n path p =
    change_or_create (λ m. set_retain_publish_message m p) n path

abbrev pub write_back :
    TopicStorageNode
    → Text
    → Result TopicStorageError TopicStorageNode
    → Result TopicStorageError TopicStorageNode
write_back n w (err e) = err e
write_back n w (ok m) = ok (set_leaf n w m)

abbrev pub below :
    TopicStorageNode
    → Text
    → Option TopicStorageNode
    → (TopicStorageNode → Result TopicStorageError TopicStorageNode)
    → Result TopicStorageError TopicStorageNode
below n w none f = err (topic_not_found w)
below n w (some m) f = write_back n w (f m)

-- A change of the node at a path that exists: `recursion_unsubscription` and
-- `recursion_clean_retain_publish_packet`.
unfoldable pub change_existing :
    (TopicStorageNode → TopicStorageNode)
    → TopicStorageNode
    → List Text
    → Result TopicStorageError TopicStorageNode
change_existing f n [] = ok (f n)
change_existing f n (w ∷ ws) = below n w (get_leaf n w) (λ m. change_existing f m ws)

unfoldable pub recursion_unsubscription :
    TopicStorageNode
    → List Text
    → List Text
    → Text
    → Option Text
    → Result TopicStorageError TopicStorageNode
recursion_unsubscription n path keys client group =
    change_existing (λ m. remove_subscriptions m keys client group) n path

unfoldable pub recursion_clean_retain_publish_packet :
    TopicStorageNode → List Text → Result TopicStorageError TopicStorageNode
recursion_clean_retain_publish_packet n path = change_existing clean_retain_publish_message n path

abbrev pub from_leaf : {A : Type 0} → Option TopicStorageNode → (TopicStorageNode → List A) → List A
from_leaf none f = []
from_leaf (some n) f = f n

-- The subscriptions of `#`, of the levels that `+` stands for, and of the level itself.
unfoldable pub recursion_get_subscriptions : TopicStorageNode → List Text → List Subscription
unfolding get_subscriptions
recursion_get_subscriptions n [] = get_subscriptions n
recursion_get_subscriptions n (w ∷ ws) =
    from_leaf (get_leaf n hash) get_subscriptions
    ++ from_leaf (get_leaf n plus) (λ m. recursion_get_subscriptions m ws)
    ++ from_leaf (get_leaf n w) (λ m. recursion_get_subscriptions m ws)
