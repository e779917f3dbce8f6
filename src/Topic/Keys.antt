-- ===== src/Topic/Keys.antt =====
-- broker/src/topic/topic_storage.rs: the keys under which a node and a tenant file subscriptions. The
-- Base64 encoder is a parameter.
pub mod Unique
use yed_mq.Base.{Option, none, some, [], ◌∷◌, ◌++◌, Text}
use yed_mq.Topic.Shared.{SharedSubscriptionFilterError}
use yed_mq.Topic.Tree.{Subscription}

abbrev pub normal_prefix : Text
normal_prefix = b'$' ∷ b'n' ∷ b'o' ∷ b'r' ∷ b'm' ∷ b'a' ∷ b'l' ∷ b':' ∷ []

abbrev pub shared_prefix : Text
shared_prefix = b'$' ∷ b's' ∷ b'h' ∷ b'a' ∷ b'r' ∷ b'e' ∷ b'd' ∷ b':' ∷ []

unfoldable pub legacy_normal_subscription_key : Text → Text
legacy_normal_subscription_key client = client

module _ (encode : Text → Text) where
  -- What `topic_info_recorder` files under.
  unfoldable pub generate_key : Text → Text → Text
  generate_key client topic = encode client ++ (b':' ∷ encode topic)

  unfoldable pub normal_subscription_key : Text → Text
  normal_subscription_key client = normal_prefix ++ encode client

  unfoldable pub shared_subscription_key : Text → Text → Text
  shared_subscription_key client share_name =
      shared_prefix ++ (encode client ++ (b':' ∷ encode share_name))

  -- The key of a client's subscription, in a group or in none.
  unfoldable pub key_in : Text → Option Text → Text
  unfolding normal_subscription_key shared_subscription_key
  key_in client none = normal_subscription_key client
  key_in client (some group) = shared_subscription_key client group

  unfoldable pub node_key : Subscription → Text
  unfolding key_in
  node_key s = key_in s.client_identifier s.shared_group
