-- ===== src/Topic/Tree/Removal.antt =====
-- broker/src/topic/topic_storage.rs, `remove_subscriptions`: what the removal of keys does to the
-- subscriptions of a node.
use yed_mq.Base.{
  ◌≡◌, ◌≢◌, ◌↔◌, refl, ap, ◌∙◌, true, false, Option, none, some, List, [], ◌∷◌, arith,
  if◌then◌else◌, Text, text_eq, text_eq_iff, Map, lookup, remove, lookup-remove, beq_self,
  Bool-cases, inl, inr, text_eq_instance, All,
}
use yed_mq.Topic.Tree.{Subscription, remove_keys, owned, same_group}
use yed_mq.Topic.Tree.Stored.{path_eq}

abbrev drop_key : Map Text Subscription → Text → Text → Option Text → Map Text Subscription
drop_key m key client group = if owned client group (lookup key m) then remove key m else m

drop_key-kept :
    (m : Map Text Subscription) (key client : Text) (group : Option Text) (k : Text)
    → owned client group (lookup k m) ≡ false
    → lookup k (drop_key m key client group) ≡ lookup k m
drop_key-kept m key client group k h = elim (Bool-cases (owned client group (lookup key m))) [
  | inr e ↦ rw e
  | inl e ↦ elim (Bool-cases (text_eq key k)) [
    | inr other ↦ rw (e, lookup-remove key k m, other)
    | inl same ↦
        absurd
          (ground (arith, ap (λ t. owned client group (lookup t m)) ((text_eq_iff key k).0 same)))
  ]
]

drop_key-gone :
    (m : Map Text Subscription) (key client : Text) (group : Option Text)
    → owned client group (lookup key (drop_key m key client group)) ≡ false
drop_key-gone m key client group = elim (Bool-cases (owned client group (lookup key m))) [
  | inr e ↦ rw (e, e)
  | inl e ↦ rw (e, lookup-remove key key m, beq_self text_eq_instance key)
]

pub remove_keys-kept :
    (keys : List Text) (m : Map Text Subscription) (client : Text) (group : Option Text) (k : Text)
    → owned client group (lookup k m) ≡ false
    → lookup k (remove_keys m keys client group) ≡ lookup k m
unfolding remove_keys
remove_keys-kept [] m client group k h = refl
remove_keys-kept (key ∷ keys) m client group k h =
    let step = drop_key-kept m key client group k h in
    remove_keys-kept keys (drop_key m key client group) client group k
      (ap (owned client group) step ∙ h)
    ∙ step

pub remove_keys-gone :
    (keys : List Text) (m : Map Text Subscription) (client : Text) (group : Option Text)
    → All (λ key. owned client group (lookup key (remove_keys m keys client group)) ≡ false) keys
unfolding remove_keys
remove_keys-gone [] m client group = tt
remove_keys-gone (key ∷ keys) m client group =
    let gone = drop_key-gone m key client group in
    (
      ap (owned client group)
            (remove_keys-kept keys (drop_key m key client group) client group key gone)
          ∙ gone,
      remove_keys-gone keys (drop_key m key client group) client group,
    )

drop_key-old :
    (m : Map Text Subscription) (key client : Text) (group : Option Text) (k : Text)
    {s : Subscription}
    → lookup k (drop_key m key client group) ≡ some s
    → lookup k m ≡ some s
drop_key-old m key client group k e = elim (Bool-cases (owned client group (lookup key m))) [
  | inr kept ↦ rw kept at e
  | inl taken ↦ elim (Bool-cases (text_eq key k)) [
    | inl same ↦ absurd (ground (arith, e, taken, lookup-remove key k m, same))
    | inr other ↦ ground (arith, e, taken, lookup-remove key k m, other)
  ]
]

pub remove_keys-old :
    (keys : List Text) (m : Map Text Subscription) (client : Text) (group : Option Text) (k : Text)
    {s : Subscription}
    → lookup k (remove_keys m keys client group) ≡ some s
    → lookup k m ≡ some s
unfolding remove_keys
remove_keys-old [] m client group k e = e
remove_keys-old (key ∷ keys) m client group k e =
    drop_key-old m key client group k
      (remove_keys-old keys (drop_key m key client group) client group k e)

-- The subscription is the client's, in this group or in none.
abbrev pub Mine : Text → Option Text → Subscription → Type 0
Mine client group s = (s.client_identifier ≡ client) × (s.shared_group ≡ group)

same_group_iff : (a b : Option Text) → (same_group a b ≡ true) ↔ (a ≡ b)
same_group_iff none none = (λ e. refl, λ e. refl)
same_group_iff none (some b) = (λ e. absurd cc, λ e. absurd cc)
same_group_iff (some a) none = (λ e. absurd cc, λ e. absurd cc)
same_group_iff (some a) (some b) =
    (λ e. ap some ((text_eq_iff a b).0 e), λ e. (text_eq_iff a b).1 cc)

owned-Mine :
    (client : Text) (group : Option Text) (s : Subscription)
    → Mine client group s
    → owned client group (some s) ≡ true
owned-Mine client group s h =
    rw ((text_eq_iff s.client_identifier client).1 h.0, (same_group_iff s.shared_group group).1 h.1)
      refl

pub not_owned :
    (client : Text) (group : Option Text) (s : Subscription)
    → ¬ Mine client group s
    → owned client group (some s) ≡ false
not_owned client group s h =
    ground (arith, h, text_eq_iff s.client_identifier client, same_group_iff s.shared_group group)

pub not-Mine :
    (client : Text) (group : Option Text) (o : Option Subscription) (s : Subscription)
    → owned client group o ≡ false
    → o ≡ some s
    → ¬ Mine client group s
not-Mine client group o s e here mine =
    absurd (ground (arith, ap (owned client group) here, owned-Mine client group s mine))

path_eq_sound : (p q : List Text) → path_eq p q ≡ true → q ≡ p
unfolding path_eq
path_eq_sound [] [] e = refl
path_eq_sound [] (w ∷ q) e = absurd cc
path_eq_sound (v ∷ p) [] e = absurd cc
path_eq_sound (v ∷ p) (w ∷ q) e = ground (arith, text_eq_iff v w, path_eq_sound p q)

pub path_other : (p q : List Text) → q ≢ p → path_eq p q ≡ false
path_other p q h = elim (Bool-cases (path_eq p q)) [
  | inl e ↦ absurd (h (path_eq_sound p q e))
  | inr e ↦ e
]
