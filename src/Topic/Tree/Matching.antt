-- ===== src/Topic/Tree/Matching.antt =====
-- broker/src/topic/topic_storage.rs, `recursion_get_subscriptions`: the subscriptions of a published topic
-- are those whose filter matches it.
use yed_mq.Base.{
  ◌≡◌, ◌↔◌, ◌⊎◌, inl, inr, refl, ap, ◌∙◌, subst, List, [], ◌∷◌, ◌++◌, Text, Option-cases,
}
use yed_mq.Topic.Filter.{hash, plus}
use yed_mq.Topic.Tree.{
  TopicStorageNode, Subscription, subscriptions, get_leaf, from_leaf, values, get_subscriptions,
  recursion_get_subscriptions,
}
use yed_mq.Topic.Tree.Stored.{stored}

-- A filter matches a topic level by level: `+` any level, `#` at the end any levels, also none. Topics
-- that start with `$` are treated as all others.
abbrev pub Matches : List Text → List Text → Type 0
Matches [] [] = Unit {0}
Matches [] (w ∷ ws) = ⊥
Matches (f ∷ fs) [] = (f ≡ hash) × (fs ≡ [])
Matches (f ∷ fs) (w ∷ ws) =
    ((f ≡ hash) × (fs ≡ [])) ⊎ ((f ≡ plus) × Matches fs ws) ⊎ ((f ≡ w) × Matches fs ws)

-- The topic is the parent level of a filter that ends in `#`, as `a` is of `a/#`.
abbrev pub AtParent : List Text → List Text → Type 0
AtParent [] ws = ⊥
AtParent (f ∷ fs) [] = (f ≡ hash) × (fs ≡ [])
AtParent (f ∷ fs) (w ∷ ws) = ((f ≡ plus) ⊎ (f ≡ w)) × AtParent fs ws

-- The filters that the look-up visits: `#` stands for one level or more.
abbrev Visits : List Text → List Text → Type 0
Visits [] [] = Unit {0}
Visits [] (w ∷ ws) = ⊥
Visits (f ∷ fs) [] = ⊥
Visits (f ∷ fs) (w ∷ ws) =
    ((f ≡ hash) × (fs ≡ [])) ⊎ ((f ≡ plus) × Visits fs ws) ⊎ ((f ≡ w) × Visits fs ws)

Visits-Matches : (fs ws : List Text) → Visits fs ws → Matches fs ws
Visits-Matches [] [] v = tt
Visits-Matches [] (w ∷ ws) v = v
Visits-Matches (f ∷ fs) [] v = absurd v
Visits-Matches (f ∷ fs) (w ∷ ws) (inl e) = inl e
Visits-Matches (f ∷ fs) (w ∷ ws) (inr (inl (e, v))) = inr (inl (e, Visits-Matches fs ws v))
Visits-Matches (f ∷ fs) (w ∷ ws) (inr (inr (e, v))) = inr (inr (e, Visits-Matches fs ws v))

Visits-not_parent : (fs ws : List Text) → Visits fs ws → ¬ AtParent fs ws
Visits-not_parent [] ws v p = p
Visits-not_parent (f ∷ fs) [] v p = v
Visits-not_parent (f ∷ fs) (w ∷ ws) (inl (e, z)) p = subst (λ t. AtParent t ws) z p.1
Visits-not_parent (f ∷ fs) (w ∷ ws) (inr (inl (e, v))) p = Visits-not_parent fs ws v p.1
Visits-not_parent (f ∷ fs) (w ∷ ws) (inr (inr (e, v))) p = Visits-not_parent fs ws v p.1

Visits-complete : (fs ws : List Text) → Matches fs ws → ¬ AtParent fs ws → Visits fs ws
Visits-complete [] [] m p = tt
Visits-complete [] (w ∷ ws) m p = m
Visits-complete (f ∷ fs) [] m p = p m
Visits-complete (f ∷ fs) (w ∷ ws) (inl e) p = inl e
Visits-complete (f ∷ fs) (w ∷ ws) (inr (inl (e, m))) p =
    inr (inl (e, Visits-complete fs ws m (λ a. p (inl e, a))))
Visits-complete (f ∷ fs) (w ∷ ws) (inr (inr (e, m))) p =
    inr (inr (e, Visits-complete fs ws m (λ a. p (inr e, a))))

abbrev pub In : Subscription → List Subscription → Type 0
In s [] = ⊥
In s (x ∷ xs) = (s ≡ x) ⊎ In s xs

In-split : (s : Subscription) (xs ys : List Subscription) → In s (xs ++ ys) → In s xs ⊎ In s ys
In-split s [] ys i = inr i
In-split s (x ∷ xs) ys (inl e) = inl (inl e)
In-split s (x ∷ xs) ys (inr i) = elim (In-split s xs ys i) [ inl a ↦ inl (inr a) | inr b ↦ inr b ]

In-left : (s : Subscription) (xs ys : List Subscription) → In s xs → In s (xs ++ ys)
In-left s [] ys bad = absurd bad
In-left s (x ∷ xs) ys (inl e) = inl e
In-left s (x ∷ xs) ys (inr i) = inr (In-left s xs ys i)

In-right : (s : Subscription) (xs ys : List Subscription) → In s ys → In s (xs ++ ys)
In-right s [] ys i = i
In-right s (x ∷ xs) ys i = inr (In-right s xs ys i)

-- The subscription stands under a filter that the look-up visits.
abbrev Visited : TopicStorageNode → List Text → Subscription → Type 0
Visited n topic s = (filter : List Text) × Visits filter topic × In s (values (stored n filter))

-- The subscriptions that a child finds, and that are filed under a filter which starts with its level.
from_leaf-Visited :
    (n : TopicStorageNode) (v : Text) (ws : List Text) (s : Subscription)
    → ((m : TopicStorageNode) → In s (recursion_get_subscriptions m ws) ↔ Visited m ws s)
    → In s (from_leaf (get_leaf n v) (λ m. recursion_get_subscriptions m ws))
      ↔ ((fs : List Text) × Visits fs ws × In s (values (stored n (v ∷ fs))))
unfolding stored
from_leaf-Visited n v ws s ih = elim (Option-cases (get_leaf n v)) [
  | inl e ↦ rw e (λ bad. absurd bad, λ (fs, m, bad). absurd bad)
  | inr (m, e) ↦ rw e (ih m)
]

sharp-Visited :
    (n : TopicStorageNode) (s : Subscription)
    → In s (from_leaf (get_leaf n hash) get_subscriptions) ↔ In s (values (stored n (hash ∷ [])))
unfolding stored get_subscriptions
sharp-Visited n s = elim (Option-cases (get_leaf n hash)) [
  | inl e ↦ rw e (λ i. i, λ i. i)
  | inr (m, e) ↦ rw e (λ i. i, λ i. i)
]

level-Visited :
    (n : TopicStorageNode) (w : Text) (ws : List Text) (s : Subscription)
    → ((m : TopicStorageNode) → In s (recursion_get_subscriptions m ws) ↔ Visited m ws s)
    → In s (recursion_get_subscriptions n (w ∷ ws)) ↔ Visited n (w ∷ ws) s
unfolding recursion_get_subscriptions
level-Visited n w ws s ih = (sound, complete)
  where
    sharps : List Subscription
    sharps = from_leaf (get_leaf n hash) get_subscriptions

    under : Text → List Subscription
    under v = from_leaf (get_leaf n v) (λ m. recursion_get_subscriptions m ws)

    sound : In s (sharps ++ under plus ++ under w) → Visited n (w ∷ ws) s
    sound i = elim (In-split s (sharps ++ under plus) (under w) i) [
      | inl i ↦ elim (In-split s sharps (under plus) i) [
        | inl a ↦ (hash ∷ [], inl (refl, refl), (sharp-Visited n s).0 a)
        | inr b ↦
            let (fs, m, k) = (from_leaf-Visited n plus ws s ih).0 b in
            (plus ∷ fs, inr (inl (refl, m)), k)
      ]
      | inr c ↦
          let (fs, m, k) = (from_leaf-Visited n w ws s ih).0 c in (w ∷ fs, inr (inr (refl, m)), k)
    ]

    complete : Visited n (w ∷ ws) s → In s (sharps ++ under plus ++ under w)
    complete ([], bad, k) = absurd bad
    complete (f ∷ fs, inl (e, z), k) = In-left s (sharps ++ under plus) (under w) (
        In-left s sharps (under plus) (
          (sharp-Visited n s).1 (
            subst (λ p. In s (values (stored n p))) (ap (λ v. v ∷ fs) e ∙ ap (λ t. hash ∷ t) z) k)))
    complete (f ∷ fs, inr (inl (e, m)), k) = In-left s (sharps ++ under plus) (under w) (
        In-right s sharps (under plus) (
          (from_leaf-Visited n plus ws s ih).1
            (fs, m, subst (λ v. In s (values (stored n (v ∷ fs)))) e k)))
    complete (f ∷ fs, inr (inr (e, m)), k) = In-right s (sharps ++ under plus) (under w) (
        (from_leaf-Visited n w ws s ih).1
          (fs, m, subst (λ v. In s (values (stored n (v ∷ fs)))) e k))

root-Visited :
    (n : TopicStorageNode) (s : Subscription)
    → In s (recursion_get_subscriptions n []) ↔ Visited n [] s
unfolding recursion_get_subscriptions get_subscriptions stored
root-Visited n s = (λ i. ([], tt, i), complete)
  where
    complete : Visited n [] s → In s (values (subscriptions n))
    complete ([], m, k) = k
    complete (f ∷ fs, bad, k) = absurd bad

get_subscriptions-Visited :
    (topic : List Text) (n : TopicStorageNode) (s : Subscription)
    → In s (recursion_get_subscriptions n topic) ↔ Visited n topic s
get_subscriptions-Visited [] n s = root-Visited n s
get_subscriptions-Visited (w ∷ ws) n s =
    level-Visited n w ws s (λ m. get_subscriptions-Visited ws m s)

-- The subscription stands under a filter that matches the topic, and the topic is not the parent level
-- of a filter that ends in `#`.
abbrev pub Receives : TopicStorageNode → List Text → Subscription → Type 0
Receives n topic s =
    (filter : List Text) × Matches filter topic
    × (¬ AtParent filter topic)
    × In s (values (stored n filter))

-- A published topic finds exactly the subscriptions under the filters that match it, but for those under
-- a filter that ends in `#` and of which the topic is the parent level: a subscription to `a/#` is not
-- found for `a`. A wildcard matches the first level of a topic that starts with `$` too.
pub get_subscriptions-Receives :
    (topic : List Text) (n : TopicStorageNode) (s : Subscription)
    → In s (recursion_get_subscriptions n topic) ↔ Receives n topic s
get_subscriptions-Receives topic n s = (
  λ i.
      let (filter, v, k) = (get_subscriptions-Visited topic n s).0 i in
      (filter, Visits-Matches filter topic v, Visits-not_parent filter topic v, k),
  λ (filter, m, p, k).
      (get_subscriptions-Visited topic n s).1 (filter, Visits-complete filter topic m p, k),
)
