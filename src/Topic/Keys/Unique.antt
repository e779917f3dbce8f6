-- ===== src/Topic/Keys/Unique.antt =====
-- broker/src/topic/topic_storage.rs: no two subscriptions share a key.
use yed_mq.Base.{
  ℕ, ◌≡◌, ◌≢◌, arith, refl, sym, ap, ◌∙◌, false, Option, none, some, [], ◌∷◌, ◌++◌, Text,
}
use yed_mq.Topic.Filter.{contains}
use yed_mq.Topic.Shared.{cut}
use yed_mq.Topic.Shared.Parse.{cut-append}
use yed_mq.Topic.Keys.{normal_prefix, shared_prefix, generate_key, key_in}

-- What Base64 promises: no two strings have one encoding, and an encoding has no `:`.
pub record IsEncoder (encode : Text → Text) : Type 0 where
  pub injective : (s t : Text) → encode s ≡ encode t → s ≡ t
  pub no_colon : (s : Text) → contains b':' (encode s) ≡ false

pair_of : Option (Text × Text) → Text × Text
pair_of none = ([], [])
pair_of (some p) = p

drop_prefix : (p s t : Text) → p ++ s ≡ p ++ t → s ≡ t
drop_prefix [] s t e = e
drop_prefix (c ∷ p) s t e = drop_prefix p s t cc

second_byte : Text → ℕ
second_byte [] = 0
second_byte (c ∷ []) = 0
second_byte (c ∷ d ∷ s) = d

prefixes_differ : (s t : Text) → normal_prefix ++ s ≢ shared_prefix ++ t
unfolding second_byte
prefixes_differ s t e = let d : ◌≡◌ {A = ℕ} b'n' b's' = ap second_byte e in omega arith

module _ (encode : Text → Text) (b : IsEncoder encode) where
  pair_injective :
      (s t s' t' : Text)
      → encode s ++ (b':' ∷ encode t) ≡ encode s' ++ (b':' ∷ encode t')
      → (s ≡ s') × (t ≡ t')
  unfolding pair_of
  pair_injective s t s' t' e =
      let same : (encode s, encode t) ≡ (encode s', encode t') = ap pair_of (
        sym (cut-append b':' (encode s) (encode t) (b.no_colon s))
        ∙ ap (cut b':') e
        ∙ cut-append b':' (encode s') (encode t') (b.no_colon s')) in
      (b.injective s s' (ap (λ p. p.0) same), b.injective t t' (ap (λ p. p.1) same))

  -- Two pairs of a client and a group, or none, that have one node key are the same pair, where the
  -- encoder is injective and writes no colon.
  pub key_in-injective :
      (client client' : Text) (group group' : Option Text)
      → key_in encode client group ≡ key_in encode client' group'
      → (client ≡ client') × (group ≡ group')
  unfolding key_in
  key_in-injective client client' none none e = (
    b.injective client client' (drop_prefix normal_prefix (encode client) (encode client') e),
    refl,
  )
  key_in-injective client client' none (some g') e = absurd (prefixes_differ _ _ e)
  key_in-injective client client' (some g) none e = absurd (prefixes_differ _ _ (sym e))
  key_in-injective client client' (some g) (some g') e =
      let (same, group) = pair_injective client g client' g' (drop_prefix shared_prefix _ _ e) in
      (same, ap some group)

  -- Two pairs of a client and a topic that have one key of the topic recorder are the same pair, where
  -- the encoder is injective and writes no colon.
  pub generate_key-injective :
      (client topic client' topic' : Text)
      → generate_key encode client topic ≡ generate_key encode client' topic'
      → (client ≡ client') × (topic ≡ topic')
  unfolding generate_key
  generate_key-injective client topic client' topic' e =
      pair_injective client topic client' topic' e
