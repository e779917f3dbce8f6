-- ===== src/Session/Storage/Counts.antt =====
-- broker/src/session/session_state_storage.rs: how often a packet key is used in all sessions, and how
-- writes and reference counts change.
use yed_mq.Base.{
  ℕ, ◌+◌, ◌-◌, ◌%◌, ◌^◌, ◌≤◌, ◌<◌, ◌≡◌, refl, ap, ◌∙◌, Option, none, some, List, [], ◌∷◌, arith,
  Text, text_eq_iff, lookup, insert, remove, lookup-insert, lookup-remove, count, total, measure,
  total-insert, total-remove-le, nat_eq, text_eq_instance, Option-cases, inl, inr, All,
}
use yed_mq.Inflight.Keys.{held, hits}
use yed_mq.Session.State.{SessionState}
use yed_mq.Session.Storage.{
  SessionStateStorage, inc_ref, dec_entry, dec_ref, dec_opt, dec_all, push_freed, or_zero,
  ensure_tenant, get_session_state, find_in, write_session, remove_in,
}

-- How often one session refers to the packet `k`: queued messages and packets in flight.
abbrev pub uses : Text → SessionState → ℕ
uses k state = count k state.pending_messages + held k state.inflight

-- The same over all sessions of all tenants.
abbrev pub used : Text → SessionStateStorage → ℕ
used k s = total (total (uses k)) s.inner

-- The reference count of a packet, 0 where there is none.
abbrev pub ref_of : Text → SessionStateStorage → ℕ
ref_of k s = or_zero (lookup k s.ref_counts)

pub ref_of-inc :
    (k : Text) (s : SessionStateStorage) (key : Text)
    → ref_of key s + 1 < 2 ^ 64
    → ref_of k (inc_ref s key) ≡ ref_of k s + hits k (some key)
unfolding inc_ref
ref_of-inc k s key h =
    ground
      (arith, lookup-insert key k ((ref_of key s + 1) % 2 ^ 64) s.ref_counts, text_eq_iff key k)

dec_entry-ref :
    (k : Text) (s : SessionStateStorage) (key : Text) (o : Option ℕ)
    → lookup key s.ref_counts ≡ o
    → ref_of k (dec_entry s key o).0 ≡ ref_of k s - hits k (some key)
unfolding dec_entry
dec_entry-ref k s key none e = ground (arith, text_eq_iff key k)
dec_entry-ref k s key (some c) e = ground (
  arith,
  lookup-insert key k (c - 1) s.ref_counts,
  lookup-insert key k c s.ref_counts,
  lookup-remove key k s.ref_counts,
  text_eq_iff key k,
)

pub ref_of-dec :
    (k : Text) (s : SessionStateStorage) (key : Text)
    → ref_of k (dec_ref s key).0 ≡ ref_of k s - hits k (some key)
unfolding dec_ref
ref_of-dec k s key = dec_entry-ref k s key (lookup key s.ref_counts) refl

-- A key that `dec_ref` gives back is the one it was called with, and has no reference any more.
dec_entry-freed :
    (s : SessionStateStorage) (key k : Text) (o : Option ℕ)
    → lookup key s.ref_counts ≡ o
    → (dec_entry s key o).1 ≡ some k
    → ref_of k (dec_entry s key o).0 ≡ 0
unfolding dec_entry
dec_entry-freed s key k none e f = cc
dec_entry-freed s key k (some c) e f =
    ground (arith, lookup-remove key k s.ref_counts, text_eq_iff key k)

pub dec_ref-freed :
    (s : SessionStateStorage) (key k : Text)
    → (dec_ref s key).1 ≡ some k
    → ref_of k (dec_ref s key).0 ≡ 0
unfolding dec_ref
dec_ref-freed s key k f = dec_entry-freed s key k (lookup key s.ref_counts) refl f

dec_entry-inner :
    (s : SessionStateStorage) (key : Text) (o : Option ℕ) → (dec_entry s key o).0.inner ≡ s.inner
unfolding dec_entry
dec_entry-inner s key none = refl
dec_entry-inner s key (some c) = ground arith

pub dec_ref-inner : (s : SessionStateStorage) (key : Text) → (dec_ref s key).0.inner ≡ s.inner
unfolding dec_ref
dec_ref-inner s key = dec_entry-inner s key (lookup key s.ref_counts)

pub dec_opt-inner : (s : SessionStateStorage) (o : Option Text) → (dec_opt s o).0.inner ≡ s.inner
unfolding dec_opt
dec_opt-inner s none = refl
dec_opt-inner s (some key) = dec_ref-inner s key

pub ref_of-dec_opt :
    (k : Text) (s : SessionStateStorage) (o : Option Text)
    → ref_of k (dec_opt s o).0 ≡ ref_of k s - hits k o
unfolding dec_opt
ref_of-dec_opt k s none = omega arith
ref_of-dec_opt k s (some key) = ref_of-dec k s key

pub dec_opt-freed :
    (s : SessionStateStorage) (o : Option Text) (k : Text)
    → (dec_opt s o).1 ≡ some k
    → ref_of k (dec_opt s o).0 ≡ 0
unfolding dec_opt
dec_opt-freed s none k f = cc
dec_opt-freed s (some key) k f = dec_ref-freed s key k f

pub dec_all-inner :
    (keys : List Text) (s : SessionStateStorage) → (dec_all s keys).0.inner ≡ s.inner
unfolding dec_all
dec_all-inner [] s = refl
dec_all-inner (key ∷ keys) s = dec_all-inner keys (dec_ref s key).0 ∙ dec_ref-inner s key

pub ref_of-dec_all :
    (k : Text) (keys : List Text) (s : SessionStateStorage)
    → ref_of k (dec_all s keys).0 ≡ ref_of k s - count k keys
unfolding dec_all
ref_of-dec_all k [] s = omega arith
ref_of-dec_all k (key ∷ keys) s =
    omega (arith, ref_of-dec_all k keys (dec_ref s key).0, ref_of-dec k s key)

push_freed-All :
    (P : Text → Type 0) (o : Option Text) (ks : List Text)
    → ((k : Text) → o ≡ some k → P k)
    → All P ks
    → All P (push_freed o ks)
push_freed-All P none ks h a = a
push_freed-All P (some k) ks h a = (h k refl, a)

pub dec_all-freed :
    (keys : List Text) (s : SessionStateStorage)
    → All (λ k. ref_of k (dec_all s keys).0 ≡ 0) (dec_all s keys).1
unfolding dec_all
dec_all-freed [] s = tt
dec_all-freed (key ∷ keys) s =
    push_freed-All (λ k. ref_of k (dec_all (dec_ref s key).0 keys).0 ≡ 0) (dec_ref s key).1
      (dec_all (dec_ref s key).0 keys).1
      (λ k f. omega (arith, ref_of-dec_all k keys (dec_ref s key).0, dec_ref-freed s key k f))
      (dec_all-freed keys (dec_ref s key).0)

-- Writing one session changes its own share of the uses.
pub used-write :
    (k : Text) (s : SessionStateStorage) (tenant client : Text) (old state : SessionState)
    → get_session_state s tenant client ≡ some old
    → used k (write_session s tenant client state) + uses k old ≡ used k s + uses k state
unfolding get_session_state write_session
used-write k s tenant client old state e = elim (Option-cases (lookup tenant s.inner)) [
  | inl n ↦ cc (ap (λ o. find_in o client) n)
  | inr (m, n) ↦ rw n (
      omega (
        arith,
        total-insert (total (uses k)) tenant (insert client state m) s.inner,
        ap (measure (total (uses k))) n,
        total-insert (uses k) client state m,
        ap (measure (uses k)) (rw n at e),
      ))
]

pub ref_of-write :
    (k : Text) (s : SessionStateStorage) (tenant client : Text) (state : SessionState)
    → ref_of k (write_session s tenant client state) ≡ ref_of k s
unfolding write_session
ref_of-write k s tenant client state = elim (Option-cases (lookup tenant s.inner)) [
  | inl n ↦ rw n
  | inr (m, n) ↦ rw n
]

pub used-ensure :
    (k : Text) (s : SessionStateStorage) (tenant : Text)
    → used k (ensure_tenant s tenant) ≡ used k s
unfolding ensure_tenant
used-ensure k s tenant = elim (Option-cases (lookup tenant s.inner)) [
  | inl n ↦ rw n (
      omega
        (arith, total-insert (total (uses k)) tenant [] s.inner, ap (measure (total (uses k))) n))
  | inr (m, n) ↦ rw n
]

pub ref_of-ensure :
    (k : Text) (s : SessionStateStorage) (tenant : Text)
    → ref_of k (ensure_tenant s tenant) ≡ ref_of k s
unfolding ensure_tenant
ref_of-ensure k s tenant = ground arith

-- Taking a session out takes at least its uses out.
pub used-remove-le :
    (k : Text) (s : SessionStateStorage) (tenant client : Text) (old : SessionState)
    → get_session_state s tenant client ≡ some old
    → used k (remove_in (lookup tenant s.inner) s tenant client) + uses k old ≤ used k s
unfolding get_session_state
used-remove-le k s tenant client old e = elim (Option-cases (lookup tenant s.inner)) [
  | inl n ↦ cc (ap (λ o. find_in o client) n)
  | inr (m, n) ↦ rw n (
      omega (
        arith,
        total-insert (total (uses k)) tenant (remove client m) s.inner,
        ap (measure (total (uses k))) n,
        total-remove-le (uses k) client m,
        ap (measure (uses k)) (rw n at e),
      ))
]

pub ref_of-remove :
    (k : Text) (s : SessionStateStorage) (tenant client : Text)
    → ref_of k (remove_in (lookup tenant s.inner) s tenant client) ≡ ref_of k s
ref_of-remove k s tenant client = elim (Option-cases (lookup tenant s.inner)) [
  | inl n ↦ rw n
  | inr (m, n) ↦ rw n
]
