-- ===== src/Session/Storage/Safety.antt =====
-- broker/src/session/session_state_storage.rs: no operation lets a reference count fall below the
-- number of uses, so a packet key is given back for deletion only when no session uses it.
pub mod Packets
pub mod Sessions
use yed_mq.Base.{
  ℕ, ◌+◌, ◌-◌, ◌^◌, ◌≤◌, ◌<◌, ◌≡◌, refl, sym, ap, ◌∙◌, ◌||◌, Bool, true, false, not, Option, none,
  some, List, [], ◌∷◌, ◌++◌, arith, Text, Map, lookup, insert, count, count-append, total, measure,
  total-insert, nat_eq, text_eq_instance, if◌then◌else◌, ◌==◌, is_some, Option-cases, inl, inr, All,
  Result, ok, err,
}
use yed_mq.Inflight.{
  Inflight, InflightError, InflightItem, item_keys, get_all_packet_keys, register_with_rx_packet,
  register_with_tx_packet, discard_unsent, next_state, clean_finished_items,
}
use yed_mq.Inflight.Keys.{
  held, hits, held-register_rx, held-register_tx, held-discard-le, held-next_state, held-clean,
  held-restart,
}
use yed_mq.Inflight
use yed_mq.Session.State.{SessionState, ProtocolVersion, new_with_options}
use yed_mq.Session.Storage.{
  SessionStateStorage, SessionStateStorageError, inc_ref, dec_ref, dec_opt, dec_all, or_empty,
  ensure_tenant, get_session_state, write_session, remove_in, create_session_state, drop_keys,
  delete_found, delete_session_state, discard_into, inflight_discard_unsent, set_started,
  start_item, tx_registered, tx_into, inflight_register_tx_packet, rx_into,
  inflight_register_rx_packet, session_state_not_existed,
}
use yed_mq.Session.Storage.Counts.{
  uses, used, ref_of, ref_of-inc, ref_of-dec_opt, dec_opt-inner, dec_opt-freed, ref_of-dec_all,
  dec_all-inner, dec_all-freed, used-write, ref_of-write, used-ensure, ref_of-ensure,
  used-remove-le, ref_of-remove,
}

-- Each packet key is counted at least as often as the sessions use it.
abbrev pub Covers : SessionStateStorage → Type 0
Covers s = (k : Text) → used k s ≤ ref_of k s

-- One more reference to the key fits into the `u64`.
abbrev pub HasRoom : Text → SessionStateStorage → Type 0
HasRoom key s = ref_of key s + 1 < 2 ^ 64

-- The storage after a call, and the key that the call gives back for deletion: nothing uses it.
abbrev pub Releases : SessionStateStorage → Option Text → Type 0
Releases s freed = Covers s × ((k : Text) → freed ≡ some k → used k s ≡ 0)

abbrev pub ReleasesAll : SessionStateStorage → List Text → Type 0
ReleasesAll s freed = Covers s × All (λ k. used k s ≡ 0) freed

pub dec_opt-Releases :
    (s : SessionStateStorage) (o : Option Text)
    → ((k : Text) → used k s + hits k o ≤ ref_of k s)
    → Releases (dec_opt s o).0 (dec_opt s o).1
dec_opt-Releases s o h = (covers, λ k f. omega (arith, covers k, dec_opt-freed s o k f))
  where
    covers : Covers (dec_opt s o).0
    covers k =
        omega
          (arith, h k, ref_of-dec_opt k s o, ap (λ m. total (total (uses k)) m) (dec_opt-inner s o))

All-weaken : (P Q : Text → Type 0) (ks : List Text) → ((k : Text) → P k → Q k) → All P ks → All Q ks
All-weaken P Q [] h a = tt
All-weaken P Q (k ∷ ks) h a = (h k a.0, All-weaken P Q ks h a.1)

pub dec_all-Releases :
    (s : SessionStateStorage) (keys : List Text)
    → ((k : Text) → used k s + count k keys ≤ ref_of k s)
    → ReleasesAll (dec_all s keys).0 (dec_all s keys).1
dec_all-Releases s keys h = (
  covers,
  All-weaken (λ k. ref_of k (dec_all s keys).0 ≡ 0) (λ k. used k (dec_all s keys).0 ≡ 0)
      (dec_all s keys).1 (λ k f. omega (arith, covers k, f)) (dec_all-freed keys s),
)
  where
    covers : Covers (dec_all s keys).0
    covers k = omega (
      arith,
      h k,
      ref_of-dec_all k keys s,
      ap (λ m. total (total (uses k)) m) (dec_all-inner keys s),
    )

pub ensure-Covers :
    (s : SessionStateStorage) (tenant : Text) → Covers s → Covers (ensure_tenant s tenant)
ensure-Covers s tenant c k = omega (arith, c k, used-ensure k s tenant, ref_of-ensure k s tenant)

pub used-inc : (k : Text) (s : SessionStateStorage) (key : Text) → used k (inc_ref s key) ≡ used k s
unfolding inc_ref
used-inc k s key = refl

pub find-inc :
    (s : SessionStateStorage) (key tenant client : Text)
    → get_session_state (inc_ref s key) tenant client ≡ get_session_state s tenant client
unfolding inc_ref get_session_state
find-inc s key tenant client = refl
