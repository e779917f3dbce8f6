-- ===== src/Session/Storage/Safety/Packets.antt =====
-- broker/src/session/session_state_storage.rs: the operations on packets in flight keep every used
-- packet counted.
use yed_mq.Base.{
  ℕ, ◌≡◌, refl, ◌∙◌, Bool, not, Option, none, some, arith, Text, lookup, nat_eq, text_eq_instance,
  Result, ok, err,
}
use yed_mq.Inflight.{
  Inflight, InflightError, InflightItem, register_with_rx_packet, register_with_tx_packet,
  discard_unsent, clean_finished_items,
}
use yed_mq.Inflight.Keys.{
  held, held-register_rx, held-register_tx, held-discard-le, held-next_state, held-clean,
  held-restart,
}
use yed_mq.Session.State.{SessionState}
use yed_mq.Session.Storage.{
  SessionStateStorage, SessionStateStorageError, inc_ref, ensure_tenant, get_session_state,
  write_session, discard_into, inflight_discard_unsent, set_started, start_item, tx_registered,
  tx_into, inflight_register_tx_packet, rx_into, inflight_register_rx_packet,
}
use yed_mq.Session.Storage.Counts.{uses, ref_of-inc, used-write, ref_of-write, ref_of-ensure}
use yed_mq.Session.Storage.Safety.{
  Covers, HasRoom, Releases, ReleasesAll, dec_opt-Releases, dec_all-Releases, ensure-Covers,
  used-inc, find-inc,
}
use yed_mq.Session.Storage.Updates.{
  next_into, inflight_next_state, clean_into, inflight_clean_finished_items,
}

rx_into-Releases :
    (s : SessionStateStorage) (tenant client : Text) (id qos : ℕ) (key : Text) (now : ℕ)
    (o : Option SessionState)
    → Covers s
    → HasRoom key s
    → get_session_state s tenant client ≡ o
    → let r = rx_into s tenant client id qos key now o in Releases r.0 r.1
unfolding rx_into
rx_into-Releases s tenant client id qos key now none c room e = (c, λ k f. cc)
rx_into-Releases s tenant client id qos key now (some state) c room e =
    let r = register_with_rx_packet state.inflight id qos key now in
    let state' : SessionState = record state { inflight = r.0 } in
    let e' : get_session_state (inc_ref s key) tenant client ≡ some state =
      find-inc s key tenant client ∙ e in
    dec_opt-Releases (write_session (inc_ref s key) tenant client state') r.1 λ k. ground (
      arith,
      c k,
      ref_of-inc k s key room,
      used-write k (inc_ref s key) tenant client state state' e',
      ref_of-write k (inc_ref s key) tenant client state',
      held-register_rx k state.inflight id qos key now,
      used-inc k s key,
    )

-- An incoming packet.
pub rx-Releases :
    (s : SessionStateStorage) (tenant client : Text) (id qos : ℕ) (key : Text) (now : ℕ)
    → Covers s
    → HasRoom key s
    → let r = inflight_register_rx_packet s tenant client id qos key now in Releases r.0 r.1
unfolding inflight_register_rx_packet
rx-Releases s tenant client id qos key now c room =
    rx_into-Releases (ensure_tenant s tenant) tenant client id qos key now _
      (ensure-Covers s tenant c) (omega (arith, ref_of-ensure key s tenant)) refl

set_started-held :
    (k : Text) (fl : Inflight) (id : ℕ) (b : Bool) → held k (set_started fl id b) ≡ held k fl
unfolding set_started
set_started-held k fl id b = go (lookup id fl.inner) refl
  where
    go :
        (o : Option InflightItem)
        → lookup id fl.inner ≡ o
        → held k (start_item fl id b o) ≡ held k fl
    go none e = refl
    go (some item) e = held-restart k fl id item b e

abbrev pub freed_of : Result SessionStateStorageError (Option Text) → Option Text
freed_of (ok freed) = freed
freed_of (err x) = none

tx_registered-Releases :
    (s : SessionStateStorage) (tenant client : Text) (state : SessionState) (id qos : ℕ)
    (key : Text) (deferred : Bool) (now : ℕ) (x : Result InflightError (Inflight × Option Text))
    → Covers s
    → HasRoom key s
    → get_session_state s tenant client ≡ some state
    → register_with_tx_packet state.inflight id qos key now ≡ x
    → let r = tx_registered s tenant client state id key deferred x in Releases r.0 (freed_of r.1)
unfolding tx_registered
tx_registered-Releases s tenant client state id qos key deferred now (err x) c room e h =
    (c, λ k f. cc)
tx_registered-Releases s tenant client state id qos key deferred now (ok (fl, old_key)) c room e h =
    let state' : SessionState = record state { inflight = set_started fl id (not deferred) } in
    let written : SessionStateStorage = write_session s tenant client state' in
    let room' : HasRoom key written = omega (arith, ref_of-write key s tenant client state') in
    dec_opt-Releases (inc_ref written key) old_key λ k. ground (
      arith,
      c k,
      used-inc k written key,
      ref_of-inc k written key room',
      used-write k s tenant client state state' e,
      ref_of-write k s tenant client state',
      held-register_tx k state.inflight id qos key now h,
      set_started-held k fl id (not deferred),
    )

tx_into-Releases :
    (s : SessionStateStorage) (tenant client : Text) (id qos : ℕ) (key : Text) (deferred : Bool)
    (now : ℕ) (o : Option SessionState)
    → Covers s
    → HasRoom key s
    → get_session_state s tenant client ≡ o
    → let r = tx_into s tenant client id qos key deferred now o in Releases r.0 (freed_of r.1)
unfolding tx_into
tx_into-Releases s tenant client id qos key deferred now none c room e = (c, λ k f. cc)
tx_into-Releases s tenant client id qos key deferred now (some state) c room e =
    tx_registered-Releases s tenant client state id qos key deferred now _ c room e refl

-- An outgoing packet.
pub tx-Releases :
    (s : SessionStateStorage) (tenant client : Text) (id qos : ℕ) (key : Text) (deferred : Bool)
    (now : ℕ)
    → Covers s
    → HasRoom key s
    → let r = inflight_register_tx_packet s tenant client id qos key deferred now in
      Releases r.0 (freed_of r.1)
unfolding inflight_register_tx_packet
tx-Releases s tenant client id qos key deferred now c room =
    tx_into-Releases (ensure_tenant s tenant) tenant client id qos key deferred now _
      (ensure-Covers s tenant c) (omega (arith, ref_of-ensure key s tenant)) refl

discard_into-Releases :
    (s : SessionStateStorage) (tenant client : Text) (id : ℕ) (key : Text) (o : Option SessionState)
    → Covers s
    → get_session_state s tenant client ≡ o
    → let r = discard_into s tenant client id key o in Releases r.0 r.1
unfolding discard_into
discard_into-Releases s tenant client id key none c e = (c, λ k f. cc)
discard_into-Releases s tenant client id key (some state) c e =
    let r = discard_unsent state.inflight id key in
    let state' : SessionState = record state { inflight = r.0 } in
    dec_opt-Releases (write_session s tenant client state') r.1 λ k. omega (
      arith,
      c k,
      used-write k s tenant client state state' e,
      ref_of-write k s tenant client state',
      held-discard-le k state.inflight id key,
    )

-- A cancelled packet.
pub discard-Releases :
    (s : SessionStateStorage) (tenant client : Text) (id : ℕ) (key : Text)
    → Covers s
    → let r = inflight_discard_unsent s tenant client id key in Releases r.0 r.1
unfolding inflight_discard_unsent
discard-Releases s tenant client id key c = discard_into-Releases s tenant client id key _ c refl

-- A change of one session that does not change its uses.
pub write-Covers :
    (s : SessionStateStorage) (tenant client : Text) (old state : SessionState)
    → Covers s
    → get_session_state s tenant client ≡ some old
    → ((k : Text) → uses k state ≡ uses k old)
    → Covers (write_session s tenant client state)
write-Covers s tenant client old state c e same k = omega (
  arith,
  c k,
  same k,
  used-write k s tenant client old state e,
  ref_of-write k s tenant client state,
)

next_into-Covers :
    (s : SessionStateStorage) (tenant client : Text) (id now : ℕ) (o : Option SessionState)
    → Covers s
    → get_session_state s tenant client ≡ o
    → Covers (next_into s tenant client id now o)
unfolding next_into
next_into-Covers s tenant client id now none c e = c
next_into-Covers s tenant client id now (some state) c e =
    write-Covers s tenant client state _ c e
      (λ k. omega (arith, held-next_state k state.inflight id now))

-- An acknowledgement.
pub next_state-Releases :
    (s : SessionStateStorage) (tenant client : Text) (id now : ℕ)
    → Covers s
    → let r = inflight_next_state s tenant client id now in Releases r.0 r.1
unfolding inflight_next_state
next_state-Releases s tenant client id now c =
    (next_into-Covers s tenant client id now _ c refl, λ k f. cc)

clean_into-Releases :
    (s : SessionStateStorage) (tenant client : Text) (o : Option SessionState)
    → Covers s
    → get_session_state s tenant client ≡ o
    → let r = clean_into s tenant client o in ReleasesAll r.0 r.1
unfolding clean_into
clean_into-Releases s tenant client none c e = (c, tt)
clean_into-Releases s tenant client (some state) c e =
    let r = clean_finished_items state.inflight in
    let state' : SessionState = record state { inflight = r.0 } in
    dec_all-Releases (write_session s tenant client state') r.1 λ k. omega (
      arith,
      c k,
      used-write k s tenant client state state' e,
      ref_of-write k s tenant client state',
      held-clean k state.inflight,
    )

-- The clean-up of finished packets.
pub clean-Releases :
    (s : SessionStateStorage) (tenant client : Text)
    → Covers s
    → let r = inflight_clean_finished_items s tenant client in ReleasesAll r.0 r.1
unfolding inflight_clean_finished_items
clean-Releases s tenant client c = clean_into-Releases s tenant client _ c refl
