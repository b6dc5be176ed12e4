-- ===== src/Counters/Hold.antt =====
-- `counterHold` and its functions in go/nl6/if_counter_hold.go, for one interface of its own.
-- Its dial, which `rawDeltaAt` computes in floating point, is a parameter; for a child or an aggregate
-- that reads the held deltas of other interfaces, and is not modelled. An instant is a number of ticks,
-- and a served counter is a uint64.
pub mod Invariant
pub mod Across
pub mod Monotone
use nl.Prelude.{
  ℕ, ◌+◌, ◌-◌, ◌%◌, ◌^◌, Bool, true, false, List, [], ◌∷◌, Option, none, some, ltb, ◌&&◌,
  if◌then◌else◌,
}

pub record CounterHold : Type 0 where
  pub down : Bool
  pub down_at : ℕ
  pub up_at : ℕ
  pub skipped_in : ℕ
  pub skipped_out : ℕ

-- The two dials of an interface: octets in and octets out at an instant.
pub record Dials : Type 0 where
  pub dial_in : ℕ → ℕ
  pub dial_out : ℕ → ℕ

abbrev pub raw_delta_at : Dials → ℕ → Bool → ℕ
raw_delta_at ds t true = ds.dial_in t
raw_delta_at ds t false = ds.dial_out t

-- The total of a direction.
abbrev pub skipped : CounterHold → Bool → ℕ
skipped h true = h.skipped_in
skipped h false = h.skipped_out

-- The instant at which the dial is read, by the two clamps.
unfoldable pub clamped : CounterHold → ℕ → ℕ
clamped h t =
    let u = if h.down && ltb h.down_at t then h.down_at else t in
    if ltb u h.up_at then h.up_at else u

unfoldable pub held_delta_for : Dials → Option CounterHold → ℕ → Bool → ℕ
unfolding clamped
held_delta_for ds none t inbound = raw_delta_at ds t inbound
held_delta_for ds (some h) t inbound =
    let d = raw_delta_at ds (clamped h t) inbound in
    if ltb d (skipped h inbound) then 0 else d - skipped h inbound

-- The round of `heldDeltasAt` that no write overlaps.
unfoldable pub held_deltas_at : Dials → Option CounterHold → ℕ → ℕ × ℕ
unfolding held_delta_for
held_deltas_at ds h t = (held_delta_for ds h t true, held_delta_for ds h t false)

-- `skipped + raw(t) - raw(downAt)` on uint64.
abbrev pub skip_more : ℕ → ℕ → ℕ → ℕ
skip_more total at_up at_down = (total + at_up + (2 ^ 64 - at_down)) % 2 ^ 64

-- The switch of `reconcileHoldAt` for a known interface, by whether it is up, at instant `now`.
unfoldable pub reconcile_hold_at : Dials → Option CounterHold → Bool → ℕ → Option CounterHold
reconcile_hold_at ds none true now = none
reconcile_hold_at ds none false now =
    some (record { down = true; down_at = now; up_at = 0; skipped_in = 0; skipped_out = 0 })
reconcile_hold_at ds (some h) true now =
    if h.down
    then (let t = if ltb now h.down_at then h.down_at else now in
        some (record {
          down = false;
          down_at = 0;
          up_at = t;
          skipped_in = skip_more h.skipped_in (ds.dial_in t) (ds.dial_in h.down_at);
          skipped_out = skip_more h.skipped_out (ds.dial_out t) (ds.dial_out h.down_at);
        }))
    else some h
reconcile_hold_at ds (some h) false now =
    if h.down then some h else some (record h { down = true; down_at = now })

-- `seedHolds` for a known interface.
unfoldable pub seed_hold : Bool → Option CounterHold
seed_hold true = none
seed_hold false =
    some (record { down = true; down_at = 0; up_at = 0; skipped_in = 0; skipped_out = 0 })

-- The transitions that reach the ledger, in the order of `holdMu`: whether the interface is up, and
-- the instant.
unfoldable pub reconciles : Dials → Option CounterHold → List (Bool × ℕ) → Option CounterHold
reconciles ds h [] = h
reconciles ds h ((up, now) ∷ rest) = reconciles ds (reconcile_hold_at ds h up now) rest
