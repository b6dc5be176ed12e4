-- ===== src/Scenario/Gate.antt =====
-- The gate and the ledger of a participant: go/nl6/scenario_gate.go and scenario_ledger.go. A time
-- is a number of nanoseconds; a counter is the number of increments, and the uint64 that the
-- source loads is that number modulo 2 ^ 64.
pub mod Matrix
use nl.Prelude.{
  ℕ, zero, suc, ◌+◌, ◌-◌, ◌*◌, ◌/◌, ◌%◌, ◌^◌, Bool, true, false, ◌&&◌, ◌||◌, List, [], ◌∷◌, Option,
  none, some, ltb, leb, ◌==◌, if◌then◌else◌, min, get_or, set, replicate,
}
use nl.Scenario.Phase.{ScenarioPhase, submitted, armed, running, stopped, canceled, aborted}

pub data FireSource : Type 0 where
  source_background source_scenario source_state_driven source_on_demand : FireSource

pub record GateState : Type 0 where
  pub phase : ScenarioPhase
  pub t0 : ℕ
  pub t1 : ℕ

pub data GateDecision : Type 0 where
  gate_proceed gate_suppress_counted gate_suppress_silent : GateDecision

abbrev pub scenario_sub_window_count : ℕ
scenario_sub_window_count = 10

-- `ledgerEntry`, without the per-application maps.
pub record LedgerEntry : Type 0 where
  pub emitted : ℕ
  pub in_window : ℕ
  pub drain : ℕ
  pub suppressed_pre_window : ℕ
  pub send_failures : ℕ
  pub dropped : ℕ
  pub background_suppressed : ℕ
  pub sub_windows : List ℕ

abbrev pub new_ledger : LedgerEntry
new_ledger = record {
  emitted = 0;
  in_window = 0;
  drain = 0;
  suppressed_pre_window = 0;
  send_failures = 0;
  dropped = 0;
  background_suppressed = 0;
  sub_windows = replicate scenario_sub_window_count 0;
}

-- `none` is the source's -1. `int64(off) * 10` wraps; a negative product gives a quotient of at
-- most 0, which the source raises to 0.
unfoldable pub sub_window_index : GateState → ℕ → Option ℕ
sub_window_index gs t =
    let span = gs.t1 - gs.t0 in
    let scaled = (t - gs.t0) * scenario_sub_window_count % 2 ^ 64 in
    if span == 0
    then none
    else if leb (2 ^ 63) scaled
    then some 0
    else if leb scenario_sub_window_count (scaled / span)
    then some (scenario_sub_window_count - 1)
    else some (scaled / span)

-- The gate pointer may be gone; `classify` gives whether `t` is in the window, and its sub-window.
unfoldable pub classify : Option GateState → ℕ → Bool × Option ℕ
classify none t = (false, none)
classify (some gs) t = if leb gs.t1 t then (false, none) else (true, sub_window_index gs t)

-- The armed branch: the scenario's own scheduler must not run yet, an exogenous event is counted.
abbrev pub decide_armed : FireSource → GateDecision
decide_armed source_scenario = gate_suppress_silent
decide_armed _ = gate_suppress_counted

-- The switch on the phase.
unfoldable pub decide_in : ScenarioPhase → ℕ → FireSource → ℕ → GateDecision
decide_in armed t1 src t = decide_armed src
decide_in running t1 src t = if ltb t t1 then gate_proceed else gate_suppress_silent
decide_in _ t1 src t = gate_suppress_silent

unfoldable pub decide : Option GateState → LedgerEntry → FireSource → ℕ → GateDecision × LedgerEntry
unfolding decide_in
decide none l src t = (gate_suppress_silent, l)
decide (some gs) l source_background t =
    (gate_suppress_silent, record l { background_suppressed = l.background_suppressed + 1 })
decide (some gs) l src t = (decide_in gs.phase gs.t1 src t, l)

-- `subWindows[subIdx].Add(n)`, if there is an index.
unfoldable pub add_sub_window : Option ℕ → ℕ → List ℕ → List ℕ
add_sub_window none n ws = ws
add_sub_window (some i) n ws = set ws i (get_or ws i 0 + n)

-- `bucketFor(t).Add(1)`
unfoldable pub bucket_for : Option GateState → LedgerEntry → ℕ → LedgerEntry
unfolding classify add_sub_window
bucket_for gate l t =
    let (in_window, sub_idx) = classify gate t in
    if in_window
    then record l {
      in_window = l.in_window + 1;
      sub_windows = add_sub_window sub_idx 1 l.sub_windows;
    }
    else record l { drain = l.drain + 1 }

unfoldable pub identity_holds : LedgerEntry → Bool
identity_holds l = l.emitted % 2 ^ 64 == (
    ((l.in_window + l.drain) % 2 ^ 64 + l.send_failures + l.dropped + l.suppressed_pre_window)
    % 2 ^ 64)
