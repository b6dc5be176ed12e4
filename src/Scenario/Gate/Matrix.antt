-- ===== src/Scenario/Gate/Matrix.antt =====
-- The counting matrix of the gate, and the sub-windows of the window.
use nl.Prelude.{
  ℕ, ◌+◌, ◌-◌, ◌*◌, ◌/◌, ◌%◌, ◌^◌, ◌≤◌, ◌<◌, ◌≡◌, ◌≢◌, refl, false, none, some, ◌↔◌, ◌⊎◌, inl, inr,
  ltb, leb, ltb→lt, lt→ltb, Bool-cases, ◌==◌, arith,
}
use nl.Scenario.Phase.{ScenarioPhase, submitted, armed, running, stopped, canceled, aborted}
use nl.Scenario.Gate.{
  FireSource, source_background, source_scenario, source_state_driven, source_on_demand, GateState,
  GateDecision, gate_proceed, gate_suppress_counted, gate_suppress_silent, LedgerEntry, decide_in,
  decide, sub_window_index,
}

-- A fire that is let through.
abbrev pub Passes : ScenarioPhase → ℕ → FireSource → ℕ → Type 0
Passes p t1 src t = (p ≡ running) × (src ≢ source_background) × (t < t1)

-- A fire that is suppressed and counted.
abbrev pub Counts : ScenarioPhase → FireSource → Type 0
Counts p src = (p ≡ armed) × ((src ≡ source_state_driven) ⊎ (src ≡ source_on_demand))

-- The two rows of the matrix for the sources that the switch sees.
Row : ScenarioPhase → ℕ → FireSource → ℕ → GateDecision → Type 0
Row p t1 src t d =
    ((d ≡ gate_proceed) ↔ Passes p t1 src t) × ((d ≡ gate_suppress_counted) ↔ Counts p src)

silent-Row :
    (p : ScenarioPhase) (t1 : ℕ) (src : FireSource) (t : ℕ)
    → (Passes p t1 src t → ⊥)
    → (Counts p src → ⊥)
    → Row p t1 src t gate_suppress_silent
unfolding Row
silent-Row p t1 src t a b = ((λ e. cc, λ h. absurd (a h)), (λ e. cc, λ h. absurd (b h)))

decide_in-Row :
    (p : ScenarioPhase) (t1 : ℕ) (src : FireSource) (t : ℕ)
    → src ≢ source_background
    → Row p t1 src t (decide_in p t1 src t)
unfolding decide_in
decide_in-Row submitted t1 src t ne = silent-Row _ t1 src t (λ h. cc (h.0)) (λ h. cc (h.0))
decide_in-Row stopped t1 src t ne = silent-Row _ t1 src t (λ h. cc (h.0)) (λ h. cc (h.0))
decide_in-Row canceled t1 src t ne = silent-Row _ t1 src t (λ h. cc (h.0)) (λ h. cc (h.0))
decide_in-Row aborted t1 src t ne = silent-Row _ t1 src t (λ h. cc (h.0)) (λ h. cc (h.0))
decide_in-Row armed t1 source_background t ne = absurd (ne refl)
decide_in-Row armed t1 source_scenario t ne =
    silent-Row _ t1 _ t (λ h. cc (h.0)) (λ h. ground arith)
decide_in-Row armed t1 source_state_driven t ne =
    unfold Row in ((λ e. cc, λ h. cc (h.0)), (λ e. (refl, inl refl), λ h. refl))
decide_in-Row armed t1 source_on_demand t ne =
    unfold Row in ((λ e. cc, λ h. cc (h.0)), (λ e. (refl, inr refl), λ h. refl))
decide_in-Row running t1 src t ne = elim (Bool-cases (ltb t t1)) [
  | inl e ↦
      rw e (unfold Row in ((λ d. (refl, ne, ltb→lt t t1 e), λ h. refl), (λ d. cc, λ h. cc (h.0))))
  | inr e ↦ rw e (silent-Row _ t1 src t (λ h. cc (lt→ltb t t1 h.2, e)) (λ h. cc (h.0)))
]

-- The matrix as `decide` gives it, for every source, phase and time: a fire passes exactly if it is
-- no background fire, the scenario runs and T1 is not reached; it is counted as suppressed exactly
-- if it is exogenous and the scenario is armed. The ledger moves only for a background fire, by
-- one background suppression, and with no gate left nothing passes and nothing is counted.
pub decide_matrix :
    (gs : GateState) (l : LedgerEntry) (src : FireSource) (t : ℕ)
    → (((decide (some gs) l src t).0 ≡ gate_proceed) ↔ Passes gs.phase gs.t1 src t)
      × (((decide (some gs) l src t).0 ≡ gate_suppress_counted) ↔ Counts gs.phase src)
      × (src ≢ source_background → (decide (some gs) l src t).1 ≡ l)
      × (src ≡ source_background
          → (decide (some gs) l src t).1
            ≡ record l { background_suppressed = l.background_suppressed + 1 })
      × (decide none l src t ≡ (gate_suppress_silent, l))
unfolding decide Row
decide_matrix gs l source_background t = (
  (λ e. cc, λ h. absurd (h.1 refl)),
  (λ e. cc, λ h. ground arith),
  λ n. absurd (n refl),
  λ e. refl,
  refl,
)
decide_matrix gs l source_scenario t =
    let r = decide_in-Row gs.phase gs.t1 source_scenario t (λ e. cc) in
    (r.0, r.1, λ n. refl, λ e. cc, refl)
decide_matrix gs l source_state_driven t =
    let r = decide_in-Row gs.phase gs.t1 source_state_driven t (λ e. cc) in
    (r.0, r.1, λ n. refl, λ e. cc, refl)
decide_matrix gs l source_on_demand t =
    let r = decide_in-Row gs.phase gs.t1 source_on_demand t (λ e. cc) in
    (r.0, r.1, λ n. refl, λ e. cc, refl)

tenth_bounds :
    (off span : ℕ)
    → off < span
    → (off * 10 / span < 10)
      × (off * 10 / span * span ≤ off * 10)
      × (off * 10 < (off * 10 / span + 1) * span)
tenth_bounds off span h = (grind arith, omega arith, omega arith)

-- In a window of up to 2^59 nanoseconds (18 years) every time has a sub-window, one of the ten, and
-- it is the tenth that the time lies in: tenth i runs from T0 + i * span / 10.
pub sub_window_index_tenth :
    (gs : GateState) (t : ℕ)
    → gs.t0 ≤ t
    → t < gs.t1
    → gs.t1 - gs.t0 ≤ 2 ^ 59
    → (i : ℕ) × (sub_window_index gs t ≡ some i)
      × (i < 10)
      × (i * (gs.t1 - gs.t0) ≤ (t - gs.t0) * 10)
      × ((t - gs.t0) * 10 < (i + 1) * (gs.t1 - gs.t0))
unfolding sub_window_index
sub_window_index_tenth gs t lo hi short =
    let off = t - gs.t0 in
    let span = gs.t1 - gs.t0 in
    let (ten, low, high) = tenth_bounds off span (omega arith) in
    let fits : off * 10 % 2 ^ 64 ≡ off * 10 = omega arith in
    let a : (span == 0) ≡ false = ground arith in
    let b : leb (2 ^ 63) (off * 10) ≡ false = ground arith in
    let c : leb 10 (off * 10 / span) ≡ false = ground arith in
    (off * 10 / span, rw fits (rw a (rw b (rw c refl))), ten, low, high)
