-- ===== src/Scenario/Phase/Lifecycle.antt =====
-- The lifecycle as a relation, and the log that the controller keeps of it.
use nl.Prelude.{
  ◌≡◌, ◌≢◌, refl, subst, Bool, not, ◌||◌, true, false, List, [], ◌∷◌, ◌++◌, Option, none, some,
  Bool-cases, inl, inr, ◌↔◌, ◌⊎◌, arith,
}
use nl.Scenario.Phase.{
  ScenarioPhase, submitted, armed, running, stopped, canceled, aborted, phase_eq, is_terminal_phase,
  allowed, Controller, TransitionError, is_terminal, invalid_transition, transition_locked,
  transitions_locked, fresh, rollback_start_locked, after_start, start_scenario, PhaseCall, moves,
  starts, phase_call,
}

-- The edges of the documented lifecycle.
pub data Edge : ScenarioPhase → ScenarioPhase → Type 0 where
  arm : Edge submitted armed
  start : Edge armed running
  cancel : Edge armed canceled
  stop : Edge running stopped
  abort : Edge running aborted

-- A log, oldest first, that follows the edges from the start to this phase; a start that is rolled
-- back leaves no entry.
pub data Log : List ScenarioPhase → ScenarioPhase → Type 0 where
  created : Log (submitted ∷ []) submitted
  moved :
      {l : List ScenarioPhase} {p q : ScenarioPhase} → Log l p → Edge p q → Log (l ++ (q ∷ [])) q
  rolled_back : {l : List ScenarioPhase} → Log l running → Log l armed

allowed-Edge : (p q : ScenarioPhase) → allowed p q ≡ true → Edge p q
unfolding allowed
allowed-Edge submitted armed h = arm
allowed-Edge armed running h = start
allowed-Edge armed canceled h = cancel
allowed-Edge running stopped h = stop
allowed-Edge running aborted h = abort
allowed-Edge _ _ h = cc

Edge-allowed : {p q : ScenarioPhase} → Edge p q → (phase_eq p q ≡ false) × (allowed p q ≡ true)
unfolding allowed
Edge-allowed arm = (refl, refl)
Edge-allowed start = (refl, refl)
Edge-allowed cancel = (refl, refl)
Edge-allowed stop = (refl, refl)
Edge-allowed abort = (refl, refl)

phase_eq_sound : (p q : ScenarioPhase) → phase_eq p q ≡ true → p ≡ q
phase_eq_sound submitted submitted h = refl
phase_eq_sound armed armed h = refl
phase_eq_sound running running h = refl
phase_eq_sound stopped stopped h = refl
phase_eq_sound canceled canceled h = refl
phase_eq_sound aborted aborted h = refl
phase_eq_sound _ _ h = cc

phase_eq_refl : (p : ScenarioPhase) → phase_eq p p ≡ true
phase_eq_refl p = ground arith

-- The three ways that a call ends.
data Outcome (c : Controller) (to : ScenarioPhase)
    : Option TransitionError × Controller → Type 0 where
  repeated : c.phase ≡ to → is_terminal_phase to ≡ false → Outcome c to (none, c)
  along :
      Edge c.phase to
      → Outcome c to (none, record { phase = to; transitions = c.transitions ++ (to ∷ []) })
  refused :
      (e : TransitionError)
      → (Edge c.phase to ⊎ ((c.phase ≡ to) × (is_terminal_phase to ≡ false)) → ⊥)
      → Outcome c to (some e, c)

transition_locked-Outcome :
    (c : Controller) (to : ScenarioPhase) → Outcome c to (transition_locked c to)
unfolding transition_locked
transition_locked-Outcome c to = elim (Bool-cases (phase_eq c.phase to)) [
  | inl e ↦
      let same = phase_eq_sound c.phase to e in
      rw e (elim (Bool-cases (is_terminal_phase c.phase)) [
        | inl t ↦ rw t (refused is_terminal (terminal_stuck c.phase to same t))
        | inr t ↦ rw t (repeated same (rw same at t))
      ])
  | inr e ↦ rw e (elim (Bool-cases (allowed c.phase to)) [
    | inl a ↦ rw a (along (allowed-Edge c.phase to a))
    | inr a ↦ rw a (refused invalid_transition (no_edge c.phase to e a))
  ])
]
  where
    terminal_stuck :
        (p q : ScenarioPhase)
        → p ≡ q
        → is_terminal_phase p ≡ true
        → Edge p q ⊎ ((p ≡ q) × (is_terminal_phase q ≡ false))
        → ⊥
    terminal_stuck p q same t (inl e) = cc ((Edge-allowed e).0, phase_eq_refl q, same)
    terminal_stuck p q same t (inr r) = cc (r.1, t, same)

    no_edge :
        (p q : ScenarioPhase)
        → phase_eq p q ≡ false
        → allowed p q ≡ false
        → Edge p q ⊎ ((p ≡ q) × (is_terminal_phase q ≡ false))
        → ⊥
    no_edge p q e a (inl g) = cc ((Edge-allowed g).1, a)
    no_edge p q e a (inr r) = cc (e, phase_eq_refl q, r.0)

-- `transitionLocked` succeeds exactly along an edge of the lifecycle or on a repeated phase that is
-- not terminal; where it fails it changes nothing.
pub transition_locked_iff :
    (c : Controller) (to : ScenarioPhase)
    → (((transition_locked c to).0 ≡ none)
        ↔ (Edge c.phase to ⊎ ((c.phase ≡ to) × (is_terminal_phase to ≡ false))))
      × ((transition_locked c to).0 ≢ none → (transition_locked c to).1 ≡ c)
transition_locked_iff c to = go (transition_locked c to) (transition_locked-Outcome c to)
  where
    go :
        (r : Option TransitionError × Controller)
        → Outcome c to r
        → ((r.0 ≡ none) ↔ (Edge c.phase to ⊎ ((c.phase ≡ to) × (is_terminal_phase to ≡ false))))
          × (r.0 ≢ none → r.1 ≡ c)
    go _ (repeated same t) = ((λ e. inr (same, t), λ e. refl), λ n. refl)
    go _ (along edge) = ((λ e. inl edge, λ e. refl), λ n. absurd (n refl))
    go _ (refused e no_way) = ((λ h. cc, λ h. absurd (no_way h)), λ n. refl)

transition_locked-Log :
    (c : Controller) (to : ScenarioPhase)
    → Log c.transitions c.phase
    → Log (transition_locked c to).1.transitions (transition_locked c to).1.phase
transition_locked-Log c to l = go (transition_locked c to) (transition_locked-Outcome c to)
  where
    go : (r : Option TransitionError × Controller) → Outcome c to r → Log r.1.transitions r.1.phase
    go _ (repeated same t) = l
    go _ (along edge) = moved l edge
    go _ (refused e no_way) = l

start_scenario-Log :
    (ready scheduled : Bool) (c : Controller)
    → Log c.transitions c.phase
    → Log (start_scenario ready scheduled c).transitions (start_scenario ready scheduled c).phase
unfolding start_scenario rollback_start_locked
start_scenario-Log ready scheduled c l =
    elim (Bool-cases (not (phase_eq c.phase armed) || not ready)) [
      | inl refused_early ↦ rw refused_early l
      | inr at_armed ↦
          let here = phase_eq_sound c.phase armed (ground (arith, at_armed)) in
          rw at_armed (
            ended scheduled here (transition_locked c running)
              (transition_locked-Outcome c running))
    ]
  where
    undone :
        (s : Bool) (d : Controller)
        → Log d.transitions d.phase
        → d.phase ≡ running
        → Log (after_start s (none, d)).transitions (after_start s (none, d)).phase
    undone true d k e = k
    undone false d k e = rolled_back (subst (Log d.transitions) e k)

    ended :
        (s : Bool)
        → c.phase ≡ armed
        → (r : Option TransitionError × Controller) → Outcome c running r
        → Log (after_start s r).transitions (after_start s r).phase
    ended s here _ (repeated same t) = cc (same, here)
    ended s here _ (along edge) = undone s _ (moved l edge) refl
    ended s here _ (refused e no_way) = l

phase_call-Log :
    (c : Controller) (k : PhaseCall)
    → Log c.transitions c.phase
    → Log (phase_call c k).transitions (phase_call c k).phase
phase_call-Log c (moves to) l = transition_locked-Log c to l
phase_call-Log c (starts ready scheduled) l = start_scenario-Log ready scheduled c l

run-Log :
    (c : Controller) (calls : List PhaseCall)
    → Log c.transitions c.phase
    → Log (transitions_locked c calls).transitions (transitions_locked c calls).phase
unfolding transitions_locked
run-Log c [] l = l
run-Log c (k ∷ calls) l = run-Log (phase_call c k) calls (phase_call-Log c k l)

-- Whatever phases are asked for and whatever starts are made, in whatever order, the log of a
-- controller is a walk along the lifecycle's edges from submitted to the phase that it is in, but for
-- the starts that were rolled back from running to armed, which it does not show.
pub transitions_locked-Log :
    (calls : List PhaseCall)
    → Log (transitions_locked fresh calls).transitions (transitions_locked fresh calls).phase
transitions_locked-Log calls = run-Log fresh calls created

terminal_step :
    (c : Controller) (to : ScenarioPhase)
    → is_terminal_phase c.phase ≡ true
    → (transition_locked c to).1 ≡ c
unfolding transition_locked
terminal_step c to t = elim (Bool-cases (phase_eq c.phase to)) [
  | inl e ↦ rw e (rw t)
  | inr e ↦ rw e (rw (terminal_closed c.phase t))
]
  where
    terminal_closed : (p : ScenarioPhase) → is_terminal_phase p ≡ true → allowed p to ≡ false
    terminal_closed submitted h = cc
    terminal_closed armed h = cc
    terminal_closed running h = cc
    terminal_closed stopped h = refl
    terminal_closed canceled h = refl
    terminal_closed aborted h = refl

terminal_call :
    (c : Controller) (k : PhaseCall) → is_terminal_phase c.phase ≡ true → phase_call c k ≡ c
unfolding start_scenario is_terminal_phase
terminal_call c (moves to) t = terminal_step c to t
terminal_call c (starts ready scheduled) t =
    let e : (not (phase_eq c.phase armed) || not ready) ≡ true = ground (arith, t) in rw e refl

-- A stopped, canceled or aborted scenario stays as it is under every later call.
pub transitions_locked_terminal :
    (c : Controller) (calls : List PhaseCall)
    → is_terminal_phase c.phase ≡ true
    → transitions_locked c calls ≡ c
unfolding transitions_locked
transitions_locked_terminal c [] t = refl
transitions_locked_terminal c (k ∷ calls) t =
    rw (terminal_call c k t) (transitions_locked_terminal c calls t)
