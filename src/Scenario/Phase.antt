-- ===== src/Scenario/Phase.antt =====
-- `scenarioPhase`, `isTerminalPhase`, `transitionLocked` and what `Start` and `rollbackStartLocked` do
-- to the phase, of go/nl6/scenario_gate.go and scenario_controller.go. A record of the controller holds what
-- the transition reads and writes; the time of a log entry is left out.
pub mod Lifecycle
use nl.Prelude.{
  ℕ, Bool, true, false, ◌||◌, ◌&&◌, List, [], ◌∷◌, ◌++◌, Option, none, some, not, ◌==◌,
  if◌then◌else◌,
}

pub data ScenarioPhase : Type 0 where
  submitted armed running stopped canceled aborted : ScenarioPhase

abbrev pub phase_code : ScenarioPhase → ℕ
phase_code submitted = 0
phase_code armed = 1
phase_code running = 2
phase_code stopped = 3
phase_code canceled = 4
phase_code aborted = 5

abbrev pub phase_eq : ScenarioPhase → ScenarioPhase → Bool
phase_eq a b = phase_code a == phase_code b

unfoldable pub is_terminal_phase : ScenarioPhase → Bool
is_terminal_phase p = phase_eq p stopped || phase_eq p canceled || phase_eq p aborted

-- The switch on the phase that is left.
unfoldable pub allowed : ScenarioPhase → ScenarioPhase → Bool
allowed submitted to = phase_eq to armed
allowed armed to = phase_eq to running || phase_eq to canceled
allowed running to = phase_eq to stopped || phase_eq to aborted
allowed _ to = false

pub record Controller : Type 0 where
  pub phase : ScenarioPhase
  pub transitions : List ScenarioPhase

pub data TransitionError : Type 0 where
  is_terminal invalid_transition : TransitionError

-- The error, or none, and the controller behind the call.
unfoldable pub transition_locked : Controller → ScenarioPhase → Option TransitionError × Controller
unfolding is_terminal_phase allowed
transition_locked c to =
    if phase_eq c.phase to
    then (if is_terminal_phase c.phase then (some is_terminal, c) else (none, c))
    else if allowed c.phase to
    then (none, record { phase = to; transitions = c.transitions ++ (to ∷ []) })
    else (some invalid_transition, c)

-- The phase of a start that got as far as running goes back; the log keeps its entry.
unfoldable pub rollback_start_locked : Controller → Controller
rollback_start_locked c = record c { phase = armed }

-- The end of `Start`, behind its transition; `scheduled` is that its scheduler could be built.
abbrev pub after_start : Bool → Option TransitionError × Controller → Controller
after_start scheduled (some e, c) = c
after_start scheduled (none, c) = if scheduled then c else rollback_start_locked c

-- `Start`, as far as it is about the phase; `ready` is that the checks in front of its transition
-- pass.
unfoldable pub start_scenario : Bool → Bool → Controller → Controller
start_scenario ready scheduled c =
    if not (phase_eq c.phase armed) || not ready
    then c
    else after_start scheduled (transition_locked c running)

-- What writes the phase: a transition, or a start with what it meets.
pub data PhaseCall : Type 0 where
  moves : ScenarioPhase → PhaseCall
  starts : Bool → Bool → PhaseCall

abbrev pub phase_call : Controller → PhaseCall → Controller
phase_call c (moves to) = (transition_locked c to).1
phase_call c (starts ready scheduled) = start_scenario ready scheduled c

-- A sequence of calls, errors ignored, as the manager's handlers may make them.
pub transitions_locked : Controller → List PhaseCall → Controller
transitions_locked c [] = c
transitions_locked c (k ∷ rest) = transitions_locked (phase_call c k) rest

-- A controller behind `Submit`.
abbrev pub fresh : Controller
fresh = record { phase = submitted; transitions = submitted ∷ [] }
