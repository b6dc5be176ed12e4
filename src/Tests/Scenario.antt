-- ===== src/Tests/Scenario.antt =====
-- Scenarios of go/nl6/scenario_controller.go, scenario_gate.go, scenario_ledger.go and
-- scenario_drain.go on concrete calls and fires.
use nl.Prelude.{◌≡◌, ◌≢◌, ◌↔◌, refl, true, false, [], ◌∷◌, none, some, inr, subst, arith}
use nl.Prelude.Bytes.{bytes_eq, bytes_eq_refl}
use nl.Scenario.Phase.{
  submitted, armed, running, stopped, canceled, Controller, transitions_locked, moves, starts,
  fresh,
}
use nl.Scenario.Phase.Lifecycle.{Log, transitions_locked-Log}
use nl.Scenario.Gate.{
  GateState, source_background, source_state_driven, new_ledger, gate_proceed,
  gate_suppress_counted, gate_suppress_silent, decide, classify, sub_window_index, identity_holds,
}
use nl.Scenario.Gate.Matrix.{Passes, Counts, decide_matrix}
use nl.Scenario.Fire.{
  World, written, begin_fire, admit_fire, admitted_emitted, end_send, count_in_window, leave_fire,
  close_gate, begins, admits, emits, ends, counts, leaves_fire, publishes, closes, Reach, here,
  next, at_arm,
}
use nl.Scenario.Fire.Accounting.{Balanced, Reach-Balanced}
use nl.Scenario.Fire.Drained.{SameSent, Drained-SameSent, Drained-identity_holds}
use nl.Scenario.Fire.Windows.{Windowed, Reach-Windowed}
use nl.Scenario.Claim.{
  ScenarioPart, claim_scen_part, release_scen_part, claim, release, slot_calls,
  slot_calls_exclusive,
}

transitions_locked-Log_example :
    Log
      (transitions_locked fresh
        (moves armed ∷ starts true false ∷ starts true true ∷ moves stopped ∷ [])).transitions
      (transitions_locked fresh
        (moves armed ∷ starts true false ∷ starts true true ∷ moves stopped ∷ [])).phase
transitions_locked-Log_example =
    transitions_locked-Log (moves armed ∷ starts true false ∷ starts true true ∷ moves stopped ∷ [])

abbrev done : Controller
done = record { phase = canceled; transitions = submitted ∷ armed ∷ canceled ∷ [] }

-- A window of 100 ns from instant 50.
abbrev window : GateState
window = record { phase = running; t0 = 50; t1 = 150 }

decide_matrix_example :
    (((decide (some window) new_ledger source_state_driven 60).0 ≡ gate_proceed)
      ↔ Passes running 150 source_state_driven 60)
    × (((decide (some window) new_ledger source_state_driven 60).0 ≡ gate_suppress_counted)
        ↔ Counts running source_state_driven)
    × (source_state_driven ≢ source_background
        → (decide (some window) new_ledger source_state_driven 60).1 ≡ new_ledger)
    × (source_state_driven ≡ source_background
        → (decide (some window) new_ledger source_state_driven 60).1
          ≡ record new_ledger { background_suppressed = 1 })
    × (decide none new_ledger source_state_driven 60 ≡ (gate_suppress_silent, new_ledger))
decide_matrix_example = decide_matrix window new_ledger source_state_driven 60

-- One fire from the gate to its leave, and then the close.
abbrev w1 : World
w1 = record at_arm { gate = some window }

abbrev w2 : World
w2 = begin_fire w1 source_state_driven 60

abbrev w3 : World
w3 = admit_fire w2

abbrev w4 : World
w4 = admitted_emitted w3

abbrev w5 : World
w5 = end_send w4 written 70

abbrev w6 : World
w6 = count_in_window w5

abbrev w7 : World
w7 = leave_fire w6

abbrev w8 : World
w8 = record w7 { drain = close_gate w7.drain }

run : Reach at_arm w8
unfolding begin_fire decide admit_fire admitted_emitted end_send classify sub_window_index
    count_in_window leave_fire
run =
    next
      (next
        (next
          (next
            (next
              (next
                (next (next here (publishes (some window) (inr (omega arith))))
                  (begins source_state_driven 60))
                (admits (omega arith)))
              (emits (omega arith)))
            (ends written 70 (omega arith)))
          (counts (omega arith)))
        (leaves_fire (omega arith)))
      closes

Reach-Balanced_example : Balanced w8
Reach-Balanced_example = Reach-Balanced run

Reach-Windowed_example : Windowed w8
Reach-Windowed_example = Reach-Windowed run

drained : (w8.drain.closed ≡ true) × (w8.drain.inflight ≡ 0)
unfolding begin_fire decide admit_fire admitted_emitted end_send classify sub_window_index
    count_in_window leave_fire close_gate
drained = (refl, refl)

Drained-SameSent_example : SameSent w8 (begin_fire w8 source_background 90)
Drained-SameSent_example = Drained-SameSent run drained (next here (begins source_background 90))

no_straggler : (w8.fires.suppress_owed ≡ 0) × (w8.fires.drop_owed ≡ 0)
unfolding begin_fire decide admit_fire admitted_emitted end_send classify sub_window_index
    count_in_window leave_fire
no_straggler = (refl, refl)

Drained-identity_holds_example : identity_holds w8.ledger ≡ true
Drained-identity_holds_example = Drained-identity_holds run drained no_straggler.0 no_straggler.1

abbrev mine : ScenarioPart
mine = record { owner = 65 ∷ [] }

abbrev theirs : ScenarioPart
theirs = record { owner = 66 ∷ [] }

apart : mine.owner ≢ theirs.owner
unfolding bytes_eq
apart e =
    let q = bytes_eq_refl (65 ∷ []) in absurd (cc (subst (λ o. bytes_eq (65 ∷ []) o ≡ true) e q))

slot_calls_exclusive_example :
    ((claim_scen_part (slot_calls (some mine) (claim theirs ∷ release (66 ∷ []) ∷ [])) theirs).0
      ≡ (false, 65 ∷ []))
    × (release_scen_part (slot_calls (some mine) (claim theirs ∷ release (66 ∷ []) ∷ [])) (65 ∷ [])
        ≡ (true, none))
slot_calls_exclusive_example =
    slot_calls_exclusive mine theirs (claim theirs ∷ release (66 ∷ []) ∷ [])
      (λ e. apart e, (λ e. apart e, tt)) (λ e. apart e)
