-- ===== src/Scenario/Fire.antt =====
-- A fire of a participant and the drain barrier, as interleaved steps: the funnel
-- `fireWithSourceLabelled` of go/nl6/syslog_exporter.go, the counters of its `fireWithCtx`, and
-- `admit`, `leave` and the close of go/nl6/scenario_drain.go. A fire is a goroutine between two of
-- its atomic operations; a world counts the fires at each of those points.
pub mod Accounting
pub mod Drained
pub mod Windows
use nl.Prelude.{
  ℕ, zero, suc, ◌+◌, ◌-◌, ◌≤◌, ◌<◌, ◌≡◌, Bool, true, false, Option, none, some, if◌then◌else◌, ◌⊎◌,
}
use nl.Scenario.Gate.{
  FireSource, GateState, GateDecision, gate_proceed, gate_suppress_counted, gate_suppress_silent,
  LedgerEntry, new_ledger, decide, classify, add_sub_window,
}

-- `drainGate`; `wg` and `inflight` move together.
pub record DrainGate : Type 0 where
  pub closed : Bool
  pub inflight : ℕ

-- The answer, and the barrier behind it.
unfoldable pub admit : DrainGate → Bool × DrainGate
admit d = if d.closed then (false, d) else (true, record d { inflight = d.inflight + 1 })

unfoldable pub leave : DrainGate → DrainGate
leave d = record d { inflight = d.inflight - 1 }

unfoldable pub close_gate : DrainGate → DrainGate
close_gate d = record d { closed = true }

-- The fires at each point of the funnel.
pub record Fires : Type 0 where
  -- the gate said to count; then `emitted` is counted
  pub suppressing : ℕ
  pub suppress_owed : ℕ
  -- the gate let it through; the barrier refused it; then `emitted` is counted
  pub passed : ℕ
  pub refused : ℕ
  pub drop_owed : ℕ
  -- the barrier admitted it; then `emitted` is counted; the sub-window is counted; the outcome is
  pub admitted : ℕ
  pub sending : ℕ
  pub window_owed : ℕ
  pub leaving : ℕ

pub record World : Type 0 where
  pub gate : Option GateState
  pub ledger : LedgerEntry
  pub drain : DrainGate
  pub fires : Fires

-- How a send ends.
pub data SendOutcome : Type 0 where
  written send_failure closing_drop : SendOutcome

-- The switch on `decide` at the fire time.
unfoldable pub begin_fire : World → FireSource → ℕ → World
begin_fire w src t =
    let f = w.fires in
    let (d, l) = decide w.gate w.ledger src t in
    elim d [
      | gate_suppress_silent ↦ record w { ledger = l }
      | gate_suppress_counted ↦ record w {
        ledger = l;
        fires = record f { suppressing = f.suppressing + 1 };
      }
      | gate_proceed ↦ record w { ledger = l; fires = record f { passed = f.passed + 1 } }
    ]

-- The two counters of a suppressed fire.
unfoldable pub suppress_emitted : World → World
suppress_emitted w =
    let l = w.ledger in
    let f = w.fires in
    record w {
      ledger = record l { emitted = l.emitted + 1 };
      fires = record f { suppressing = f.suppressing - 1; suppress_owed = f.suppress_owed + 1 };
    }

unfoldable pub suppress_pre_window : World → World
suppress_pre_window w =
    let l = w.ledger in
    let f = w.fires in
    record w {
      ledger = record l { suppressed_pre_window = l.suppressed_pre_window + 1 };
      fires = record f { suppress_owed = f.suppress_owed - 1 };
    }

-- A fire that passed the gate asks the barrier.
unfoldable pub admit_fire : World → World
unfolding admit
admit_fire w =
    let f = w.fires in
    let (ok, d) = admit w.drain in
    if ok
    then record w {
      drain = d;
      fires = record f { passed = f.passed - 1; admitted = f.admitted + 1 };
    }
    else record w { drain = d; fires = record f { passed = f.passed - 1; refused = f.refused + 1 } }

-- The two counters of a refused fire.
unfoldable pub refused_emitted : World → World
refused_emitted w =
    let l = w.ledger in
    let f = w.fires in
    record w {
      ledger = record l { emitted = l.emitted + 1 };
      fires = record f { refused = f.refused - 1; drop_owed = f.drop_owed + 1 };
    }

unfoldable pub refused_dropped : World → World
refused_dropped w =
    let l = w.ledger in
    let f = w.fires in
    record w {
      ledger = record l { dropped = l.dropped + 1 };
      fires = record f { drop_owed = f.drop_owed - 1 };
    }

-- An admitted fire is counted as emitted.
unfoldable pub admitted_emitted : World → World
admitted_emitted w =
    let l = w.ledger in
    let f = w.fires in
    record w {
      ledger = record l { emitted = l.emitted + 1 };
      fires = record f { admitted = f.admitted - 1; sending = f.sending + 1 };
    }

-- The outcome of a send; `bucketFor(t)` at a write counts the sub-window first.
unfoldable pub end_send : World → SendOutcome → ℕ → World
end_send w send_failure t =
    let l = w.ledger in
    let f = w.fires in
    record w {
      ledger = record l { send_failures = l.send_failures + 1 };
      fires = record f { sending = f.sending - 1; leaving = f.leaving + 1 };
    }
end_send w closing_drop t =
    let l = w.ledger in
    let f = w.fires in
    record w {
      ledger = record l { dropped = l.dropped + 1 };
      fires = record f { sending = f.sending - 1; leaving = f.leaving + 1 };
    }
end_send w written t =
    let l = w.ledger in
    let f = w.fires in
    let (in_window, sub_idx) = classify w.gate t in
    if in_window
    then record w {
      ledger = record l { sub_windows = add_sub_window sub_idx 1 l.sub_windows };
      fires = record f { sending = f.sending - 1; window_owed = f.window_owed + 1 };
    }
    else record w {
      ledger = record l { drain = l.drain + 1 };
      fires = record f { sending = f.sending - 1; leaving = f.leaving + 1 };
    }

-- The `Add(1)` on the counter that `bucketFor` returned for a write in the window.
unfoldable pub count_in_window : World → World
count_in_window w =
    let l = w.ledger in
    let f = w.fires in
    record w {
      ledger = record l { in_window = l.in_window + 1 };
      fires = record f { window_owed = f.window_owed - 1; leaving = f.leaving + 1 };
    }

-- The deferred `leave`.
unfoldable pub leave_fire : World → World
unfolding leave
leave_fire w =
    let f = w.fires in
    record w { drain = leave w.drain; fires = record f { leaving = f.leaving - 1 } }

-- A gate that the controller publishes: without a window, or with one of a positive length.
abbrev pub Spans : Option GateState → Type 0
Spans none = Unit
Spans (some gs) = (gs.t1 ≡ 0) ⊎ (gs.t0 < gs.t1)

-- What the producers, the controller and the finalizer may do next; a point of the funnel has a
-- next step only if a fire is there.
pub data Step (w : World) : World → Type 0 where
  begins : (src : FireSource) (t : ℕ) → Step w (begin_fire w src t)
  suppresses : 0 < w.fires.suppressing → Step w (suppress_emitted w)
  suppressed : 0 < w.fires.suppress_owed → Step w (suppress_pre_window w)
  admits : 0 < w.fires.passed → Step w (admit_fire w)
  refuses : 0 < w.fires.refused → Step w (refused_emitted w)
  drops : 0 < w.fires.drop_owed → Step w (refused_dropped w)
  emits : 0 < w.fires.admitted → Step w (admitted_emitted w)
  ends : (o : SendOutcome) (t : ℕ) → 0 < w.fires.sending → Step w (end_send w o t)
  counts : 0 < w.fires.window_owed → Step w (count_in_window w)
  leaves_fire : 0 < w.fires.leaving → Step w (leave_fire w)
  publishes : (g : Option GateState) → Spans g → Step w (record w { gate = g })
  closes : Step w (record w { drain = close_gate w.drain })

pub data Reach (w : World) : World → Type 0 where
  here : Reach w w
  next : {u v : World} → Reach w u → Step u v → Reach w v

abbrev pub no_fires : Fires
no_fires = record {
  suppressing = 0;
  suppress_owed = 0;
  passed = 0;
  refused = 0;
  drop_owed = 0;
  admitted = 0;
  sending = 0;
  window_owed = 0;
  leaving = 0;
}

-- A participant at arm.
abbrev pub at_arm : World
at_arm = record {
  gate = none;
  ledger = new_ledger;
  drain = record { closed = false; inflight = 0 };
  fires = no_fires;
}
