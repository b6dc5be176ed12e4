-- ===== src/Scenario/Fire/Drained.antt =====
-- What the finalizer may rely on once the drain barrier is closed and empty.
use nl.Prelude.{◌≡◌, ◌∙◌, true, arith}
use nl.Scenario.Gate.{identity_holds}
use nl.Scenario.Fire.{
  close_gate, World, begin_fire, suppress_emitted, suppress_pre_window, admit_fire, refused_emitted,
  refused_dropped, admitted_emitted, count_in_window, leave_fire, Step, begins, suppresses,
  suppressed, admits, refuses, drops, emits, ends, counts, leaves_fire, publishes, closes, Reach,
  here, next, at_arm,
}
use nl.Scenario.Fire.Accounting.{decide_keeps, Balanced, Reach-Balanced}

-- `closeAndWait` has returned without a give-up.
abbrev pub Drained : World → Type 0
Drained w = (w.drain.closed ≡ true) × (w.drain.inflight ≡ 0)

-- What a report reads of the sends.
pub record SameSent (w v : World) : Type 0 where
  pub still_closed : v.drain.closed ≡ true
  pub still_empty : v.drain.inflight ≡ 0
  pub same_in_window : v.ledger.in_window ≡ w.ledger.in_window
  pub same_drain : v.ledger.drain ≡ w.ledger.drain
  pub same_failures : v.ledger.send_failures ≡ w.ledger.send_failures
  pub same_sub_windows : v.ledger.sub_windows ≡ w.ledger.sub_windows

Step-SameSent : {w v : World} → Step w v → Balanced w → Drained w → SameSent w v
unfolding begin_fire suppress_emitted suppress_pre_window admit_fire refused_emitted refused_dropped
    admitted_emitted count_in_window leave_fire close_gate
Step-SameSent {w} (begins src t) b d = ground (arith, decide_keeps w.gate w.ledger src t)
Step-SameSent {w} (suppresses h) b d = ground arith
Step-SameSent {w} (suppressed h) b d = ground arith
Step-SameSent {w} (admits h) b d = ground arith
Step-SameSent {w} (refuses h) b d = ground arith
Step-SameSent {w} (drops h) b d = ground arith
Step-SameSent {w} (emits h) b d = ground arith
Step-SameSent {w} (ends o t h) b d = let e = b.inflight_split in absurd (omega arith)
Step-SameSent {w} (counts h) b d = ground arith
Step-SameSent {w} (leaves_fire h) b d = ground arith
Step-SameSent {w} (publishes g _) b d = ground arith
Step-SameSent {w} closes b d = ground arith

Reach-trans : {u w v : World} → Reach u w → Reach w v → Reach u v
Reach-trans r here = r
Reach-trans r (next q s) = next (Reach-trans r q) s

-- From a state reached from arm whose barrier is closed and empty, whatever fires, gate changes and
-- closes follow in any interleaving: the barrier stays closed and empty, and the records counted in
-- the window, in the drain, in each sub-window and as send failures stay as the finalizer reads them.
pub Drained-SameSent : {w v : World} → Reach at_arm w → Drained w → Reach w v → SameSent w v
Drained-SameSent r d here = ground arith
Drained-SameSent r d (next q s) =
    let a = Drained-SameSent r d q in
    let b = Step-SameSent s (Reach-Balanced (Reach-trans r q)) (a.still_closed, a.still_empty) in
    record {
      still_closed = b.still_closed;
      still_empty = b.still_empty;
      same_in_window = b.same_in_window ∙ a.same_in_window;
      same_drain = b.same_drain ∙ a.same_drain;
      same_failures = b.same_failures ∙ a.same_failures;
      same_sub_windows = b.same_sub_windows ∙ a.same_sub_windows;
    }

-- In a state reached from arm whose barrier is closed and empty, the identity that the ledger
-- checks on its uint64 counters holds as soon as no straggler stands between its two counters.
pub Drained-identity_holds :
    {w : World}
    → Reach at_arm w
    → Drained w
    → w.fires.suppress_owed ≡ 0
    → w.fires.drop_owed ≡ 0
    → identity_holds w.ledger ≡ true
unfolding identity_holds
Drained-identity_holds {w} r d p q =
    let b = Reach-Balanced r in let e = b.emitted_split in let i = b.inflight_split in ground arith
