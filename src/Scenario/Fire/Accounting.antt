-- ===== src/Scenario/Fire/Accounting.antt =====
-- The accounting identity of the loss ledger, in every interleaving of fires, gate changes and the
-- close of the drain barrier.
use nl.Prelude.{ℕ, ◌+◌, ◌<◌, ◌≡◌, refl, Option, none, some, arith}
use nl.Scenario.Gate.{
  FireSource, source_background, source_scenario, source_state_driven, source_on_demand, GateState,
  LedgerEntry, decide,
}
use nl.Scenario.Fire.{
  close_gate, World, SendOutcome, written, send_failure, closing_drop, begin_fire, suppress_emitted,
  suppress_pre_window, admit_fire, refused_emitted, refused_dropped, admitted_emitted, end_send,
  count_in_window, leave_fire, Step, begins, suppresses, suppressed, admits, refuses, drops, emits,
  ends, counts, leaves_fire, publishes, closes, Reach, here, next, at_arm,
}

abbrev pub counted : LedgerEntry → ℕ
counted l = l.in_window + l.drain + l.send_failures + l.dropped + l.suppressed_pre_window

-- Each record that was emitted is in one bucket, or its fire has yet to count it; each fire between
-- `admit` and `leave` is in flight.
pub record Balanced (w : World) : Type 0 where
  pub emitted_split :
      w.ledger.emitted
      ≡ counted w.ledger
        + (w.fires.suppress_owed + w.fires.drop_owed + w.fires.sending + w.fires.window_owed)
  pub inflight_split :
      w.drain.inflight ≡ w.fires.admitted + w.fires.sending + w.fires.window_owed + w.fires.leaving

-- The gate moves the informational counter alone.
pub decide_keeps :
    (g : Option GateState) (l : LedgerEntry) (src : FireSource) (t : ℕ)
    → ((decide g l src t).1.emitted ≡ l.emitted)
      × (counted (decide g l src t).1 ≡ counted l)
      × ((decide g l src t).1.in_window ≡ l.in_window)
      × ((decide g l src t).1.sub_windows ≡ l.sub_windows)
      × ((decide g l src t).1.drain ≡ l.drain)
      × ((decide g l src t).1.send_failures ≡ l.send_failures)
unfolding decide
decide_keeps none l src t = (refl, refl, refl, refl, refl, refl)
decide_keeps (some g) l source_background t = (refl, refl, refl, refl, refl, refl)
decide_keeps (some g) l source_scenario t = (refl, refl, refl, refl, refl, refl)
decide_keeps (some g) l source_state_driven t = (refl, refl, refl, refl, refl, refl)
decide_keeps (some g) l source_on_demand t = (refl, refl, refl, refl, refl, refl)

begin_fire-Balanced :
    (w : World) (src : FireSource) (t : ℕ) → Balanced w → Balanced (begin_fire w src t)
unfolding begin_fire
begin_fire-Balanced w src t b = ground (arith, decide_keeps w.gate w.ledger src t)

admit_fire-Balanced : (w : World) → Balanced w → Balanced (admit_fire w)
unfolding admit_fire
admit_fire-Balanced w b = ground arith

end_send-Balanced :
    (w : World) (o : SendOutcome) (t : ℕ)
    → 0 < w.fires.sending
    → Balanced w
    → Balanced (end_send w o t)
unfolding end_send
end_send-Balanced w written t h b = ground arith
end_send-Balanced w send_failure t h b = ground arith
end_send-Balanced w closing_drop t h b = ground arith

Step-Balanced : {w v : World} → Step w v → Balanced w → Balanced v
unfolding suppress_emitted suppress_pre_window refused_emitted refused_dropped admitted_emitted
    count_in_window leave_fire close_gate
Step-Balanced {w} (begins src t) b = begin_fire-Balanced w src t b
Step-Balanced {w} (suppresses h) b = ground arith
Step-Balanced {w} (suppressed h) b = ground arith
Step-Balanced {w} (admits h) b = admit_fire-Balanced w b
Step-Balanced {w} (refuses h) b = ground arith
Step-Balanced {w} (drops h) b = ground arith
Step-Balanced {w} (emits h) b = ground arith
Step-Balanced {w} (ends o t h) b = end_send-Balanced w o t h b
Step-Balanced {w} (counts h) b = ground arith
Step-Balanced {w} (leaves_fire h) b = ground arith
Step-Balanced (publishes g _) b = record {
  emitted_split = b.emitted_split;
  inflight_split = b.inflight_split;
}
Step-Balanced closes b = record {
  emitted_split = b.emitted_split;
  inflight_split = b.inflight_split;
}

-- In every state that the producers, the controller and the finalizer can reach from arm, in any
-- interleaving: the records emitted are those in the five buckets and those whose fire has yet to
-- count its outcome, and the barrier's count is that of the fires between admit and leave.
pub Reach-Balanced : {w : World} → Reach at_arm w → Balanced w
Reach-Balanced here = record { emitted_split = refl; inflight_split = refl }
Reach-Balanced (next r s) = Step-Balanced s (Reach-Balanced r)
