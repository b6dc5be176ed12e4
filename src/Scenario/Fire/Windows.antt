-- ===== src/Scenario/Fire/Windows.antt =====
-- The sub-windows of the loss ledger add up to the records in the window.
use nl.Prelude.{
  ℕ, zero, suc, ◌+◌, ◌-◌, ◌*◌, ◌/◌, ◌%◌, ◌^◌, ◌<◌, ◌≡◌, refl, ◌∙◌, true, false, Option, none, some,
  List, [], ◌∷◌, length, set, get_or, leb, Bool-cases, inl, inr, ◌==◌, arith, length-set,
}
use nl.Scenario.Gate.{
  FireSource, GateState, sub_window_index, classify, add_sub_window, scenario_sub_window_count,
}
use nl.Scenario.Fire.{
  close_gate, World, SendOutcome, written, send_failure, closing_drop, begin_fire, suppress_emitted,
  suppress_pre_window, admit_fire, refused_emitted, refused_dropped, admitted_emitted, end_send,
  count_in_window, leave_fire, Spans, Step, begins, suppresses, suppressed, admits, refuses, drops,
  emits, ends, counts, leaves_fire, publishes, closes, Reach, here, next, at_arm,
}
use nl.Scenario.Fire.Accounting.{decide_keeps}

abbrev pub sum : List ℕ → ℕ
sum [] = 0
sum (x ∷ xs) = x + sum xs

-- Each write in the window is in a sub-window, before it is in the total.
pub record Windowed (w : World) : Type 0 where
  pub windows_split : sum w.ledger.sub_windows ≡ w.ledger.in_window + w.fires.window_owed
  pub ten : length w.ledger.sub_windows ≡ 10
  pub spans : Spans w.gate

sum-set : (xs : List ℕ) (i n : ℕ) → i < length xs → sum (set xs i (get_or xs i 0 + n)) ≡ sum xs + n
sum-set [] i n h = absurd (omega arith)
sum-set (x ∷ xs) zero n h = omega arith
sum-set (x ∷ xs) (suc i) n h = omega (arith, sum-set xs i n (omega arith))

-- A write in a window of a positive length has one of the ten sub-windows.
sub_window_index-some :
    (gs : GateState) (t : ℕ) → gs.t0 < gs.t1 → (i : ℕ) × (sub_window_index gs t ≡ some i) × (i < 10)
unfolding sub_window_index
sub_window_index-some gs t h =
    let span = gs.t1 - gs.t0 in
    let scaled = (t - gs.t0) * scenario_sub_window_count % 2 ^ 64 in
    let z : (span == 0) ≡ false = ground arith in
    rw z (elim (Bool-cases (leb (2 ^ 63) scaled)) [
      | inl e ↦ rw e (0, refl, omega arith)
      | inr e ↦ rw e (elim (Bool-cases (leb scenario_sub_window_count (scaled / span))) [
        | inl q ↦ rw q (9, refl, omega arith)
        | inr q ↦ rw q (scaled / span, refl, ground arith)
      ])
    ])

-- The index of a write that is in the window.
classify_in :
    (g : Option GateState) (t : ℕ)
    → Spans g
    → (classify g t).0 ≡ true
    → (i : ℕ) × ((classify g t).1 ≡ some i) × (i < 10)
unfolding classify
classify_in none t sp h = absurd (cc h)
classify_in (some gs) t sp h = elim (Bool-cases (leb gs.t1 t)) [
  | inl e ↦ absurd (ground arith)
  | inr e ↦
      rw e (sub_window_index-some gs t (elim sp [ inl z ↦ absurd (ground arith) | inr p ↦ p ]))
]

end_send-Windowed : (w : World) (o : SendOutcome) (t : ℕ) → Windowed w → Windowed (end_send w o t)
unfolding end_send add_sub_window
end_send-Windowed w written t b = elim (Bool-cases (classify w.gate t).0) [
  | inl e ↦
      let (i, q, l) = classify_in w.gate t b.spans e in
      rw e (
        rw q (record {
          windows_split =
              let z = sum-set w.ledger.sub_windows i 1 (let y = b.ten in omega arith) in
              let y = b.windows_split in omega arith;
          ten = length-set w.ledger.sub_windows i _ ∙ b.ten;
          spans = b.spans;
        }))
  | inr e ↦ rw e (record { windows_split = b.windows_split; ten = b.ten; spans = b.spans })
]
end_send-Windowed w send_failure t b = record {
  windows_split = b.windows_split;
  ten = b.ten;
  spans = b.spans;
}
end_send-Windowed w closing_drop t b = record {
  windows_split = b.windows_split;
  ten = b.ten;
  spans = b.spans;
}

begin_fire-Windowed :
    (w : World) (src : FireSource) (t : ℕ) → Windowed w → Windowed (begin_fire w src t)
unfolding begin_fire
begin_fire-Windowed w src t b = ground (arith, decide_keeps w.gate w.ledger src t)

admit_fire-Windowed : (w : World) → Windowed w → Windowed (admit_fire w)
unfolding admit_fire
admit_fire-Windowed w b = ground arith

Step-Windowed : {w v : World} → Step w v → Windowed w → Windowed v
unfolding begin_fire suppress_emitted suppress_pre_window admit_fire refused_emitted refused_dropped
    admitted_emitted count_in_window leave_fire close_gate
Step-Windowed {w} (begins src t) b = begin_fire-Windowed w src t b
Step-Windowed {w} (suppresses h) b = record {
  windows_split = b.windows_split;
  ten = b.ten;
  spans = b.spans;
}
Step-Windowed {w} (suppressed h) b = record {
  windows_split = b.windows_split;
  ten = b.ten;
  spans = b.spans;
}
Step-Windowed {w} (admits h) b = admit_fire-Windowed w b
Step-Windowed {w} (refuses h) b = record {
  windows_split = b.windows_split;
  ten = b.ten;
  spans = b.spans;
}
Step-Windowed {w} (drops h) b = record {
  windows_split = b.windows_split;
  ten = b.ten;
  spans = b.spans;
}
Step-Windowed {w} (emits h) b = record {
  windows_split = b.windows_split;
  ten = b.ten;
  spans = b.spans;
}
Step-Windowed {w} (ends o t h) b = end_send-Windowed w o t b
Step-Windowed {w} (counts h) b = record {
  windows_split = let e = b.windows_split in omega arith;
  ten = b.ten;
  spans = b.spans;
}
Step-Windowed {w} (leaves_fire h) b = record {
  windows_split = b.windows_split;
  ten = b.ten;
  spans = b.spans;
}
Step-Windowed (publishes g sp) b = record {
  windows_split = b.windows_split;
  ten = b.ten;
  spans = sp;
}
Step-Windowed closes b = record { windows_split = b.windows_split; ten = b.ten; spans = b.spans }

-- In every state reached from arm, in any interleaving: the ten sub-windows add up to the records
-- counted in the window and those whose write is in a sub-window but not yet in that total.
pub Reach-Windowed : {w : World} → Reach at_arm w → Windowed w
Reach-Windowed here = record { windows_split = refl; ten = refl; spans = tt }
Reach-Windowed (next r s) = Step-Windowed s (Reach-Windowed r)
