-- ===== src/Tests/Counters.antt =====
-- The counter hold of go/nl6/if_counter_hold.go on a dial that stops at its largest value.
use nl.Prelude.{ℕ, ◌*◌, ◌^◌, ◌≤◌, ◌≡◌, true, false, [], ◌∷◌, min, arith}
use nl.Counters.Hold.{Dials, held_delta_for, reconciles, seed_hold}
use nl.Counters.Hold.Invariant.{Dial}
use nl.Counters.Hold.Monotone.{served_monotone, served_held}

abbrev octets : ℕ → ℕ
octets t = min (t * 125) (2 ^ 63)

abbrev dials : Dials
dials = record { dial_in = octets; dial_out = octets }

octets-Dial : Dial octets
octets-Dial = record { rises = λ t u le. omega arith; uint64 = λ t. omega arith }

served_monotone_example :
    held_delta_for dials (reconciles dials (seed_hold true) ((false, 10) ∷ (true, 20) ∷ [])) 25 true
    ≤ held_delta_for dials
        (reconciles dials
          (reconciles dials (seed_hold true) ((false, 10) ∷ (true, 20) ∷ []))
          ((false, 30) ∷ []))
        40
        true
served_monotone_example =
    served_monotone dials octets-Dial octets-Dial true true ((false, 10) ∷ (true, 20) ∷ [])
      ((false, 30) ∷ []) 25 40 (omega arith, (omega arith, tt)) (omega arith, tt) (omega arith, tt)
      (omega arith)

served_held_example :
    (held_delta_for dials
        (reconciles dials (seed_hold false) ((true, 5) ∷ (false, 10) ∷ []))
        15
        false
      ≡ held_delta_for dials
          (reconciles dials (seed_hold false) ((true, 5) ∷ (false, 10) ∷ []))
          10
          false)
    × (held_delta_for dials
          (reconciles dials (seed_hold false) ((true, 5) ∷ (false, 10) ∷ (true, 20) ∷ []))
          20
          false
        ≡ held_delta_for dials
            (reconciles dials (seed_hold false) ((true, 5) ∷ (false, 10) ∷ []))
            10
            false)
served_held_example =
    served_held dials octets-Dial octets-Dial false false ((true, 5) ∷ []) 10 20 15
      (omega arith, tt) (omega arith) (omega arith) (omega arith)
