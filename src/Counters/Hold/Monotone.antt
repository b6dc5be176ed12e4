-- ===== src/Counters/Hold/Monotone.antt =====
-- A served counter never goes backwards, holds while the interface is down, and resumes from there.
use nl.Prelude.{
  ℕ, ◌≤◌, ◌≡◌, refl, Bool, true, false, List, [], ◌∷◌, ◌++◌, Option, none, some, Bool-cases, inl,
  inr, arith,
}
use nl.Counters.Hold.{CounterHold, Dials, held_delta_for, reconcile_hold_at, seed_hold, reconciles}
use nl.Counters.Hold.Invariant.{
  Dial, Ordered, last, Ordered-weaken, reconciles-append, Sound, SoundAt, reconcile-Sound,
  seed-Sound, reconciles-Sound,
}
use nl.Counters.Hold.Across.{served_rises, served_across, still}

module _ (ds : Dials) (din : Dial ds.dial_in) (dout : Dial ds.dial_out) where
  served_after :
      (h : Option CounterHold) (inbound : Bool) (before t u : ℕ) (rest : List (Bool × ℕ))
      → SoundAt ds din dout h before
      → Ordered before rest
      → Ordered t rest
      → t ≤ u
      → held_delta_for ds h t inbound ≤ held_delta_for ds (reconciles ds h rest) u inbound
  unfolding reconciles
  served_after h inbound before t u [] s o p le = served_rises ds din dout h inbound t u le
  served_after h inbound before t u ((up, now) ∷ rest) s o p le =
      let a = served_across ds din dout h up inbound before now t t s o.0 p.0 (omega arith) in
      let b =
        served_after (reconcile_hold_at ds h up now) inbound now t u rest
          (reconcile-Sound ds din dout h up before now s o.0) o.1
          (Ordered-weaken t now rest p.0 p.1) le in
      omega arith

  -- For dials that count upwards in a uint64, and transitions at instants that do not go back: what
  -- a reader is served at `t` it is served at least at any later instant `u`, whatever transitions
  -- happened before the first read and from `t` on, in each direction and however the interface started.
  pub served_monotone :
      (started_up inbound : Bool) (past rest : List (Bool × ℕ)) (t u : ℕ)
      → Ordered 0 past
      → Ordered (last 0 past) rest
      → Ordered t rest
      → t ≤ u
      → held_delta_for ds (reconciles ds (seed_hold started_up) past) t inbound
        ≤ held_delta_for ds
            (reconciles ds (reconciles ds (seed_hold started_up) past) rest)
            u
            inbound
  served_monotone started_up inbound past rest t u o p q le =
      served_after (reconciles ds (seed_hold started_up) past) inbound (last 0 past) t u rest
        (reconciles-Sound ds din dout (seed_hold started_up) 0 past
          (seed-Sound ds din dout started_up) o)
        p q le

  goes_down :
      (h : Option CounterHold) (now : ℕ)
      → (d : CounterHold) × (reconcile_hold_at ds h false now ≡ some d) × (d.down ≡ true)
  unfolding reconcile_hold_at
  goes_down none now = (_, refl, refl)
  goes_down (some h) now = elim (Bool-cases h.down) [
    | inl e ↦ (h, ground (arith, e), e)
    | inr e ↦ (record h { down = true; down_at = now }, ground (arith, e), refl)
  ]

  -- For dials that count upwards in a uint64, after any transitions in order: from the instant at
  -- which an interface is found down its counters stay as they are until it comes up, and at
  -- that instant they resume from there, without a jump.
  pub served_held :
      (started_up inbound : Bool) (past : List (Bool × ℕ)) (now back t : ℕ)
      → Ordered 0 past
      → last 0 past ≤ now
      → now ≤ back
      → now ≤ t
      → (held_delta_for ds
            (reconciles ds (seed_hold started_up) (past ++ ((false, now) ∷ [])))
            t
            inbound
          ≡ held_delta_for ds
              (reconciles ds (seed_hold started_up) (past ++ ((false, now) ∷ [])))
              now
              inbound)
        × (held_delta_for ds
              (reconciles ds (seed_hold started_up) (past ++ ((false, now) ∷ (true, back) ∷ [])))
              back
              inbound
            ≡ held_delta_for ds
                (reconciles ds (seed_hold started_up) (past ++ ((false, now) ∷ [])))
                now
                inbound)
  unfolding reconciles
  served_held started_up inbound past now back t o p q r =
      let h = reconciles ds (seed_hold started_up) past in
      let s =
        reconciles-Sound ds din dout (seed_hold started_up) 0 past
          (seed-Sound ds din dout started_up) o in
      let (d, e, down) = goes_down h now in
      let sd : Sound ds din dout d now =
        rw e at (reconcile-Sound ds din dout h false (last 0 past) now s p) in
      rw (reconciles-append ds (seed_hold started_up) past ((false, now) ∷ [])) (
        rw (reconciles-append ds (seed_hold started_up) past ((false, now) ∷ (true, back) ∷ []))
          (rw e (still ds din dout d inbound now back t sd down q r)))
