-- ===== src/Counters/Hold/Across.antt =====
-- What a reader is served across one transition: `heldDeltaFor` and `reconcileHoldAt` of
-- go/nl6/if_counter_hold.go.
use nl.Prelude.{
  ℕ, ◌-◌, ◌≤◌, ◌≡◌, Bool, true, false, Option, none, some, ltb, if◌then◌else◌, Bool-cases, inl, inr,
  arith,
}
use nl.Counters.Hold.{CounterHold, Dials, clamped, held_delta_for, skip_more, reconcile_hold_at}
use nl.Counters.Hold.Invariant.{Dial, Sound, SoundAt}

module _ (ds : Dials) (din : Dial ds.dial_in) (dout : Dial ds.dial_out) where
  pub served_rises :
      (h : Option CounterHold) (inbound : Bool) (t u : ℕ)
      → t ≤ u
      → held_delta_for ds h t inbound ≤ held_delta_for ds h u inbound
  unfolding held_delta_for clamped
  served_rises none true t u le = din.rises t u le
  served_rises none false t u le = dout.rises t u le
  served_rises (some h) true t u le =
      ground (arith, din.rises (clamped h t) (clamped h u) (ground arith))
  served_rises (some h) false t u le =
      ground (arith, dout.rises (clamped h t) (clamped h u) (ground arith))

  -- One dial across a recovery: `k` is skipped while the interface is down from `d`, up to `now`.
  across_up :
      (f : ℕ → ℕ)
      → Dial f
      → (c d now v k : ℕ) → k ≤ f c
      → c ≤ d
      → d ≤ now
      → now ≤ v
      → k ≤ f d
      → (f c - k ≤ f v - skip_more k (f now) (f d)) × (skip_more k (f now) (f d) ≤ f v)
  across_up f dial c d now v k kc cd dn nv kd =
      let a = dial.rises c d cd in
      let b = dial.rises d now dn in
      let e = dial.rises now v nv in let g = dial.uint64 now in (omega arith, omega arith)

  stays_up :
      (h : CounterHold) (now : ℕ) → h.down ≡ false → reconcile_hold_at ds (some h) true now ≡ some h
  unfolding reconcile_hold_at
  stays_up h now d = ground (arith, d)

  stays_down :
      (h : CounterHold) (now : ℕ) → h.down ≡ true → reconcile_hold_at ds (some h) false now ≡ some h
  unfolding reconcile_hold_at
  stays_down h now d = ground (arith, d)

  -- A recovery and a loss, under the clamps.
  served_recovers :
      (h : CounterHold) (inbound : Bool) (before now t u : ℕ)
      → h.down ≡ true
      → Sound ds din dout h before
      → before ≤ now
      → held_delta_for ds (some h) t inbound
        ≤ held_delta_for ds (reconcile_hold_at ds (some h) true now) u inbound
  unfolding held_delta_for clamped reconcile_hold_at
  served_recovers h true before now t u d s le =
      let (a, b) = s.down_past d in
      let k = s.covered_in in
      let i1 = din.rises h.up_at h.down_at a in
      let i2 = din.rises h.up_at (clamped h t) (ground (arith, d)) in
      ground (
        arith,
        d,
        across_up ds.dial_in din (clamped h t) h.down_at now (if ltb u now then now else u)
            h.skipped_in (omega arith) (ground (arith, d)) (omega arith) (ground arith)
            (omega arith),
      )
  served_recovers h false before now t u d s le =
      let (a, b) = s.down_past d in
      let k = s.covered_out in
      let i1 = dout.rises h.up_at h.down_at a in
      let i2 = dout.rises h.up_at (clamped h t) (ground (arith, d)) in
      ground (
        arith,
        d,
        across_up ds.dial_out dout (clamped h t) h.down_at now (if ltb u now then now else u)
            h.skipped_out (omega arith) (ground (arith, d)) (omega arith) (ground arith)
            (omega arith),
      )

  served_lost :
      (h : CounterHold) (inbound : Bool) (before now t u : ℕ)
      → h.down ≡ false
      → Sound ds din dout h before
      → before ≤ now
      → t ≤ now
      → t ≤ u
      → held_delta_for ds (some h) t inbound
        ≤ held_delta_for ds (reconcile_hold_at ds (some h) false now) u inbound
  unfolding held_delta_for clamped reconcile_hold_at
  served_lost h true before now t u d s le tn tu =
      let v = s.up_past in
      ground (
        arith,
        d,
        din.rises (clamped h t) (clamped (record h { down = true; down_at = now }) u)
            (ground (arith, d)),
      )
  served_lost h false before now t u d s le tn tu =
      let v = s.up_past in
      ground (
        arith,
        d,
        dout.rises (clamped h t) (clamped (record h { down = true; down_at = now }) u)
            (ground (arith, d)),
      )

  served_first :
      (inbound : Bool) (now t u : ℕ)
      → t ≤ now
      → t ≤ u
      → held_delta_for ds none t inbound
        ≤ held_delta_for ds (reconcile_hold_at ds none false now) u inbound
  unfolding held_delta_for clamped reconcile_hold_at
  served_first true now t u tn tu =
      ground (arith, din.rises t (if ltb now u then now else u) (ground arith))
  served_first false now t u tn tu =
      ground (arith, dout.rises t (if ltb now u then now else u) (ground arith))

  -- A reader that has read at `t` reads no less at `u`, over one reconciliation at `now`.
  pub served_across :
      (h : Option CounterHold) (up inbound : Bool) (before now t u : ℕ)
      → SoundAt ds din dout h before
      → before ≤ now
      → t ≤ now
      → t ≤ u
      → held_delta_for ds h t inbound ≤ held_delta_for ds (reconcile_hold_at ds h up now) u inbound
  served_across none true inbound before now t u s le tn tu =
      unfold reconcile_hold_at in served_rises none inbound t u tu
  served_across none false inbound before now t u s le tn tu = served_first inbound now t u tn tu
  served_across (some h) true inbound before now t u s le tn tu = elim (Bool-cases h.down) [
    | inl d ↦ served_recovers h inbound before now t u d s le
    | inr d ↦ rw (stays_up h now d) (served_rises (some h) inbound t u tu)
  ]
  served_across (some h) false inbound before now t u s le tn tu = elim (Bool-cases h.down) [
    | inl d ↦ rw (stays_down h now d) (served_rises (some h) inbound t u tu)
    | inr d ↦ served_lost h inbound before now t u d s le tn tu
  ]

  -- A ledger entry of a down interface: every read from `now` on is the same, and so is the first
  -- after it comes up at `back`.
  pub still :
      (h : CounterHold) (inbound : Bool) (now back t : ℕ)
      → Sound ds din dout h now
      → h.down ≡ true
      → now ≤ back
      → now ≤ t
      → (held_delta_for ds (some h) t inbound ≡ held_delta_for ds (some h) now inbound)
        × (held_delta_for ds (reconcile_hold_at ds (some h) true back) back inbound
            ≡ held_delta_for ds (some h) now inbound)
  unfolding held_delta_for clamped reconcile_hold_at
  still h true now back t s d le lt =
      let (a, b) = s.down_past d in
      let k = s.covered_in in
      let i = din.rises h.up_at h.down_at a in
      let j = din.rises h.down_at back (omega arith) in let g = din.uint64 back in ground (arith, d)
  still h false now back t s d le lt =
      let (a, b) = s.down_past d in
      let k = s.covered_out in
      let i = dout.rises h.up_at h.down_at a in
      let j = dout.rises h.down_at back (omega arith) in
      let g = dout.uint64 back in ground (arith, d)
