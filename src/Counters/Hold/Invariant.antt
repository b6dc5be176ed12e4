-- ===== src/Counters/Hold/Invariant.antt =====
-- The ledger entry of go/nl6/if_counter_hold.go after transitions in order.
use nl.Prelude.{
  ℕ, ◌^◌, ◌≤◌, ◌<◌, ◌≡◌, refl, Bool, true, false, List, [], ◌∷◌, ◌++◌, Option, none, some, ltb,
  Bool-cases, inl, inr, arith,
}
use nl.Counters.Hold.{CounterHold, Dials, reconcile_hold_at, seed_hold, reconciles}

-- A dial that counts upwards, in a uint64.
pub record Dial (f : ℕ → ℕ) : Type 0 where
  pub rises : (t u : ℕ) → t ≤ u → f t ≤ f u
  pub uint64 : (t : ℕ) → f t < 2 ^ 64

-- The instants of these transitions do not go back, and start from this one.
abbrev pub Ordered : ℕ → List (Bool × ℕ) → Type 0
Ordered t [] = Unit {0}
Ordered t ((up, now) ∷ rest) = (t ≤ now) × Ordered now rest

abbrev pub last : ℕ → List (Bool × ℕ) → ℕ
last t [] = t
last t ((up, now) ∷ rest) = last now rest

pub Ordered-weaken :
    (t now : ℕ) (rest : List (Bool × ℕ)) → t ≤ now → Ordered now rest → Ordered t rest
Ordered-weaken t now [] le o = tt
Ordered-weaken t now ((up, next) ∷ rest) le o = (let a = o.0 in omega arith, o.1)

pub reconciles-append :
    (ds : Dials) (h : Option CounterHold) (xs ys : List (Bool × ℕ))
    → reconciles ds h (xs ++ ys) ≡ reconciles ds (reconciles ds h xs) ys
unfolding reconciles
reconciles-append ds h [] ys = refl
reconciles-append ds h ((up, now) ∷ xs) ys =
    reconciles-append ds (reconcile_hold_at ds h up now) xs ys

module _ (ds : Dials) (din : Dial ds.dial_in) (dout : Dial ds.dial_out) where
  -- What is skipped was on the dial when the interface last came up, and times are in order.
  pub record Sound (h : CounterHold) (now : ℕ) : Type 0 where
    pub up_past : h.up_at ≤ now
    pub down_past : h.down ≡ true → (h.up_at ≤ h.down_at) × (h.down_at ≤ now)
    pub covered_in : h.skipped_in ≤ ds.dial_in h.up_at
    pub covered_out : h.skipped_out ≤ ds.dial_out h.up_at

  abbrev pub SoundAt : Option CounterHold → ℕ → Type 0
  SoundAt none now = Unit {0}
  SoundAt (some h) now = Sound h now

  pub reconcile-Sound :
      (h : Option CounterHold) (up : Bool) (before now : ℕ)
      → SoundAt h before
      → before ≤ now
      → SoundAt (reconcile_hold_at ds h up now) now
  unfolding reconcile_hold_at
  reconcile-Sound none true before now s le = tt
  reconcile-Sound none false before now s le = record {
    up_past = omega arith;
    down_past = λ e. (omega arith, omega arith);
    covered_in = omega arith;
    covered_out = omega arith;
  }
  reconcile-Sound (some h) true before now s le = elim (Bool-cases h.down) [
    | inl d ↦
        let (a, b) = s.down_past d in
        let keep : ltb now h.down_at ≡ false = ground arith in
        let i0 = din.rises h.up_at h.down_at a in
        let i1 = din.rises h.down_at now (omega arith) in
        let i2 = din.uint64 now in
        let o0 = dout.rises h.up_at h.down_at a in
        let o1 = dout.rises h.down_at now (omega arith) in
        let o2 = dout.uint64 now in
        let ci = s.covered_in in
        let co = s.covered_out in
        rw d (
          rw keep (record {
            up_past = omega arith;
            down_past = λ e. cc;
            covered_in = omega arith;
            covered_out = omega arith;
          }))
    | inr d ↦ rw d (
        let a = s.up_past in
        record {
          up_past = omega arith;
          down_past = λ e. cc;
          covered_in = s.covered_in;
          covered_out = s.covered_out;
        })
  ]
  reconcile-Sound (some h) false before now s le = elim (Bool-cases h.down) [
    | inl d ↦
        let (a, b) = s.down_past d in
        rw d (record {
          up_past = let c = s.up_past in omega arith;
          down_past = λ e. (a, omega arith);
          covered_in = s.covered_in;
          covered_out = s.covered_out;
        })
    | inr d ↦ rw d (
        let a = s.up_past in
        record {
          up_past = omega arith;
          down_past = λ e. (omega arith, omega arith);
          covered_in = s.covered_in;
          covered_out = s.covered_out;
        })
  ]

  pub seed-Sound : (up : Bool) → SoundAt (seed_hold up) 0
  unfolding seed_hold
  seed-Sound true = tt
  seed-Sound false = record {
    up_past = omega arith;
    down_past = λ e. (omega arith, omega arith);
    covered_in = omega arith;
    covered_out = omega arith;
  }

  pub reconciles-Sound :
      (h : Option CounterHold) (before : ℕ) (rest : List (Bool × ℕ))
      → SoundAt h before
      → Ordered before rest
      → SoundAt (reconciles ds h rest) (last before rest)
  unfolding reconciles
  reconciles-Sound h before [] s o = s
  reconciles-Sound h before ((up, now) ∷ rest) s o =
      reconciles-Sound (reconcile_hold_at ds h up now) now rest
        (reconcile-Sound h up before now s o.0) o.1
