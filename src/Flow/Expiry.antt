-- ===== src/Flow/Expiry.antt =====
-- What `Expire` keeps, returns and counts.
use nl.Prelude.{
  ℕ, suc, ◌+◌, ◌%◌, ◌^◌, ◌≡◌, refl, ap, Bool, true, false, not, ◌||◌, Option, List, [], ◌∷◌, map,
  if◌then◌else◌, Bool-cases, inl, inr, length, arith,
}
use nl.Prelude.Bytes.{Bytes}
use nl.Flow.{
  FlowKey, FlowRecord, FlowEntry, FlowCache, by_active, by_inactive, expire_loop, expire,
  flow_record_less,
}

-- Whether a flow is due at `now`.
abbrev pub due : ℕ → ℕ → FlowKey × FlowEntry → Bool
due timeout now f = by_active now f.1 || by_inactive timeout now f.1

unfoldable pub keep_if {ℓ} : {A : Type ℓ} → (A → Bool) → List A → List A
keep_if test [] = []
keep_if test (x ∷ xs) = let rest = keep_if test xs in if test x then x ∷ rest else rest

-- What the loop comes to.
pub record Parted (timeout now : ℕ) (flows : List (FlowKey × FlowEntry))
    (r : List (FlowKey × FlowEntry) × List FlowRecord × ℕ × ℕ) : Type 0 where
  pub kept_are : r.0 ≡ keep_if (λ f. not (due timeout now f)) flows
  pub expired_are : r.1 ≡ map (λ f. f.1.flow) (keep_if (due timeout now) flows)
  pub active_are : r.2 ≡ length (keep_if (λ f. by_active now f.1) flows)
  pub all_counted : r.2 + r.3 ≡ length r.1

module _ (timeout now : ℕ) (k : FlowKey) (e : FlowEntry) (flows : List (FlowKey × FlowEntry))
    (r : List (FlowKey × FlowEntry) × List FlowRecord × ℕ × ℕ) where
  active-Parted :
      by_active now e ≡ true
      → Parted timeout now flows r
      → Parted timeout now ((k, e) ∷ flows) (r.0, e.flow ∷ r.1, r.2 + 1, r.3)
  unfolding keep_if
  active-Parted a p = record {
    kept_are = rw a (p.kept_are);
    expired_are = rw a (ap (λ t. e.flow ∷ t) (p.expired_are));
    active_are = rw a (let q = p.active_are in omega arith);
    all_counted = let q = p.all_counted in omega arith;
  }

  inactive-Parted :
      by_active now e ≡ false
      → by_inactive timeout now e ≡ true
      → Parted timeout now flows r
      → Parted timeout now ((k, e) ∷ flows) (r.0, e.flow ∷ r.1, r.2, r.3 + 1)
  unfolding keep_if
  inactive-Parted a i p = record {
    kept_are = rw a (rw i (p.kept_are));
    expired_are = rw a (rw i (ap (λ t. e.flow ∷ t) (p.expired_are)));
    active_are = rw a (p.active_are);
    all_counted = let q = p.all_counted in omega arith;
  }

  kept-Parted :
      by_active now e ≡ false
      → by_inactive timeout now e ≡ false
      → Parted timeout now flows r
      → Parted timeout now ((k, e) ∷ flows) ((k, e) ∷ r.0, r.1, r.2, r.3)
  unfolding keep_if
  kept-Parted a i p = record {
    kept_are = rw a (rw i (ap (λ t. (k, e) ∷ t) (p.kept_are)));
    expired_are = rw a (rw i (p.expired_are));
    active_are = rw a (p.active_are);
    all_counted = p.all_counted;
  }

expire_loop-Parted :
    (timeout now : ℕ) (flows : List (FlowKey × FlowEntry))
    → Parted timeout now flows (expire_loop timeout now flows)
unfolding expire_loop keep_if
expire_loop-Parted timeout now [] = record {
  kept_are = refl;
  expired_are = refl;
  active_are = refl;
  all_counted = refl;
}
expire_loop-Parted timeout now ((k, e) ∷ flows) =
    let ih = expire_loop-Parted timeout now flows in
    elim (Bool-cases (by_active now e)) [
      | inl a ↦ rw a (active-Parted timeout now k e flows _ a ih)
      | inr a ↦ rw a (elim (Bool-cases (by_inactive timeout now e)) [
        | inl i ↦ rw i (inactive-Parted timeout now k e flows _ a i ih)
        | inr i ↦ rw i (kept-Parted timeout now k e flows _ a i ih)
      ])
    ]

-- What `Expire` makes of a cache.
pub record Expired (sort : (FlowRecord → FlowRecord → Bool) → List FlowRecord → List FlowRecord)
    (to4 : Bytes → Option Bytes) (fc : FlowCache) (now : ℕ) (r : FlowCache × List FlowRecord)
    : Type 0 where
  pub kept_are : r.0.flows ≡ keep_if (λ f. not (due fc.inactive_timeout now f)) fc.flows
  pub records_are :
      r.1
      ≡ sort
          (flow_record_less to4)
          (map (λ f. f.1.flow) (keep_if (due fc.inactive_timeout now) fc.flows))
  pub active_are :
      r.0.expired_active
      ≡ (fc.expired_active + length (keep_if (λ f. by_active now f.1) fc.flows)) % 2 ^ 64
  pub all_counted :
      (r.0.expired_active + r.0.expired_inactive) % 2 ^ 64
      ≡ (fc.expired_active
          + fc.expired_inactive
          + length (keep_if (due fc.inactive_timeout now) fc.flows))
        % 2 ^ 64
  pub limit_same : r.0.max_flows ≡ fc.max_flows

length-mapped :
    (flows : List (FlowKey × FlowEntry)) → length (map (λ f. f.1.flow) flows) ≡ length flows
length-mapped [] = refl
length-mapped (f ∷ flows) = ap suc (length-mapped flows)

-- `Expire` keeps exactly the flows that neither timeout has reached, in their order, and returns
-- the records of all others as `sort` orders them by flow_record_less; those that the active timeout has reached are
-- counted as active, and with the inactive count every returned record is counted once.
pub expire-Expired :
    (sort : (FlowRecord → FlowRecord → Bool) → List FlowRecord → List FlowRecord)
    (to4 : Bytes → Option Bytes) (fc : FlowCache) (now : ℕ)
    → Expired sort to4 fc now (expire sort to4 fc now)
unfolding expire
expire-Expired sort to4 fc now =
    let p = expire_loop-Parted fc.inactive_timeout now fc.flows in
    let n = length-mapped (keep_if (due fc.inactive_timeout now) fc.flows) in
    let all = p.all_counted in
    record {
      kept_are = p.kept_are;
      records_are = ap (sort (flow_record_less to4)) (p.expired_are);
      active_are = rw (p.active_are) refl;
      all_counted = let q = ap length (p.expired_are) in omega arith;
      limit_same = refl;
    }
