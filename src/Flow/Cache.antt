-- ===== src/Flow/Cache.antt =====
-- What the operations of the flow cache keep and give.
use nl.Prelude.{
  ℕ, suc, ◌+◌, ◌-◌, ◌≤◌, ◌≡◌, refl, ap, ◌∙◌, Bool, false, not, Option, List, [], ◌∷◌, leb,
  Bool-cases, inl, inr, length, min, arith,
}
use nl.Prelude.Bytes.{Bytes}
use nl.Flow.{
  FlowKey, FlowRecord, FlowEntry, FlowCache, new_flow_cache, record_key, key_eq, has_key,
  accumulate, update, add, expire, trim_loop, trim_to,
}
use nl.Flow.Expiry.{due, keep_if, expire-Expired}

-- No key is there twice.
abbrev pub DistinctKeys : List (FlowKey × FlowEntry) → Type 0
DistinctKeys [] = Unit {0}
DistinctKeys ((k, e) ∷ flows) = (has_key k flows ≡ false) × DistinctKeys flows

-- A map of at most so many flows.
pub record Sound (fc : FlowCache) : Type 0 where
  pub distinct : DistinctKeys fc.flows
  pub bounded : length fc.flows ≤ fc.max_flows

update-keys :
    (k k' : FlowKey) (f : FlowEntry → FlowEntry) (flows : List (FlowKey × FlowEntry))
    → has_key k' (update k f flows) ≡ has_key k' flows
unfolding has_key update
update-keys k k' f [] = refl
update-keys k k' f ((j, e) ∷ flows) = elim (Bool-cases (key_eq k j)) [
  | inl h ↦ rw h refl
  | inr h ↦ rw h (rw (update-keys k k' f flows) refl)
]

update-length :
    (k : FlowKey) (f : FlowEntry → FlowEntry) (flows : List (FlowKey × FlowEntry))
    → length (update k f flows) ≡ length flows
unfolding update
update-length k f [] = refl
update-length k f ((j, e) ∷ flows) = elim (Bool-cases (key_eq k j)) [
  | inl h ↦ rw h refl
  | inr h ↦ rw h (ap suc (update-length k f flows))
]

update-DistinctKeys :
    (k : FlowKey) (f : FlowEntry → FlowEntry) (flows : List (FlowKey × FlowEntry))
    → DistinctKeys flows
    → DistinctKeys (update k f flows)
unfolding update
update-DistinctKeys k f [] d = tt
update-DistinctKeys k f ((j, e) ∷ flows) d = elim (Bool-cases (key_eq k j)) [
  | inl h ↦ rw h d
  | inr h ↦ rw h (update-keys k j f flows ∙ d.0, update-DistinctKeys k f flows d.1)
]

add-Sound :
    (to4 : Bytes → Option Bytes) (fc : FlowCache) (r : FlowRecord) (now : ℕ)
    → Sound fc
    → Sound (add to4 fc r now)
unfolding add
add-Sound to4 fc r now s = elim (Bool-cases (has_key (record_key to4 r) fc.flows)) [
  | inl h ↦ rw h (record {
    distinct = update-DistinctKeys (record_key to4 r) (accumulate r now) fc.flows (s.distinct);
    bounded = rw (update-length (record_key to4 r) (accumulate r now) fc.flows) (s.bounded);
  })
  | inr h ↦ rw h (elim (Bool-cases (leb fc.max_flows (length fc.flows))) [
    | inl full ↦ rw full s
    | inr room ↦ rw room (record { distinct = (h, s.distinct); bounded = ground arith })
  ])
]

keep_if-has_key :
    (k : FlowKey) (test : FlowKey × FlowEntry → Bool) (flows : List (FlowKey × FlowEntry))
    → has_key k flows ≡ false
    → has_key k (keep_if test flows) ≡ false
unfolding has_key keep_if
keep_if-has_key k test [] h = refl
keep_if-has_key k test ((j, e) ∷ flows) h =
    let rest = keep_if-has_key k test flows (ground (arith, h)) in
    elim (Bool-cases (test (j, e))) [ inl t ↦ rw t (ground (arith, h, rest)) | inr t ↦ rw t rest ]

keep_if-DistinctKeys :
    (test : FlowKey × FlowEntry → Bool) (flows : List (FlowKey × FlowEntry))
    → DistinctKeys flows
    → DistinctKeys (keep_if test flows)
unfolding keep_if
keep_if-DistinctKeys test [] d = tt
keep_if-DistinctKeys test ((j, e) ∷ flows) d = elim (Bool-cases (test (j, e))) [
  | inl t ↦ rw t (keep_if-has_key j test flows d.0, keep_if-DistinctKeys test flows d.1)
  | inr t ↦ rw t (keep_if-DistinctKeys test flows d.1)
]

keep_if-length :
    (test : FlowKey × FlowEntry → Bool) (flows : List (FlowKey × FlowEntry))
    → length (keep_if test flows) ≤ length flows
unfolding keep_if
keep_if-length test [] = omega arith
keep_if-length test (f ∷ flows) =
    let rest = keep_if-length test flows in
    elim (Bool-cases (test f)) [ inl t ↦ rw t (omega arith) | inr t ↦ rw t (omega arith) ]

-- What the loop of `TrimTo` drops, and that it drops no more.
trim_loop-split :
    (target : ℕ) (flows : List (FlowKey × FlowEntry))
    → (DistinctKeys flows → DistinctKeys (trim_loop target flows).0)
      × (length (trim_loop target flows).0 ≡ min (length flows) target)
      × ((trim_loop target flows).1 ≡ length flows - target)
unfolding trim_loop
trim_loop-split target [] = (λ d. d, omega arith, omega arith)
trim_loop-split target (f ∷ flows) =
    let (d, l, n) = trim_loop-split target flows in
    elim (Bool-cases (leb (length (f ∷ flows)) target)) [
      | inl fits ↦ rw fits (λ a. a, ground arith, ground arith)
      | inr over ↦ rw over (λ a. d a.1, ground (arith, l), ground (arith, n))
    ]

-- A call of a method of the cache.
pub data Call : Type 0 where
  adds : FlowRecord → ℕ → Call
  expires : ℕ → Call
  trims : ℕ → Call

module _ (to4 : Bytes → Option Bytes)
    (sort : (FlowRecord → FlowRecord → Bool) → List FlowRecord → List FlowRecord) where
  abbrev pub call : Call → FlowCache → FlowCache
  call (adds r now) fc = add to4 fc r now
  call (expires now) fc = (expire sort to4 fc now).0
  call (trims target) fc = (trim_to fc target).0

  pub calls : List Call → FlowCache → FlowCache
  calls [] fc = fc
  calls (c ∷ cs) fc = calls cs (call c fc)

  call-Sound : (c : Call) (fc : FlowCache) → Sound fc → Sound (call c fc)
  unfolding trim_to
  call-Sound (adds r now) fc s = add-Sound to4 fc r now s
  call-Sound (expires now) fc s =
      let x = expire-Expired sort to4 fc now in
      let l = keep_if-length (λ f. not (due fc.inactive_timeout now f)) fc.flows in
      record {
        distinct = rw (x.kept_are) (keep_if-DistinctKeys _ fc.flows (s.distinct));
        bounded = rw (x.kept_are) (rw (x.limit_same) (let b = s.bounded in omega arith));
      }
  call-Sound (trims target) fc s =
      let (d, l, n) = trim_loop-split target fc.flows in
      record { distinct = d (s.distinct); bounded = let b = s.bounded in omega arith }

  calls-Sound : (cs : List Call) (fc : FlowCache) → Sound fc → Sound (calls cs fc)
  unfolding calls
  calls-Sound [] fc s = s
  calls-Sound (c ∷ cs) fc s = calls-Sound cs (call c fc) (call-Sound c fc s)

  -- After any calls on a new cache, whatever their records and instants, no key is there twice and
  -- the cache has at most its maximum of flows.
  pub new_flow_cache-Sound :
      (cs : List Call) (active inactive max_flows : ℕ)
      → Sound (calls cs (new_flow_cache active inactive max_flows))
  unfolding new_flow_cache
  new_flow_cache-Sound cs active inactive max_flows =
      calls-Sound cs (new_flow_cache active inactive max_flows)
        (record { distinct = tt; bounded = omega arith })

-- `TrimTo` leaves the smaller of the population and the target, and reports how many it dropped.
pub trim_to-Trimmed :
    (fc : FlowCache) (target : ℕ)
    → (length (trim_to fc target).0.flows ≡ min (length fc.flows) target)
      × ((trim_to fc target).1 + length (trim_to fc target).0.flows ≡ length fc.flows)
unfolding trim_to
trim_to-Trimmed fc target = let (d, l, n) = trim_loop-split target fc.flows in (l, omega arith)
