-- ===== src/Snmp/Walk/Step.antt =====
-- What one step of a walk finds: the theorems about `findNextOIDWithServed`.
use nl.Prelude.{
  ◌<◌, ◌≡◌, refl, sym, subst, Bool, Bool-cases, inl, inr, true, false, not, ◌&&◌, List, ◌++◌, ◌==◌,
  length, arith,
}
use nl.Prelude.Bytes.{Bytes}
use nl.Snmp.Oid.Order.{oid_le}
use nl.Snmp.Walk.{
  Entry, MibView, is_empty, sys_name_oid, sys_location_oid, precomputed, metrics_clear,
  if_cycler_clear, lldp_clear, candidate, metric_candidates, dynamic_candidates, candidates, chosen,
  find_next_oid_with_served, lldp_next_from_served,
}
use nl.Snmp.Walk.Candidates.{Covered, Covered-left, Covered-right, scalar-Covered}
use nl.Snmp.Walk.Served.{IsIndexed, Served, Scalar, Reaches}
use nl.Snmp.Walk.Successor.{
  chosen-Front, chosen-Reaches, precomputed-Front, candidates-Front, static_part,
}
use nl.Snmp.Walk.Found.{Found}

abbrev fast : MibView → Bytes → Bool
fast mib current =
    not (is_empty (precomputed mib current).0)
    && metrics_clear mib.sorted_metric_oids (precomputed mib current).0 current
    && if_cycler_clear mib.if_counters (precomputed mib current).0 current
    && lldp_clear (lldp_next_from_served mib.lldp_served current) (precomputed mib current).0

-- A step finds an OID, it is not behind `o`, and it is behind the current one.
abbrev pub StepsTo : MibView → Bytes → Bytes → Type 0
StepsTo mib current o =
    Reaches (find_next_oid_with_served mib current) o
    × (oid_le (find_next_oid_with_served mib current).0 current ≡ false)

-- The OID that a step finds, against all that the device serves.
pub record IsLeast (mib : MibView) (current found : Bytes) : Type 0 where
  pub served : is_empty found ≡ false → Found mib found × (oid_le found current ≡ false)
  pub least :
      (o : Bytes)
      → Served mib o
      → oid_le o current ≡ false
      → (is_empty found ≡ false) × (oid_le found o ≡ true)

all_four :
    (a b c d : Bool)
    → (not a && b && c && d) ≡ true
    → (a ≡ false) × (b ≡ true) × (c ≡ true) × (d ≡ true)
all_four a b c d h = ground arith

-- The fast path as a test, taken apart.
taken :
    (mib : MibView) (current : Bytes)
    → fast mib current ≡ true
    → (is_empty (precomputed mib current).0 ≡ false)
      × (metrics_clear mib.sorted_metric_oids (precomputed mib current).0 current ≡ true)
      × (if_cycler_clear mib.if_counters (precomputed mib current).0 current ≡ true)
      × (lldp_clear (lldp_next_from_served mib.lldp_served current) (precomputed mib current).0
          ≡ true)
taken mib current h =
    all_four (is_empty (precomputed mib current).0)
      (metrics_clear mib.sorted_metric_oids (precomputed mib current).0 current)
      (if_cycler_clear mib.if_counters (precomputed mib current).0 current)
      (lldp_clear (lldp_next_from_served mib.lldp_served current) (precomputed mib current).0) h

find_next-fast :
    (mib : MibView) (current : Bytes)
    → fast mib current ≡ true
    → (find_next_oid_with_served mib current).0 ≡ (precomputed mib current).0
unfolding find_next_oid_with_served
find_next-fast mib current h = rw h refl

find_next-slow :
    (mib : MibView) (current : Bytes)
    → 0 < length mib.sorted_oids
    → fast mib current ≡ false
    → find_next_oid_with_served mib current
      ≡ chosen mib (
          candidates mib current
            (precomputed mib current)
            (lldp_next_from_served mib.lldp_served current))
unfolding find_next_oid_with_served
find_next-slow mib current some_oid h =
    let e : (length mib.sorted_oids == 0) ≡ false = ground arith in rw h (rw e refl)

module _ (mib : MibView) (current : Bytes) (good : IsIndexed mib) where
  abbrev lldp_part : List Entry
  lldp_part =
      candidate (not (is_empty (lldp_next_from_served mib.lldp_served current).0))
        (lldp_next_from_served mib.lldp_served current)

  abbrev dynamic_part : List Entry
  dynamic_part = dynamic_candidates mib.if_counters current ++ lldp_part

  abbrev metric_part : List Entry
  metric_part = metric_candidates mib.metrics current mib.sorted_metric_oids ++ dynamic_part

  abbrev name_part : List Entry
  name_part = candidate (not (oid_le sys_name_oid current)) (sys_name_oid, mib.sys_name)

  abbrev location_part : List Entry
  location_part =
      candidate (not (oid_le sys_location_oid current)) (sys_location_oid, mib.sys_location)

  abbrev list : List Entry
  list =
      candidates mib current (precomputed mib current)
        (lldp_next_from_served mib.lldp_served current)

  scalars-Covered : (o : Bytes) → Scalar o → oid_le o current ≡ false → Covered o list
  unfolding candidates
  scalars-Covered o (inl e) =
      subst (λ q. oid_le q current ≡ false → Covered q list) (sym e)
        (λ k.
          Covered-right sys_name_oid (static_part mib current good)
            (name_part ++ (location_part ++ metric_part))
            (Covered-left sys_name_oid name_part (location_part ++ metric_part)
              (scalar-Covered current (sys_name_oid, mib.sys_name) k)))
  scalars-Covered o (inr e) =
      subst (λ q. oid_le q current ≡ false → Covered q list) (sym e)
        (λ k.
          Covered-right sys_location_oid (static_part mib current good)
            (name_part ++ (location_part ++ metric_part))
            (Covered-right sys_location_oid name_part (location_part ++ metric_part) (
              Covered-left sys_location_oid location_part metric_part
                (scalar-Covered current (sys_location_oid, mib.sys_location) k))))

  -- A step to `o`, by the path that it takes.
  steps :
      (o : Bytes)
      → (fast mib current ≡ true → oid_le (precomputed mib current).0 o ≡ true)
      → (fast mib current ≡ false → Covered o list)
      → StepsTo mib current o
  steps o on_fast on_slow = elim (Bool-cases (fast mib current)) [
    | inl f ↦
        let found = (taken mib current f).0 in
        rw (find_next-fast mib current f)
          ((found, on_fast f), (precomputed-Front mib current good found).1)
    | inr f ↦
        let front = candidates-Front mib current good in
        let reached = chosen-Reaches mib current o list front (on_slow f) in
        rw (find_next-slow mib current good.some_oid f)
          (reached, chosen-Front mib current list front reached.0)
  ]

  -- The same for sysName and sysLocation, unless the map of precomputed successors has one behind it.
  pub find_next-Scalar :
      (o : Bytes)
      → Scalar o
      → oid_le o current ≡ false
      → (is_empty (precomputed mib current).0 ≡ false → oid_le (precomputed mib current).0 o ≡ true)
      → StepsTo mib current o
  find_next-Scalar o s k near =
      steps o (λ f. near (taken mib current f).0) (λ f. scalars-Covered o s k)

  -- Whatever a step finds is behind the current OID.
  pub find_next_advances :
      is_empty (find_next_oid_with_served mib current).0 ≡ false
      → oid_le (find_next_oid_with_served mib current).0 current ≡ false
  find_next_advances h = elim (Bool-cases (fast mib current)) [
    | inl f ↦
        rw (find_next-fast mib current f)
          (precomputed-Front mib current good (taken mib current f).0).1
    | inr f ↦
        let e = find_next-slow mib current good.some_oid f in
        rw e (
          chosen-Front mib current list (candidates-Front mib current good)
            (subst (λ r. is_empty r.0 ≡ false) e h))
  ]
