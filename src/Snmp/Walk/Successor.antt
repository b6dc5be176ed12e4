-- ===== src/Snmp/Walk/Successor.antt =====
-- A step of a walk finds the least OID behind the current one of all that a device serves.
use nl.Prelude.{
  ℕ, ◌<◌, ◌≡◌, refl, subst, Bool, Bool-cases, Option-cases, inl, inr, true, false, not, Option,
  none, some, List, [], ◌∷◌, ltb, if◌then◌else◌, length, get_or, arith,
}
use nl.Prelude.Bytes.{Bytes}
use nl.Snmp.Oid.Order.{oid_le}
use nl.Snmp.Walk.{
  Entry, no_entry, IfCounterCycler, MibView, is_empty, sys_name_oid, sys_location_oid, search_after,
  upto_at, lldp_next_from_served, precomputed, candidate, indexed, static_candidate,
  metric_candidates, dynamic_candidates, candidates, chosen,
}
use nl.Snmp.Walk.Search.{Splits, search-Ascending}
use nl.Snmp.Walk.Candidates.{
  Front, AllFront, Covered, AllFront-append, least_candidate-Front, least_candidate-Covered,
  scalar-Front, metric_candidate-Front, metric_candidate-Covered, lldp_next-Front, lldp_next_le,
}
use nl.Snmp.Walk.Served.{IsWalkable, Walkable, IsIndexed, Reaches}

pub chosen-Front :
    (mib : MibView) (current : Bytes) (list : List Entry)
    → AllFront current list
    → is_empty (chosen mib list).0 ≡ false
    → oid_le (chosen mib list).0 current ≡ false
chosen-Front mib current [] h k = cc k
chosen-Front mib current (c ∷ others) h k = (least_candidate-Front current c others h.0 h.1).1

pub chosen-Reaches :
    (mib : MibView) (current o : Bytes) (list : List Entry)
    → AllFront current list
    → Covered o list
    → Reaches (chosen mib list) o
chosen-Reaches mib current o [] h k = absurd k
chosen-Reaches mib current o (c ∷ others) h k =
    ((least_candidate-Front current c others h.0 h.1).0, least_candidate-Covered o c others k)

candidate-Front :
    (current : Bytes) (test : Bool) (e : Entry)
    → (test ≡ true → Front current e)
    → AllFront current (candidate test e)
candidate-Front current true e h = (h refl, tt)
candidate-Front current false e h = tt

dynamic-Front :
    (o : Option IfCounterCycler) (current : Bytes)
    → Walkable o
    → AllFront current (dynamic_candidates o current)
dynamic-Front none current w = tt
dynamic-Front (some ic) current w = elim (Bool-cases ic.rows) [
  | inl t ↦ rw t (
      candidate-Front current (not (is_empty (ic.next_dynamic_oid current).0))
        (ic.next_dynamic_oid current)
        (λ e.
          let n : is_empty (ic.next_dynamic_oid current).0 ≡ false = ground (arith, e) in
          (n, w.behind current n)))
  | inr f ↦ rw f tt
]

metric-Front :
    (metrics : Option (Bytes → Bytes)) (current : Bytes) (oids : List Bytes)
    → ((i : ℕ) → i < length oids → is_empty (get_or oids i []) ≡ false)
    → AllFront current (metric_candidates metrics current oids)
metric-Front none current oids h = tt
metric-Front (some value) current oids h = metric_candidate-Front current value oids h

indexed-Front :
    (current oid : Bytes) (r : Option Bytes)
    → Front current (oid, [])
    → AllFront current (indexed oid r)
indexed-Front current oid none h = tt
indexed-Front current oid (some v) h = (h, tt)

module _ (mib : MibView) (current : Bytes) (good : IsIndexed mib) where
  abbrev pub left : ℕ
  left =
      search_after (length mib.sorted_oids) (upto_at mib.sorted_oids current) 0
        (length mib.sorted_oids)

  split : Splits (upto_at mib.sorted_oids current) (length mib.sorted_oids) left
  split = search-Ascending mib.sorted_oids current good.sorted

  static-Front : AllFront current (static_candidate mib left)
  unfolding static_candidate
  static-Front = elim (Bool-cases (ltb left (length mib.sorted_oids))) [
    | inr f ↦ rw f tt
    | inl t ↦
        let inside : left < length mib.sorted_oids = ground arith in
        let a = good.no_name left inside in
        let b = good.no_location left inside in
        rw t (
          rw a (
            rw b (
              indexed-Front current (get_or mib.sorted_oids left [])
                (mib.oid_index (get_or mib.sorted_oids left []))
                (good.named left inside, split.above left (omega arith) inside))))
  ]

  static-Covered :
      (i : ℕ)
      → i < length mib.sorted_oids
      → oid_le (get_or mib.sorted_oids i []) current ≡ false
      → Covered (get_or mib.sorted_oids i []) (static_candidate mib left)
  unfolding static_candidate
  static-Covered i h k = elim (Bool-cases (ltb i left)) [
    | inl t ↦ absurd (cc (split.below i (ground arith), k))
    | inr f ↦
        let inside : left < length mib.sorted_oids = ground arith in
        let t : ltb left (length mib.sorted_oids) ≡ true = ground arith in
        let a = good.no_name left inside in
        let b = good.no_location left inside in
        let (v, e) = good.responds left inside in
        rw t (rw a (rw b (rw e (inl (good.sorted left i (ground arith) h)))))
  ]

  -- The successor by the map.
  pub precomputed-Front :
      is_empty (precomputed mib current).0 ≡ false → Front current (precomputed mib current)
  unfolding precomputed
  precomputed-Front h = elim (Option-cases (mib.oid_next_map current)) [
    | inl e ↦ cc (h, absent e)
    | inr (n, e) ↦ elim (Option-cases (mib.oid_index n)) [
      | inl f ↦ cc (h, silent n e f)
      | inr (v, f) ↦ (h, rw e (rw f (good.next_behind current n e)))
    ]
  ]
    where
      absent : mib.oid_next_map current ≡ none → is_empty (precomputed mib current).0 ≡ true
      absent e = rw e refl

      silent :
          (n : Bytes)
          → mib.oid_next_map current ≡ some n
          → mib.oid_index n ≡ none
          → is_empty (precomputed mib current).0 ≡ true
      silent n e f = rw e (rw f refl)

  pub precomputed_le :
      is_empty (precomputed mib current).0 ≡ false
      → (i : ℕ) → i < length mib.sorted_oids
      → oid_le (get_or mib.sorted_oids i []) current ≡ false
      → oid_le (precomputed mib current).0 (get_or mib.sorted_oids i []) ≡ true
  unfolding precomputed
  precomputed_le h i l k = elim (Option-cases (mib.oid_next_map current)) [
    | inl e ↦ cc (h, absent e)
    | inr (n, e) ↦ elim (Option-cases (mib.oid_index n)) [
      | inl f ↦ cc (h, silent n e f)
      | inr (v, f) ↦ rw e (rw f (good.next_least current n e i l k))
    ]
  ]
    where
      absent : mib.oid_next_map current ≡ none → is_empty (precomputed mib current).0 ≡ true
      absent e = rw e refl

      silent :
          (n : Bytes)
          → mib.oid_next_map current ≡ some n
          → mib.oid_index n ≡ none
          → is_empty (precomputed mib current).0 ≡ true
      silent n e f = rw e (rw f refl)

  abbrev pub lldp_entry : Entry
  lldp_entry = lldp_next_from_served mib.lldp_served current

  abbrev pub static_part : List Entry
  static_part =
      if is_empty (precomputed mib current).0
      then static_candidate mib left
      else precomputed mib current ∷ []

  static_part-Front : AllFront current static_part
  static_part-Front = elim (Bool-cases (is_empty (precomputed mib current).0)) [
    | inl t ↦ rw t static-Front
    | inr f ↦ rw f (precomputed-Front f, tt)
  ]

  pub static_part-Covered :
      (i : ℕ)
      → i < length mib.sorted_oids
      → oid_le (get_or mib.sorted_oids i []) current ≡ false
      → Covered (get_or mib.sorted_oids i []) static_part
  static_part-Covered i h k = elim (Bool-cases (is_empty (precomputed mib current).0)) [
    | inl t ↦ rw t (static-Covered i h k)
    | inr f ↦ rw f (inl (precomputed_le f i h k))
  ]

  lldp-Front : AllFront current (candidate (not (is_empty lldp_entry.0)) lldp_entry)
  lldp-Front =
      candidate-Front current (not (is_empty lldp_entry.0)) lldp_entry
        (λ t. lldp_next-Front current mib.lldp_served good.lldp_sorted (ground (arith, t)))

  pub candidates-Front :
      AllFront current (candidates mib current (precomputed mib current) lldp_entry)
  unfolding candidates
  candidates-Front = AllFront-append current static_part _ static_part-Front (
      AllFront-append current
        (candidate (not (oid_le sys_name_oid current)) (sys_name_oid, mib.sys_name)) _
        (scalar-Front current (sys_name_oid, mib.sys_name) refl)
        (AllFront-append current
          (candidate (not (oid_le sys_location_oid current)) (sys_location_oid, mib.sys_location)) _
          (scalar-Front current (sys_location_oid, mib.sys_location) refl)
          (AllFront-append current (metric_candidates mib.metrics current mib.sorted_metric_oids) _
            (metric-Front mib.metrics current mib.sorted_metric_oids good.metrics_named)
            (AllFront-append current (dynamic_candidates mib.if_counters current) _
              (dynamic-Front mib.if_counters current good.counters) lldp-Front))))

  pub metric-Covered :
      (metrics : Option (Bytes → Bytes)) (value : Bytes → Bytes) (i : ℕ)
      → metrics ≡ some value
      → i < length mib.sorted_metric_oids
      → is_empty (value (get_or mib.sorted_metric_oids i [])) ≡ false
      → oid_le (get_or mib.sorted_metric_oids i []) current ≡ false
      → Covered
          (get_or mib.sorted_metric_oids i [])
          (metric_candidates metrics current mib.sorted_metric_oids)
  metric-Covered metrics value i m h v k =
      rw m
        (metric_candidate-Covered current value mib.sorted_metric_oids good.metrics_sorted i h v k)

  pub dynamic-Covered :
      (o : Option IfCounterCycler) (ic : IfCounterCycler) (d : Bytes)
      → o ≡ some ic
      → Walkable o
      → ic.rows ≡ true
      → is_empty (ic.next_dynamic_oid d).0 ≡ false
      → oid_le (ic.next_dynamic_oid d).0 current ≡ false
      → Covered (ic.next_dynamic_oid d).0 (dynamic_candidates o current)
  dynamic-Covered o ic d m w r v k =
      let walk : IsWalkable ic = subst Walkable m w in
      let (n, l) = walk.complete current d v k in rw m (rw r (rw n (inl l)))

  pub lldp-Covered :
      (i : ℕ)
      → i < length mib.lldp_served
      → oid_le (get_or mib.lldp_served i no_entry).0 current ≡ false
      → Covered
          (get_or mib.lldp_served i no_entry).0
          (candidate (not (is_empty lldp_entry.0)) lldp_entry)
  lldp-Covered i h k =
      let (n, l) =
        lldp_next_le current mib.lldp_served good.lldp_sorted i h (good.lldp_named i h)
          good.lldp_named k in
      rw n (inl l)
