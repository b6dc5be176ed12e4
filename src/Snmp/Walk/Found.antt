-- ===== src/Snmp/Walk/Found.antt =====
-- Each candidate of a walk is something that the device serves.
use nl.Prelude.{
  ℕ, suc, ◌<◌, ◌≡◌, refl, Bool, Bool-cases, Option-cases, ◌⊎◌, inl, inr, true, false, not, Option,
  none, some, List, [], ◌∷◌, ◌++◌, ltb, if◌then◌else◌, length, get_or, arith,
}
use nl.Prelude.Bytes.{Bytes}
use nl.Snmp.Oid.Order.{oid_le, oid_lt}
use nl.Snmp.Walk.{
  Entry, IfCounterCycler, MibView, is_empty, sys_name_oid, sys_location_oid, search_after, upto_at,
  served_upto_at, lldp_next_from_served, precomputed, candidate, indexed, static_candidate,
  metric_candidate, metric_candidates, dynamic_candidates, better, least_candidate, candidates,
  chosen,
}
use nl.Snmp.Walk.Served.{IsIndexed, Served, static, metric, dynamic, lldp, Scalar}

-- What a device serves, the scalars among it.
abbrev pub Found : MibView → Bytes → Type 0
Found mib o = Served mib o ⊎ Scalar o

abbrev pub All : (Bytes → Type 0) → List Entry → Type 0
All P [] = Unit {0}
All P (e ∷ es) = P e.0 × All P es

All-append : (P : Bytes → Type 0) (xs ys : List Entry) → All P xs → All P ys → All P (xs ++ ys)
All-append P [] ys h k = k
All-append P (e ∷ xs) ys h k = (h.0, All-append P xs ys h.1 k)

candidate-All :
    (P : Bytes → Type 0) (test : Bool) (e : Entry)
    → (test ≡ true → P e.0)
    → All P (candidate test e)
candidate-All P true e h = (h refl, tt)
candidate-All P false e h = tt

least_candidate-All :
    (P : Bytes → Type 0) (best : Entry) (others : List Entry)
    → P best.0
    → All P others
    → P (least_candidate best others).0
unfolding least_candidate better
least_candidate-All P best [] h k = h
least_candidate-All P best (c ∷ others) h k = least_candidate-All P (better best c) others one k.1
  where
    one : P (better best c).0
    one = elim (Bool-cases (oid_lt c.0 best.0)) [ inl t ↦ rw t (k.0) | inr f ↦ rw f h ]

metric_candidate-All :
    (P : Bytes → Type 0) (value : Bytes → Bytes) (current : Bytes) (oids : List Bytes)
    → ((i : ℕ)
        → i < length oids
        → is_empty (value (get_or oids i [])) ≡ false
        → P (get_or oids i []))
    → All P (metric_candidate value current oids)
unfolding metric_candidate
metric_candidate-All P value current [] h = tt
metric_candidate-All P value current (m ∷ oids) h =
    let rest = metric_candidate-All P value current oids (λ i l v. h (suc i) (omega arith) v) in
    elim (Bool-cases (oid_le m current)) [
      | inl t ↦ rw t rest
      | inr f ↦ elim (Bool-cases (is_empty (value m))) [
        | inl e ↦ rw f (rw e rest)
        | inr e ↦ rw f (rw e (h 0 (omega arith) e, tt))
      ]
    ]

module _ (mib : MibView) (current : Bytes) (good : IsIndexed mib) where
  pub precomputed-Served :
      is_empty (precomputed mib current).0 ≡ false → Served mib (precomputed mib current).0
  unfolding precomputed
  precomputed-Served h = elim (Option-cases (mib.oid_next_map current)) [
    | inl e ↦ cc (h, absent e)
    | inr (n, e) ↦ elim (Option-cases (mib.oid_index n)) [
      | inl f ↦ cc (h, silent n e f)
      | inr (v, f) ↦ let (i, l, q) = good.next_indexed current n e in rw e (rw f (static i l q))
    ]
  ]
    where
      absent : mib.oid_next_map current ≡ none → is_empty (precomputed mib current).0 ≡ true
      absent e = rw e refl

      silent :
          (n : Bytes)
          → mib.oid_next_map current ≡ some n
          → mib.oid_index n ≡ none
          → is_empty (precomputed mib current).0 ≡ true
      silent n e f = rw e (rw f refl)

  indexed-Found :
      (oid : Bytes) (r : Option Bytes) → Served mib oid → All (Found mib) (indexed oid r)
  indexed-Found oid none h = tt
  indexed-Found oid (some v) h = (inl h, tt)

  static-Found : (left : ℕ) → All (Found mib) (static_candidate mib left)
  unfolding static_candidate
  static-Found left = elim (Bool-cases (ltb left (length mib.sorted_oids))) [
    | inr f ↦ rw f tt
    | inl t ↦
        let inside : left < length mib.sorted_oids = ground arith in
        let a = good.no_name left inside in
        let b = good.no_location left inside in
        rw t (
          rw a (
            rw b (
              indexed-Found (get_or mib.sorted_oids left [])
                (mib.oid_index (get_or mib.sorted_oids left [])) (static left inside refl))))
  ]

  metric-Found :
      (m : Option (Bytes → Bytes))
      → mib.metrics ≡ m
      → All (Found mib) (metric_candidates m current mib.sorted_metric_oids)
  metric-Found none e = tt
  metric-Found (some value) e =
      metric_candidate-All (Found mib) value current mib.sorted_metric_oids
        (λ i l v. inl (metric value i e l refl v))

  dynamic-Found :
      (o : Option IfCounterCycler)
      → mib.if_counters ≡ o
      → All (Found mib) (dynamic_candidates o current)
  dynamic-Found none e = tt
  dynamic-Found (some ic) e = elim (Bool-cases ic.rows) [
    | inr f ↦ rw f tt
    | inl t ↦ rw t (
        candidate-All (Found mib) (not (is_empty (ic.next_dynamic_oid current).0))
          (ic.next_dynamic_oid current)
          (λ n. inl (dynamic ic current e t refl (ground (arith, n)))))
  ]

  lldp-Served :
      is_empty (lldp_next_from_served mib.lldp_served current).0 ≡ false
      → Served mib (lldp_next_from_served mib.lldp_served current).0
  unfolding lldp_next_from_served
  lldp-Served h = elim (Bool-cases (ltb lo (length mib.lldp_served))) [
    | inl t ↦ rw t (lldp lo (ground (arith, t)) refl)
    | inr f ↦ absurd (cc (h, unnamed f))
  ]
    where
      lo : ℕ
      lo =
          search_after (length mib.lldp_served) (served_upto_at mib.lldp_served current) 0
            (length mib.lldp_served)

      unnamed :
          ltb
              (search_after
                (length mib.lldp_served)
                (served_upto_at mib.lldp_served current)
                0
                (length mib.lldp_served))
              (length mib.lldp_served)
            ≡ false
          → is_empty (lldp_next_from_served mib.lldp_served current).0 ≡ true
      unnamed f = rw f refl

  first_part : All (Found mib) (
      if is_empty (precomputed mib current).0
      then static_candidate mib (
          search_after
            (length mib.sorted_oids)
            (upto_at mib.sorted_oids current)
            0
            (length mib.sorted_oids))
      else precomputed mib current ∷ [])
  first_part = elim (Bool-cases (is_empty (precomputed mib current).0)) [
    | inl t ↦ rw t (static-Found _)
    | inr f ↦ rw f (inl (precomputed-Served f), tt)
  ]

  pub candidates-Found : All (Found mib) (
      candidates mib current
        (precomputed mib current)
        (lldp_next_from_served mib.lldp_served current))
  unfolding candidates
  candidates-Found =
      let P = Found mib in
      All-append P _ _ first_part (
        All-append P _ _
          (candidate-All P (not (oid_le sys_name_oid current)) (sys_name_oid, mib.sys_name)
            (λ t. inr (inl refl)))
          (All-append P _ _
            (candidate-All P (not (oid_le sys_location_oid current))
              (sys_location_oid, mib.sys_location) (λ t. inr (inr refl)))
            (All-append P _ _ (metric-Found mib.metrics refl) (
              All-append P _ _ (dynamic-Found mib.if_counters refl) (
                candidate-All P (not (is_empty (lldp_next_from_served mib.lldp_served current).0))
                  (lldp_next_from_served mib.lldp_served current)
                  (λ t. inl (lldp-Served (ground (arith, t)))))))))

  pub chosen-Found :
      (list : List Entry)
      → All (Found mib) list
      → is_empty (chosen mib list).0 ≡ false
      → Found mib (chosen mib list).0
  chosen-Found [] h k = absurd (cc k)
  chosen-Found (c ∷ others) h k = least_candidate-All (Found mib) c others h.0 h.1
