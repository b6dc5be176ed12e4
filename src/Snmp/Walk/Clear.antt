-- ===== src/Snmp/Walk/Clear.antt =====
-- What the tests of the fast path of `findNextOIDWithServed` (go/nl6/snmp_handlers.go) say of the
-- metrics and of the counters of the interfaces.
use nl.Prelude.{
  ℕ, ◌-◌, ◌<◌, ◌≡◌, refl, subst, Bool, ◌⊎◌, inl, inr, true, false, not, ◌||◌, Option, some, List,
  [], ◌==◌, length, get_or, arith,
}
use nl.Prelude.Bytes.{Bytes}
use nl.Snmp.Oid.Order.{oid_le, oid_lt}
use nl.Snmp.Oid.Order.Total.{oid_le_trans, oid_lt-not_le}
use nl.Snmp.Walk.{IfCounterCycler, is_empty, metrics_clear, if_cycler_clear}
use nl.Snmp.Walk.Search.{Ascending}
use nl.Snmp.Walk.Served.{IsWalkable, Walkable}

split_or : (a b c : Bool) → (a || b || c) ≡ true → (a ≡ true) ⊎ ((b ≡ true) ⊎ (c ≡ true))
split_or true b c h = inl refl
split_or false true c h = inr (inl refl)
split_or false false c h = inr (inr h)

module _ (next_oid current : Bytes) where
  -- Where the test of the fast path holds, no metric lies in front of the precomputed OID.
  pub metrics_clear_le :
      (oids : List Bytes)
      → Ascending oids
      → metrics_clear oids next_oid current ≡ true
      → (i : ℕ) → i < length oids
      → oid_le (get_or oids i []) current ≡ false
      → oid_le next_oid (get_or oids i []) ≡ true
  unfolding metrics_clear
  metrics_clear_le oids sorted h i l k =
      let first = get_or oids 0 [] in
      let last = get_or oids (length oids - 1) [] in
      elim (split_or (length oids == 0) (oid_le next_oid first) (not (oid_lt current last)) h) [
        | inl e ↦ absurd (ground (arith, e, l))
        | inr (inl t) ↦
            oid_le_trans next_oid first (get_or oids i []) t (sorted 0 i (omega arith) l)
        | inr (inr f) ↦
            let e = oid_lt-not_le current last in
            let down : oid_le last current ≡ true = ground (arith, e, f) in
            let up = sorted i (length oids - 1) (omega arith) (omega arith) in
            absurd (cc (oid_le_trans (get_or oids i []) last current up down, k))
      ]

  pub if_cycler_clear_le :
      (o : Option IfCounterCycler) (ic : IfCounterCycler) (d : Bytes)
      → o ≡ some ic
      → Walkable o
      → ic.rows ≡ true
      → if_cycler_clear o next_oid current ≡ true
      → is_empty (ic.next_dynamic_oid d).0 ≡ false
      → oid_le (ic.next_dynamic_oid d).0 current ≡ false
      → oid_le next_oid (ic.next_dynamic_oid d).0 ≡ true
  unfolding if_cycler_clear
  if_cycler_clear_le o ic d m w r h v k =
      let walk : IsWalkable ic = subst Walkable m w in
      let test : (not ic.rows
            || oid_le next_oid ic.first_dyn_oid
            || not (oid_lt current ic.last_dyn_oid))
          ≡ true =
        subst (λ q. if_cycler_clear q next_oid current ≡ true) m h in
      elim (split_or (not ic.rows) (oid_le next_oid ic.first_dyn_oid)
        (not (oid_lt current ic.last_dyn_oid)) test) [
          | inl e ↦ absurd (ground (arith, e, r))
          | inr (inl t) ↦
              oid_le_trans next_oid ic.first_dyn_oid (ic.next_dynamic_oid d).0 t
                (walk.from_first d v)
          | inr (inr f) ↦
              let e = oid_lt-not_le current ic.last_dyn_oid in
              let down : oid_le ic.last_dyn_oid current ≡ true = ground (arith, e, f) in
              absurd (
                cc (
                  oid_le_trans (ic.next_dynamic_oid d).0 ic.last_dyn_oid current (walk.to_last d v)
                      down,
                  k,
                ))
        ]
