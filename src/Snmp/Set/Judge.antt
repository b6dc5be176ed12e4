-- ===== src/Snmp/Set/Judge.antt =====
-- Which bindings of a SetRequest are accepted.
mod Name
use nl.Prelude.{
  ℕ, ◌+◌, ◌^◌, ◌≤◌, ◌<◌, ◌≡◌, ◌≢◌, ◌↔◌, ◌⊎◌, refl, sym, ap, ◌∙◌, true, false, not, ◌&&◌, ◌||◌,
  Option, none, some, [], ◌∷◌, ◌++◌, append_assoc, leb, ◌==◌, Bool-cases, inl, inr, ==_iff, length,
  length-append, drop, drop-append, contains, arith,
}
use nl.Prelude.Bytes.{
  Bytes, bytes_eq, bytes_eq_sound, bytes_eq_refl, has_prefix, has_prefix_sound, has_prefix-append,
}
use nl.Prelude.Decimal.{all_digits}
use nl.Prelude.Int.{ℤ, pos, negsuc}
use nl.Prelude.Go.{Go, ret, panic, stuck, ◌>>=◌, Returns}
use nl.Prelude.Text.{dot, trim_dot, atoi, itoa, atoi-itoa, atoi_bound, itoa-Spelled}
use nl.Snmp.Integer.{asn1_integer, parse_ber_int}
use nl.Snmp.Integer.Parse.{parse_ber_int-Returns}
use nl.Snmp.Varbinds.{VarBind}
use nl.Snmp.Set.{
  WritableObject, if_admin_status_column, admin_in_range, writable_columns, SetAction, find_row,
  writable_for, positive_index, instance_index, IfCounters, owns_if_index, Judgement, refused,
  accepted, judge_instance, judge_value, judge_row, judge,
}
use nl.Snmp.Set.Judge.Name.{
  prefix, row, instance_index-itoa, instance_index_sound, Row, writable_for_sound,
  writable_for-instance,
}

-- `b` asks for the admin-status `v` on the instance `n` of ifAdminStatus, which the device has.
pub record Grants (dev : Option IfCounters) (b : VarBind) (n v : ℕ) : Type 0 where
  pub name_is : trim_dot b.name ≡ if_admin_status_column ++ (dot ∷ itoa n)
  pub tag_is : b.tag ≡ asn1_integer
  pub content_is : parse_ber_int b.content 0 (length b.content) ≡ ret (some (pos v))
  pub value_low : 1 ≤ v
  pub value_high : v ≤ 3
  pub index_low : 0 < n
  pub index_high : n < 2 ^ 63
  pub owned : owns_if_index dev n ≡ true

abbrev pub action : ℕ → ℕ → SetAction
action n v = record { column = if_admin_status_column; if_index = n; value = pos v }

judge-Grants :
    (dev : Option IfCounters) (b : VarBind) (n v : ℕ)
    → Grants dev b n v
    → judge dev b ≡ ret (accepted (action n v))
unfolding judge
judge-Grants dev b n v g =
    let tag : (b.tag == asn1_integer) ≡ true = ground (arith, g.tag_is) in
    let ranged : (leb 1 v && leb v 3) ≡ true = ground (arith, g.value_low, g.value_high) in
    rw (writable_for-instance b.name n (g.name_is)) (
      rw tag (
        rw (g.content_is) (
          rw ranged (rw (instance_index-itoa n (g.index_low) (g.index_high)) (rw (g.owned) refl)))))

abbrev accepted_index : Judgement → ℕ
accepted_index (refused status) = 0
accepted_index (accepted a) = a.if_index

abbrev accepted_value : Judgement → ℤ
accepted_value (refused status) = pos 0
accepted_value (accepted a) = a.value

judge_instance_sound :
    (dev : Option IfCounters) (z : ℤ) (suffix : Bytes) (o : Option ℕ) (n v : ℕ)
    → judge_instance dev row z o ≡ accepted (action n v)
    → (o ≡ some n) × (z ≡ pos v) × (owns_if_index dev n ≡ true)
judge_instance_sound dev z suffix none n v h = absurd (cc h)
judge_instance_sound dev z suffix (some m) n v h = elim (Bool-cases (owns_if_index dev m)) [
  | inl e ↦
      let k = rw e at h in
      let q : m ≡ n = ap accepted_index k in (ap some q, ap accepted_value k, rw (← q) e)
  | inr e ↦ absurd (cc (rw e at h))
]

judge_value_sound :
    (dev : Option IfCounters) (suffix : Bytes) (o : Option ℤ) (n v : ℕ)
    → judge_value dev row suffix o ≡ accepted (action n v)
    → (o ≡ some (pos v))
      × (admin_in_range (pos v) ≡ true)
      × (instance_index suffix ≡ some n)
      × (owns_if_index dev n ≡ true)
judge_value_sound dev suffix none n v h = absurd (cc h)
judge_value_sound dev suffix (some z) n v h = elim (Bool-cases (admin_in_range z)) [
  | inl e ↦
      let (i, q, o) = judge_instance_sound dev z suffix (instance_index suffix) n v (rw e at h) in
      (ap some q, ap admin_in_range (sym q) ∙ e, i, o)
  | inr e ↦ absurd (cc (rw e at h))
]

empty_refused : (s : Bytes) (n : ℕ) → s ≡ [] → instance_index s ≢ some n
unfolding instance_index bytes_eq
empty_refused s n e h = let k = rw e at h in absurd (cc k)

-- The last test of the row.
granted :
    (dev : Option IfCounters) (b : VarBind) (suffix : Bytes) (n v : ℕ) (m : Go (Option ℤ))
    → (suffix ≡ []) ⊎ (trim_dot b.name ≡ prefix ++ suffix)
    → b.tag ≡ asn1_integer
    → parse_ber_int b.content 0 (length b.content) ≡ m
    → (m >>= λ z. ret (judge_value dev row suffix z)) ≡ ret (accepted (action n v))
    → Grants dev b n v
granted dev b suffix n v panic named tag e h = absurd (cc h)
granted dev b suffix n v stuck named tag e h = absurd (cc h)
granted dev b suffix n v (ret o) named tag e h =
    let k : judge_value dev row suffix o ≡ accepted (action n v) = cc h in
    let (q, ranged, index, owned) = judge_value_sound dev suffix o n v k in
    let (is, lo, hi) = instance_index_sound suffix n index in
    record {
      name_is = elim named [
        | inl bare ↦ absurd (empty_refused suffix n bare index)
        | inr under ↦
            under
            ∙ ap (λ t. prefix ++ t) is
            ∙ append_assoc if_admin_status_column (dot ∷ []) (itoa n)
      ];
      tag_is = tag;
      content_is = e ∙ ap ret q;
      value_low = ground (arith, ranged);
      value_high = ground (arith, ranged);
      index_low = lo;
      index_high = hi;
      owned = owned;
    }

judge_row_sound :
    (dev : Option IfCounters) (b : VarBind) (n v : ℕ) (suffix : Bytes)
    → (suffix ≡ []) ⊎ (trim_dot b.name ≡ prefix ++ suffix)
    → judge_row dev b (some (row, suffix)) ≡ ret (accepted (action n v))
    → Grants dev b n v
judge_row_sound dev b n v suffix named h = elim (Bool-cases (b.tag == asn1_integer)) [
  | inl e ↦ granted dev b suffix n v _ named ((==_iff _ _).0 e) refl (rw e at h)
  | inr e ↦ absurd (cc (rw e at h))
]

judged_sound :
    (dev : Option IfCounters) (b : VarBind) (n v : ℕ) (o : Option (WritableObject × Bytes))
    → writable_for b.name ≡ o
    → judge_row dev b o ≡ ret (accepted (action n v))
    → Grants dev b n v
judged_sound dev b n v none e h = absurd (cc h)
judged_sound dev b n v (some (w, suffix)) e h =
    let (q, named) = writable_for_sound b.name (w, suffix) e in
    judge_row_sound dev b n v suffix named (rw q at h)

-- A binding is accepted, as the assignment of `v` to the admin-status of interface `n`, exactly if
-- its name is ifAdminStatus with the instance `n` in decimal digits, without a leading zero and
-- up to one leading dot, `n` is positive and fits an int, its tag is INTEGER, its content reads as
-- `v` from 1 to 3, and `n` is one of the device's interfaces.
pub judge_iff :
    (dev : Option IfCounters) (b : VarBind) (n v : ℕ)
    → (judge dev b ≡ ret (accepted (action n v))) ↔ Grants dev b n v
unfolding judge
judge_iff dev b n v = (judged_sound dev b n v (writable_for b.name) refl, judge-Grants dev b n v)

-- What the tests on a binding come to: an error-status, or the assignment that it is granted.
abbrev pub Ends : Option IfCounters → VarBind → Judgement → Type 0
Ends dev b (refused status) = status ≢ 0
Ends dev b (accepted a) = (n : ℕ) × (v : ℕ) × (a ≡ action n v) × Grants dev b n v

judge_instance-Ends :
    (dev : Option IfCounters) (b : VarBind) (v : ℕ) (o : Option ℕ)
    → ((n : ℕ) → judge_instance dev row (pos v) o ≡ accepted (action n v) → Grants dev b n v)
    → Ends dev b (judge_instance dev row (pos v) o)
judge_instance-Ends dev b v none h = omega arith
judge_instance-Ends dev b v (some n) h = elim (Bool-cases (owns_if_index dev n)) [
  | inl e ↦ rw e (n, v, refl, h n (rw e refl))
  | inr e ↦ rw e (omega arith)
]

judge_value-Ends :
    (dev : Option IfCounters) (b : VarBind) (suffix : Bytes) (o : Option ℤ)
    → ((n v : ℕ) → judge_value dev row suffix o ≡ accepted (action n v) → Grants dev b n v)
    → Ends dev b (judge_value dev row suffix o)
judge_value-Ends dev b suffix none h = omega arith
judge_value-Ends dev b suffix (some (negsuc v)) h = omega arith
judge_value-Ends dev b suffix (some (pos v)) h = elim (Bool-cases (admin_in_range (pos v))) [
  | inl e ↦ rw e (judge_instance-Ends dev b v (instance_index suffix) (λ n k. h n v (rw e k)))
  | inr e ↦ rw e (omega arith)
]

judge_content-Ends :
    (dev : Option IfCounters) (b : VarBind) (suffix : Bytes) (m : Go (Option ℤ))
    → (suffix ≡ []) ⊎ (trim_dot b.name ≡ prefix ++ suffix)
    → b.tag ≡ asn1_integer
    → parse_ber_int b.content 0 (length b.content) ≡ m
    → Returns m (λ o. length b.content ≡ 0 → o ≡ none)
    → Returns (m >>= λ z. ret (judge_value dev row suffix z)) (Ends dev b)
judge_content-Ends dev b suffix panic named tag e h = absurd h
judge_content-Ends dev b suffix stuck named tag e h = absurd h
judge_content-Ends dev b suffix (ret o) named tag e h =
    judge_value-Ends dev b suffix o
      (λ n v k. granted dev b suffix n v (ret o) named tag e (ap ret k))

judge_row-Returns :
    (dev : Option IfCounters) (b : VarBind) (o : Option (WritableObject × Bytes))
    → writable_for b.name ≡ o
    → Returns (judge_row dev b o) (Ends dev b)
judge_row-Returns dev b none e = omega arith
judge_row-Returns dev b (some (w, suffix)) e =
    let (q, named) = writable_for_sound b.name (w, suffix) e in
    rw q (elim (Bool-cases (b.tag == asn1_integer)) [
      | inl t ↦ rw t (
          judge_content-Ends dev b suffix (parse_ber_int b.content 0 (length b.content)) named
            ((==_iff _ _).0 t) refl (parse_ber_int-Returns b.content 0 (length b.content)))
      | inr t ↦ rw t (omega arith)
    ])

-- The tests on a binding return, with an error-status that is not noError or with an assignment
-- that is granted.
pub judge-Returns : (dev : Option IfCounters) (b : VarBind) → Returns (judge dev b) (Ends dev b)
unfolding judge
judge-Returns dev b = judge_row-Returns dev b (writable_for b.name) refl
