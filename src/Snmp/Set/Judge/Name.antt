-- ===== src/Snmp/Set/Judge/Name.antt =====
-- The names of a SetRequest: the writable column, and the instance behind it.
use nl.Prelude.{
  ℕ, ◌+◌, ◌^◌, ◌<◌, ◌≡◌, ◌≢◌, ◌⊎◌, refl, sym, ap, ◌∙◌, true, false, not, ◌||◌, Option, none, some,
  [], ◌∷◌, ◌++◌, append_assoc, ◌==◌, Bool-cases, inl, inr, length, length-append, drop, drop-append,
  contains, arith,
}
use nl.Prelude.Bytes.{
  Bytes, bytes_eq, bytes_eq_sound, bytes_eq_refl, has_prefix, has_prefix_sound, has_prefix-append,
}
use nl.Prelude.Decimal.{all_digits}
use nl.Prelude.Int.{ℤ, pos, negsuc}
use nl.Prelude.Text.{dot, trim_dot, atoi, itoa, atoi-itoa, atoi_bound, itoa-Spelled}
use nl.Snmp.Integer.{asn1_integer}
use nl.Snmp.Set.{
  WritableObject, if_admin_status_column, admin_in_range, writable_columns, find_row, writable_for,
  positive_index, instance_index,
}

abbrev pub prefix : Bytes
prefix = if_admin_status_column ++ (dot ∷ [])

abbrev pub row : WritableObject
row = record { column = if_admin_status_column; tag = asn1_integer; in_range = admin_in_range }

no_dot : (ds : Bytes) → all_digits ds ≡ true → contains ds dot ≡ false
no_dot [] h = refl
no_dot (d ∷ ds) h = ground (arith, h, no_dot ds (ground (arith, h)))

some_digit : (ds : Bytes) → 0 < length ds → bytes_eq ds [] ≡ false
unfolding bytes_eq
some_digit [] h = absurd (omega arith)
some_digit (d ∷ ds) h = refl

pub instance_index-itoa : (n : ℕ) → 0 < n → n < 2 ^ 63 → instance_index (itoa n) ≡ some n
unfolding instance_index
instance_index-itoa n lo hi =
    let s = itoa-Spelled n (omega arith) in
    let positive : (n == 0) ≡ false = ground arith in
    rw (some_digit (itoa n) s.some_digit) (
      rw (no_dot (itoa n) s.digits)
        (rw (atoi-itoa n hi) (rw positive (rw (bytes_eq_refl (itoa n)) refl))))

positive_index_sound :
    (s : Bytes) (o : Option ℤ) (n : ℕ)
    → positive_index s o ≡ some n
    → (o ≡ some (pos n)) × (itoa n ≡ s) × (0 < n)
positive_index_sound s none n h = ground arith
positive_index_sound s (some (negsuc m)) n h = ground arith
positive_index_sound s (some (pos m)) n h =
    elim (Bool-cases (m == 0 || not (bytes_eq (itoa m) s))) [
      | inl e ↦ absurd (cc (rw e at h))
      | inr e ↦
          let k = rw e at h in
          let q : m ≡ n = cc k in
          (
            ap (λ x. some (pos x)) q,
            ap itoa (sym q) ∙ bytes_eq_sound (itoa m) s (ground (arith, e)),
            ground (arith, q, e),
          )
    ]

pub instance_index_sound :
    (s : Bytes) (n : ℕ) → instance_index s ≡ some n → (s ≡ itoa n) × (0 < n) × (n < 2 ^ 63)
unfolding instance_index
instance_index_sound s n h = elim (Bool-cases (bytes_eq s [] || contains s dot)) [
  | inl e ↦ absurd (cc (rw e at h))
  | inr e ↦
      let (a, b, c) = positive_index_sound s (atoi s) n (rw e at h) in (sym b, c, atoi_bound s n a)
]

prefix_long : length prefix ≡ length if_admin_status_column + 1
prefix_long = length-append if_admin_status_column (dot ∷ [])

longer : (s : Bytes) → length (prefix ++ s) ≢ length if_admin_status_column
longer s e = let q = length-append prefix s in omega (arith, prefix_long, q, e)

-- The row that is found, and the instance behind it, empty for the bare column.
abbrev pub Row : Bytes → WritableObject × Bytes → Type 0
Row n (w, suffix) = (w ≡ row) × ((suffix ≡ []) ⊎ (n ≡ prefix ++ suffix))

pub writable_for_sound :
    (name : Bytes) (r : WritableObject × Bytes) → writable_for name ≡ some r → Row (trim_dot name) r
unfolding writable_for find_row writable_columns
writable_for_sound name (w, suffix) h =
    let n = trim_dot name in
    elim (Bool-cases (bytes_eq n if_admin_status_column)) [
      | inl e ↦ let k = rw e at h in (cc k, inl (cc k))
      | inr e ↦
          let k = rw e at h in
          elim (Bool-cases (has_prefix n prefix)) [
            | inl f ↦
                let l = rw f at k in
                (
                  cc l,
                  inr (
                      has_prefix_sound n prefix f
                      ∙ ap (λ t. prefix ++ t) (ap (λ k. drop k n) prefix_long ∙ cc l)),
                )
            | inr f ↦ absurd (cc (rw f at k))
          ]
    ]

bytes_ne : (a b : Bytes) → length a ≢ length b → bytes_eq a b ≡ false
bytes_ne a b h = elim (Bool-cases (bytes_eq a b)) [
  | inl e ↦ absurd (h (ap length (bytes_eq_sound a b e)))
  | inr e ↦ e
]

pub writable_for-instance :
    (name : Bytes) (n : ℕ)
    → trim_dot name ≡ if_admin_status_column ++ (dot ∷ itoa n)
    → writable_for name ≡ some (row, itoa n)
unfolding writable_for find_row writable_columns
writable_for-instance name n h =
    let q : if_admin_status_column ++ (dot ∷ itoa n) ≡ prefix ++ itoa n =
      sym (append_assoc if_admin_status_column (dot ∷ []) (itoa n)) in
    rw (h ∙ q) (
      rw (bytes_ne (prefix ++ itoa n) if_admin_status_column (longer (itoa n))) (
        rw (has_prefix-append prefix (itoa n)) (
          ap (λ t. some (row, t))
            (drop-append prefix (itoa n) (length if_admin_status_column + 1) (sym prefix_long)))))
