-- ===== src/Snmp/Integer/RoundTrip.antt =====
-- An integer that is encoded is parsed back.
use mathlib.Core.WellFounded.{Acc}
use native.Mathlib.Decide.{dec_lt}
use native.Mathlib.Nat.{pow-suc}
use nl.Prelude.{
  ℕ, zero, suc, ◌+◌, ◌-◌, ◌*◌, ◌/◌, ◌%◌, ◌^◌, ◌≤◌, ◌<◌, ◌≡◌, refl, ◌∙◌, ap, some, [], ◌∷◌, ◌++◌,
  length, drop, Bool-cases, false, inl, inr, leb, ◌==◌, arith,
}
use nl.Prelude.Bytes.{Bytes, AllBytes, be_value, high_bit}
use nl.Prelude.Int.{ℤ, pos, negsuc, ◌≤ℤ◌, signed64}
use nl.Prelude.Go.{ret}
use nl.Prelude.Order.{lt_wf}
use nl.Snmp.Length.{prepend_bytes, be_bytes}
use nl.Snmp.Length.RoundTrip.{be_bytes_lem, prepend_step, prepend_zero, quotient_lt}
use nl.Snmp.Integer.{
  keep_positive, keep_negative, negative_bytes, integer_bytes, parse_ber_int, sign_extend8,
}
use nl.Snmp.Integer.Parse.{NoPad, parse_ber_int-be_value}

-- The first octet is not zero.
abbrev Leads : Bytes → Type 0
Leads [] = ⊥
Leads (b ∷ bs) = 0 < b

prepend_bytes-Leads :
    (k n : ℕ) (w : Acc ◌<◌ n) (out : Bytes) → n < 256 ^ k → 0 < n → Leads (prepend_bytes n w out)
prepend_bytes-Leads zero n w out h p = absurd (omega arith)
prepend_bytes-Leads (suc k) n w out h p =
    let (v, e) = prepend_step n w out p in
    rw e (go (n / 256) (omega (arith, quotient_lt k n h)) refl v (prepend_bytes-Leads k))
  where
    go :
        (m : ℕ)
        → m < 256 ^ k
        → n / 256 ≡ m
        → (v : Acc ◌<◌ m)
        → ((n : ℕ) (w : Acc ◌<◌ n) (out : Bytes)
            → n < 256 ^ k
            → 0 < n
            → Leads (prepend_bytes n w out))
        → Leads (prepend_bytes m v (n % 256 ∷ out))
    go zero l q v ih = rw (prepend_zero v (n % 256 ∷ out)) (omega arith)
    go (suc m) l q v ih = ih (suc m) v (n % 256 ∷ out) l (omega arith)

be_bytes-Leads : (n : ℕ) → n < 256 ^ 8 → 0 < n → Leads (be_bytes n)
unfolding be_bytes
be_bytes-Leads n h p = prepend_bytes-Leads 8 n (lt_wf.apply n) [] h p

be_value-ge : (acc : ℕ) (ds : Bytes) → acc * 256 ^ length ds ≤ be_value acc ds
unfolding be_value
be_value-ge acc [] = omega arith
be_value-ge acc (d ∷ ds) =
    rw (pow-suc 256 (length ds)) (omega (arith, be_value-ge (acc * 256 + d) ds))

-- The number that octets spell, as `parse_ber_int` accumulates it.
abbrev spelled : Bytes → ℤ
spelled [] = pos 0
spelled (x ∷ xs) = signed64 (be_value (sign_extend8 x) xs % 2 ^ 64)

-- What the octets of a number have to be for `parse_ber_int` to give `v`.
record Spells (ds : Bytes) (v : ℤ) : Type 0 where
  nonempty : 0 < length ds
  all : AllBytes ds
  minimal : NoPad ds
  short : length ds ≤ 8
  value : spelled ds ≡ v

parse_ber_int-Spells :
    (bs rest ds : Bytes) (at : ℕ) (v : ℤ)
    → Spells ds v
    → drop at bs ≡ ds ++ rest
    → parse_ber_int bs at (length ds) ≡ ret (some v)
parse_ber_int-Spells bs rest [] at v s h = absurd (omega (arith, s.nonempty))
parse_ber_int-Spells bs rest (x ∷ xs) at v s h =
    parse_ber_int-be_value bs rest xs at x h s.all s.minimal (omega (arith, s.short))
    ∙ ap (λ z. ret (some z)) s.value

-- Eight octets below 2 ^ 63 start below 0x80.
eight_octets :
    (b : ℕ) (ds : Bytes) → be_value b ds < 2 ^ 63 → length ds ≤ 7 → 128 ≤ b → length ds ≤ 6
eight_octets b ds lt short top = elim (dec_lt 6 (length ds)) [
  | yes p ↦
      let q : length ds ≡ 7 = omega arith in absurd (omega (arith, rw q at (be_value-ge b ds)))
  | no p ↦ omega arith
]

keep_positive-Spells :
    (n : ℕ) (ds : Bytes)
    → be_value 0 ds ≡ n
    → n < 2 ^ 63
    → length ds ≤ 8
    → AllBytes ds
    → Leads ds
    → Spells (keep_positive ds) (pos n)
unfolding keep_positive be_value
keep_positive-Spells n [] e lt short all lead = absurd lead
keep_positive-Spells n (b ∷ ds) e lt short all lead = elim (Bool-cases (high_bit b)) [
  | inl top ↦ rw top (record {
    nonempty = omega arith;
    all = (omega arith, all);
    minimal = λ z. ground arith;
    short = omega (arith, eight_octets b ds (omega (arith, big)) (omega arith) (ground arith));
    value = ground (arith, big);
  })
  | inr low ↦ rw low (record {
    nonempty = omega arith;
    all = all;
    minimal = no_pad ds;
    short = short;
    value = ground (arith, big);
  })
]
  where
    big : be_value b ds ≡ n
    big = let q : 0 * 256 + b ≡ b = omega arith in rw q at e

    no_pad : (xs : Bytes) → NoPad (b ∷ xs)
    no_pad [] = tt
    no_pad (x ∷ xs) = λ z. absurd (omega arith)

negative_bytes-Spells :
    (n : ℕ) → n < 2 ^ 32 → Spells (keep_negative (negative_bytes n (2 ^ 64 - n - 1))) (negsuc n)
unfolding negative_bytes keep_negative be_value
negative_bytes-Spells n h = elim (Bool-cases (leb n 127)) [
  | inl a ↦ rw a (ground arith)
  | inr a ↦ rw a (elim (Bool-cases (leb n 32767)) [
    | inl c ↦ rw c (ground arith)
    | inr c ↦ rw c (elim (Bool-cases (leb n 8388607)) [
      | inl d ↦ rw d (ground arith)
      | inr d ↦ rw d (ground arith)
    ])
  ])
]

integer_bytes-Spells :
    (v : ℤ) → negsuc (2 ^ 32 - 1) ≤ℤ v → v ≤ℤ pos (2 ^ 63 - 1) → Spells (integer_bytes v) v
unfolding integer_bytes
integer_bytes-Spells (pos zero) lo hi = record {
  nonempty = omega arith;
  all = (omega arith, tt);
  minimal = tt;
  short = omega arith;
  value = unfold be_value in refl;
}
integer_bytes-Spells (pos (suc n)) lo hi =
    let (val, len, all) = be_bytes_lem 8 (suc n) (omega arith) in
    let q : (suc n == 0) ≡ false = ground arith in
    rw q (
      keep_positive-Spells (suc n) (be_bytes (suc n)) val (omega arith) len all
        (be_bytes-Leads (suc n) (omega arith) (omega arith)))
integer_bytes-Spells (negsuc n) lo hi = negative_bytes-Spells n (omega arith)

-- The content octets that `encodeInteger` writes for `v`, anywhere in a datagram, are read back as
-- `v` by `parse_ber_int`. It holds from -2^32 up to the largest `int`.
pub parse_ber_int-integer_bytes :
    (bs rest : Bytes) (at : ℕ) (v : ℤ)
    → negsuc (2 ^ 32 - 1) ≤ℤ v
    → v ≤ℤ pos (2 ^ 63 - 1)
    → drop at bs ≡ integer_bytes v ++ rest
    → parse_ber_int bs at (length (integer_bytes v)) ≡ ret (some v)
parse_ber_int-integer_bytes bs rest at v lo hi h =
    parse_ber_int-Spells bs rest (integer_bytes v) at v (integer_bytes-Spells v lo hi) h

-- Below -2^32 the octets of `encodeInteger` are those of another number: `v` and `v + 2^32` in
-- [-2^31, -2^23) get the same encoding.
pub integer_bytes_alias :
    (n : ℕ)
    → 8388607 < n
    → n < 2 ^ 31
    → integer_bytes (negsuc (n + 2 ^ 32)) ≡ integer_bytes (negsuc n)
unfolding integer_bytes negative_bytes keep_negative
integer_bytes_alias n h k = ground arith
