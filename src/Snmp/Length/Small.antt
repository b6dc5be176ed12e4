-- ===== src/Snmp/Length/Small.antt =====
-- `encodeLength` on lengths below 65536: the octets it writes.
use mathlib.Core.WellFounded.{Acc}
use nl.Prelude.{
  ℕ, zero, suc, ◌/◌, ◌%◌, ◌≤◌, ◌<◌, ◌≡◌, refl, ◌∙◌, [], ◌∷◌, if◌then◌else◌, ltb, length, Bool-cases,
  inl, inr, arith,
}
use nl.Prelude.Bytes.{Bytes}
use nl.Prelude.Order.{lt_wf}
use nl.Snmp.Length.{prepend_bytes, be_bytes, encode_length}
use nl.Snmp.Length.RoundTrip.{prepend_zero, prepend_step}

prepend_none : (n : ℕ) (w : Acc ◌<◌ n) (out : Bytes) → n ≡ 0 → prepend_bytes n w out ≡ out
prepend_none zero w out h = prepend_zero w out
prepend_none (suc n) w out h = absurd (omega arith)

prepend_one :
    (n : ℕ) (w : Acc ◌<◌ n) (out : Bytes) → 0 < n → n < 256 → prepend_bytes n w out ≡ n ∷ out
prepend_one n w out lo hi =
    let (v, e) = prepend_step n w out lo in
    let q : n % 256 ≡ n = omega arith in
    e ∙ prepend_none (n / 256) v (n % 256 ∷ out) (omega arith) ∙ rw q refl

pub be_bytes-one : (n : ℕ) → 0 < n → n < 256 → be_bytes n ≡ n ∷ []
unfolding be_bytes
be_bytes-one n lo hi = prepend_one n (lt_wf.apply n) [] lo hi

pub be_bytes-two : (n : ℕ) → 256 ≤ n → n < 65536 → be_bytes n ≡ n / 256 ∷ n % 256 ∷ []
unfolding be_bytes
be_bytes-two n lo hi =
    let (v, e) = prepend_step n (lt_wf.apply n) [] (omega arith) in
    e ∙ prepend_one (n / 256) v (n % 256 ∷ []) (omega arith) (omega arith)

pub length-encode_length :
    (n : ℕ)
    → n < 65536
    → length (encode_length n) ≡ (if ltb n 128 then 1 else if ltb n 256 then 2 else 3)
unfolding encode_length
length-encode_length n h = elim (Bool-cases (ltb n 128)) [
  | inl short ↦ rw short refl
  | inr long ↦ rw long (elim (Bool-cases (ltb n 256)) [
    | inl one ↦ rw one (rw (be_bytes-one n (ground arith) (ground arith)) refl)
    | inr two ↦ rw two (rw (be_bytes-two n (ground arith) h) refl)
  ])
]
