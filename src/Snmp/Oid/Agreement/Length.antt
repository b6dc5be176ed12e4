-- ===== src/Snmp/Oid/Agreement/Length.antt =====
-- The length that `appendOID` writes over the octet that it kept.
use nl.Prelude.{◌/◌, ◌%◌, ◌<◌, ◌≡◌, refl, ◌++◌, ltb, Bool-cases, inl, inr, length, arith}
use nl.Prelude.Bytes.{Bytes}
use nl.Snmp.Length.{encode_length}
use nl.Snmp.Length.Small.{be_bytes-one, be_bytes-two}
use nl.Snmp.Oid.{rewrite_length}

-- The length octets that are written over the kept one are `encodeLength`'s.
pub rewrite_length-encode :
    (body : Bytes) → length body < 65536 → rewrite_length body ≡ encode_length (length body) ++ body
unfolding rewrite_length encode_length
rewrite_length-encode body h =
    let n = length body in
    elim (Bool-cases (ltb n 0x80)) [
      | inl short ↦ rw short refl
      | inr long ↦ rw long (elim (Bool-cases (ltb n 0x100)) [
        | inl one ↦ rw one (
            rw (be_bytes-one n (ground arith) (ground arith))
              (let q : n % 256 ≡ n = ground arith in rw q refl))
        | inr two ↦ rw two (
            rw (be_bytes-two n (ground arith) h)
              (let q : n / 256 % 256 ≡ n / 256 = omega arith in rw q refl))
      ])
    ]
