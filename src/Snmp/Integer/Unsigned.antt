-- ===== src/Snmp/Integer/Unsigned.antt =====
-- Counter32, Gauge32, TimeTicks and Counter64: the octets are the shortest that spell the value.
use nl.Prelude.{
  ℕ, suc, ◌+◌, ◌*◌, ◌/◌, ◌^◌, ◌≤◌, ◌<◌, ◌≡◌, refl, ◌∙◌, [], ◌∷◌, ◌++◌, length, Bool-cases, inl, inr,
  ◌==◌, arith,
}
use nl.Prelude.Bytes.{Bytes, be_value, to_byte}
use nl.Snmp.Length.{encode_length}
use nl.Snmp.Integer.{strip_leading, fill_bytes, encode_unsigned32, encode_counter64, asn1_counter64}

-- One octet at least, and no leading zero octet unless it is the only one.
abbrev pub Shortest : Bytes → Type 0
Shortest [] = ⊥
Shortest (b ∷ []) = Unit {0}
Shortest (b ∷ c ∷ bs) = 0 < b

strip_leading_lem :
    (b : ℕ) (bs : Bytes)
    → (be_value 0 (strip_leading (b ∷ bs)) ≡ be_value 0 (b ∷ bs))
      × Shortest (strip_leading (b ∷ bs))
      × (length (strip_leading (b ∷ bs)) ≤ suc (length bs))
unfolding strip_leading be_value
strip_leading_lem b [] = (refl, tt, omega arith)
strip_leading_lem b (c ∷ bs) =
    let (val, short, len) = strip_leading_lem c bs in
    elim (Bool-cases (b == 0)) [
      | inl q ↦
          let z : (0 * 256 + b) * 256 + c ≡ 0 * 256 + c = ground arith in
          rw q (val ∙ rw z, short, omega arith)
      | inr q ↦ rw q (refl, ground arith, omega arith)
    ]

-- A tag, the octets' length in one octet, and the shortest octets that spell the value.
pub record Encodes (bs : Bytes) (tag value most : ℕ) : Type 0 where
  pub content : Bytes
  pub layout : bs ≡ tag ∷ (encode_length (length content) ++ content)
  pub spells : be_value 0 content ≡ value
  pub shortest : Shortest content
  pub fits : length content ≤ most

be_value_four :
    (value : ℕ)
    → value < 2 ^ 32
    → be_value 0 (
        to_byte (value / 2 ^ 24)
        ∷ to_byte (value / 2 ^ 16)
        ∷ to_byte (value / 2 ^ 8)
        ∷ to_byte value
        ∷ [])
      ≡ value
unfolding be_value
be_value_four value h = omega arith

-- Every uint32 is encoded under its tag as the shortest octets that spell it, four at most.
pub encode_unsigned32-Encodes :
    (tag value : ℕ) → value < 2 ^ 32 → Encodes (encode_unsigned32 tag value) tag value 4
unfolding encode_unsigned32
encode_unsigned32-Encodes tag value h =
    let (val, short, len) =
      strip_leading_lem (to_byte (value / 2 ^ 24))
        (to_byte (value / 2 ^ 16) ∷ to_byte (value / 2 ^ 8) ∷ to_byte value ∷ []) in
    record {
      content = strip_leading (
          to_byte (value / 2 ^ 24)
          ∷ to_byte (value / 2 ^ 16)
          ∷ to_byte (value / 2 ^ 8)
          ∷ to_byte value
          ∷ []);
      layout = refl;
      spells = val ∙ be_value_four value h;
      shortest = short;
      fits = len;
    }

fill_bytes_eight :
    (value : ℕ)
    → value < 2 ^ 64
    → (b : ℕ) × (bs : Bytes) × (fill_bytes 8 value [] ≡ b ∷ bs)
      × (length bs ≡ 7)
      × (be_value 0 (b ∷ bs) ≡ value)
unfolding fill_bytes be_value
fill_bytes_eight value h = (_, _, refl, omega arith, omega arith)

-- Every uint64 is encoded under the Counter64 tag as the shortest octets that spell it, eight at
-- most.
pub encode_counter64-Encodes :
    (value : ℕ) → value < 2 ^ 64 → Encodes (encode_counter64 value) asn1_counter64 value 8
unfolding encode_counter64
encode_counter64-Encodes value h =
    let (b, bs, e, seven, spelled) = fill_bytes_eight value h in
    let (val, short, len) = strip_leading_lem b bs in
    rw e (record {
      content = strip_leading (b ∷ bs);
      layout = refl;
      spells = val ∙ spelled;
      shortest = short;
      fits = omega arith;
    })
