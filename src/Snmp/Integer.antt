-- ===== src/Snmp/Integer.antt =====
-- `encodeInteger`, `encodeUnsigned32` and `encodeCounter64` of go/nl6/snmp_encoding.go, and
-- `parseBERInt` of go/nl6/snmp_handlers.go. An `int` is 64 bits wide.
pub mod Parse
pub mod RoundTrip
pub mod Unsigned
use nl.Prelude.{
  ℕ, zero, suc, ◌+◌, ◌-◌, ◌*◌, ◌/◌, ◌%◌, ◌^◌, ◌&&◌, ◌||◌, not, Bool, true, false, List, [], ◌∷◌,
  ◌++◌, Option, none, some, ltb, leb, ◌==◌, if◌then◌else◌, length,
}
use nl.Prelude.Bytes.{Bytes, high_bit, to_byte}
use nl.Prelude.Int.{ℤ, pos, negsuc, signed64, unsigned64}
use nl.Prelude.Go.{Go, ret, ◌>>=◌, index}
use nl.Snmp.Length.{be_bytes, encode_length}

abbrev pub asn1_integer : ℕ
asn1_integer = 0x02

abbrev pub asn1_counter64 : ℕ
asn1_counter64 = 0x46

-- `if len(bytes) > 0 && bytes[0]&0x80 != 0`: a leading zero keeps the number positive.
pub keep_positive : Bytes → Bytes
keep_positive [] = []
keep_positive (b ∷ bs) = if high_bit b then 0 ∷ b ∷ bs else b ∷ bs

-- `if len(bytes) > 0 && bytes[0]&0x80 == 0`: a leading 0xFF keeps the number negative.
pub keep_negative : Bytes → Bytes
keep_negative [] = []
keep_negative (b ∷ bs) = if high_bit b then b ∷ bs else 0xff ∷ b ∷ bs

-- The octets of -(n + 1), from its bit pattern.
pub negative_bytes : ℕ → ℕ → Bytes
negative_bytes n temp =
    if leb n 127
    then to_byte temp ∷ []
    else if leb n 32767
    then to_byte (temp / 2 ^ 8) ∷ to_byte temp ∷ []
    else if leb n 8388607
    then to_byte (temp / 2 ^ 16) ∷ to_byte (temp / 2 ^ 8) ∷ to_byte temp ∷ []
    else to_byte (temp / 2 ^ 24)
      ∷ to_byte (temp / 2 ^ 16)
      ∷ to_byte (temp / 2 ^ 8)
      ∷ to_byte temp
      ∷ []

-- The content octets of `encodeInteger`.
unfoldable pub integer_bytes : ℤ → Bytes
unfolding keep_positive keep_negative negative_bytes
integer_bytes (pos n) = if n == 0 then 0 ∷ [] else keep_positive (be_bytes n)
integer_bytes (negsuc n) = keep_negative (negative_bytes n (unsigned64 (negsuc n)))

unfoldable pub encode_integer : ℤ → Bytes
encode_integer v =
    let bytes = integer_bytes v in asn1_integer ∷ (encode_length (length bytes) ++ bytes)

-- `for start < end-1 && data[start] == 0x00 && data[start+1]&0x80 == 0`, by the rounds that
-- `start < end-1` leaves.
pub strip_zeros : ℕ → Bytes → ℕ → Go ℕ
strip_zeros zero bs start = ret start
strip_zeros (suc k) bs start =
    let more = strip_zeros k bs (start + 1) in
    index bs start >>= λ a.
    if not (a == 0)
    then ret start
    else (index bs (start + 1) >>= λ b. if high_bit b then ret start else more)

-- `v = v<<8 | int64(data[i])` on the bit pattern of `v`; the low byte of the shifted number is 0.
pub read_int64 : ℕ → Bytes → ℕ → ℕ → Go ℕ
read_int64 zero bs i v = ret v
read_int64 (suc k) bs i v = index bs i >>= λ b. read_int64 k bs (i + 1) (v * 256 % 2 ^ 64 + b)

-- The bit pattern of `int64(int8(b))`.
abbrev pub sign_extend8 : ℕ → ℕ
sign_extend8 b = if ltb b 128 then b else 2 ^ 64 - 256 + b

-- The result is the number, or `none` where the source reports false. `length` is at least 1 where
-- it is used, so `length - 1` is the source's.
unfoldable pub parse_ber_int : Bytes → ℕ → ℕ → Go (Option ℤ)
parse_ber_int bs at n =
    if n == 0 || ltb (length bs) (at + n)
    then ret none
    else strip_zeros (n - 1) bs at >>= λ start.
        if ltb 8 (at + n - start)
        then ret none
        else index bs start >>= λ b.
            read_int64 (at + n - start - 1) bs (start + 1) (sign_extend8 b) >>= λ v.
            ret (some (signed64 v))

-- `for start < last && b[start] == 0 { start++ }`: leading zero octets go, the last one stays.
pub strip_leading : Bytes → Bytes
strip_leading [] = []
strip_leading (b ∷ []) = b ∷ []
strip_leading (b ∷ c ∷ bs) =
    let rest = strip_leading (c ∷ bs) in if b == 0 then rest else b ∷ c ∷ bs

unfoldable pub encode_unsigned32 : ℕ → ℕ → Bytes
encode_unsigned32 tag value =
    let b = strip_leading (
      to_byte (value / 2 ^ 24)
      ∷ to_byte (value / 2 ^ 16)
      ∷ to_byte (value / 2 ^ 8)
      ∷ to_byte value
      ∷ []) in
    tag ∷ (encode_length (length b) ++ b)

-- `for i := 7; i >= 0; i-- { b[i] = byte(value & 0xff); value >>= 8 }`
pub fill_bytes : ℕ → ℕ → Bytes → Bytes
fill_bytes zero value out = out
fill_bytes (suc i) value out = fill_bytes i (value / 256) (to_byte value ∷ out)

unfoldable pub encode_counter64 : ℕ → Bytes
encode_counter64 value =
    let b = strip_leading (fill_bytes 8 value []) in
    asn1_counter64 ∷ (encode_length (length b) ++ b)
