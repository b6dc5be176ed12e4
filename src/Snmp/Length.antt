-- ===== src/Snmp/Length.antt =====
-- `parseLength` and `encodeLength` of go/nl6/snmp_encoding.go. The length -1 of an error is `none`.
pub mod RoundTrip
pub mod Safe
pub mod Small
use mathlib.Core.Logic.{dite}
use mathlib.Core.WellFounded.{Acc}
use native.Mathlib.Decide.{dec_lt}
use nl.Prelude.{
  ℕ, zero, suc, ◌+◌, ◌-◌, ◌*◌, ◌/◌, ◌%◌, ◌^◌, ◌<◌, ◌||◌, Option, none, some, [], ◌∷◌, ltb, leb,
  ◌==◌, if◌then◌else◌, length, arith,
}
use nl.Prelude.Bytes.{Bytes, low7, set_high, to_byte}
use nl.Prelude.Go.{Go, ret, ◌>>=◌, index}
use nl.Prelude.Order.{lt_wf}

abbrev pub max_int32 : ℕ
max_int32 = 2 ^ 31 - 1

-- `acc = (acc << 8) | uint32(data[pos])`, for the octets that are left; the low byte of the
-- shifted number is 0, so the `|` is a sum.
pub read_be : ℕ → Bytes → ℕ → ℕ → Go (ℕ × ℕ)
read_be zero bs pos acc = ret (acc, pos)
read_be (suc k) bs pos acc = index bs pos >>= λ b. read_be k bs (pos + 1) (acc * 256 % 2 ^ 32 + b)

-- `if acc > math.MaxInt32`
abbrev bound_length : ℕ × ℕ → Go (Option ℕ × ℕ)
bound_length (acc, pos) = if ltb max_int32 acc then ret (none, pos) else ret (some acc, pos)

-- The branches behind the first octet.
pub length_form : Bytes → ℕ → ℕ → Go (Option ℕ × ℕ)
length_form bs first pos =
    if ltb first 0x80
    then ret (some first, pos)
    else if low7 first == 0 || ltb 4 (low7 first) || ltb (length bs) (pos + low7 first)
    then ret (none, pos)
    else (read_be (low7 first) bs pos 0 >>= bound_length)

unfoldable pub parse_length : Bytes → ℕ → Go (Option ℕ × ℕ)
unfolding length_form read_be
parse_length bs pos =
    if leb (length bs) pos
    then ret (none, pos)
    else (index bs pos >>= λ first. length_form bs first (pos + 1))

pub byte_shrinks : {n : ℕ} → 0 < n → n / 256 < n
byte_shrinks h = omega arith

-- `for temp > 0 { bytes = append([]byte{byte(temp & 0xff)}, bytes...); temp >>= 8 }`
pub prepend_bytes : (n : ℕ) → Acc ◌<◌ n → Bytes → Bytes
prepend_bytes n (Acc.intro _ smaller) out =
    dite (dec_lt 0 n)
      (λ h. prepend_bytes (n / 256) (smaller (n / 256) (byte_shrinks h)) (to_byte n ∷ out))
      (λ _. out)

unfoldable pub be_bytes : ℕ → Bytes
unfolding prepend_bytes lt_wf dec_lt
be_bytes n = prepend_bytes n (lt_wf.apply n) []

unfoldable pub encode_length : ℕ → Bytes
encode_length n =
    if ltb n 0x80
    then to_byte n ∷ []
    else (let bytes = be_bytes n in set_high (length bytes) ∷ bytes)
