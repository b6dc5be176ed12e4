-- ===== src/Tests/Snmp.antt =====
-- BER lengths and integers of go/nl6/snmp_encoding.go and snmp_handlers.go on concrete octets.
use nl.Prelude.{◌≡◌, ◌≤◌, refl, [], ◌∷◌, ◌++◌, some, length, arith}
use nl.Prelude.Bytes.{Bytes}
use nl.Prelude.Go.{ret}
use nl.Prelude.Int.{negsuc}
use nl.Snmp.Length.{encode_length, max_int32}
use nl.Snmp.Integer.{parse_ber_int, integer_bytes}
use nl.Snmp.Integer.RoundTrip.{parse_ber_int-integer_bytes}

-- A null of 300 octets behind its tag.
abbrev long_null : Bytes
long_null = 5 ∷ (encode_length 300 ++ (7 ∷ []))

-- -300, between its tag and length and a null.
abbrev integer : Bytes
integer = 2 ∷ 2 ∷ (integer_bytes (negsuc 299) ++ (5 ∷ 0 ∷ []))

parse_ber_int-integer_bytes_example :
    parse_ber_int integer 2 (length (integer_bytes (negsuc 299))) ≡ ret (some (negsuc 299))
parse_ber_int-integer_bytes_example =
    parse_ber_int-integer_bytes integer (5 ∷ 0 ∷ []) 2 (negsuc 299) (omega arith) (omega arith) refl

integer_short : length integer ≤ max_int32
unfolding integer_bytes
integer_short = omega arith
