-- ===== src/Snmp/Tlv.antt =====
-- Values under a tag and a length: `encodeOctetString`, `encodeSequence` and `encodeNull` of
-- go/nl6/snmp_encoding.go. A string is its bytes.
pub mod RoundTrip
use nl.Prelude.{ℕ, List, [], ◌∷◌, ◌++◌, length}
use nl.Prelude.Bytes.{Bytes}
use nl.Snmp.Length.{encode_length}

abbrev pub asn1_octet_string : ℕ
asn1_octet_string = 0x04

abbrev pub asn1_null : ℕ
asn1_null = 0x05

abbrev pub asn1_sequence : ℕ
asn1_sequence = 0x30

unfoldable pub encode_octet_string : Bytes → Bytes
encode_octet_string value = asn1_octet_string ∷ (encode_length (length value) ++ value)

unfoldable pub encode_sequence : Bytes → Bytes
encode_sequence contents = asn1_sequence ∷ (encode_length (length contents) ++ contents)

unfoldable pub encode_null : Bytes
encode_null = asn1_null ∷ 0 ∷ []
