-- ===== src/Snmp/Value.antt =====
-- A value under the tag of its object: `encodeIPAddress`, `typeTagIn`, `encodeTypedValue` and
-- `encodeTypedValueAtTag` of go/nl6/snmp_encoding.go. The table of the tags is an argument, and
-- so is `to4`, what `net.ParseIP` and `To4` make of a text.
use nl.Prelude.{
  ℕ, ◌-◌, ◌^◌, Bool, ◌&&◌, ◌||◌, Option, none, some, List, [], ◌∷◌, ◌++◌, ltb, ◌==◌, if◌then◌else◌,
  length, drop,
}
use nl.Prelude.Bytes.{Bytes, bytes_eq, has_prefix}
use nl.Prelude.Int.{ℤ, pos, negsuc}
use nl.Prelude.Text.{dot, digits_value, atoi}
use nl.Snmp.Integer.{encode_integer, encode_unsigned32, encode_counter64, asn1_counter64}
use nl.Snmp.Tlv.{asn1_octet_string, encode_octet_string, encode_sequence}
use nl.Snmp.Oid.{asn1_oid, encode_oid}

abbrev pub asn1_ipaddress : ℕ
asn1_ipaddress = 0x40

abbrev pub asn1_counter32 : ℕ
asn1_counter32 = 0x41

abbrev pub asn1_gauge32 : ℕ
asn1_gauge32 = 0x42

abbrev pub asn1_timeticks : ℕ
asn1_timeticks = 0x43

-- "noSuchObject"
abbrev pub value_no_such_object : Bytes
value_no_such_object = 110 ∷ 111 ∷ 83 ∷ 117 ∷ 99 ∷ 104 ∷ 79 ∷ 98 ∷ 106 ∷ 101 ∷ 99 ∷ 116 ∷ []

-- "endOfMibView"
abbrev pub value_end_of_mib_view : Bytes
value_end_of_mib_view = 101 ∷ 110 ∷ 100 ∷ 79 ∷ 102 ∷ 77 ∷ 105 ∷ 98 ∷ 86 ∷ 105 ∷ 101 ∷ 119 ∷ []

unfoldable pub is_snmp_exception_value : Bytes → Bool
is_snmp_exception_value v = bytes_eq v value_no_such_object || bytes_eq v value_end_of_mib_view

pub record OidTypeEntry : Type 0 where
  pub prefix : Bytes
  pub tag : ℕ

-- The first row whose prefix the OID is, or starts with in front of a dot; else 0.
unfoldable pub type_tag_in : List OidTypeEntry → Bytes → ℕ
type_tag_in [] oid = 0
type_tag_in (e ∷ table) oid =
    let rest = type_tag_in table oid in
    if has_prefix oid e.prefix
      && (length oid == length e.prefix || has_prefix (drop (length e.prefix) oid) (dot ∷ []))
    then e.tag
    else rest

unfoldable pub encode_var_bind : Bytes → Bytes → Bytes
encode_var_bind oid value = encode_sequence (encode_oid oid ++ value)

-- `strconv.ParseUint(value, 10, bits)`
abbrev pub parse_uint : ℕ → Bytes → Option ℕ
parse_uint bits value = elim (digits_value value) [
  | none ↦ none
  | some n ↦ if ltb n (2 ^ bits) then some n else none
]

-- `uint32(int32(i))` of what `strconv.ParseInt(value, 10, 32)` reads.
abbrev pub wrapped32 : Option ℤ → Option ℕ
wrapped32 none = none
wrapped32 (some (pos n)) = if ltb n (2 ^ 31) then some n else none
wrapped32 (some (negsuc n)) = if ltb n (2 ^ 31) then some (2 ^ 32 - n - 1) else none

module _ (to4 : Bytes → Option Bytes) where
  unfoldable pub encode_ip_address : Bytes → Bytes
  encode_ip_address ip_str = elim (to4 ip_str) [
    | none ↦ encode_octet_string ip_str
    | some ip4 ↦ asn1_ipaddress ∷ 4 ∷ ip4
  ]

  -- Counter32, Gauge32 and TimeTicks.
  unfoldable pub encode_32 : ℕ → Bytes → Bytes
  encode_32 tag value = elim (parse_uint 32 value) [
    | some u ↦ encode_unsigned32 tag u
    | none ↦ elim (wrapped32 (atoi value)) [
      | some i ↦ encode_unsigned32 tag i
      | none ↦ encode_octet_string value
    ]
  ]

  unfoldable pub encode_typed_value_at_tag : Bytes → ℕ → Bytes
  encode_typed_value_at_tag value tag =
      if tag == asn1_octet_string
      then encode_octet_string value
      else if tag == asn1_oid
      then encode_oid value
      else if tag == asn1_ipaddress
      then encode_ip_address value
      else if tag == asn1_counter32 || tag == asn1_gauge32 || tag == asn1_timeticks
      then encode_32 tag value
      else if tag == asn1_counter64
      then (elim (parse_uint 64 value) [
        | some u ↦ encode_counter64 u
        | none ↦ encode_octet_string value
      ])
      else (elim (atoi value) [ some i ↦ encode_integer i | none ↦ encode_octet_string value ])

  unfoldable pub encode_typed_value : List OidTypeEntry → Bytes → Bytes → Bytes
  encode_typed_value table oid value =
      if bytes_eq value value_end_of_mib_view
      then 0x82 ∷ 0 ∷ []
      else if bytes_eq value value_no_such_object
      then 0x80 ∷ 0 ∷ []
      else encode_typed_value_at_tag value (type_tag_in table oid)
