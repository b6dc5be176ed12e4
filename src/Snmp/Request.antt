-- ===== src/Snmp/Request.antt =====
-- The v1 and v2c request as the response builders read it: `parseIncomingRequest` of
-- go/nl6/snmp_response.go, with `skipLength` of snmp_server.go and `servedPDUTag` of snmp.go.
pub mod Safe
use nl.Prelude.{
  ℕ, zero, suc, ◌+◌, Bool, true, false, ◌&&◌, ◌||◌, Option, none, some, List, [], ◌∷◌, ltb, leb,
  ◌==◌, if◌then◌else◌, length,
}
use nl.Prelude.Bytes.{Bytes, low7}
use nl.Prelude.Int.{ℤ, pos, negsuc}
use nl.Prelude.Go.{Go, ret, panic, stuck, ◌>>=◌, index, slice}
use nl.Prelude.Text.{dot, dotted}
use nl.Snmp.Length.{parse_length}
use nl.Snmp.Integer.{asn1_integer, parse_ber_int}
use nl.Snmp.Tlv.{asn1_octet_string, asn1_sequence}
use nl.Snmp.Oid.{asn1_oid, decode_oid}
use nl.Snmp.Response.{SnmpRequest}

abbrev pub asn1_get_request : ℕ
asn1_get_request = 0xA0

abbrev pub asn1_get_next : ℕ
asn1_get_next = 0xA1

abbrev pub asn1_set_request : ℕ
asn1_set_request = 0xA3

abbrev pub asn1_get_bulk : ℕ
asn1_get_bulk = 0xA5

abbrev pub served_pdu_tag : ℕ → Bool
served_pdu_tag tag =
    tag == asn1_get_request
    || tag == asn1_get_next
    || tag == asn1_get_bulk
    || tag == asn1_set_request

-- "public", 123, .1.3.6.1.2.1.1.1.0 and v2c
abbrev pub default_request : SnmpRequest
default_request = record {
  community = 112 ∷ 117 ∷ 98 ∷ 108 ∷ 105 ∷ 99 ∷ [];
  request_id = pos 123;
  oid = dot ∷ dotted (1 ∷ 3 ∷ 6 ∷ 1 ∷ 2 ∷ 1 ∷ 1 ∷ 1 ∷ 0 ∷ []);
  version = pos 1;
  community_parsed = false;
}

-- The request read so far, and the position.
abbrev pub Cursor : Type 0
Cursor = SnmpRequest × ℕ

-- `pos < len(data) && data[pos] == tag`
unfoldable pub tag_at : Bytes → ℕ → (ℕ → Bool) → Go Bool
tag_at bs p test = if leb (length bs) p then ret false else (index bs p >>= λ b. ret (test b))

abbrev pub is_tag : ℕ → ℕ → Bool
is_tag tag b = b == tag

-- `parseBERInt` at a length that may be negative.
abbrev pub ber_int_at : Bytes → ℕ → Option ℕ → Go (Option ℤ)
ber_int_at bs p none = ret none
ber_int_at bs p (some n) = parse_ber_int bs p n

-- `if length > 0 { pos += length }`
abbrev pub advance : ℕ → Option ℕ → ℕ
advance p none = p
advance p (some n) = p + n

abbrev pub with_version : SnmpRequest → Option ℤ → SnmpRequest
with_version req none = req
with_version req (some v) = record req { version = v }

abbrev pub with_request_id : SnmpRequest → Option ℤ → SnmpRequest
with_request_id req none = req
with_request_id req (some v) = record req { request_id = v }

unfoldable pub read_version : Bytes → Cursor → Go Cursor
read_version bs (req, p) = tag_at bs p (is_tag asn1_integer) >>= λ here.
    if here
    then (parse_length bs (p + 1) >>= λ r.
        ber_int_at bs r.1 r.0 >>= λ v. ret (with_version req v, advance r.1 r.0))
    else ret (req, p)

-- The community's octets behind its length.
abbrev pub take_community : Bytes → SnmpRequest → Option ℕ × ℕ → Go Cursor
take_community bs req (none, p) = ret (req, p)
take_community bs req (some n, p) =
    if leb (p + n) (length bs)
    then (slice bs p (p + n) >>= λ c.
        ret (record req { community = c; community_parsed = true }, p + n))
    else ret (req, p)

unfoldable pub read_community : Bytes → Cursor → Go Cursor
read_community bs (req, p) = tag_at bs p (is_tag asn1_octet_string) >>= λ here.
    if here then (parse_length bs (p + 1) >>= take_community bs req) else ret (req, p)

unfoldable pub read_request_id : Bytes → Cursor → Go Cursor
read_request_id bs (req, p) = tag_at bs p (is_tag asn1_integer) >>= λ here.
    if here
    then (parse_length bs (p + 1) >>= λ r.
        ber_int_at bs r.1 r.0 >>= λ v. ret (with_request_id req v, advance r.1 r.0))
    else ret (req, p)

-- One round of the loop over error-status and error-index; an unreadable length leaves the
-- position behind the tag.
abbrev pub behind_field : ℕ → Option ℕ × ℕ → ℕ
behind_field p (none, q) = p + 1
behind_field p (some n, q) = q + n

unfoldable pub skip_field : Bytes → ℕ → Go ℕ
skip_field bs p = tag_at bs p (is_tag asn1_integer) >>= λ here.
    if here then (parse_length bs (p + 1) >>= λ r. ret (behind_field p r)) else ret p

unfoldable pub skip_length : Bytes → ℕ
skip_length [] = 0
skip_length (d ∷ bs) = if ltb d 0x80 then 1 else 1 + low7 d

abbrev pub with_oid : SnmpRequest → Bytes → SnmpRequest
with_oid req [] = req
with_oid req (c ∷ oid) = record req { oid = c ∷ oid }

-- The octets of a name behind its length.
abbrev pub take_oid : Bytes → SnmpRequest → Option ℕ × ℕ → Go SnmpRequest
take_oid bs req (none, p) = ret req
take_oid bs req (some n, p) =
    if ltb 0 n && leb (p + n) (length bs)
    then (slice bs p (p + n) >>= λ octets. ret (with_oid req (decode_oid octets)))
    else ret req

-- `pos++; pos += s.skipLength(data[pos:])`
unfoldable pub skip_header : Bytes → ℕ → Go ℕ
skip_header bs p = slice bs (p + 1) (length bs) >>= λ rest. ret (p + 1 + skip_length rest)

-- The name of the first binding.
unfoldable pub read_first_name : Bytes → SnmpRequest → ℕ → Go SnmpRequest
read_first_name bs req p = tag_at bs p (is_tag asn1_sequence) >>= λ list.
    if list
    then (skip_header bs p >>= λ q. tag_at bs q (is_tag asn1_sequence) >>= λ binding.
        if binding
        then (skip_header bs q >>= λ n. tag_at bs n (is_tag asn1_oid) >>= λ name.
            if name then (parse_length bs (n + 1) >>= take_oid bs req) else ret req)
        else ret req)
    else ret req

-- The PDU behind its length.
abbrev pub read_pdu : Bytes → SnmpRequest → Option ℕ × ℕ → Go SnmpRequest
read_pdu bs req (none, p) = ret req
read_pdu bs req (some n, p) = read_request_id bs (req, p) >>= λ c.
    skip_field bs c.1 >>= λ q. skip_field bs q >>= λ r. read_first_name bs c.0 r

-- Behind the length of the message.
abbrev pub read_message_fields : Bytes → Option ℕ × ℕ → Go SnmpRequest
read_message_fields bs (none, p) = ret default_request
read_message_fields bs (some n, p) = read_version bs (default_request, p) >>= λ v.
    read_community bs v >>= λ c. tag_at bs c.1 served_pdu_tag >>= λ pdu.
    if pdu then (parse_length bs (c.1 + 1) >>= read_pdu bs c.0) else ret c.0

unfoldable pub parse_incoming_request : Bytes → Go SnmpRequest
parse_incoming_request bs =
    if ltb (length bs) 10
    then ret default_request
    else (index bs 0 >>= λ tag.
        if tag == asn1_sequence
        then (parse_length bs 1 >>= read_message_fields bs)
        else ret default_request)
