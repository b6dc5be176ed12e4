-- ===== src/Snmp/Response.antt =====
-- GetResponse messages and their datagram budget: go/nl6/snmp_response.go. `budget` is
-- `maxSNMPResponseSize`; the builders take the request as `parseIncomingRequest` gives it. The
-- log lines of a rule that was left unset are not modelled.
pub mod Size
pub mod Budget
pub mod Bound
pub mod Builders
use nl.Prelude.{
  ℕ, zero, suc, ◌+◌, ◌<◌, Bool, true, false, not, ◌&&◌, ◌||◌, Option, none, some, List, [], ◌∷◌,
  ◌++◌, ltb, ◌==◌, if◌then◌else◌, length,
}
use nl.Prelude.Bytes.{Bytes}
use nl.Prelude.Int.{ℤ, pos, negsuc}
use nl.Snmp.Length.{encode_length}
use nl.Snmp.Integer.{encode_integer, asn1_counter64}
use nl.Snmp.Tlv.{encode_octet_string, encode_sequence, encode_null}
use nl.Snmp.Oid.{encode_oid}
use nl.Snmp.Value.{
  OidTypeEntry, type_tag_in, encode_var_bind, encode_typed_value, is_snmp_exception_value,
}

pub record SnmpRequest : Type 0 where
  pub community : Bytes
  pub request_id : ℤ
  pub oid : Bytes
  pub version : ℤ
  pub community_parsed : Bool

abbrev pub snmp_get_response : ℕ
snmp_get_response = 0xa2

abbrev pub snmp_err_no_error : ℕ
snmp_err_no_error = 0

abbrev pub snmp_err_too_big : ℕ
snmp_err_too_big = 1

abbrev pub snmp_err_no_such_name : ℕ
snmp_err_no_such_name = 2

-- `req.Version == snmpVersion1`
abbrev pub is_version1 : ℤ → Bool
is_version1 (pos v) = v == 0
is_version1 (negsuc v) = false

-- The octets of the PDU behind its tag and length.
unfoldable pub pdu_contents : SnmpRequest → Bytes → ℕ → ℕ → Bytes
pdu_contents req var_bind_list err_status err_index =
    encode_integer req.request_id
    ++ (encode_integer (pos err_status)
        ++ (encode_integer (pos err_index) ++ encode_sequence var_bind_list))

unfoldable pub encode_get_response_at : SnmpRequest → Bytes → ℕ → ℕ → Bytes
encode_get_response_at req var_bind_list err_status err_index =
    let contents = pdu_contents req var_bind_list err_status err_index in
    let pdu = snmp_get_response ∷ (encode_length (length contents) ++ contents) in
    encode_sequence (encode_integer req.version ++ (encode_octet_string req.community ++ pdu))

unfoldable pub encode_get_response : SnmpRequest → Bytes → ℕ → Bytes
encode_get_response req var_bind_list err_status =
    encode_get_response_at req var_bind_list err_status 0

unfoldable pub len_bytes_for : ℕ → ℕ
len_bytes_for n = if ltb n 128 then 1 else if ltb n 256 then 2 else 3

unfoldable pub snmp_message_size_for : ℕ → ℕ → ℕ → ℕ
snmp_message_size_for msg_prefix pdu_prefix var_bind_len =
    let vb_seq = 1 + len_bytes_for var_bind_len + var_bind_len in
    let pdu_size = pdu_prefix + vb_seq in
    let pdu = 1 + len_bytes_for pdu_size + pdu_size in
    let msg_size = msg_prefix + pdu in 1 + len_bytes_for msg_size + msg_size

pub data SnmpOverflowRule : Type 0 where
  overflow_rule_unset overflow_truncate overflow_too_big : SnmpOverflowRule

pub data V1DiversionRule : Type 0 where
  v1_divert_unset v1_divert_nothing v1_divert_sentinel v1_divert_sentinel_and_counter64 :
      V1DiversionRule

pub record VarbindResponseRules : Type 0 where
  pub overflow : SnmpOverflowRule
  pub v1_diversion : V1DiversionRule
  pub echo_names : Option (List Bytes)

abbrev pub resolve_overflow : SnmpOverflowRule → SnmpOverflowRule
resolve_overflow overflow_rule_unset = overflow_too_big
resolve_overflow r = r

abbrev pub resolve_diversion : V1DiversionRule → V1DiversionRule
resolve_diversion v1_divert_unset = v1_divert_sentinel_and_counter64
resolve_diversion r = r

unfoldable pub resolve_defaults : VarbindResponseRules → VarbindResponseRules
resolve_defaults r = record r {
  overflow = resolve_overflow r.overflow;
  v1_diversion = resolve_diversion r.v1_diversion;
}

-- `rules.v1Diversion != v1DivertNothing`
abbrev pub diverts : V1DiversionRule → Bool
diverts v1_divert_nothing = false
diverts _ = true

abbrev pub diverts_counter64 : V1DiversionRule → Bool
diverts_counter64 v1_divert_sentinel_and_counter64 = true
diverts_counter64 _ = false

abbrev pub truncates : SnmpOverflowRule → Bool
truncates overflow_truncate = true
truncates _ = false

abbrev pub too_big : SnmpOverflowRule → Bool
too_big overflow_too_big = true
too_big _ = false

-- The list of names with null values.
pub echo_nulls : List Bytes → Bytes
echo_nulls [] = []
echo_nulls (o ∷ names) = encode_var_bind o encode_null ++ echo_nulls names

-- The names that an SNMPv1 echo carries.
unfoldable pub echoed_names : Option (List Bytes) → List Bytes → List Bytes
echoed_names none oids = oids
echoed_names (some names) oids = if length names == length oids then names else []

-- The encoding loop: the list so far, and whether it stopped at a binding that does not fit.
pub fit_bindings : ℕ → ℕ → ℕ → Bool → List Bytes → Bytes → Bytes × Bool
fit_bindings budget msg_prefix pdu_prefix keep_one [] out = (out, false)
fit_bindings budget msg_prefix pdu_prefix keep_one (b ∷ bs) out =
    let rest = fit_bindings budget msg_prefix pdu_prefix keep_one bs (out ++ b) in
    if ltb budget (snmp_message_size_for msg_prefix pdu_prefix (length out + length b))
    then (if length out == 0 && keep_one then out ++ b else out, true)
    else rest

module _ (to4 : Bytes → Option Bytes) (table : List OidTypeEntry) (budget : ℕ) where
  unfoldable pub create_snmp_response : Bytes → Bytes → SnmpRequest → Bytes
  create_snmp_response oid value req =
      if is_version1 req.version && is_snmp_exception_value value
      then encode_get_response_at req (encode_var_bind oid encode_null) snmp_err_no_such_name 1
      else (let binding =
            encode_sequence (encode_oid oid ++ encode_typed_value to4 table oid value) in
          encode_get_response_at req binding snmp_err_no_error 0)

  -- `offends`
  unfoldable pub offends : V1DiversionRule → Bytes → Bytes → Bool
  offends rule oid value =
      is_snmp_exception_value value
      || (diverts_counter64 rule && type_tag_in table oid == asn1_counter64)

  -- The index from 1 of the first binding that offends, counted from `i`.
  pub first_offence : V1DiversionRule → ℕ → List Bytes → List Bytes → Option ℕ
  first_offence rule i (oid ∷ oids) (value ∷ values) =
      let rest = first_offence rule (i + 1) oids values in
      if offends rule oid value then some (i + 1) else rest
  first_offence rule i _ _ = none

  -- The bindings, each encoded.
  pub encode_bindings : List Bytes → List Bytes → List Bytes
  encode_bindings (oid ∷ oids) (value ∷ values) =
      encode_sequence (encode_oid oid ++ encode_typed_value to4 table oid value)
      ∷ encode_bindings oids values
  encode_bindings _ _ = []

  -- The answer behind the SNMPv1 diversion.
  unfoldable pub bounded_response : SnmpRequest → SnmpOverflowRule → List Bytes → Bytes
  unfolding fit_bindings
  bounded_response req rule bindings =
      let msg_prefix =
        length (encode_integer req.version) + length (encode_octet_string req.community) in
      let pdu_prefix =
        length (encode_integer req.request_id)
        + length (encode_integer (pos 0))
        + length (encode_integer (pos 0)) in
      let (out, truncated) =
        fit_bindings budget msg_prefix pdu_prefix (truncates rule) bindings [] in
      if truncated && too_big rule
      then encode_get_response req [] snmp_err_too_big
      else encode_get_response req out snmp_err_no_error

  -- "No data", under sysDescr.0, where the two lists differ in length.
  abbrev pub no_data : Bytes
  no_data = 78 ∷ 111 ∷ 32 ∷ 100 ∷ 97 ∷ 116 ∷ 97 ∷ []

  unfoldable pub create_varbind_response :
      Bytes → List Bytes → List Bytes → SnmpRequest → VarbindResponseRules → Bytes
  unfolding first_offence encode_bindings echo_nulls
  create_varbind_response sys_descr oids responses req given =
      let rules = resolve_defaults given in
      let offence =
        if is_version1 req.version && diverts rules.v1_diversion
        then first_offence rules.v1_diversion 0 oids responses
        else none in
      if not (length oids == length responses)
      then create_snmp_response sys_descr no_data req
      else elim offence [
        | some i ↦
            encode_get_response_at req (echo_nulls (echoed_names rules.echo_names oids))
              snmp_err_no_such_name i
        | none ↦ bounded_response req rules.overflow (encode_bindings oids responses)
      ]
