-- ===== src/Snmp/Server.antt =====
-- The dispatch of a v1 or v2c datagram: `handleSNMPv2cRequest` and `getPDUType` of go/nl6/snmp_server.go,
-- `parseGetBulkParams`, `parseAllOIDsFromRequest`, `handleGetBulk` and `handleGetRequestVarbinds` of
-- snmp_handlers.go. The request that the builders parse again is the one that the dispatcher has.
-- An answer of none sends no datagram; the log lines are not modelled.
pub mod Envelope
pub mod Safe
use nl.Prelude.{
  ℕ, zero, suc, ◌+◌, Bool, true, false, not, ◌&&◌, ◌||◌, Option, none, some, List, [], ◌∷◌, map,
  ltb, leb, ◌==◌, if◌then◌else◌, length,
}
use nl.Prelude.Bytes.{Bytes}
use nl.Prelude.Int.{ℤ, pos, negsuc}
use nl.Prelude.Go.{Go, ret, panic, stuck, ◌>>=◌, ◌>>?◌, index, slice}
use nl.Snmp.Length.{parse_length}
use nl.Snmp.Integer.{asn1_integer, parse_ber_int}
use nl.Snmp.Tlv.{asn1_octet_string, asn1_sequence}
use nl.Snmp.Value.{OidTypeEntry}
use nl.Snmp.Varbinds.{field, parse_var_bind_names, request_var_bind_list_pos}
use nl.Snmp.Response.{SnmpRequest}
use nl.Snmp.Response.Builders.{
  create_get_response, create_get_next_response, create_get_bulk_response, create_too_big_response,
}
use nl.Snmp.Request.{
  asn1_get_request, asn1_get_next, asn1_get_bulk, asn1_set_request, default_request, tag_at, is_tag,
  advance, parse_incoming_request,
}
use nl.Snmp.Set.{IfCounters}
use nl.Snmp.Set.Handle.{Handled, discard, dispatch_set}
use nl.Snmp.Walk.{Entry, MibView, find_response_at}
use nl.Snmp.GetNext.{
  max_get_next_bindings, counter64_skip_budget_steps, get_next_bindings_for_request,
}
use nl.Snmp.Bulk.{get_bulk_bindings}

unfoldable pub skip_version : Bytes → ℕ → Go ℕ
skip_version bs p = tag_at bs p (is_tag asn1_integer) >>= λ here.
    if here then (parse_length bs (p + 1) >>= λ r. ret (advance r.1 r.0)) else ret p

-- `if communityLen >= 0 && pos+communityLen <= len(data) { pos += communityLen }`
abbrev pub behind_community : Bytes → Option ℕ × ℕ → ℕ
behind_community bs (none, p) = p
behind_community bs (some n, p) = if leb (p + n) (length bs) then p + n else p

unfoldable pub skip_community : Bytes → ℕ → Go ℕ
skip_community bs p = tag_at bs p (is_tag asn1_octet_string) >>= λ here.
    if here then (parse_length bs (p + 1) >>= λ r. ret (behind_community bs r)) else ret p

-- The octet at the PDU's position.
unfoldable pub pdu_tag : Bytes → ℕ → Go ℕ
pdu_tag bs p = if leb (length bs) p then ret asn1_get_request else index bs p

abbrev pub pdu_type_behind : Bytes → Option ℕ × ℕ → Go ℕ
pdu_type_behind bs (none, p) = ret asn1_get_request
pdu_type_behind bs (some n, p) = skip_version bs p >>= λ q. skip_community bs q >>= pdu_tag bs

unfoldable pub get_pdu_type : Bytes → Go ℕ
get_pdu_type bs =
    if ltb (length bs) 10
    then ret asn1_get_request
    else (index bs 0 >>= λ tag.
        if not (tag == asn1_sequence)
        then ret asn1_get_request
        else (parse_length bs 1 >>= pdu_type_behind bs))

-- `if v, ok := parseBERInt(...); ok && v >= 0`
abbrev pub at_least_zero : ℕ → Option ℤ → ℕ
at_least_zero given none = given
at_least_zero given (some (pos v)) = v
at_least_zero given (some (negsuc v)) = given

-- `newPos+n > len(data)` refuses; then `data[:newPos+n]` and the position.
unfoldable pub cut : Bytes → ℕ × ℕ → Go (Option (Bytes × ℕ))
cut bs r =
    if ltb (length bs) (r.1 + r.0)
    then ret none
    else (slice bs 0 (r.1 + r.0) >>= λ inner. ret (some (inner, r.1)))

abbrev pub max_repetitions_of : Bytes → ℕ → Option (ℕ × ℕ) → Go (Option (ℕ × ℕ))
max_repetitions_of bs non_repeaters none = ret (some (non_repeaters, 10))
max_repetitions_of bs non_repeaters (some r) =
    parse_ber_int bs r.1 r.0 >>= λ v. ret (some (non_repeaters, at_least_zero 10 v))

-- Non-repeaters and max-repetitions, none for the defaults.
unfoldable pub bulk_params : Bytes → Go (Option (ℕ × ℕ))
bulk_params bs = field bs asn1_sequence 0 >>? λ outer. cut bs outer >>? λ message.
    field message.0 asn1_integer message.1 >>? λ version.
    field message.0 asn1_octet_string (version.1 + version.0) >>? λ community.
    field message.0 asn1_get_bulk (community.1 + community.0) >>? λ header.
    cut message.0 header >>? λ pdu. field pdu.0 asn1_integer pdu.1 >>? λ request_id.
    field pdu.0 asn1_integer (request_id.1 + request_id.0) >>? λ r.
    parse_ber_int pdu.0 r.1 r.0 >>= λ v.
    field pdu.0 asn1_integer (r.1 + r.0) >>= max_repetitions_of pdu.0 (at_least_zero 0 v)

abbrev pub or_defaults : Option (ℕ × ℕ) → ℕ × ℕ
or_defaults none = (0, 10)
or_defaults (some params) = params

unfoldable pub parse_get_bulk_params : Bytes → Go (ℕ × ℕ)
parse_get_bulk_params bs = bulk_params bs >>= λ o. ret (or_defaults o)

abbrev pub names_at : Bytes → Option (ℕ × ℕ) → Go (Option (List Bytes))
names_at bs none = ret (some [])
names_at bs (some r) = parse_var_bind_names bs r.0

unfoldable pub parse_all_oids_from_request : Bytes → Go (Option (List Bytes))
parse_all_oids_from_request bs = request_var_bind_list_pos bs >>= names_at bs

-- The single OID of the request, for a list that is empty.
abbrev pub or_single : Bytes → List Bytes → List Bytes
or_single oid [] = oid ∷ []
or_single oid (o ∷ oids) = o ∷ oids

abbrev pub oids_of : List Entry → List Bytes
oids_of es = map (λ e. e.0) es

abbrev pub values_of : List Entry → List Bytes
values_of es = map (λ e. e.1) es

-- `budget` is `maxSNMPResponseSize`, and the name of a response without data is sysDescr.0.
module _ (to4 : Bytes → Option Bytes) (table : List OidTypeEntry) (budget : ℕ) (mib : MibView) where
  unfoldable pub handle_get_next : SnmpRequest → List Bytes → Bytes
  handle_get_next req oids =
      if ltb (max_get_next_bindings budget) (length oids)
      then create_too_big_response req
      else (let es =
            get_next_bindings_for_request table mib req.version (counter64_skip_budget_steps budget)
              oids in
          create_get_next_response to4 table budget default_request.oid oids (oids_of es)
            (values_of es) req)

  unfoldable pub handle_get_request_varbinds : SnmpRequest → List Bytes → Bytes
  handle_get_request_varbinds req oids =
      create_get_response to4 table budget default_request.oid oids
        (map (find_response_at mib) oids) req

  unfoldable pub bulk_answer : SnmpRequest → ℕ × ℕ → List Bytes → Bytes
  bulk_answer req params oids =
      let es = get_bulk_bindings mib budget params.0 params.1 oids in
      create_get_bulk_response to4 table budget default_request.oid (oids_of es) (values_of es) req

  abbrev pub on_list : (List Bytes → Bytes) → Bytes → Option (List Bytes) → Option Bytes
  on_list answer oid none = none
  on_list answer oid (some oids) = some (answer (or_single oid oids))

  unfoldable pub handle_get_bulk : SnmpRequest → Bytes → Go (Option Bytes)
  handle_get_bulk req bs = parse_get_bulk_params bs >>= λ params.
      parse_all_oids_from_request bs >>= λ oids. ret (on_list (bulk_answer req params) req.oid oids)

  -- The answer to a request that does not write.
  unfoldable pub answer_read : ℕ → SnmpRequest → Bytes → Go (Option Bytes)
  answer_read tag req bs =
      if tag == asn1_get_next
      then (parse_all_oids_from_request bs >>= λ oids.
          ret (on_list (handle_get_next req) req.oid oids))
      else if tag == asn1_get_bulk
      then handle_get_bulk req bs
      else (parse_all_oids_from_request bs >>= λ oids.
          ret (on_list (handle_get_request_varbinds req) req.oid oids))

  -- `want` is the device's write community.
  unfoldable pub handle_snmpv2c_request : Bytes → (ℕ → ℕ) → Option IfCounters → Bytes → Go Handled
  handle_snmpv2c_request want clock dev bs = parse_incoming_request bs >>= λ req.
      get_pdu_type bs >>= λ tag.
      if tag == asn1_set_request
      then dispatch_set want clock dev bs
      else (answer_read tag req bs >>= λ answer. ret (dev, [], answer))
