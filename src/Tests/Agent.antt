-- ===== src/Tests/Agent.antt =====
-- The SNMP agent on concrete requests: go/nl6/snmp_handlers.go, snmp_response.go and snmp_set.go.
use nl.Snmp.Request.{parse_incoming_request}
use nl.Snmp.Set.Handle.Safe.{EngineFits}
use nl.Prelude.{
  ◌-◌, ℕ, ◌+◌, ◌*◌, ◌≤◌, ◌<◌, ◌≡◌, ◌↔◌, refl, true, false, Option, none, some, List, [], ◌∷◌, ◌++◌,
  length, arith,
}
use nl.Prelude.Bytes.{Bytes, bytes_eq}
use nl.Prelude.Int.{pos, negsuc}
use nl.Prelude.Go.{ret, ◌>>=◌, Returns}
use nl.Prelude.Text.{dot, dotted, itoa}
use nl.Interface.State.{InterfaceState, new_interface_state, set_parents}
use nl.Interface.State.Family.{Family}
use nl.Interface.State.Entries.{has_parent, has_child}
use nl.Interface.State.Parents.{set_parents-Family}
use nl.Snmp.Integer.{encode_integer, integer_bytes}
use nl.Snmp.Length.{encode_length}
use nl.Snmp.Tlv.{encode_octet_string}
use nl.Snmp.Oid.{
  legal_oid_arc_pair, asn1_oid, encode_oid, decode_oid, append_oid, encode_oid_component,
}
use nl.Snmp.Oid.Order.{compare_oids}
use nl.Snmp.Oid.Order.Dotted.{compare_arcs, compare_oids-dotted}
use nl.Datagram.{DatagramBudgets, set_link_mtu, recompute_datagram_budgets}
use nl.Datagram.Fits.{bounded_response_fits_mtu}
use nl.Snmp.Oid.Agreement.{append_oid-encode_oid}
use nl.Snmp.Oid.RoundTrip.{components, decode_oid-encode_oid}
use nl.Snmp.Varbinds.{VarBind, parse_var_binds, parse_var_bind_names}
use nl.Snmp.Varbinds.Agreement.{names_of, parse_var_binds-names}
use nl.Snmp.Value.{value_no_such_object, is_snmp_exception_value}
use nl.Snmp.Response.Builders.{
  create_get_response, create_get_next_response, whole, FirstAt, create_get_response-whole,
  create_get_response-FirstAt,
}
use nl.Snmp.Response.{
  is_version1, v1_divert_sentinel_and_counter64, offends, echo_nulls, snmp_err_no_such_name,
  SnmpRequest, encode_get_response_at, snmp_message_size_for, len_bytes_for, overflow_too_big,
  overflow_truncate, bounded_response, encode_bindings,
}
use nl.Snmp.Response.Size.{msg_prefix_of, pdu_prefix_of}
use nl.Snmp.Response.Budget.{message_size}
use nl.Snmp.Response.Bound.{Longest, bounded_response-Longest}
use nl.Snmp.Set.{interface_state, IfCounters, if_admin_status_column, accepted, judge, decide_set}
use nl.Snmp.Set.Judge.{Grants, action, judge_iff}
use nl.Snmp.Set.Outcome.{Served, AllOrNothing, decide_set-AllOrNothing}
use nl.Snmp.Walk.{MibView}
use nl.Snmp.Server.{get_pdu_type, handle_snmpv2c_request}
use nl.Snmp.Server.Envelope.{envelope, request_from, tag_from, get_pdu_type-parser}
use nl.Snmp.Server.Safe.{Dispatched, handle_snmpv2c_request-Dispatched}

-- Sub-interface 2 of port 1, of four.
abbrev entries : List (ℕ × ℕ)
entries = (2, 1) ∷ []

abbrev engine : InterfaceState
engine = set_parents (new_interface_state 4 1000) entries

entries_flat : (p : ℕ) → has_parent entries p ≡ true → has_child entries p ≡ false
entries_flat p h = ground arith

engine-Family : Family engine
unfolding new_interface_state
engine-Family =
    set_parents-Family (new_interface_state 4 1000) entries refl refl refl (refl, tt) entries_flat

engine_ports : engine.max_if_index ≡ 4
unfolding set_parents new_interface_state
engine_ports = refl

abbrev device : Option IfCounters
device = some (record { if_indices = 1 ∷ 2 ∷ []; state = some engine })

device-Served : Served device engine
device-Served n h = ground (arith, engine_ports, h)

abbrev clock : ℕ → ℕ
clock i = 2000 + i

-- ifAdminStatus.1 = down
abbrev bind : VarBind
bind = record { name = dot ∷ (if_admin_status_column ++ (dot ∷ itoa 1)); tag = 2; content = 2 ∷ [] }

decide_set-AllOrNothing_example :
    Returns (decide_set clock device (bind ∷ [])) (AllOrNothing device engine (bind ∷ []))
decide_set-AllOrNothing_example =
    decide_set-AllOrNothing clock device engine (bind ∷ []) refl engine-Family device-Served

judge_iff_example : (judge device bind ≡ ret (accepted (action 1 2))) ↔ Grants device bind 1 2
judge_iff_example = judge_iff device bind 1 2

-- A v2c SetRequest of ifAdminStatus.1 = down under the community "private".
abbrev private : Bytes
private = 112 ∷ 114 ∷ 105 ∷ 118 ∷ 97 ∷ 116 ∷ 101 ∷ []

abbrev list : Bytes
list = 0x30 ∷ 17 ∷ 0x30 ∷ 15 ∷ 6 ∷ 10 ∷ 0x2b ∷ 6 ∷ 1 ∷ 2 ∷ 1 ∷ 2 ∷ 2 ∷ 1 ∷ 7 ∷ 1 ∷ 2 ∷ 1 ∷ 2 ∷ []

abbrev datagram : Bytes
datagram =
    0x30
    ∷ 42
    ∷ 2
    ∷ 1
    ∷ 1
    ∷ 4
    ∷ 7
    ∷ (private ++ (0xa3 ∷ 28 ∷ 2 ∷ 1 ∷ 5 ∷ 2 ∷ 1 ∷ 0 ∷ 2 ∷ 1 ∷ 0 ∷ list))

parse_var_binds-names_example :
    (parse_var_binds datagram 25 >>= (λ v. ret (names_of v))) ≡ parse_var_bind_names datagram 25
parse_var_binds-names_example = parse_var_binds-names datagram 25

abbrev sys_descr : Bytes
sys_descr = dot ∷ dotted (1 ∷ 3 ∷ 6 ∷ [])

append_oid-encode_oid_example :
    append_oid (0x30 ∷ []) sys_descr ≡ (0x30 ∷ []) ++ encode_oid sys_descr
append_oid-encode_oid_example = append_oid-encode_oid (0x30 ∷ []) sys_descr

short_body : length (components ((40 * 1 + 3) ∷ 6 ∷ [])) ≤ 65535
unfolding encode_oid_component
short_body = omega arith

decode_oid-encode_oid_example :
    (encode_oid (dotted (1 ∷ 3 ∷ 6 ∷ []))
      ≡ asn1_oid
        ∷ (encode_length (length (components ((40 * 1 + 3) ∷ 6 ∷ [])))
            ++ components ((40 * 1 + 3) ∷ 6 ∷ [])))
    × (encode_oid (dot ∷ dotted (1 ∷ 3 ∷ 6 ∷ [])) ≡ encode_oid (dotted (1 ∷ 3 ∷ 6 ∷ [])))
    × (decode_oid (components ((40 * 1 + 3) ∷ 6 ∷ [])) ≡ dot ∷ dotted (1 ∷ 3 ∷ 6 ∷ []))
unfolding legal_oid_arc_pair
decode_oid-encode_oid_example =
    decode_oid-encode_oid 1 3 (6 ∷ []) refl (omega arith) (omega arith, tt) short_body

-- An answer to a v1 request with the request-id 0.
abbrev request : SnmpRequest
request = record {
  community = private;
  request_id = pos 0;
  oid = sys_descr;
  version = pos 0;
  community_parsed = true;
}

abbrev no_ip : Bytes → Option Bytes
no_ip text = none

empty_fits : message_size no_ip [] 548 request 0 ≤ 548
unfolding snmp_message_size_for len_bytes_for encode_integer integer_bytes encode_octet_string
    encode_length
empty_fits = omega arith

abbrev bindings : List Bytes
bindings = (0x30 ∷ 0 ∷ []) ∷ []

bounded_response-Longest_example :
    Longest no_ip [] 548 request
      (omega arith)
      (encode_bindings no_ip [] 548 (sys_descr ∷ []) (private ∷ []))
      (bounded_response no_ip [] 548 request overflow_truncate
        (encode_bindings no_ip [] 548 (sys_descr ∷ []) (private ∷ [])))
bounded_response-Longest_example =
    bounded_response-Longest no_ip [] 548 request (omega arith) (sys_descr ∷ []) (private ∷ [])
      empty_fits

message_small :
    snmp_message_size_for (msg_prefix_of request) (pdu_prefix_of request 0 0) (length list) < 65536
unfolding snmp_message_size_for len_bytes_for encode_integer integer_bytes encode_octet_string
    encode_length
message_small = omega arith

compare_oids-dotted_example :
    compare_oids (dotted (1 ∷ 3 ∷ 6 ∷ [])) (dotted (1 ∷ 3 ∷ 10 ∷ []))
    ≡ some (compare_arcs (1 ∷ 3 ∷ 6 ∷ []) (1 ∷ 3 ∷ 10 ∷ []))
compare_oids-dotted_example =
    compare_oids-dotted (1 ∷ 3 ∷ 6 ∷ []) (1 ∷ 3 ∷ 10 ∷ [])
      (omega arith, (omega arith, (omega arith, tt)))
      (omega arith, (omega arith, (omega arith, tt)))

-- The budgets of an MTU of 576, before and after.
abbrev budgets_of : ℕ → DatagramBudgets
budgets_of mtu = record {
  link_mtu = mtu;
  max_flow_payload_ipv4 = mtu - 28;
  max_flow_payload_ipv6 = mtu - 48;
  flow_buf_size = mtu;
  max_trap_pdu = mtu - 28;
  max_snmp_response_size = mtu - 28;
}

mtu_set : set_link_mtu 576 (budgets_of 1500) ≡ some (budgets_of 576)
unfolding set_link_mtu recompute_datagram_budgets
mtu_set = refl

bounded_response_fits_mtu_example :
    length (bounded_response no_ip [] 548 request overflow_too_big bindings) + 20 + 8 ≤ 576
bounded_response_fits_mtu_example =
    bounded_response_fits_mtu no_ip [] 576 (budgets_of 1500) (budgets_of 576) request bindings
      mtu_set empty_fits

-- The same request under a version that is not v1.
abbrev newer : SnmpRequest
newer = record {
  community = private;
  request_id = pos 0;
  oid = sys_descr;
  version = negsuc 0;
  community_parsed = true;
}

newer_fits : message_size no_ip [] 548 newer 0 ≤ 548
unfolding snmp_message_size_for len_bytes_for encode_integer integer_bytes encode_octet_string
    encode_length
newer_fits = omega arith

newer_not_v1 : is_version1 newer.version ≡ false
newer_not_v1 = refl

create_get_response-whole_example :
    (create_get_response no_ip [] 548 sys_descr (sys_descr ∷ []) (private ∷ []) newer
      ≡ whole no_ip [] 548 sys_descr (sys_descr ∷ []) (private ∷ []) newer refl)
    × (create_get_next_response no_ip [] 548 sys_descr
          (sys_descr ∷ [])
          (sys_descr ∷ [])
          (private ∷ [])
          newer
        ≡ whole no_ip [] 548 sys_descr (sys_descr ∷ []) (private ∷ []) newer refl)
create_get_response-whole_example =
    create_get_response-whole no_ip [] 548 sys_descr (sys_descr ∷ []) (private ∷ []) newer refl
      (sys_descr ∷ []) newer_not_v1 newer_fits

request_v1 : is_version1 request.version ≡ true
request_v1 = refl

missing :
    FirstAt no_ip [] 548 v1_divert_sentinel_and_counter64
      (sys_descr ∷ [])
      (value_no_such_object ∷ [])
      0
unfolding offends is_snmp_exception_value bytes_eq
missing = refl

create_get_response-FirstAt_example :
    create_get_response no_ip [] 548 sys_descr (sys_descr ∷ []) (value_no_such_object ∷ []) request
    ≡ encode_get_response_at request (echo_nulls (sys_descr ∷ [])) snmp_err_no_such_name (0 + 1)
create_get_response-FirstAt_example =
    create_get_response-FirstAt no_ip [] 548 sys_descr (sys_descr ∷ []) (value_no_such_object ∷ [])
      request 0 refl request_v1 missing

-- A device that serves nothing but its name and its location.
abbrev bare : MibView
bare = record {
  oid_index = λ o. none;
  oid_next_map = λ o. none;
  sorted_oids = [];
  sorted_metric_oids = [];
  metrics = none;
  if_counters = none;
  sys_name = [];
  sys_location = [];
  lldp_served = [];
  lldp_get = λ o. [];
}

device-EngineFits : EngineFits device (interface_state device)
device-EngineFits = (engine-Family, device-Served)

handle_snmpv2c_request-Dispatched_example :
    Returns
      (handle_snmpv2c_request no_ip [] 548 bare private clock device datagram)
      (Dispatched no_ip [] 548 bare clock device device-EngineFits private datagram)
handle_snmpv2c_request-Dispatched_example =
    handle_snmpv2c_request-Dispatched no_ip [] 548 bare clock device device-EngineFits private
      datagram

get_pdu_type-parser_example :
    (parse_incoming_request datagram ≡ (envelope datagram >>= request_from datagram))
    × (get_pdu_type datagram ≡ (envelope datagram >>= tag_from datagram))
get_pdu_type-parser_example = get_pdu_type-parser datagram
