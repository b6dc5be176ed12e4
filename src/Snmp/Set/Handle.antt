-- ===== src/Snmp/Set/Handle.antt =====
-- A v1 or v2c SetRequest from its datagram to its answer: `admitSetV2c` and `handleSetRequest` of
-- go/nl6/snmp_set.go, `createSetResponse` and `v1SetErrorStatus` of snmp_response.go, and the SET
-- branch of `handleSNMPv2cRequest` (snmp_server.go). An answer of none sends no datagram; the log
-- lines are not modelled.
pub mod Safe
use nl.Prelude.{
  ℕ, zero, suc, ◌+◌, Bool, true, false, not, ◌&&◌, ◌||◌, Option, none, some, List, [], ◌∷◌, ltb,
  leb, ◌==◌, if◌then◌else◌, length,
}
use nl.Prelude.Bytes.{Bytes, bytes_eq}
use nl.Prelude.Int.{ℤ}
use nl.Prelude.Go.{Go, ret, panic, stuck, ◌>>=◌, index, slice}
use nl.Interface.Mutate.{StateChange}
use nl.Snmp.Length.{parse_length}
use nl.Snmp.Tlv.{asn1_sequence}
use nl.Snmp.Varbinds.{
  VarBinds, malformed, absent, parsed, parse_var_binds, request_var_bind_list_pos,
}
use nl.Snmp.Response.{
  SnmpRequest, is_version1, encode_get_response_at, snmp_err_no_error, snmp_err_no_such_name,
}
use nl.Snmp.Request.{parse_incoming_request}
use nl.Snmp.Set.{
  IfCounters, SetVerdict, decide_set, snmp_err_gen_err, snmp_err_wrong_type,
  snmp_err_wrong_encoding, snmp_err_wrong_value, snmp_err_no_creation, snmp_err_not_writable,
}

abbrev pub snmp_err_bad_value : ℕ
snmp_err_bad_value = 3

abbrev pub snmp_err_no_access : ℕ
snmp_err_no_access = 6

abbrev pub snmp_err_wrong_length : ℕ
snmp_err_wrong_length = 8

abbrev pub snmp_err_inconsistent_value : ℕ
snmp_err_inconsistent_value = 12

abbrev pub snmp_err_resource_unavailable : ℕ
snmp_err_resource_unavailable = 13

abbrev pub snmp_err_commit_failed : ℕ
snmp_err_commit_failed = 14

abbrev pub snmp_err_undo_failed : ℕ
snmp_err_undo_failed = 15

abbrev pub snmp_err_authorization_error : ℕ
snmp_err_authorization_error = 16

abbrev pub snmp_err_inconsistent_name : ℕ
snmp_err_inconsistent_name = 18

unfoldable pub v1_set_error_status : ℕ → ℕ
v1_set_error_status v2 =
    if v2 == snmp_err_no_access
      || v2 == snmp_err_not_writable
      || v2 == snmp_err_no_creation
      || v2 == snmp_err_inconsistent_name
      || v2 == snmp_err_authorization_error
    then snmp_err_no_such_name
    else if v2 == snmp_err_wrong_type
        || v2 == snmp_err_wrong_length
        || v2 == snmp_err_wrong_encoding
        || v2 == snmp_err_wrong_value
        || v2 == snmp_err_inconsistent_value
    then snmp_err_bad_value
    else if v2 == snmp_err_resource_unavailable
        || v2 == snmp_err_commit_failed
        || v2 == snmp_err_undo_failed
    then snmp_err_gen_err
    else v2

unfoldable pub create_set_response : Bytes → Bytes → ℕ → ℕ → Go Bytes
create_set_response request echoed err_status err_index = parse_incoming_request request >>= λ req.
    let status = if is_version1 req.version then v1_set_error_status err_status else err_status in
    let index = if status == snmp_err_no_error then 0 else err_index in
    ret (encode_get_response_at req echoed status index)

-- The device behind a request, the events that it broadcasts, and the answer.
abbrev pub Handled : Type 0
Handled = Option IfCounters × List StateChange × Option Bytes

abbrev pub discard : Option IfCounters → Go Handled
discard dev = ret (dev, [], none)

-- Whether a list header at `p` ends on the PDU's boundary, or is not there.
abbrev pub ends_on : ℕ → Option ℕ × ℕ → Bool
ends_on pdu_end (none, after) = true
ends_on pdu_end (some n, after) = not (ltb pdu_end (after + n) || not (after + n == pdu_end))

unfoldable pub list_ends : Bytes → ℕ → ℕ → Go Bool
list_ends bs p pdu_end =
    if ltb p pdu_end
    then (index bs p >>= λ b.
        if b == asn1_sequence
        then (parse_length bs (p + 1) >>= λ r. ret (ends_on pdu_end r))
        else ret true)
    else ret true

-- The verdict and the answer on a list.
abbrev pub answer_set : (ℕ → ℕ) → Option IfCounters → Bytes → VarBinds → Go Handled
answer_set clock dev bs malformed = discard dev
answer_set clock dev bs absent = discard dev
answer_set clock dev bs (parsed binds echoed) = decide_set clock dev binds >>= λ r.
    let (dev', events, v) = r in
    create_set_response bs echoed v.err_status v.err_index >>= λ response.
    ret (dev', events, some response)

-- Behind the envelope.
abbrev pub handle_list : (ℕ → ℕ) → Option IfCounters → Bytes → Option (ℕ × ℕ) → Go Handled
handle_list clock dev bs none = discard dev
handle_list clock dev bs (some (p, pdu_end)) =
    if ltb (length bs) pdu_end || ltb pdu_end p
    then discard dev
    else (list_ends bs p pdu_end >>= λ ends.
        if not ends
        then discard dev
        else (slice bs 0 pdu_end >>= λ pdu. parse_var_binds pdu p >>= answer_set clock dev bs))

unfoldable pub handle_set_request : (ℕ → ℕ) → Option IfCounters → Bytes → Go Handled
handle_set_request clock dev bs = request_var_bind_list_pos bs >>= handle_list clock dev bs

-- `want` is the device's write community.
unfoldable pub admit_set_v2c : Bytes → SnmpRequest → Bool
admit_set_v2c want req =
    if bytes_eq want []
    then false
    else if not req.community_parsed
    then false
    else bytes_eq req.community want

-- The SET branch of the dispatcher.
unfoldable pub dispatch_set : Bytes → (ℕ → ℕ) → Option IfCounters → Bytes → Go Handled
dispatch_set want clock dev bs = parse_incoming_request bs >>= λ req.
    if not (admit_set_v2c want req) then discard dev else handle_set_request clock dev bs
