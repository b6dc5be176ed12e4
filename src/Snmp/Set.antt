-- ===== src/Snmp/Set.antt =====
-- The SetRequest of go/nl6/snmp_set.go: the writable set, the tests on the bindings, and their
-- application through the interface engine. A device, its cycler or its counters that are nil are
-- one `none`. `clock i` is the reading of the engine's clock at action `i`. The events of a result
-- are those that `Broadcast` is called with, in order.
pub mod Judge
pub mod Outcome
pub mod Handle
use nl.Prelude.{
  ℕ, ◌+◌, ◌-◌, ◌%◌, Bool, true, false, not, ◌&&◌, ◌||◌, Option, none, some, List, [], ◌∷◌, ◌++◌,
  ltb, leb, ◌==◌, if◌then◌else◌, length, drop, contains,
}
use nl.Prelude.Bytes.{Bytes, bytes_eq, has_prefix}
use nl.Prelude.Int.{ℤ, pos, negsuc}
use nl.Prelude.Go.{Go, ret, panic, stuck, ◌>>=◌}
use nl.Prelude.Text.{dot, trim_dot, atoi, itoa, dotted}
use nl.Interface.Word.{admin_up, admin_testing}
use nl.Interface.State.{InterfaceState}
use nl.Interface.Mutate.{StateChange, apply_admin_status}
use nl.Snmp.Integer.{asn1_integer, parse_ber_int}
use nl.Snmp.Varbinds.{VarBind}
use nl.Snmp.Response.{snmp_err_no_error}

abbrev pub snmp_err_gen_err : ℕ
snmp_err_gen_err = 5

abbrev pub snmp_err_wrong_type : ℕ
snmp_err_wrong_type = 7

abbrev pub snmp_err_wrong_encoding : ℕ
snmp_err_wrong_encoding = 9

abbrev pub snmp_err_wrong_value : ℕ
snmp_err_wrong_value = 10

abbrev pub snmp_err_no_creation : ℕ
snmp_err_no_creation = 11

abbrev pub snmp_err_not_writable : ℕ
snmp_err_not_writable = 17

pub record WritableObject : Type 0 where
  pub column : Bytes
  pub tag : ℕ
  pub in_range : ℤ → Bool

-- 1.3.6.1.2.1.2.2.1.7
abbrev pub if_admin_status_column : Bytes
if_admin_status_column = dotted (1 ∷ 3 ∷ 6 ∷ 1 ∷ 2 ∷ 1 ∷ 2 ∷ 2 ∷ 1 ∷ 7 ∷ [])

abbrev pub admin_in_range : ℤ → Bool
admin_in_range (pos v) = leb admin_up v && leb v admin_testing
admin_in_range (negsuc v) = false

unfoldable pub writable_columns : List WritableObject
writable_columns =
    record { column = if_admin_status_column; tag = asn1_integer; in_range = admin_in_range } ∷ []

pub record SetVerdict : Type 0 where
  pub err_status : ℕ
  pub err_index : ℕ

pub record SetAction : Type 0 where
  pub column : Bytes
  pub if_index : ℕ
  pub value : ℤ

-- The loop over the rows, for a name without its leading dot.
pub find_row : List WritableObject → Bytes → Option (WritableObject × Bytes)
find_row [] n = none
find_row (w ∷ ws) n =
    let rest = find_row ws n in
    if bytes_eq n w.column
    then some (w, [])
    else if has_prefix n (w.column ++ (dot ∷ []))
    then some (w, drop (length w.column + 1) n)
    else rest

unfoldable pub writable_for : Bytes → Option (WritableObject × Bytes)
unfolding find_row
writable_for name = find_row writable_columns (trim_dot name)

-- `err != nil || n <= 0 || strconv.Itoa(n) != suffix`
abbrev pub positive_index : Bytes → Option ℤ → Option ℕ
positive_index suffix (some (pos n)) =
    if n == 0 || not (bytes_eq (itoa n) suffix) then none else some n
positive_index suffix _ = none

unfoldable pub instance_index : Bytes → Option ℕ
instance_index suffix =
    if bytes_eq suffix [] || contains suffix dot then none else positive_index suffix (atoi suffix)

-- The cycler of the interface counters, and its engine.
pub record IfCounters : Type 0 where
  pub if_indices : List ℕ
  pub state : Option InterfaceState

abbrev pub owns_if_index : Option IfCounters → ℕ → Bool
owns_if_index none n = false
owns_if_index (some ic) n = contains ic.if_indices n

abbrev pub interface_state : Option IfCounters → Option InterfaceState
interface_state none = none
interface_state (some ic) = ic.state

-- The end of the tests on one binding: an error-status, or an action.
pub data Judgement : Type 0 where
  refused : ℕ → Judgement
  accepted : SetAction → Judgement

-- The test on the instance.
abbrev pub judge_instance : Option IfCounters → WritableObject → ℤ → Option ℕ → Judgement
judge_instance dev row v none = refused snmp_err_no_creation
judge_instance dev row v (some n) =
    if not (owns_if_index dev n)
    then refused snmp_err_no_creation
    else accepted (record { column = row.column; if_index = n; value = v })

-- The tests on the value, and then on the instance.
abbrev pub judge_value : Option IfCounters → WritableObject → Bytes → Option ℤ → Judgement
judge_value dev row suffix none = refused snmp_err_wrong_encoding
judge_value dev row suffix (some v) =
    if not (row.in_range v)
    then refused snmp_err_wrong_value
    else judge_instance dev row v (instance_index suffix)

-- The body of the loop of `validateSetBindings`.
abbrev pub judge_row : Option IfCounters → VarBind → Option (WritableObject × Bytes) → Go Judgement
judge_row dev b none = ret (refused snmp_err_not_writable)
judge_row dev b (some (row, suffix)) =
    if not (b.tag == row.tag)
    then ret (refused snmp_err_wrong_type)
    else (parse_ber_int b.content 0 (length b.content) >>= λ v. ret (judge_value dev row suffix v))

unfoldable pub judge : Option IfCounters → VarBind → Go Judgement
judge dev b = judge_row dev b (writable_for b.name)

abbrev pub no_offence : SetVerdict
no_offence = record { err_status = snmp_err_no_error; err_index = 0 }

-- An action in front of what the rest of the loop returns; an error returns no actions.
abbrev pub with_action : SetAction → List SetAction × SetVerdict → List SetAction × SetVerdict
with_action a (actions, v) = if v.err_status == snmp_err_no_error then (a ∷ actions, v) else ([], v)

abbrev pub after_judgement :
    ℕ → Go (List SetAction × SetVerdict) → Judgement → Go (List SetAction × SetVerdict)
after_judgement i rest (refused status) =
    ret ([], record { err_status = status; err_index = i + 1 })
after_judgement i rest (accepted a) = rest >>= λ r. ret (with_action a r)

-- The loop over the bindings, from index `i` on.
pub validate_from : Option IfCounters → ℕ → List VarBind → Go (List SetAction × SetVerdict)
validate_from dev i [] = ret ([], no_offence)
validate_from dev i (b ∷ bs) =
    let rest = validate_from dev (i + 1) bs in judge dev b >>= after_judgement i rest

unfoldable pub validate_set_bindings :
    Option IfCounters → List VarBind → Go (List SetAction × SetVerdict)
unfolding validate_from
validate_set_bindings dev binds = validate_from dev 0 binds

-- `uint8(a.value)`
abbrev pub to_uint8 : ℤ → ℕ
to_uint8 (pos n) = n % 256
to_uint8 (negsuc n) = 255 - n % 256

-- The loop over the actions, from index `i` on.
pub apply_from :
    (ℕ → ℕ)
    → ℕ
    → Option InterfaceState
    → List SetAction
    → Option InterfaceState × List StateChange × SetVerdict
apply_from clock i state [] = (state, [], no_offence)
apply_from clock i none (a ∷ actions) =
    (none, [], record { err_status = snmp_err_gen_err; err_index = i + 1 })
apply_from clock i (some s) (a ∷ actions) =
    let (s', events) = apply_admin_status s a.if_index (to_uint8 a.value) (clock i) in
    let (s'', more, v) = apply_from clock (i + 1) (some s') actions in
    if not (bytes_eq a.column if_admin_status_column)
    then (some s, [], record { err_status = snmp_err_gen_err; err_index = i + 1 })
    else (s'', events ++ more, v)

-- The counters with the engine as the mutators leave it.
abbrev pub with_state : Option IfCounters → Option InterfaceState → Option IfCounters
with_state none state = none
with_state (some ic) state = some (record ic { state = state })

unfoldable pub apply_set_actions :
    (ℕ → ℕ) → Option IfCounters → List SetAction → Option IfCounters × List StateChange × SetVerdict
unfolding apply_from
apply_set_actions clock dev actions =
    let (state, events, v) = apply_from clock 0 (interface_state dev) actions in
    (with_state dev state, events, v)

unfoldable pub decide_set :
    (ℕ → ℕ)
    → Option IfCounters
    → List VarBind
    → Go (Option IfCounters × List StateChange × SetVerdict)
decide_set clock dev binds = validate_set_bindings dev binds >>= λ r.
    let (actions, v) = r in
    if not (v.err_status == snmp_err_no_error)
    then ret (dev, [], v)
    else ret (apply_set_actions clock dev actions)
