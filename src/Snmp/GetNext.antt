-- ===== src/Snmp/GetNext.antt =====
-- The bindings of a GETNEXT: `getNextBindingsForRequest`, `getNextBinding` and `counter64SkipBudget`
-- of go/nl6/snmp_server.go. The budget is the steps that remain; a request has one, so it is not nil.
-- The log lines are not modelled.

pub mod Skips
use nl.Prelude.{
  ℕ, zero, suc, Bool, true, false, not, ◌&&◌, Option, none, some, List, [], ◌∷◌, ◌*◌, ◌/◌, ◌==◌,
  if◌then◌else◌,
}
use nl.Prelude.Bytes.{Bytes}
use nl.Prelude.Int.{ℤ}
use nl.Snmp.Integer.{asn1_counter64}
use nl.Snmp.Oid.Order.{oid_le}
use nl.Snmp.Value.{OidTypeEntry, type_tag_in, value_end_of_mib_view}
use nl.Snmp.Response.{is_version1}
use nl.Snmp.Walk.{Entry, MibView, is_empty, find_next_oid_with_served}

abbrev pub longest_shipped_counter64_run : ℕ
longest_shipped_counter64_run = 1152

abbrev pub min_varbind_size : ℕ
min_varbind_size = 15

-- `budget` is `maxSNMPResponseSize`.
unfoldable pub max_get_next_bindings : ℕ → ℕ
max_get_next_bindings budget = budget / min_varbind_size

unfoldable pub counter64_skip_budget_steps : ℕ → ℕ
counter64_skip_budget_steps budget = max_get_next_bindings budget * longest_shipped_counter64_run

abbrev pub or_end : Bytes → Entry → Entry
or_end requested e = if is_empty e.0 then (requested, value_end_of_mib_view) else e

module _ (table : List OidTypeEntry) (mib : MibView) where
  -- `responseOID != "" && snmpTypeTag(responseOID) == ASN1_COUNTER64`
  unfoldable pub is_counter64 : Bytes → Bool
  is_counter64 oid = not (is_empty oid) && type_tag_in table oid == asn1_counter64

  -- The loop over the Counter64 objects, and the steps that remain.
  unfoldable pub skip_counter64 : ℕ → Entry → Entry × ℕ
  skip_counter64 zero e = if is_counter64 e.0 then (([], e.1), 0) else (e, 0)
  skip_counter64 (suc remaining) e =
      let after = find_next_oid_with_served mib e.0 in
      let rest = skip_counter64 remaining after in
      if is_counter64 e.0
      then (if not (is_empty after.0) && oid_le after.0 e.0
          then (([], after.1), remaining)
          else rest)
      else (e, suc remaining)

  unfoldable pub get_next_binding : ℤ → ℕ → Bytes → Entry × ℕ
  get_next_binding version remaining requested =
      let e = find_next_oid_with_served mib requested in
      let (found, left) =
        if is_version1 version && is_counter64 e.0
        then skip_counter64 remaining e
        else (e, remaining) in
      (or_end requested found, left)

  -- Each binding draws on what the ones in front of it left.
  pub get_next_bindings_for_request : ℤ → ℕ → List Bytes → List Entry
  get_next_bindings_for_request version remaining [] = []
  get_next_bindings_for_request version remaining (requested ∷ oids) =
      let (e, left) = get_next_binding version remaining requested in
      e ∷ get_next_bindings_for_request version left oids
