-- ===== src/Snmp/Response/Builders.antt =====
-- The builders of go/nl6/snmp_response.go that a GET, a GETNEXT and a GETBULK are answered with.
use nl.Prelude.{
  ℕ, zero, suc, ◌+◌, ◌≤◌, ◌≡◌, refl, ap, ◌∙◌, true, false, Option, none, some, List, [], ◌∷◌, leb,
  ◌==◌, if◌then◌else◌, length, arith,
}
use nl.Prelude.Bytes.{Bytes}
use nl.Snmp.Value.{OidTypeEntry}
use nl.Snmp.Response.{
  SnmpRequest, is_version1, VarbindResponseRules, V1DiversionRule, v1_divert_nothing,
  v1_divert_sentinel, v1_divert_sentinel_and_counter64, overflow_truncate, overflow_too_big,
  resolve_defaults, echo_nulls, echoed_names, offends, first_offence, encode_bindings,
  create_varbind_response, encode_get_response, encode_get_response_at, snmp_err_no_error,
  snmp_err_too_big, snmp_err_no_such_name,
}
use nl.Snmp.Response.Budget.{joined, message_size, bounded_response-too_big}

abbrev pub get_rules : VarbindResponseRules
get_rules = record {
  overflow = overflow_too_big;
  v1_diversion = v1_divert_sentinel_and_counter64;
  echo_names = none;
}

abbrev pub get_next_rules : List Bytes → VarbindResponseRules
get_next_rules names = record {
  overflow = overflow_too_big;
  v1_diversion = v1_divert_sentinel;
  echo_names = some names;
}

abbrev pub get_bulk_rules : VarbindResponseRules
get_bulk_rules = record {
  overflow = overflow_truncate;
  v1_diversion = v1_divert_nothing;
  echo_names = none;
}

unfoldable pub create_too_big_response : SnmpRequest → Bytes
create_too_big_response req = encode_get_response req [] snmp_err_too_big

module _ (to4 : Bytes → Option Bytes) (table : List OidTypeEntry) (budget : ℕ) where
  unfoldable pub create_get_bulk_response : Bytes → List Bytes → List Bytes → SnmpRequest → Bytes
  create_get_bulk_response sys_descr oids responses req =
      create_varbind_response to4 table budget sys_descr oids responses req get_bulk_rules

  unfoldable pub create_get_response : Bytes → List Bytes → List Bytes → SnmpRequest → Bytes
  create_get_response sys_descr oids responses req =
      create_varbind_response to4 table budget sys_descr oids responses req get_rules

  unfoldable pub create_get_next_response :
      Bytes → List Bytes → List Bytes → List Bytes → SnmpRequest → Bytes
  create_get_next_response sys_descr names oids responses req =
      create_varbind_response to4 table budget sys_descr oids responses req (get_next_rules names)

  module _ (sys_descr : Bytes) (oids responses : List Bytes) (req : SnmpRequest)
      (same : length oids ≡ length responses) where
    abbrev bindings : List Bytes
    bindings = encode_bindings to4 table budget oids responses

    same_test : (length oids == length responses) ≡ true
    same_test = ground arith

    -- The whole answer, or tooBig.
    abbrev pub whole : Bytes
    whole =
        if leb (message_size to4 table budget req (length (joined bindings))) budget
        then encode_get_response req (joined bindings) snmp_err_no_error
        else create_too_big_response req

    -- For a v2c request, as many values as OIDs, and a budget that a response without bindings
    -- fits: a GET and a GETNEXT, whatever its names, are answered with all of the bindings where that
    -- message fits, and else with exactly what `createTooBigResponse` builds.
    pub create_get_response-whole :
        (names : List Bytes)
        → is_version1 req.version ≡ false
        → message_size to4 table budget req 0 ≤ budget
        → (create_get_response sys_descr oids responses req ≡ whole)
          × (create_get_next_response sys_descr names oids responses req ≡ whole)
    unfolding create_get_response create_get_next_response create_varbind_response resolve_defaults
        create_too_big_response
    create_get_response-whole names v2 fits =
        let answer = bounded_response-too_big to4 table budget req bindings fits in
        (rw same_test (rw v2 answer), rw same_test (rw v2 answer))

  -- The binding of index `k` from 0 offends, and none in front of it.
  abbrev pub FirstAt : V1DiversionRule → List Bytes → List Bytes → ℕ → Type 0
  FirstAt rule (o ∷ oids) (v ∷ values) zero = offends to4 table budget rule o v ≡ true
  FirstAt rule (o ∷ oids) (v ∷ values) (suc k) =
      (offends to4 table budget rule o v ≡ false) × FirstAt rule oids values k
  FirstAt rule _ _ k = ⊥

  first_offence-FirstAt :
      (rule : V1DiversionRule) (i : ℕ) (oids values : List Bytes) (k : ℕ)
      → FirstAt rule oids values k
      → first_offence to4 table budget rule i oids values ≡ some (i + k + 1)
  unfolding first_offence
  first_offence-FirstAt rule i (o ∷ oids) (v ∷ values) zero h = rw h (ap some (omega arith))
  first_offence-FirstAt rule i (o ∷ oids) (v ∷ values) (suc k) h =
      rw (h.0) (first_offence-FirstAt rule (i + 1) oids values k h.1 ∙ ap some (omega arith))
  first_offence-FirstAt rule i [] values k h = absurd h
  first_offence-FirstAt rule i (o ∷ oids) [] k h = absurd h

  -- A v1 GET with as many values as OIDs, in which a binding offends, by an exception value or a
  -- Counter64 object, is answered with noSuchName, the index from 1 of the first that does, and the
  -- OIDs with null values.
  pub create_get_response-FirstAt :
      (sys_descr : Bytes) (oids responses : List Bytes) (req : SnmpRequest) (k : ℕ)
      → length oids ≡ length responses
      → is_version1 req.version ≡ true
      → FirstAt v1_divert_sentinel_and_counter64 oids responses k
      → create_get_response sys_descr oids responses req
        ≡ encode_get_response_at req (echo_nulls oids) snmp_err_no_such_name (k + 1)
  unfolding create_get_response create_varbind_response resolve_defaults echoed_names
  create_get_response-FirstAt sys_descr oids responses req k same v1 h =
      let equal : (length oids == length responses) ≡ true = ground arith in
      let first = first_offence-FirstAt v1_divert_sentinel_and_counter64 0 oids responses k h in
      let q : 0 + k + 1 ≡ k + 1 = omega arith in rw equal (rw v1 (rw first (rw q refl)))
