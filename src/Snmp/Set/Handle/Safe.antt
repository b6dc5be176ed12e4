-- ===== src/Snmp/Set/Handle/Safe.antt =====
-- Only an admitted SetRequest touches a device, and then as a whole.
use nl.Prelude.{
  Option-cases, subst, ℕ, ◌+◌, ◌≤◌, ◌≡◌, ◌≢◌, ◌⊎◌, inl, inr, refl, sym, ◌∙◌, true, false, not, ◌||◌,
  Option, none, some, List, [], ltb, ◌==◌, Bool-cases, length, take, drop, arith,
}
use nl.Prelude.Bytes.{Bytes, bytes_eq, bytes_eq_sound}
use nl.Prelude.Go.{
  ret, ◌>>=◌, index, slice, Returns, Returns-bind, Returns-if, Returns-weaken, index-Returns,
}
use nl.Interface.State.{InterfaceState}
use nl.Interface.State.Family.{Family}
use nl.Interface.Mutate.{StateChange}
use nl.Snmp.Length.{parse_length}
use nl.Snmp.Length.Safe.{parse_length-Returns}
use nl.Snmp.Tlv.{asn1_sequence}
use nl.Snmp.Varbinds.{
  VarBind, VarBinds, malformed, absent, parsed, parse_var_binds, request_var_bind_list_pos,
}
use nl.Snmp.Varbinds.Safe.{parse_var_binds-Returns, slice-Returns}
use nl.Snmp.Varbinds.Envelope.{request_var_bind_list_pos-Returns}
use nl.Snmp.Response.{SnmpRequest}
use nl.Snmp.Request.{parse_incoming_request}
use nl.Snmp.Request.Safe.{CommunityOf, parse_incoming_request-Returns}
use nl.Snmp.Set.{IfCounters, SetVerdict, SetAction, decide_set, interface_state}
use nl.Snmp.Set.Outcome.{
  Accepts, Applied, Served, AllOrNothing, decide_set-AllOrNothing, decide_set_no_engine,
}
use nl.Snmp.Set.Handle.{
  create_set_response, Handled, list_ends, answer_set, handle_list, handle_set_request,
  admit_set_v2c, dispatch_set,
}

create_set_response-Returns :
    (bs echoed : Bytes) (status index : ℕ)
    → Returns (create_set_response bs echoed status index) (λ r. Unit {0})
unfolding create_set_response
create_set_response-Returns bs echoed status index =
    Returns-bind (parse_incoming_request bs) _ _ _ (parse_incoming_request-Returns bs) (λ req h. tt)

list_ends-Returns :
    (bs : Bytes) (p pdu_end : ℕ)
    → pdu_end ≤ length bs
    → Returns (list_ends bs p pdu_end) (λ ends. Unit {0})
unfolding list_ends
list_ends-Returns bs p pdu_end le =
    Returns-if (ltb p pdu_end) _ _ _
      (λ e. Returns-bind (index bs p) _ _ _ (index-Returns bs p (ground arith)) (λ b u.
        Returns-if (b == asn1_sequence) _ _ _
          (λ t.
            Returns-bind (parse_length bs (p + 1)) _ _ _ (parse_length-Returns bs (p + 1))
              (λ r h. tt))
          (λ t. tt)))
      (λ e. tt)

not_empty : (want : Bytes) → want ≡ [] → bytes_eq want [] ≢ false
unfolding bytes_eq
not_empty want q e = let k = rw q at e in absurd (cc k)

admitted_request :
    (want : Bytes) (req : SnmpRequest)
    → admit_set_v2c want req ≡ true
    → (want ≢ []) × (req.community_parsed ≡ true) × (req.community ≡ want)
unfolding admit_set_v2c
admitted_request want req h = elim (Bool-cases (bytes_eq want [])) [
  | inl e ↦ absurd (cc (rw e at h))
  | inr e ↦
      let k = rw e at h in
      elim (Bool-cases (req.community_parsed)) [
        | inl f ↦ (λ q. not_empty want q e, f, bytes_eq_sound req.community want (rw f at k))
        | inr f ↦ absurd (cc (rw f at k))
      ]
]

-- The community that is admitted is in the datagram.
admitted :
    (want bs : Bytes) (req : SnmpRequest)
    → CommunityOf bs req
    → admit_set_v2c want req ≡ true
    → (want ≢ []) × ((p : ℕ) × (take (length want) (drop p bs) ≡ want))
admitted want bs req (inl (is_parsed, (p, there))) h =
    let (ne, f, is) = admitted_request want req h in (ne, (p, rw is at there))
admitted want bs req (inr (not_parsed, is_default)) h =
    let (ne, f, is) = admitted_request want req h in absurd (cc (sym f ∙ not_parsed))

-- What a device's engine has where it has one: consistent parent tables, and all of the interfaces
-- that the device serves.
abbrev pub EngineFits : Option IfCounters → Option InterfaceState → Type 0
EngineFits dev none = Unit {0}
EngineFits dev (some s) = Family s × Served dev s

module _ (clock : ℕ → ℕ) (dev : Option IfCounters)
    (fits : EngineFits dev (interface_state dev)) where
  -- Nothing is touched, or the bindings of a list are all assigned to the engine and the request is
  -- answered.
  abbrev pub Whole : Handled → Type 0
  Whole r =
      ((r.0 ≡ dev) × (r.1 ≡ []))
      ⊎ ((s : InterfaceState) × (binds : List VarBind) × (actions : List SetAction)
          × (v : SetVerdict) × (response : Bytes) × (interface_state dev ≡ some s)
          × Accepts dev binds actions
          × Applied s actions (interface_state r.0, r.1, v)
          × (r.2 ≡ some response))

  answer_set-Whole : (bs : Bytes) (list : VarBinds) → Returns (answer_set clock dev bs list) Whole
  answer_set-Whole bs malformed = inl (refl, refl)
  answer_set-Whole bs absent = inl (refl, refl)
  answer_set-Whole bs (parsed binds echoed) = elim (Option-cases (interface_state dev)) [
    | inl e ↦
        Returns-bind (decide_set clock dev binds) _ (λ r. (r.0 ≡ dev) × (r.1 ≡ [])) Whole
          (decide_set_no_engine clock dev binds e) (λ r h. framed r (λ response. inl h))
    | inr (s, e) ↦
        let (fam, served) : EngineFits dev (some s) = subst (EngineFits dev) e fits in
        Returns-bind (decide_set clock dev binds) _ (AllOrNothing dev s binds) Whole
          (decide_set-AllOrNothing clock dev s binds e fam served)
          (λ r h. framed r (λ response. decided s e r response h))
  ]
    where
      framed :
          (r : Option IfCounters × List StateChange × SetVerdict)
          → ((response : Bytes) → Whole (r.0, r.1, some response))
          → Returns {A = Handled}
              (create_set_response bs echoed r.2.err_status r.2.err_index >>= λ response.
                ret (r.0, r.1, some response))
              Whole
      framed r h =
          Returns-bind (create_set_response bs echoed r.2.err_status r.2.err_index) _ _ Whole
            (create_set_response-Returns bs echoed r.2.err_status r.2.err_index)
            (λ response u. h response)

      decided :
          (s : InterfaceState)
          → interface_state dev ≡ some s
          → (r : Option IfCounters × List StateChange × SetVerdict) (response : Bytes)
          → AllOrNothing dev s binds r
          → Whole (r.0, r.1, some response)
      decided s e r response (inl q) = inl (q.0, q.1)
      decided s e r response (inr q) = inr (s, binds, q.0, r.2, response, e, q.1, q.2, refl)

  handle_list-Whole :
      (bs : Bytes) (at : Option (ℕ × ℕ)) → Returns (handle_list clock dev bs at) Whole
  handle_list-Whole bs none = inl (refl, refl)
  handle_list-Whole bs (some (p, pdu_end)) =
      Returns-if (ltb (length bs) pdu_end || ltb pdu_end p) _ _ Whole (λ e. inl (refl, refl))
        (λ e.
          let le : pdu_end ≤ length bs = ground arith in
          Returns-bind (list_ends bs p pdu_end) _ _ Whole (list_ends-Returns bs p pdu_end le)
            (λ ends u.
              Returns-if (not ends) _ _ Whole (λ t. inl (refl, refl))
                (λ t.
                  Returns-bind (slice bs 0 pdu_end) _ _ Whole
                    (slice-Returns bs 0 pdu_end (omega arith) le)
                    (λ pdu l.
                      Returns-bind (parse_var_binds pdu p) _ _ Whole (parse_var_binds-Returns pdu p)
                        (λ list c. answer_set-Whole bs list)))))

  handle_set_request-Whole : (bs : Bytes) → Returns (handle_set_request clock dev bs) Whole
  unfolding handle_set_request
  handle_set_request-Whole bs =
      Returns-bind (request_var_bind_list_pos bs) _ _ Whole (request_var_bind_list_pos-Returns bs)
        (λ at h. handle_list-Whole bs at)

  -- Nothing is touched, or the write community is not empty and stands in the datagram.
  abbrev pub Admitted : Bytes → Bytes → Handled → Type 0
  Admitted want bs r =
      ((r.0 ≡ dev) × (r.1 ≡ []))
      ⊎ ((want ≢ []) × ((p : ℕ) × (take (length want) (drop p bs) ≡ want)) × Whole r)

  -- On every datagram, for every write community and every device, whose engine, where it has one, has
  -- consistent parent tables and all of the interfaces that it serves, the SET branch returns. Either the device is
  -- as it was and nothing is broadcast, or the write community is not empty, stands in the
  -- datagram, every binding of a list is assigned, and the request is answered.
  pub dispatch_set-Admitted :
      (want bs : Bytes) → Returns (dispatch_set want clock dev bs) (Admitted want bs)
  unfolding dispatch_set
  dispatch_set-Admitted want bs =
      Returns-bind (parse_incoming_request bs) _ _ (Admitted want bs)
        (parse_incoming_request-Returns bs)
        (λ req h.
          Returns-if (not (admit_set_v2c want req)) _ _ (Admitted want bs) (λ e. inl (refl, refl))
            (λ e.
              Returns-weaken (handle_set_request clock dev bs) Whole _ (handle_set_request-Whole bs)
                (λ r w.
                  let (ne, there) = admitted want bs req h (ground (arith, e)) in
                  inr (ne, there, w))))
