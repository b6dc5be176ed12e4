-- ===== src/Snmp/Server/Safe.antt =====
-- The dispatcher answers every datagram, and only an admitted SetRequest touches the device.
use nl.Prelude.{
  ℕ, ◌+◌, ◌≡◌, ◌⊎◌, refl, ap, subst, inl, inr, not, Option, none, some, List, [], ltb, leb, ◌==◌,
  ==_iff, length, arith,
}
use nl.Prelude.Bytes.{Bytes}
use nl.Prelude.Go.{
  Go, ret, panic, stuck, ◌>>=◌, ◌>>?◌, index, slice, Returns, Returns-bind, Returns-if,
  Returns-weaken, index-Returns,
}
use nl.Snmp.Length.{parse_length}
use nl.Snmp.Integer.{asn1_integer, parse_ber_int}
use nl.Snmp.Integer.Parse.{parse_ber_int-Returns}
use nl.Snmp.Tlv.{asn1_octet_string, asn1_sequence}
use nl.Snmp.Value.{OidTypeEntry}
use nl.Snmp.Varbinds.{field, parse_var_binds, parse_var_bind_names, request_var_bind_list_pos}
use nl.Snmp.Varbinds.Safe.{parse_var_binds-Returns, field-Returns, slice-Returns}
use nl.Snmp.Varbinds.Envelope.{request_var_bind_list_pos-Returns}
use nl.Snmp.Varbinds.Agreement.{names_of, parse_var_binds-names}
use nl.Snmp.Response.{SnmpRequest}
use nl.Snmp.Request.{
  asn1_get_next, asn1_get_bulk, asn1_set_request, tag_at, is_tag, parse_incoming_request,
}
use nl.Snmp.Request.Safe.{tag_at-Returns, length-Returns, parse_incoming_request-Returns}
use nl.Snmp.Set.{IfCounters, interface_state}
use nl.Snmp.Set.Handle.{Handled, dispatch_set}
use nl.Snmp.Set.Handle.Safe.{EngineFits, Admitted, dispatch_set-Admitted}
use nl.Snmp.Walk.{MibView}
use nl.Snmp.Server.{
  skip_version, skip_community, pdu_tag, pdu_type_behind, get_pdu_type, cut, max_repetitions_of,
  bulk_params, parse_get_bulk_params, names_at, parse_all_oids_from_request, handle_get_bulk,
  answer_read, handle_snmpv2c_request,
}

-- The code returns.
abbrev Ends {ℓ} : {A : Type ℓ} → Go A → Type 0
Ends m = Returns m (λ a. Unit {0})

ends {ℓ} : {A : Type ℓ} (m : Go A) (P : A → Type 0) → Returns m P → Ends m
ends m P h = Returns-weaken m P (λ a. Unit {0}) h (λ a p. tt)

then-ends {ℓ κ} :
    {A : Type ℓ} {B : Type κ} (m : Go A) (f : A → Go B)
    → Ends m
    → ((a : A) → Ends (f a))
    → Ends (m >>= f)
then-ends m f h k = Returns-bind m f (λ a. Unit {0}) (λ b. Unit {0}) h (λ a u. k a)

try-ends {ℓ κ} :
    {A : Type ℓ} {B : Type κ} (m : Go (Option A)) (f : A → Go (Option B))
    → Ends m
    → ((a : A) → Ends (f a))
    → Ends (m >>? f)
try-ends (ret none) f h k = tt
try-ends (ret (some a)) f h k = k a
try-ends panic f h k = absurd h
try-ends stuck f h k = absurd h

module _ (bs : Bytes) where
  skip_version-Ends : (p : ℕ) → Ends (skip_version bs p)
  unfolding skip_version
  skip_version-Ends p =
      Returns-bind (tag_at bs p (is_tag asn1_integer)) _ _ _
        (tag_at-Returns bs p (is_tag asn1_integer))
        (λ here h.
          Returns-if here _ _ _
            (λ t. then-ends (parse_length bs (p + 1)) _ (length-Returns bs (p + 1)) (λ r. tt))
            (λ t. tt))

  skip_community-Ends : (p : ℕ) → Ends (skip_community bs p)
  unfolding skip_community
  skip_community-Ends p =
      Returns-bind (tag_at bs p (is_tag asn1_octet_string)) _ _ _
        (tag_at-Returns bs p (is_tag asn1_octet_string))
        (λ here h.
          Returns-if here _ _ _
            (λ t. then-ends (parse_length bs (p + 1)) _ (length-Returns bs (p + 1)) (λ r. tt))
            (λ t. tt))

  pdu_tag-Ends : (p : ℕ) → Ends (pdu_tag bs p)
  unfolding pdu_tag
  pdu_tag-Ends p =
      Returns-if (leb (length bs) p) _ _ _ (λ e. tt) (λ e. index-Returns bs p (ground arith))

  pdu_type_behind-Ends : (r : Option ℕ × ℕ) → Ends (pdu_type_behind bs r)
  pdu_type_behind-Ends (none, p) = tt
  pdu_type_behind-Ends (some n, p) =
      then-ends (skip_version bs p) _ (skip_version-Ends p)
        (λ q. then-ends (skip_community bs q) _ (skip_community-Ends q) (λ r. pdu_tag-Ends r))

  get_pdu_type-Ends : Ends (get_pdu_type bs)
  unfolding get_pdu_type
  get_pdu_type-Ends =
      Returns-if (ltb (length bs) 10) _ _ _ (λ e. tt)
        (λ e. then-ends (index bs 0) _ (index-Returns bs 0 (ground arith)) (λ tag.
          Returns-if (not (tag == asn1_sequence)) _ _ _ (λ t. tt)
            (λ t. then-ends (parse_length bs 1) _ (length-Returns bs 1) pdu_type_behind-Ends)))

  field-Ends : (tag p : ℕ) → Ends (field bs tag p)
  field-Ends tag p = ends (field bs tag p) _ (field-Returns bs tag p)

  ber_int-Ends : (p n : ℕ) → Ends (parse_ber_int bs p n)
  ber_int-Ends p n = ends (parse_ber_int bs p n) _ (parse_ber_int-Returns bs p n)

  cut-Ends : (r : ℕ × ℕ) → Ends (cut bs r)
  unfolding cut
  cut-Ends r =
      Returns-if (ltb (length bs) (r.1 + r.0)) _ _ _ (λ e. tt)
        (λ e.
          Returns-bind (slice bs 0 (r.1 + r.0)) _ _ _
            (slice-Returns bs 0 (r.1 + r.0) (omega arith) (ground arith)) (λ inner l. tt))

  max_repetitions_of-Ends : (k : ℕ) (o : Option (ℕ × ℕ)) → Ends (max_repetitions_of bs k o)
  max_repetitions_of-Ends k none = tt
  max_repetitions_of-Ends k (some r) =
      then-ends (parse_ber_int bs r.1 r.0) _ (ber_int-Ends r.1 r.0) (λ v. tt)

parse_get_bulk_params-Ends : (bs : Bytes) → Ends (parse_get_bulk_params bs)
unfolding parse_get_bulk_params bulk_params
parse_get_bulk_params-Ends bs =
    then-ends (bulk_params bs) _
      (try-ends (field bs asn1_sequence 0) _ (field-Ends bs asn1_sequence 0) (λ outer.
        try-ends (cut bs outer) _ (cut-Ends bs outer) (λ message.
          try-ends (field message.0 asn1_integer message.1) _
            (field-Ends message.0 asn1_integer message.1)
            (λ version.
              try-ends (field message.0 asn1_octet_string (version.1 + version.0)) _
                (field-Ends message.0 asn1_octet_string (version.1 + version.0))
                (λ community.
                  try-ends (field message.0 asn1_get_bulk (community.1 + community.0)) _
                    (field-Ends message.0 asn1_get_bulk (community.1 + community.0))
                    (λ header. try-ends (cut message.0 header) _ (cut-Ends message.0 header) (λ pdu.
                      try-ends (field pdu.0 asn1_integer pdu.1) _
                        (field-Ends pdu.0 asn1_integer pdu.1)
                        (λ request_id.
                          try-ends (field pdu.0 asn1_integer (request_id.1 + request_id.0)) _
                            (field-Ends pdu.0 asn1_integer (request_id.1 + request_id.0))
                            (λ r.
                              then-ends (parse_ber_int pdu.0 r.1 r.0) _ (ber_int-Ends pdu.0 r.1 r.0)
                                (λ v.
                                  then-ends (field pdu.0 asn1_integer (r.1 + r.0)) _
                                    (field-Ends pdu.0 asn1_integer (r.1 + r.0))
                                    (λ o. max_repetitions_of-Ends pdu.0 _ o)))))))))))
      (λ o. tt)

parse_var_bind_names-Ends : (bs : Bytes) (p : ℕ) → Ends (parse_var_bind_names bs p)
parse_var_bind_names-Ends bs p = subst Ends (parse_var_binds-names bs p) (
    then-ends (parse_var_binds bs p) (λ v. ret (names_of v))
      (ends (parse_var_binds bs p) _ (parse_var_binds-Returns bs p)) (λ v. tt))

parse_all_oids-Ends : (bs : Bytes) → Ends (parse_all_oids_from_request bs)
unfolding parse_all_oids_from_request
parse_all_oids-Ends bs =
    then-ends (request_var_bind_list_pos bs) (names_at bs)
      (ends (request_var_bind_list_pos bs) _ (request_var_bind_list_pos-Returns bs)) at
  where
    at : (o : Option (ℕ × ℕ)) → Ends (names_at bs o)
    at none = tt
    at (some r) = parse_var_bind_names-Ends bs r.0

module _ (to4 : Bytes → Option Bytes) (table : List OidTypeEntry) (budget : ℕ) (mib : MibView) where
  handle_get_bulk-Ends :
      (req : SnmpRequest) (bs : Bytes) → Ends (handle_get_bulk to4 table budget mib req bs)
  unfolding handle_get_bulk
  handle_get_bulk-Ends req bs =
      then-ends (parse_get_bulk_params bs) _ (parse_get_bulk_params-Ends bs) (λ params.
        then-ends (parse_all_oids_from_request bs) _ (parse_all_oids-Ends bs) (λ oids. tt))

  answer_read-Ends :
      (tag : ℕ) (req : SnmpRequest) (bs : Bytes)
      → Ends (answer_read to4 table budget mib tag req bs)
  unfolding answer_read
  answer_read-Ends tag req bs =
      Returns-if (tag == asn1_get_next) _ _ _
        (λ e. then-ends (parse_all_oids_from_request bs) _ (parse_all_oids-Ends bs) (λ oids. tt))
        (λ e.
          Returns-if (tag == asn1_get_bulk) _ _ _ (λ f. handle_get_bulk-Ends req bs)
            (λ f.
              then-ends (parse_all_oids_from_request bs) _ (parse_all_oids-Ends bs) (λ oids. tt)))

  module _ (clock : ℕ → ℕ) (dev : Option IfCounters)
      (fits : EngineFits dev (interface_state dev)) where
    -- The device is as it was and nothing is broadcast.
    abbrev pub Untouched : Handled → Type 0
    Untouched r = (r.0 ≡ dev) × (r.1 ≡ [])

    abbrev pub Dispatched : Bytes → Bytes → Handled → Type 0
    Dispatched want bs r =
        Untouched r ⊎ ((get_pdu_type bs ≡ ret asn1_set_request) × Admitted clock dev fits want bs r)

    -- For a device whose engine, where it has one, has consistent parent tables and all of the
    -- interfaces that the device serves: on every datagram, whatever the objects of the device, the
    -- dispatcher returns. The device is as it was and nothing is broadcast, unless the PDU is a
    -- SetRequest; and then too, unless the write community is not empty, stands in the datagram, the
    -- device has an engine, every binding of a list is assigned to it, and the request is answered.
    pub handle_snmpv2c_request-Dispatched :
        (want bs : Bytes)
        → Returns
            (handle_snmpv2c_request to4 table budget mib want clock dev bs)
            (Dispatched want bs)
    unfolding handle_snmpv2c_request
    handle_snmpv2c_request-Dispatched want bs =
        Returns-bind (parse_incoming_request bs) _ _ (Dispatched want bs)
          (parse_incoming_request-Returns bs)
          (λ req h.
            Returns-bind (get_pdu_type bs) _ (λ t. get_pdu_type bs ≡ ret t) (Dispatched want bs)
              (is_result (get_pdu_type bs) (get_pdu_type-Ends bs))
              (λ tag e.
                Returns-if (tag == asn1_set_request) _ _ (Dispatched want bs)
                  (λ t.
                    Returns-weaken (dispatch_set want clock dev bs) _ (Dispatched want bs)
                      (dispatch_set-Admitted clock dev fits want bs)
                      (λ r a. inr (rw e (ap ret ((==_iff tag asn1_set_request).0 t)), a)))
                  (λ t.
                    Returns-bind (answer_read to4 table budget mib tag req bs) _ (λ o. Unit {0})
                      (Dispatched want bs) (answer_read-Ends tag req bs)
                      (λ answer u. inl (refl, refl)))))
      where
        is_result : (m : Go ℕ) → Ends m → Returns m (λ t. m ≡ ret t)
        is_result (ret t) u = refl
        is_result panic u = absurd u
        is_result stuck u = absurd u
