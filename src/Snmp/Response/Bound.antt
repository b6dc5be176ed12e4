-- ===== src/Snmp/Response/Bound.antt =====
-- The datagrams that the bounded responses of `createVarbindResponse` make.
use nl.Prelude.{
  ℕ, suc, ◌+◌, ◌≤◌, ◌<◌, ◌≡◌, ◌⊎◌, refl, ap, Bool, true, false, ◌&&◌, List, [], ◌∷◌, leb,
  if◌then◌else◌, Bool-cases, inl, inr, length, take, Option, arith,
}
use nl.Prelude.Bytes.{Bytes}
use nl.Prelude.Int.{pos}
use nl.Snmp.Length.Small.{be_bytes-one}
use nl.Snmp.Length.{encode_length}
use nl.Snmp.Integer.{encode_integer, integer_bytes}
use nl.Snmp.Tlv.{encode_sequence}
use nl.Snmp.Value.{OidTypeEntry}
use nl.Snmp.Response.{
  SnmpRequest, encode_get_response, snmp_message_size_for, overflow_truncate, overflow_too_big,
  bounded_response, encode_bindings, snmp_err_no_error, snmp_err_too_big,
}
use nl.Snmp.Response.Size.{msg_prefix_of, pdu_prefix_of, length-encode_get_response_at}
use nl.Snmp.Response.Budget.{joined, Fit, fit-Fit, AllSome, message_size, bounded_response-too_big}

one_as_long : length (encode_integer (pos 1)) ≡ length (encode_integer (pos 0))
unfolding encode_integer integer_bytes encode_length
one_as_long = rw (be_bytes-one 1 (omega arith) (omega arith)) refl

module _ (to4 : Bytes → Option Bytes) (table : List OidTypeEntry) (budget : ℕ) (req : SnmpRequest)
    (small : budget < 65536) where
  too_big_prefix : pdu_prefix_of req 1 0 ≡ pdu_prefix_of req 0 0
  too_big_prefix = rw one_as_long refl

  length-answer :
      (list : Bytes)
      → message_size to4 table budget req (length list) ≤ budget
      → length (encode_get_response req list snmp_err_no_error) ≤ budget
  unfolding encode_get_response
  length-answer list h =
      let e = length-encode_get_response_at req list 0 0 (omega arith) in omega arith

  length-too_big :
      message_size to4 table budget req 0 ≤ budget
      → length (encode_get_response req [] snmp_err_too_big) ≤ budget
  unfolding encode_get_response
  length-too_big h =
      let g : snmp_message_size_for (msg_prefix_of req) (pdu_prefix_of req 1 0) 0 ≤ budget =
        rw too_big_prefix h in
      let e = length-encode_get_response_at req [] 1 0 (omega arith) in omega arith

  -- With a budget below 65536 octets that a response without bindings fits, no response under
  -- `overflowTooBig` is longer than the budget.
  pub length-bounded_response :
      (bindings : List Bytes)
      → message_size to4 table budget req 0 ≤ budget
      → length (bounded_response to4 table budget req overflow_too_big bindings) ≤ budget
  length-bounded_response bindings h =
      rw (bounded_response-too_big to4 table budget req bindings h)
        (elim (Bool-cases
          (leb (message_size to4 table budget req (length (joined bindings))) budget)) [
            | inl e ↦ rw e (length-answer (joined bindings) (ground arith))
            | inr e ↦ rw e (length-too_big h)
          ])

  -- The answer under `overflowTruncate`.
  pub record Longest (bindings : List Bytes) (response : Bytes) : Type 0 where
    pub kept : ℕ
    pub is : response ≡ encode_get_response req (joined (take kept bindings)) snmp_err_no_error
    pub stops :
        (kept ≡ length bindings)
        ⊎ (budget < message_size to4 table budget req (length (joined (take (suc kept) bindings))))
    pub fits : (length response ≤ budget) ⊎ (kept ≡ 1)
    pub some_binding : 0 < length bindings → 0 < kept

  response_of_fit :
      (bindings : List Bytes) (r : Bytes × Bool)
      → Fit budget (msg_prefix_of req) (pdu_prefix_of req 0 0) true bindings [] r
      → Longest bindings (
          if r.1 && false
          then encode_get_response req [] snmp_err_too_big
          else encode_get_response req r.0 snmp_err_no_error)
  response_of_fit bindings (out, truncated) f =
      let none_too_big : (truncated && false) ≡ false = ground arith in
      rw none_too_big (record {
        kept = f.kept;
        is = ap (λ t. encode_get_response req t snmp_err_no_error) (f.list_is);
        stops = elim (f.stops) [
          | inl q ↦ inl q
          | inr q ↦ inr (
              let n = length (joined (take (suc (f.kept)) bindings)) in
              let z : 0 + n ≡ n = omega arith in rw z at q)
        ];
        fits = elim (f.fits) [ inl q ↦ inl (length-answer out q) | inr q ↦ inr q.0 ];
        some_binding = λ l. f.some_binding refl refl l;
      })

  encode_bindings-AllSome :
      (oids values : List Bytes)
      → AllSome budget
          (msg_prefix_of req)
          (pdu_prefix_of req 0 0)
          (encode_bindings to4 table budget oids values)
  unfolding encode_bindings encode_sequence
  encode_bindings-AllSome (o ∷ oids) (v ∷ values) =
      (omega arith, encode_bindings-AllSome oids values)
  encode_bindings-AllSome [] values = tt
  encode_bindings-AllSome (o ∷ oids) [] = tt

  -- With such a budget, the response under `overflowTruncate` is the message of the first bindings,
  -- as many as fit: one more does not. It fits the budget unless it is the first binding alone,
  -- and it has a binding where there is one.
  pub bounded_response-Longest :
      (oids values : List Bytes)
      → message_size to4 table budget req 0 ≤ budget
      → (let bindings = encode_bindings to4 table budget oids values in
          Longest bindings (bounded_response to4 table budget req overflow_truncate bindings))
  unfolding bounded_response
  bounded_response-Longest oids values h =
      let bindings = encode_bindings to4 table budget oids values in
      response_of_fit bindings _ (
        fit-Fit budget (msg_prefix_of req) (pdu_prefix_of req 0 0) true bindings [] h
          (encode_bindings-AllSome oids values))
