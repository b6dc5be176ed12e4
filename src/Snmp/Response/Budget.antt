-- ===== src/Snmp/Response/Budget.antt =====
-- The encoding loop of `createVarbindResponse` against the datagram budget.
use nl.Prelude.{
  ℕ, suc, ◌+◌, ◌≤◌, ◌<◌, ◌≡◌, ◌⊎◌, refl, sym, ap, ◌∙◌, Bool, true, false, ◌&&◌, List, [], ◌∷◌, ◌++◌,
  append-nil, append_assoc, ltb, leb, ◌==◌, if◌then◌else◌, Bool-cases, inl, inr, length,
  length-append, take, Option, arith,
}
use nl.Prelude.Bytes.{Bytes}
use nl.Snmp.Value.{OidTypeEntry}
use nl.Snmp.Response.{
  SnmpRequest, encode_get_response, snmp_message_size_for, overflow_too_big, fit_bindings,
  bounded_response, snmp_err_no_error, snmp_err_too_big,
}
use nl.Snmp.Response.Size.{snmp_message_size_for_mono, msg_prefix_of, pdu_prefix_of}

-- The variable-bindings list of some bindings.
pub joined : List Bytes → Bytes
joined [] = []
joined (b ∷ bs) = b ++ joined bs

module _ (budget mp pp : ℕ) where
  abbrev pub size : ℕ → ℕ
  size = snmp_message_size_for mp pp

  -- The last step of a binding that fits.
  fits_test :
      (out b bs : Bytes)
      → size (length out + length (b ++ bs)) ≤ budget
      → ltb budget (size (length out + length b)) ≡ false
  fits_test out b bs h =
      let n = length-append b bs in
      let m =
        snmp_message_size_for_mono mp pp {m = length out + length b}
          {n = length out + length (b ++ bs)} (omega arith) in
      ground arith

  fit_all :
      (keep : Bool) (bs : List Bytes) (out : Bytes)
      → size (length out + length (joined bs)) ≤ budget
      → fit_bindings budget mp pp keep bs out ≡ (out ++ joined bs, false)
  unfolding fit_bindings joined
  fit_all keep [] out h = rw (append-nil out) refl
  fit_all keep (b ∷ bs) out h =
      let e : length (out ++ b) + length (joined bs) ≡ length out + length (b ++ joined bs) =
        omega (arith, length-append out b, length-append b (joined bs)) in
      rw (fits_test out b (joined bs) h) (
        fit_all keep bs (out ++ b) (rw e h) ∙ ap (λ t. (t, false)) (append_assoc out b (joined bs)))

  fit_truncated :
      (keep : Bool) (bs : List Bytes) (out : Bytes)
      → size (length out) ≤ budget
      → budget < size (length out + length (joined bs))
      → (fit_bindings budget mp pp keep bs out).1 ≡ true
  unfolding fit_bindings joined
  fit_truncated keep [] out h over =
      let q : length out + 0 ≡ length out = omega arith in
      absurd (let k = rw q at over in omega arith)
  fit_truncated keep (b ∷ bs) out h over =
      elim (Bool-cases (ltb budget (size (length out + length b)))) [
        | inl stop ↦ rw stop refl
        | inr go ↦
            let e : length out + length (b ++ joined bs) ≡ length (out ++ b) + length (joined bs) =
              omega (arith, length-append out b, length-append b (joined bs)) in
            rw go (
              fit_truncated keep bs (out ++ b) (rw (length-append out b) (ground arith))
                (rw e at over))
      ]

  -- What the loop makes of a list of bindings behind `out`: so many of them, no further one fits,
  -- and a list that does not fit is a first binding alone that was to be kept.
  pub record Fit (keep : Bool) (bs : List Bytes) (out : Bytes) (r : Bytes × Bool) : Type 0 where
    pub kept : ℕ
    pub list_is : r.0 ≡ out ++ joined (take kept bs)
    pub stops :
        (kept ≡ length bs) ⊎ (budget < size (length out + length (joined (take (suc kept) bs))))
    pub fits : (size (length r.0) ≤ budget) ⊎ ((kept ≡ 1) × (length out ≡ 0))
    pub some_binding : keep ≡ true → length out ≡ 0 → 0 < length bs → 0 < kept

  abbrev pub AllSome : List Bytes → Type 0
  AllSome [] = Unit {0}
  AllSome (b ∷ bs) = (0 < length b) × AllSome bs

  take_one : (b : Bytes) (bs : List Bytes) → joined (take 1 (b ∷ bs)) ≡ b
  unfolding joined
  take_one b bs = append-nil b

  stopped :
      (keep : Bool) (b : Bytes) (bs : List Bytes) (out : Bytes)
      → size (length out) ≤ budget
      → budget < size (length out + length b)
      → Fit keep (b ∷ bs) out (if length out == 0 && keep then out ++ b else out, true)
  unfolding joined
  stopped keep b bs out h over = elim (Bool-cases (length out == 0 && keep)) [
    | inl e ↦ rw e (record {
      kept = 1;
      list_is = ap (λ t. out ++ t) (sym (append-nil b));
      stops = inr (
          let n = length-append b (joined (take 1 bs)) in
          let m =
            snmp_message_size_for_mono mp pp {m = length out + length b}
              {n = length out + length (b ++ joined (take 1 bs))} (omega arith) in
          omega arith);
      fits = inr (refl, ground (arith, e));
      some_binding = λ k z s. omega arith;
    })
    | inr e ↦ rw e (record {
      kept = 0;
      list_is = sym (append-nil out);
      stops = inr (rw (append-nil b) over);
      fits = inl h;
      some_binding = λ k z s. absurd (ground (arith, e, k, z));
    })
  ]

  fit_further :
      (keep : Bool) (b : Bytes) (bs : List Bytes) (out : Bytes) (r : Bytes × Bool)
      → 0 < length b
      → Fit keep bs (out ++ b) r
      → Fit keep (b ∷ bs) out r
  unfolding joined
  fit_further keep b bs out r some_octet f =
      let n = length-append out b in
      let m = length-append b (joined (take (suc (f.kept)) bs)) in
      let e : length out + length (b ++ joined (take (suc (f.kept)) bs))
          ≡ length (out ++ b) + length (joined (take (suc (f.kept)) bs)) =
        omega arith in
      record {
        kept = suc (f.kept);
        list_is = f.list_is ∙ append_assoc out b (joined (take (f.kept) bs));
        stops = elim (f.stops) [ inl q ↦ inl (ap suc q) | inr q ↦ inr (rw e q) ];
        fits = elim (f.fits) [ inl q ↦ inl q | inr q ↦ absurd (let z = q.1 in omega arith) ];
        some_binding = λ k z l. omega arith;
      }

  pub fit-Fit :
      (keep : Bool) (bs : List Bytes) (out : Bytes)
      → size (length out) ≤ budget
      → AllSome bs
      → Fit keep bs out (fit_bindings budget mp pp keep bs out)
  unfolding fit_bindings joined
  fit-Fit keep [] out h all = record {
    kept = 0;
    list_is = sym (append-nil out);
    stops = inl refl;
    fits = inl h;
    some_binding = λ k z s. absurd (omega arith);
  }
  fit-Fit keep (b ∷ bs) out h all = elim (Bool-cases (ltb budget (size (length out + length b)))) [
    | inl stop ↦ rw stop (stopped keep b bs out h (ground arith))
    | inr go ↦
        let f = fit-Fit keep bs (out ++ b) (rw (length-append out b) (ground arith)) all.1 in
        rw go (fit_further keep b bs out _ all.0 f)
  ]

-- A response under `overflowTooBig`: all of the bindings if the message fits, and else tooBig with
-- an empty list.
module _ (to4 : Bytes → Option Bytes) (table : List OidTypeEntry) (budget : ℕ)
    (req : SnmpRequest) where
  abbrev pub message_size : ℕ → ℕ
  message_size = snmp_message_size_for (msg_prefix_of req) (pdu_prefix_of req 0 0)

  -- If a response without bindings fits the budget, then under `overflowTooBig` the response is
  -- the message with every binding where that message fits, and else tooBig with an empty list:
  -- the sizes that are tested one binding at a time decide exactly as the whole message does.
  pub bounded_response-too_big :
      (bindings : List Bytes)
      → message_size 0 ≤ budget
      → bounded_response to4 table budget req overflow_too_big bindings ≡ (
          if leb (message_size (length (joined bindings))) budget
          then encode_get_response req (joined bindings) snmp_err_no_error
          else encode_get_response req [] snmp_err_too_big)
  unfolding bounded_response
  bounded_response-too_big bindings h =
      elim (Bool-cases (leb (message_size (length (joined bindings))) budget)) [
        | inl e ↦ rw e (
            rw
              (fit_all budget (msg_prefix_of req) (pdu_prefix_of req 0 0) false bindings []
                (ground arith))
              refl)
        | inr e ↦ rw e (
            rw
              (fit_truncated budget (msg_prefix_of req) (pdu_prefix_of req 0 0) false bindings [] h
                (ground arith))
              refl)
      ]
