-- ===== src/Snmp/Varbinds/Envelope.antt =====
-- Reading the envelope of a request never reads out of range.
use nl.Prelude.{ℕ, zero, suc, ◌+◌, ◌*◌, ◌≤◌, ◌<◌, Option, none, some, leb, length, arith}
use nl.Prelude.Bytes.{Bytes}
use nl.Prelude.Go.{Found, Returns, Returns-try, Returns-if, Returns-weaken}
use nl.Snmp.Integer.{asn1_integer}
use nl.Snmp.Tlv.{asn1_octet_string, asn1_sequence}
use nl.Snmp.Varbinds.{field, skip_integers, pdu_header, request_var_bind_list_pos}
use nl.Snmp.Varbinds.Safe.{Header, length_at-Returns, field-Returns}

skip_integers-Returns :
    (k : ℕ) (bs : Bytes) (pos : ℕ) → Returns (skip_integers k bs pos) (Found (λ p. pos + 2 * k ≤ p))
unfolding skip_integers
skip_integers-Returns zero bs pos = omega arith
skip_integers-Returns (suc k) bs pos =
    Returns-try (field bs asn1_integer pos) _ (Header bs (pos + 1)) (λ p. pos + 2 * suc k ≤ p)
      (field-Returns bs asn1_integer pos)
      (λ r h.
        Returns-weaken (skip_integers k bs (r.1 + r.0)) _ _ (skip_integers-Returns k bs (r.1 + r.0))
          (later r h.0))
  where
    later :
        (r : ℕ × ℕ)
        → pos + 1 < r.1
        → (o : Option ℕ) → Found (λ p. r.1 + r.0 + 2 * k ≤ p) o
        → Found (λ p. pos + 2 * suc k ≤ p) o
    later r h none w = tt
    later r h (some p) w = omega arith

pdu_header-Returns :
    (bs : Bytes) (pos : ℕ) → Returns (pdu_header bs pos) (Found (Header bs (pos + 1)))
unfolding pdu_header
pdu_header-Returns bs pos =
    Returns-if (leb (length bs) pos) _ _ (Found (Header bs (pos + 1))) (λ e. tt)
      (λ e. length_at-Returns bs (pos + 1))

-- The list behind its six headers of two octets, and the PDU's end behind its own.
abbrev pub Reached : ℕ × ℕ → Type 0
Reached r = (14 ≤ r.0) × (8 ≤ r.1)

-- On any datagram `requestVarBindListPos` returns, with no index out of range. The position that
-- it reports is at least 14 and the PDU's end at least 8, for the headers in front of them.
pub request_var_bind_list_pos-Returns :
    (bs : Bytes) → Returns (request_var_bind_list_pos bs) (Found Reached)
unfolding request_var_bind_list_pos
request_var_bind_list_pos-Returns bs =
    Returns-try (field bs asn1_sequence 0) _ _ Reached (field-Returns bs asn1_sequence 0)
      (λ outer a.
        Returns-try (field bs asn1_integer outer.1) _ _ Reached
          (field-Returns bs asn1_integer outer.1)
          (λ version b.
            let third = version.1 + version.0 in
            Returns-try (field bs asn1_octet_string third) _ _ Reached
              (field-Returns bs asn1_octet_string third)
              (λ community c.
                let fourth = community.1 + community.0 in
                Returns-try (pdu_header bs fourth) _ _ Reached (pdu_header-Returns bs fourth)
                  (λ pdu d.
                    Returns-try (skip_integers 3 bs pdu.1) _ _ Reached
                      (skip_integers-Returns 3 bs pdu.1)
                      (λ pos e.
                        let x = a.0 in
                        let y = b.0 in let z = c.0 in let w = d.0 in (omega arith, omega arith))))))
