-- ===== src/Snmp/Oid/Agreement.antt =====
-- The two OID encoders agree octet for octet.
mod Pieces
mod Arcs
mod Length
use nl.Prelude.{
  ℕ, zero, suc, ◌+◌, ◌-◌, ◌*◌, ◌/◌, ◌%◌, ◌^◌, ◌<◌, ◌≤◌, ◌≡◌, refl, sym, ap, ◌∙◌, Bool, true, false,
  not, ◌&&◌, Option, none, some, List, [], ◌∷◌, ◌++◌, append_assoc, append-nil, map, ltb, leb, ◌==◌,
  if◌then◌else◌, Bool-cases, Option-cases, inl, inr, ◌⊎◌, subst, ==_iff, length, length-append,
  arith,
}
use nl.Prelude.Bytes.{Bytes, to_byte, set_high}
use nl.Prelude.Order.{lt_wf}
use nl.Prelude.Int.{ℤ, pos, negsuc}
use nl.Prelude.Text.{dot, trim_dot, push_first, split_dots, atoi}
use mathlib.Core.WellFounded.{Acc}
use nl.Snmp.Length.{prepend_bytes, be_bytes, encode_length}
use nl.Snmp.Length.RoundTrip.{prepend_zero, prepend_step, encode_short, encode_long}
use nl.Snmp.Oid.{
  asn1_oid, max_oid_sub_identifier, max_oid_body_bytes, encode_oid_component, legal_oid_arc_pair,
  later_arc, encode_arcs, encode_pair, oid_body, degenerate, frame_oid, encode_oid,
  append_oid_component, append_arc, append_arcs, count_dots, rewrite_length, finish_oid, append_oid,
}
use nl.Snmp.Oid.Component.{append_oid_component-encode}
use nl.Snmp.Oid.Agreement.Pieces.{loop, push_token-nil, split_dots-cons, append_arcs-loop}
use nl.Snmp.Oid.Agreement.Arcs.{loop-pieces}
use nl.Snmp.Oid.Agreement.Length.{rewrite_length-encode}

count_dots-split : (s : Bytes) → count_dots s + 1 ≡ length (split_dots s)
unfolding count_dots split_dots
count_dots-split [] = refl
count_dots-split (c ∷ s) =
    let (w, ws, e) = split_dots-cons s in
    let h = count_dots-split s in
    elim (Bool-cases (c == dot)) [
      | inl d ↦ rw d (omega arith)
      | inr d ↦ rw d (rw e (let k = rw e at h in omega (arith, k)))
    ]

finish_oid-frame : (dst : Bytes) (body : Option Bytes) → finish_oid dst body ≡ dst ++ frame_oid body
unfolding frame_oid
finish_oid-frame dst none = refl
finish_oid-frame dst (some body) = elim (Bool-cases (ltb max_oid_body_bytes (length body))) [
  | inl long ↦ rw long refl
  | inr fits ↦
      rw fits (ap (λ bs. dst ++ (asn1_oid ∷ bs)) (rewrite_length-encode body (ground arith)))
]

append_arcs-body :
    (s p q : Bytes) (ps : List Bytes)
    → split_dots s ≡ p ∷ q ∷ ps
    → append_arcs s [] 0 0 [] ≡ oid_body (split_dots s)
append_arcs-body s p q ps e =
    append_arcs-loop s [] 0 0 []
    ∙ ap (λ w. loop w 0 0 []) (push_token-nil s ∙ e)
    ∙ loop-pieces p q ps (atoi p) (atoi q) refl refl
    ∙ sym (ap oid_body e)

agree_on :
    (dst s : Bytes) (ws : List Bytes)
    → split_dots s ≡ ws
    → count_dots s + 1 ≡ length ws
    → (if ltb (count_dots s + 1) 2
        then dst ++ degenerate
        else finish_oid dst (append_arcs s [] 0 0 []))
      ≡ dst ++ frame_oid (oid_body (split_dots s))
unfolding frame_oid oid_body
agree_on dst s [] e n = absurd (omega arith)
agree_on dst s (p ∷ []) e n = rw n (rw e refl)
agree_on dst s (p ∷ q ∷ ps) e n =
    let more : ltb (count_dots s + 1) 2 ≡ false = ground arith in
    rw more (
      finish_oid-frame dst (append_arcs s [] 0 0 [])
      ∙ ap (λ b. dst ++ frame_oid b) (append_arcs-body s p q ps e))

-- On every text, `appendOID` writes the octets of `encodeOID` behind the destination, the
-- degenerate encoding of a text that it refuses included.
pub append_oid-encode_oid : (dst oid : Bytes) → append_oid dst oid ≡ dst ++ encode_oid oid
unfolding append_oid encode_oid
append_oid-encode_oid dst oid =
    let s = trim_dot oid in agree_on dst s (split_dots s) refl (count_dots-split s)
