-- ===== src/Snmp/Oid/RoundTrip.antt =====
-- A text of legal arcs is encoded, and its body decoded to that text.
use nl.Prelude.{
  ℕ, zero, suc, ◌+◌, ◌*◌, ◌^◌, ◌<◌, ◌≤◌, ◌≡◌, refl, sym, ap, ◌∙◌, true, false, some, List, [], ◌∷◌,
  ◌++◌, append-nil, map, ltb, length, length-append, arith,
}
use nl.Prelude.Bytes.{Bytes}
use nl.Prelude.Int.{pos}
use nl.Prelude.Text.{
  dot, trim_dot, split_dots, atoi, itoa, dotted, AllInt, atoi-itoa, split_dots-dotted,
  trim_dot-dotted,
}
use nl.Snmp.Length.{encode_length}
use nl.Snmp.Oid.{
  asn1_oid, max_oid_sub_identifier, max_oid_body_bytes, encode_oid_component, legal_oid_arc_pair,
  later_arc, encode_arcs, encode_pair, oid_body, frame_oid, encode_oid, decode_subs, split_first,
  arcs_text, decode_oid,
}
use nl.Snmp.Oid.Component.{encode_oid_component-Reads}

-- Every arc fits an SMI sub-identifier.
abbrev pub AllSub : List ℕ → Type 0
AllSub [] = Unit {0}
AllSub (n ∷ ns) = (n ≤ max_oid_sub_identifier) × AllSub ns

-- The sub-identifiers' octets, one behind the other.
abbrev pub components : List ℕ → Bytes
components [] = []
components (n ∷ ns) = encode_oid_component n ++ components ns

decode_subs-components :
    (rounds : ℕ) (ns : List ℕ)
    → length ns < rounds
    → AllSub ns
    → decode_subs rounds (components ns) ≡ some ns
unfolding decode_subs
decode_subs-components zero ns h a = absurd (omega arith)
decode_subs-components (suc rounds) [] h a = refl
decode_subs-components (suc rounds) (n ∷ ns) h a =
    let r = encode_oid_component-Reads n (components ns) a.0 in
    let first = r.starts in
    let none_padded = r.no_padding in
    let v = rw first at r.value in
    rw first (rw none_padded (rw v (rw (decode_subs-components rounds ns (omega arith) a.1))))

length-components : (ns : List ℕ) → AllSub ns → length ns ≤ length (components ns)
length-components [] a = omega arith
length-components (n ∷ ns) a =
    let r = encode_oid_component-Reads n (components ns) a.0 in
    omega (
      arith,
      length-components ns a.1,
      length-append (encode_oid_component n) (components ns),
      positive n a.0,
    )
  where
    positive : (n : ℕ) → n ≤ max_oid_sub_identifier → 0 < length (encode_oid_component n)
    positive n h =
        let r = encode_oid_component-Reads n [] h in
        let e = rw append-nil at r.starts in rw e (omega arith)

AllSub-AllInt : (ns : List ℕ) → AllSub ns → AllInt ns
AllSub-AllInt [] a = tt
AllSub-AllInt (n ∷ ns) a = (let h = a.0 in omega arith, AllSub-AllInt ns a.1)

encode_arcs-cons :
    (part : Bytes) (parts : List Bytes) (n : ℕ) (bs : Bytes)
    → later_arc (atoi part) ≡ some n
    → encode_arcs parts ≡ some bs
    → encode_arcs (part ∷ parts) ≡ some (encode_oid_component n ++ bs)
unfolding encode_arcs
encode_arcs-cons part parts n bs e f = rw (e, encode_arcs) (rw f)

later_arc-itoa : (n : ℕ) → n ≤ max_oid_sub_identifier → later_arc (atoi (itoa n)) ≡ some n
later_arc-itoa n h =
    let fits : ltb max_oid_sub_identifier n ≡ false = ground arith in
    rw (atoi-itoa n (omega arith)) (rw fits)

encode_arcs-itoa : (ns : List ℕ) → AllSub ns → encode_arcs (map itoa ns) ≡ some (components ns)
encode_arcs-itoa [] a = unfold encode_arcs in refl
encode_arcs-itoa (n ∷ ns) a =
    encode_arcs-cons (itoa n) (map itoa ns) n (components ns) (later_arc-itoa n a.0)
      (encode_arcs-itoa ns a.1)

-- Legal arcs, their combined sub-identifier in range.
legal-bounds :
    (a b : ℕ)
    → legal_oid_arc_pair (pos a) (pos b) ≡ true
    → b < 2 ^ 63
    → (a ≤ 2) × (40 * a + b ≤ max_oid_sub_identifier) × (split_first (40 * a + b) ≡ (a, b))
unfolding legal_oid_arc_pair split_first
legal-bounds a b h lt = ground (arith, h)

encode_pair-legal :
    (a b : ℕ)
    → legal_oid_arc_pair (pos a) (pos b) ≡ true
    → encode_pair (some (pos a)) (some (pos b)) ≡ some (encode_oid_component (40 * a + b))
unfolding encode_pair
encode_pair-legal a b h = rw h

oid_body-cons :
    (p q : Bytes) (parts : List Bytes) (head bs : Bytes)
    → encode_pair (atoi p) (atoi q) ≡ some head
    → encode_arcs parts ≡ some bs
    → oid_body (p ∷ q ∷ parts) ≡ some (head ++ bs)
unfolding oid_body
oid_body-cons p q parts head bs e f = rw (e, oid_body) (rw f)

decode_oid-cons :
    (bs : Bytes) (x : ℕ) (xs : Bytes) (vs : List ℕ)
    → bs ≡ x ∷ xs
    → decode_subs (suc (length bs)) bs ≡ some vs
    → decode_oid bs ≡ arcs_text (some vs)
unfolding decode_oid
decode_oid-cons [] x xs vs e d = absurd (cc e)
decode_oid-cons (b ∷ bs) x xs vs e d = rw d

frame_oid-fits :
    (body : Bytes)
    → length body ≤ max_oid_body_bytes
    → frame_oid (some body) ≡ asn1_oid ∷ (encode_length (length body) ++ body)
unfolding frame_oid
frame_oid-fits body h =
    let small : ltb max_oid_body_bytes (length body) ≡ false = ground arith in rw small

trim_dot-dot : (s : Bytes) → trim_dot (dot ∷ s) ≡ s
unfolding trim_dot
trim_dot-dot s = refl

module _ (a b : ℕ) (ns : List ℕ) (legal : legal_oid_arc_pair (pos a) (pos b) ≡ true)
    (lt : b < 2 ^ 63) (subs : AllSub ns) where
  body_of_text :
      oid_body (split_dots (trim_dot (dotted (a ∷ b ∷ ns)))) ≡ some (components ((40 * a + b) ∷ ns))
  body_of_text =
      let (two, top, _) = legal-bounds a b legal lt in
      let small : a < 2 ^ 63 = omega arith in
      ap (λ x. oid_body (split_dots x)) (trim_dot-dotted a (b ∷ ns) small)
      ∙ ap oid_body (split_dots-dotted a (b ∷ ns) (small, (lt, AllSub-AllInt ns subs)))
      ∙ oid_body-cons (itoa a) (itoa b) (map itoa ns) (encode_oid_component (40 * a + b))
          (components ns)
          (rw (atoi-itoa a small) (rw (atoi-itoa b lt) (encode_pair-legal a b legal)))
          (encode_arcs-itoa ns subs)

  text_of_body : decode_oid (components ((40 * a + b) ∷ ns)) ≡ dot ∷ dotted (a ∷ b ∷ ns)
  text_of_body =
      let (two, top, split) = legal-bounds a b legal lt in
      let all : AllSub ((40 * a + b) ∷ ns) = (top, subs) in
      let bs = components ((40 * a + b) ∷ ns) in
      let r = encode_oid_component-Reads (40 * a + b) (components ns) top in
      decode_oid-cons bs r.first r.more ((40 * a + b) ∷ ns) r.starts (
        decode_subs-components (suc (length bs)) ((40 * a + b) ∷ ns)
          (omega (arith, length-components ((40 * a + b) ∷ ns) all)) all)
      ∙ (rw split)

-- For two first arcs that X.690 allows, the second below 2 ^ 63, further arcs of 32 bits and a body
-- of at most 65535 octets: `encodeOID` gives the body under its tag and length, with and without a leading dot, and
-- `decodeOID` gives that body back as the text with its leading dot.
pub decode_oid-encode_oid :
    (a b : ℕ) (ns : List ℕ)
    → legal_oid_arc_pair (pos a) (pos b) ≡ true
    → b < 2 ^ 63
    → AllSub ns
    → length (components ((40 * a + b) ∷ ns)) ≤ max_oid_body_bytes
    → (encode_oid (dotted (a ∷ b ∷ ns))
        ≡ asn1_oid
          ∷ (encode_length (length (components ((40 * a + b) ∷ ns)))
              ++ components ((40 * a + b) ∷ ns)))
      × (encode_oid (dot ∷ dotted (a ∷ b ∷ ns)) ≡ encode_oid (dotted (a ∷ b ∷ ns)))
      × (decode_oid (components ((40 * a + b) ∷ ns)) ≡ dot ∷ dotted (a ∷ b ∷ ns))
unfolding encode_oid
decode_oid-encode_oid a b ns legal lt subs fits =
    let body = body_of_text a b ns legal lt subs in
    (
      ap frame_oid body ∙ frame_oid-fits (components ((40 * a + b) ∷ ns)) fits,
      ap (λ x. frame_oid (oid_body (split_dots x)))
          (trim_dot-dot (dotted (a ∷ b ∷ ns))
            ∙ sym (
                trim_dot-dotted a (b ∷ ns) (let l = (legal-bounds a b legal lt).0 in omega arith))),
      text_of_body a b ns legal lt subs,
    )
