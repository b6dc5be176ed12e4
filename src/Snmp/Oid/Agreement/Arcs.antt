-- ===== src/Snmp/Oid/Agreement/Arcs.antt =====
-- The loop over the pieces of a text against the body of `encodeOID`.
use nl.Prelude.{
  ℕ, suc, ◌+◌, ◌*◌, ◌≡◌, refl, sym, ap, ◌∙◌, true, false, Option, none, some, List, [], ◌∷◌, ◌++◌,
  append_assoc, append-nil, ltb, leb, ◌==◌, Bool-cases, Option-cases, inl, inr, arith,
}
use nl.Prelude.Bytes.{Bytes}
use nl.Prelude.Int.{ℤ, pos, negsuc}
use nl.Prelude.Text.{atoi}
use nl.Snmp.Oid.{
  max_oid_sub_identifier, encode_oid_component, legal_oid_arc_pair, later_arc, encode_arcs,
  encode_pair, oid_body, append_arc,
}
use nl.Snmp.Oid.Component.{append_oid_component-encode}
use nl.Snmp.Oid.Agreement.Pieces.{loop, loop-none, loop-some}

-- From the third arc on.
append_arc-later :
    (idx first : ℕ) (body : Bytes) (v : Option ℤ)
    → append_arc (suc (suc idx)) first body v
      ≡ elim (later_arc v) [ none ↦ none | some n ↦ some (first, body ++ encode_oid_component n) ]
unfolding append_arc
append_arc-later idx first body none = refl
append_arc-later idx first body (some (negsuc n)) = refl
append_arc-later idx first body (some (pos n)) =
    let later : leb 2 (suc (suc idx)) ≡ true = ground arith in
    let none_first : (suc (suc idx) == 0) ≡ false = ground arith in
    let none_second : (suc (suc idx) == 1) ≡ false = ground arith in
    rw later (
      rw none_first (
        rw none_second (elim (Bool-cases (ltb max_oid_sub_identifier n)) [
          | inl big ↦ rw big
          | inr fits ↦ rw fits (rw (append_oid_component-encode body n))
        ])))

-- A further piece in front of the rest.
abbrev put : Bytes → Option Bytes → Option Bytes
put body none = none
put body (some bs) = some (body ++ bs)

encode_arcs-cons :
    (p : Bytes) (ps : List Bytes) (n : ℕ)
    → later_arc (atoi p) ≡ some n
    → encode_arcs (p ∷ ps) ≡ put (encode_oid_component n) (encode_arcs ps)
unfolding encode_arcs
encode_arcs-cons p ps n e =
    rw (e, encode_arcs) (elim (Option-cases (encode_arcs ps)) [ inl q ↦ rw q | inr (bs, q) ↦ rw q ])

encode_arcs-none :
    (p : Bytes) (ps : List Bytes) → later_arc (atoi p) ≡ none → encode_arcs (p ∷ ps) ≡ none
unfolding encode_arcs
encode_arcs-none p ps e = rw (e, encode_arcs)

put-put : (a b : Bytes) (o : Option Bytes) → put (a ++ b) o ≡ put a (put b o)
put-put a b none = refl
put-put a b (some bs) = ap some (append_assoc a b bs)

loop-ends :
    (p : Bytes) (idx first : ℕ) (body : Bytes) (r : ℕ × Bytes)
    → append_arc idx first body (atoi p) ≡ some r
    → loop (p ∷ []) idx first body ≡ some r.1
unfolding loop
loop-ends p idx first body r e = rw (e, loop)

loop-refuses :
    (p : Bytes) (ps : List Bytes) (idx first : ℕ) (body : Bytes)
    → later_arc (atoi p) ≡ none
    → loop (p ∷ ps) (suc (suc idx)) first body ≡ put body (encode_arcs (p ∷ ps))
loop-refuses p ps idx first body e =
    loop-none p ps (suc (suc idx)) first body (append_arc-later idx first body (atoi p) ∙ rw e)
    ∙ sym (ap (put body) (encode_arcs-none p ps e))

-- The whole loop from the third arc on.
loop-encode_arcs :
    (p : Bytes) (ps : List Bytes) (idx first : ℕ) (body : Bytes)
    → loop (p ∷ ps) (suc (suc idx)) first body ≡ put body (encode_arcs (p ∷ ps))
unfolding encode_arcs
loop-encode_arcs p [] idx first body = elim (Option-cases (later_arc (atoi p))) [
  | inl e ↦ loop-refuses p [] idx first body e
  | inr (n, e) ↦
      loop-ends p (suc (suc idx)) first body (first, body ++ encode_oid_component n)
        (append_arc-later idx first body (atoi p) ∙ rw e)
      ∙ ap (λ bs. some (body ++ bs)) (sym (append-nil (encode_oid_component n)))
      ∙ sym (ap (put body) (encode_arcs-cons p [] n e))
]
loop-encode_arcs p (q ∷ ps) idx first body = elim (Option-cases (later_arc (atoi p))) [
  | inl e ↦ loop-refuses p (q ∷ ps) idx first body e
  | inr (n, e) ↦
      let out = body ++ encode_oid_component n in
      let next : suc (suc idx) + 1 ≡ suc (suc (suc idx)) = omega arith in
      loop-some p q ps (suc (suc idx)) first body (first, out)
        (append_arc-later idx first body (atoi p) ∙ rw e)
      ∙ ap (λ i. loop (q ∷ ps) i first out) next
      ∙ loop-encode_arcs q ps (suc idx) first out
      ∙ put-put body (encode_oid_component n) (encode_arcs (q ∷ ps))
      ∙ sym (ap (put body) (encode_arcs-cons p (q ∷ ps) n e))
]

pair-refused :
    (p q : Bytes) (ps : List Bytes)
    → encode_pair (atoi p) (atoi q) ≡ none
    → oid_body (p ∷ q ∷ ps) ≡ none
unfolding oid_body
pair-refused p q ps e = rw (e, oid_body)

pair-kept :
    (p q : Bytes) (ps : List Bytes) (head : Bytes)
    → encode_pair (atoi p) (atoi q) ≡ some head
    → oid_body (p ∷ q ∷ ps) ≡ put head (encode_arcs ps)
unfolding oid_body
pair-kept p q ps head e =
    rw (e, oid_body) (elim (Option-cases (encode_arcs ps)) [ inl o ↦ rw o | inr (bs, o) ↦ rw o ])

first_kept : (a : ℕ) → append_arc 0 0 [] (some (pos a)) ≡ some (a, [])
unfolding append_arc
first_kept a = refl

-- The second piece, when it is legal behind the first.
loop-second :
    (q : Bytes) (ps : List Bytes) (a : ℕ) (head : Bytes)
    → append_arc 1 a [] (atoi q) ≡ some (a, head)
    → loop (q ∷ ps) 1 a [] ≡ put head (encode_arcs ps)
unfolding encode_arcs
loop-second q [] a head e = loop-ends q 1 a [] (a, head) e ∙ ap some (sym (append-nil head))
loop-second q (r ∷ ps) a head e =
    loop-some q r ps 1 a [] (a, head) e ∙ loop-encode_arcs r ps 0 a head

legal_kept :
    (a b : ℕ)
    → legal_oid_arc_pair (pos a) (pos b) ≡ true
    → append_arc 1 a [] (some (pos b)) ≡ some (a, encode_oid_component (40 * a + b))
unfolding append_arc
legal_kept a b e = rw e (rw (append_oid_component-encode [] (40 * a + b)))

illegal_refused :
    (a b : ℕ) → legal_oid_arc_pair (pos a) (pos b) ≡ false → append_arc 1 a [] (some (pos b)) ≡ none
unfolding append_arc
illegal_refused a b e = rw e

encode_pair-kept :
    (a b : ℕ)
    → legal_oid_arc_pair (pos a) (pos b) ≡ true
    → encode_pair (some (pos a)) (some (pos b)) ≡ some (encode_oid_component (40 * a + b))
unfolding encode_pair
encode_pair-kept a b e = rw e

encode_pair-refused :
    (a b : ℕ)
    → legal_oid_arc_pair (pos a) (pos b) ≡ false
    → encode_pair (some (pos a)) (some (pos b)) ≡ none
unfolding encode_pair
encode_pair-refused a b e = rw e

module _ (p q : Bytes) (ps : List Bytes) where
  first_refused :
      append_arc 0 0 [] (atoi p) ≡ none
      → encode_pair (atoi p) (atoi q) ≡ none
      → loop (p ∷ q ∷ ps) 0 0 [] ≡ oid_body (p ∷ q ∷ ps)
  first_refused e f = loop-none p (q ∷ ps) 0 0 [] e ∙ sym (pair-refused p q ps f)

  second_refused :
      (a : ℕ)
      → atoi p ≡ some (pos a)
      → append_arc 1 a [] (atoi q) ≡ none
      → encode_pair (atoi p) (atoi q) ≡ none
      → loop (p ∷ q ∷ ps) 0 0 [] ≡ oid_body (p ∷ q ∷ ps)
  second_refused a e g f =
      loop-some p q ps 0 0 [] (a, []) (ap (append_arc 0 0 []) e ∙ first_kept a)
      ∙ loop-none q ps 1 a [] g
      ∙ sym (pair-refused p q ps f)

  both_kept :
      (a b : ℕ)
      → atoi p ≡ some (pos a)
      → atoi q ≡ some (pos b)
      → legal_oid_arc_pair (pos a) (pos b) ≡ true
      → loop (p ∷ q ∷ ps) 0 0 [] ≡ oid_body (p ∷ q ∷ ps)
  both_kept a b e f h =
      let head = encode_oid_component (40 * a + b) in
      loop-some p q ps 0 0 [] (a, []) (ap (append_arc 0 0 []) e ∙ first_kept a)
      ∙ loop-second q ps a head (ap (append_arc 1 a []) f ∙ legal_kept a b h)
      ∙ sym (pair-kept p q ps head (rw e (rw f (encode_pair-kept a b h))))

  pub loop-pieces :
      (v w : Option ℤ) → atoi p ≡ v → atoi q ≡ w → loop (p ∷ q ∷ ps) 0 0 [] ≡ oid_body (p ∷ q ∷ ps)
  unfolding append_arc encode_pair
  loop-pieces none w e f = first_refused (rw e) (rw e)
  loop-pieces (some (negsuc a)) w e f = first_refused (rw e) (rw e)
  loop-pieces (some (pos a)) none e f = second_refused a e (rw f) (rw e (rw f))
  loop-pieces (some (pos a)) (some (negsuc b)) e f = second_refused a e (rw f) (rw e (rw f))
  loop-pieces (some (pos a)) (some (pos b)) e f =
      elim (Bool-cases (legal_oid_arc_pair (pos a) (pos b))) [
        | inl h ↦ both_kept a b e f h
        | inr h ↦
            second_refused a e (rw f (illegal_refused a b h))
              (rw e (rw f (encode_pair-refused a b h)))
      ]
