-- ===== src/Snmp/Oid/Agreement/Pieces.antt =====
-- The byte loop of `appendOID` (go/nl6/trap_encode_fast.go) against the loop of `encodeOID` over the
-- pieces between the dots.
use nl.Prelude.{
  ℕ, ◌+◌, ◌≡◌, refl, sym, ap, ◌∙◌, Option, none, some, List, [], ◌∷◌, ◌++◌, append_assoc,
  append-nil, ◌==◌, Bool-cases, Option-cases, inl, inr, subst, ==_iff,
}
use nl.Prelude.Bytes.{Bytes}
use nl.Prelude.Text.{dot, split_dots, atoi}
use nl.Snmp.Oid.{append_arc, append_arcs}

-- The loop of `appendOID` over the pieces between the dots.
unfoldable pub loop : List Bytes → ℕ → ℕ → Bytes → Option Bytes
loop [] idx first body = some body
loop (p ∷ []) idx first body = elim (append_arc idx first body (atoi p)) [
  | none ↦ none
  | some (_, out) ↦ some out
]
loop (p ∷ q ∷ ps) idx first body = elim (append_arc idx first body (atoi p)) [
  | none ↦ none
  | some (f, out) ↦ loop (q ∷ ps) (idx + 1) f out
]

abbrev pub push_token : Bytes → List Bytes → List Bytes
push_token token [] = token ∷ []
push_token token (w ∷ ws) = (token ++ w) ∷ ws

pub split_dots-cons : (s : Bytes) → (w : Bytes) × (ws : List Bytes) × (split_dots s ≡ w ∷ ws)
unfolding split_dots
split_dots-cons [] = ([], [], refl)
split_dots-cons (c ∷ s) =
    let (w, ws, e) = split_dots-cons s in
    elim (Bool-cases (c == dot)) [
      | inl d ↦ ([], w ∷ ws, rw d (rw e))
      | inr d ↦ (c ∷ w, ws, rw d (rw e))
    ]

pub push_token-nil : (s : Bytes) → push_token [] (split_dots s) ≡ split_dots s
push_token-nil s = let (w, ws, e) = split_dots-cons s in rw e

pub loop-none :
    (p : Bytes) (ps : List Bytes) (idx first : ℕ) (body : Bytes)
    → append_arc idx first body (atoi p) ≡ none
    → loop (p ∷ ps) idx first body ≡ none
unfolding loop
loop-none p [] idx first body e = rw (e, loop)
loop-none p (q ∷ ps) idx first body e = rw (e, loop)

pub loop-some :
    (p q : Bytes) (ps : List Bytes) (idx first : ℕ) (body : Bytes) (r : ℕ × Bytes)
    → append_arc idx first body (atoi p) ≡ some r
    → loop (p ∷ q ∷ ps) idx first body ≡ loop (q ∷ ps) (idx + 1) r.0 r.1
unfolding loop
loop-some p q ps idx first body r e = rw (e, loop)

append_arcs-dot :
    (s token : Bytes) (idx first : ℕ) (body : Bytes)
    → ((i f : ℕ) (out : Bytes) → append_arcs s [] i f out ≡ loop (split_dots s) i f out)
    → append_arcs (dot ∷ s) token idx first body ≡ loop (token ∷ split_dots s) idx first body
unfolding append_arcs
append_arcs-dot s token idx first body h =
    let (w, ws, e) = split_dots-cons s in
    elim (Option-cases (append_arc idx first body (atoi token))) [
      | inl q ↦ rw q (sym (loop-none token (split_dots s) idx first body q))
      | inr (r, q) ↦ rw q (
          h (idx + 1) r.0 r.1
          ∙ ap (λ ps. loop ps (idx + 1) r.0 r.1) e
          ∙ sym (loop-some token w ws idx first body r q)
          ∙ sym (ap (λ ps. loop (token ∷ ps) idx first body) e))
    ]

pub append_arcs-loop :
    (s token : Bytes) (idx first : ℕ) (body : Bytes)
    → append_arcs s token idx first body ≡ loop (push_token token (split_dots s)) idx first body
unfolding append_arcs loop split_dots
append_arcs-loop [] token idx first body = rw (append-nil token)
append_arcs-loop (c ∷ s) token idx first body =
    let (w, ws, e) = split_dots-cons s in
    elim (Bool-cases (c == dot)) [
      | inl d ↦
          subst
            (λ x.
              append_arcs (x ∷ s) token idx first body
              ≡ loop (push_token token (split_dots (x ∷ s))) idx first body)
            (sym ((==_iff c dot).0 d))
            (append_arcs-dot s token idx first body (λ i f out.
                append_arcs-loop s [] i f out ∙ ap (λ ps. loop ps i f out) (push_token-nil s))
              ∙ ap (λ t. loop (t ∷ split_dots s) idx first body) (sym (append-nil token)))
      | inr d ↦ rw d (
          append_arcs-loop s (token ++ (c ∷ [])) idx first body
          ∙ (rw e (ap (λ t. loop (t ∷ ws) idx first body) (append_assoc token (c ∷ []) w))))
    ]
