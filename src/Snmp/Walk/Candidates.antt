-- ===== src/Snmp/Walk/Candidates.antt =====
-- The candidates of a walk: each stands behind the current OID, and together they cover what is served.
use nl.Prelude.{
  ℕ, zero, suc, ◌<◌, ◌≡◌, refl, Bool, Bool-cases, ◌⊎◌, inl, inr, true, false, not, List, [], ◌∷◌,
  ◌++◌, ltb, length, get_or, arith,
}
use nl.Prelude.Bytes.{Bytes}
use nl.Snmp.Oid.Order.{oid_le, oid_lt}
use nl.Snmp.Oid.Order.Total.{oid_le_trans, oid_le_total, oid_lt-not_le}
use nl.Snmp.Walk.{
  Entry, no_entry, is_empty, search_after, served_upto_at, lldp_next_from_served, candidate,
  metric_candidate, better, least_candidate,
}
use nl.Snmp.Walk.Search.{Ascending, AscendingRows, search-AscendingRows}

-- Behind the current OID, and not the empty text.
abbrev pub Front : Bytes → Entry → Type 0
Front current e = (is_empty e.0 ≡ false) × (oid_le e.0 current ≡ false)

abbrev pub AllFront : Bytes → List Entry → Type 0
AllFront current [] = Unit {0}
AllFront current (e ∷ es) = Front current e × AllFront current es

-- One of the entries does not stand behind `o`.
abbrev pub Covered : Bytes → List Entry → Type 0
Covered o [] = ⊥
Covered o (e ∷ es) = (oid_le e.0 o ≡ true) ⊎ Covered o es

pub AllFront-append :
    (current : Bytes) (xs ys : List Entry)
    → AllFront current xs
    → AllFront current ys
    → AllFront current (xs ++ ys)
AllFront-append current [] ys h k = k
AllFront-append current (e ∷ xs) ys h k = (h.0, AllFront-append current xs ys h.1 k)

pub Covered-left : (o : Bytes) (xs ys : List Entry) → Covered o xs → Covered o (xs ++ ys)
Covered-left o [] ys h = absurd h
Covered-left o (e ∷ xs) ys (inl h) = inl h
Covered-left o (e ∷ xs) ys (inr h) = inr (Covered-left o xs ys h)

pub Covered-right : (o : Bytes) (xs ys : List Entry) → Covered o ys → Covered o (xs ++ ys)
Covered-right o [] ys h = h
Covered-right o (e ∷ xs) ys h = inr (Covered-right o xs ys h)

pub oid_le_refl : (a : Bytes) → oid_le a a ≡ true
oid_le_refl a = elim (Bool-cases (oid_le a a)) [ inl t ↦ t | inr f ↦ oid_le_total a a f ]

better-Front :
    (current : Bytes) (best c : Entry)
    → Front current best
    → Front current c
    → Front current (better best c)
unfolding better
better-Front current best c h k = elim (Bool-cases (oid_lt c.0 best.0)) [
  | inl t ↦ rw t k
  | inr f ↦ rw f h
]

-- Of two candidates the better one is in front of neither.
better-le :
    (best c : Entry)
    → (oid_le (better best c).0 best.0 ≡ true) × (oid_le (better best c).0 c.0 ≡ true)
unfolding better
better-le best c =
    let l = oid_lt-not_le c.0 best.0 in
    elim (Bool-cases (oid_lt c.0 best.0)) [
      | inl t ↦ rw t (oid_le_total best.0 c.0 (ground (arith, l, t)), oid_le_refl c.0)
      | inr f ↦ rw f (oid_le_refl best.0, ground (arith, l, f))
    ]

-- The loop over the candidates keeps one of them, and none is in front of it.
pub least_candidate-Front :
    (current : Bytes) (best : Entry) (others : List Entry)
    → Front current best
    → AllFront current others
    → Front current (least_candidate best others)
unfolding least_candidate
least_candidate-Front current best [] h k = h
least_candidate-Front current best (c ∷ others) h k =
    least_candidate-Front current (better best c) others (better-Front current best c h k.0) k.1

pub least_candidate-Covered :
    (o : Bytes) (best : Entry) (others : List Entry)
    → Covered o (best ∷ others)
    → oid_le (least_candidate best others).0 o ≡ true
unfolding least_candidate
least_candidate-Covered o best [] (inl h) = h
least_candidate-Covered o best [] (inr h) = absurd h
least_candidate-Covered o best (c ∷ others) (inl h) =
    least_candidate-Covered o (better best c) others
      (inl (oid_le_trans (better best c).0 best.0 o (better-le best c).0 h))
least_candidate-Covered o best (c ∷ others) (inr (inl h)) =
    least_candidate-Covered o (better best c) others
      (inl (oid_le_trans (better best c).0 c.0 o (better-le best c).1 h))
least_candidate-Covered o best (c ∷ others) (inr (inr h)) =
    least_candidate-Covered o (better best c) others (inr h)

module _ (current : Bytes) where
  candidate-Front :
      (test : Bool) (e : Entry)
      → (test ≡ true → Front current e)
      → AllFront current (candidate test e)
  candidate-Front true e h = (h refl, tt)
  candidate-Front false e h = tt

  -- A scalar that the device always has.
  pub scalar-Front :
      (e : Entry) → is_empty e.0 ≡ false → AllFront current (candidate (not (oid_le e.0 current)) e)
  scalar-Front e h = candidate-Front (not (oid_le e.0 current)) e (λ t. (h, ground (arith, t)))

  pub scalar-Covered :
      (e : Entry)
      → oid_le e.0 current ≡ false
      → Covered e.0 (candidate (not (oid_le e.0 current)) e)
  scalar-Covered e h = rw h (inl (oid_le_refl e.0))

  pub metric_candidate-Front :
      (value : Bytes → Bytes) (oids : List Bytes)
      → ((i : ℕ) → i < length oids → is_empty (get_or oids i []) ≡ false)
      → AllFront current (metric_candidate value current oids)
  unfolding metric_candidate
  metric_candidate-Front value [] named = tt
  metric_candidate-Front value (m ∷ oids) named =
      let rest = metric_candidate-Front value oids (λ i h. named (suc i) (omega arith)) in
      elim (Bool-cases (oid_le m current)) [
        | inl t ↦ rw t rest
        | inr f ↦ elim (Bool-cases (is_empty (value m))) [
          | inl e ↦ rw f (rw e rest)
          | inr e ↦ rw f (rw e ((named 0 (omega arith), f), tt))
        ]
      ]

  pub metric_candidate-Covered :
      (value : Bytes → Bytes) (oids : List Bytes)
      → Ascending oids
      → (i : ℕ) → i < length oids
      → is_empty (value (get_or oids i [])) ≡ false
      → oid_le (get_or oids i []) current ≡ false
      → Covered (get_or oids i []) (metric_candidate value current oids)
  unfolding metric_candidate
  metric_candidate-Covered value [] sorted i h v k = absurd (omega arith)
  metric_candidate-Covered value (m ∷ oids) sorted zero h v k = rw k (rw v (inl (oid_le_refl m)))
  metric_candidate-Covered value (m ∷ oids) sorted (suc i) h v k =
      let rest =
        metric_candidate-Covered value oids
          (λ a b p q. sorted (suc a) (suc b) (omega arith) (omega arith)) i (omega arith) v k in
      elim (Bool-cases (oid_le m current)) [
        | inl t ↦ rw t rest
        | inr f ↦ elim (Bool-cases (is_empty (value m))) [
          | inl e ↦ rw f (rw e rest)
          | inr e ↦ rw f (rw e (inl (sorted 0 (suc i) (omega arith) h)))
        ]
      ]

  -- What `lldpNextFromServed` finds.
  pub lldp_next-Front :
      (rows : List Entry)
      → AscendingRows rows
      → is_empty (lldp_next_from_served rows current).0 ≡ false
      → Front current (lldp_next_from_served rows current)
  unfolding lldp_next_from_served
  lldp_next-Front rows sorted h =
      let lo = search_after (length rows) (served_upto_at rows current) 0 (length rows) in
      let s = search-AscendingRows rows current sorted in
      elim (Bool-cases (ltb lo (length rows))) [
        | inl t ↦ (h, rw t (s.above lo (omega arith) (ground arith)))
        | inr f ↦ absurd (cc (h, unnamed f))
      ]
    where
      unnamed :
          ltb
              (search_after (length rows) (served_upto_at rows current) 0 (length rows))
              (length rows)
            ≡ false
          → is_empty (lldp_next_from_served rows current).0 ≡ true
      unnamed f = rw f refl

  pub lldp_next_le :
      (rows : List Entry)
      → AscendingRows rows
      → (i : ℕ) → i < length rows
      → is_empty (get_or rows i no_entry).0 ≡ false
      → ((j : ℕ) → j < length rows → is_empty (get_or rows j no_entry).0 ≡ false)
      → oid_le (get_or rows i no_entry).0 current ≡ false
      → (is_empty (lldp_next_from_served rows current).0 ≡ false)
        × (oid_le (lldp_next_from_served rows current).0 (get_or rows i no_entry).0 ≡ true)
  unfolding lldp_next_from_served
  lldp_next_le rows sorted i h v named k =
      let lo = search_after (length rows) (served_upto_at rows current) 0 (length rows) in
      let s = search-AscendingRows rows current sorted in
      elim (Bool-cases (ltb i lo)) [
        | inl t ↦ absurd (cc (s.below i (ground arith), k))
        | inr f ↦
            let inside : ltb lo (length rows) ≡ true = ground arith in
            rw inside (named lo (ground arith), sorted lo i (ground arith) h)
      ]
