-- ===== src/Topology/Links.antt =====
-- No port is in two links.
use nl.Prelude.{
  ◌≡◌, refl, subst, Bool-cases, inl, inr, false, ◌||◌, Option, Option-cases, some, List, [], ◌∷◌,
  ◌++◌, arith,
}
use nl.Prelude.Bytes.{Bytes, bytes_eq}
use nl.Topology.{
  LinkEndpoint, TopoLink, Checked, ok, refused, and_then, same_endpoint, validate_against_links,
  admit_links, norm_endpoint, norm_link, norm_links, joins, without_link, links_without,
}

-- Two links have no end in common.
abbrev pub Apart : TopoLink → TopoLink → Type 0
Apart l m =
    (same_endpoint l.a m.a ≡ false)
    × (same_endpoint l.b m.a ≡ false)
    × (same_endpoint l.a m.b ≡ false)
    × (same_endpoint l.b m.b ≡ false)

abbrev pub ApartFromAll : TopoLink → List TopoLink → Type 0
ApartFromAll l [] = Unit {0}
ApartFromAll l (m ∷ links) = Apart l m × ApartFromAll l links

-- The two ends of each link are different ports, and no port is in two links.
abbrev pub Proper : List TopoLink → Type 0
Proper [] = Unit {0}
Proper (l ∷ links) = (same_endpoint l.a l.b ≡ false) × ApartFromAll l links × Proper links

abbrev AllApartFrom : List TopoLink → TopoLink → Type 0
AllApartFrom [] m = Unit {0}
AllApartFrom (l ∷ links) m = Apart l m × AllApartFrom links m

abbrev pub AllJoinTwo : List TopoLink → Type 0
AllJoinTwo [] = Unit {0}
AllJoinTwo (l ∷ links) = (same_endpoint l.a l.b ≡ false) × AllJoinTwo links

ApartFromAll-snoc :
    (l nl : TopoLink) (links : List TopoLink)
    → ApartFromAll l links
    → Apart l nl
    → ApartFromAll l (links ++ (nl ∷ []))
ApartFromAll-snoc l nl [] h k = (k, tt)
ApartFromAll-snoc l nl (m ∷ links) h k = (h.0, ApartFromAll-snoc l nl links h.1 k)

Proper-snoc :
    (links : List TopoLink) (nl : TopoLink)
    → Proper links
    → AllApartFrom links nl
    → same_endpoint nl.a nl.b ≡ false
    → Proper (links ++ (nl ∷ []))
Proper-snoc [] nl h k s = (s, tt, tt)
Proper-snoc (l ∷ links) nl h k s =
    (h.0, ApartFromAll-snoc l nl links h.1 k.0, Proper-snoc links nl h.2 k.1 s)

validate-AllApartFrom :
    (nl m : TopoLink) (links : List TopoLink)
    → validate_against_links nl links ≡ ok m
    → AllApartFrom links nl
unfolding validate_against_links
validate-AllApartFrom nl m [] h = tt
validate-AllApartFrom nl m (l ∷ links) h =
    (ground (arith, h), validate-AllApartFrom nl m links (ground (arith, h)))

pub and_then-ok {ℓ κ} :
    {A : Type ℓ} {B : Type κ} (m : Checked A) (f : A → Checked B) (b : B)
    → and_then m f ≡ ok b
    → (a : A) × (m ≡ ok a) × (f a ≡ ok b)
and_then-ok (ok a) f b h = (a, refl, h)
and_then-ok (refused e) f b h = cc h

pub admit_links-Proper :
    (links pending result : List TopoLink)
    → Proper links
    → AllJoinTwo pending
    → admit_links links pending ≡ ok result
    → Proper result
unfolding admit_links
admit_links-Proper links [] result p j h = let e : links ≡ result = cc h in subst Proper e p
admit_links-Proper links (nl ∷ pending) result p j h =
    let (m, v, rest) =
      and_then-ok (validate_against_links nl links) (λ l. admit_links (links ++ (nl ∷ [])) pending)
        result h in
    admit_links-Proper (links ++ (nl ∷ [])) pending result
      (Proper-snoc links nl p (validate-AllApartFrom nl m links v) j.0) j.1 rest

module _ (canonical : Bytes → Option Bytes) where
  norm_link-joins_two :
      (l m : TopoLink) → norm_link canonical l ≡ ok m → same_endpoint m.a m.b ≡ false
  unfolding norm_link
  norm_link-joins_two l m h =
      let (a, ea, h1) = and_then-ok (norm_endpoint canonical l.a) _ m h in
      let (b, eb, h2) = and_then-ok (norm_endpoint canonical l.b) _ m h1 in
      elim (Bool-cases (same_endpoint a b)) [
        | inl t ↦ cc (rw t at h2)
        | inr f ↦
            let e : record { a = a; b = b } ≡ m = cc (rw f at h2) in
            subst (λ (q : TopoLink). same_endpoint q.a q.b ≡ false) e f
      ]

  pub norm_links-AllJoinTwo :
      (links pending : List TopoLink) → norm_links canonical links ≡ ok pending → AllJoinTwo pending
  unfolding norm_links
  norm_links-AllJoinTwo [] pending h = let e : [] ≡ pending = cc h in subst AllJoinTwo e tt
  norm_links-AllJoinTwo (l ∷ links) pending h =
      let (nl, en, h1) = and_then-ok (norm_link canonical l) _ pending h in
      let (rest, er, h2) = and_then-ok (norm_links canonical links) _ pending h1 in
      let e : (nl ∷ rest) ≡ pending = cc h2 in
      subst AllJoinTwo e (norm_link-joins_two l nl en, norm_links-AllJoinTwo links rest er)

-- The links are some of the others, in their order.
data Kept : List TopoLink → List TopoLink → Type 0 where
  none_left : Kept [] []
  keep : (l : TopoLink) (xs ys : List TopoLink) → Kept xs ys → Kept (l ∷ xs) (l ∷ ys)
  pass_over : (l : TopoLink) (xs ys : List TopoLink) → Kept xs ys → Kept xs (l ∷ ys)

Kept-ApartFromAll :
    (l : TopoLink) (xs ys : List TopoLink) → Kept xs ys → ApartFromAll l ys → ApartFromAll l xs
Kept-ApartFromAll l xs ys none_left h = tt
Kept-ApartFromAll l xs ys (keep m xs' ys' k) h = (h.0, Kept-ApartFromAll l xs' ys' k h.1)
Kept-ApartFromAll l xs ys (pass_over m xs' ys' k) h = Kept-ApartFromAll l xs' ys' k h.1

Kept-Proper : (xs ys : List TopoLink) → Kept xs ys → Proper ys → Proper xs
Kept-Proper xs ys none_left h = tt
Kept-Proper xs ys (keep l xs' ys' k) h =
    (h.0, Kept-ApartFromAll l xs' ys' k h.1, Kept-Proper xs' ys' k h.2)
Kept-Proper xs ys (pass_over l xs' ys' k) h = Kept-Proper xs' ys' k h.2

Kept-refl : (xs : List TopoLink) → Kept xs xs
Kept-refl [] = none_left
Kept-refl (l ∷ xs) = keep l xs xs (Kept-refl xs)

links_without-Kept : (ip : Bytes) (links : List TopoLink) → Kept (links_without ip links) links
unfolding links_without
links_without-Kept ip [] = none_left
links_without-Kept ip (l ∷ links) = elim (Bool-cases (bytes_eq l.a.ip ip || bytes_eq l.b.ip ip)) [
  | inl t ↦ rw t (pass_over l (links_without ip links) links (links_without-Kept ip links))
  | inr f ↦ rw f (keep l (links_without ip links) links (links_without-Kept ip links))
]

without_link-Kept :
    (d e : LinkEndpoint) (links rest : List TopoLink)
    → without_link d e links ≡ some rest
    → Kept rest links
unfolding without_link
without_link-Kept d e [] rest h = cc h
without_link-Kept d e (l ∷ links) rest h = elim (Bool-cases (joins d e l)) [
  | inl t ↦
      let q : links ≡ rest = cc (rw t at h) in
      subst (λ r. Kept r (l ∷ links)) q (pass_over l links links (Kept-refl links))
  | inr f ↦ elim (Option-cases (without_link d e links)) [
    | inl n ↦ cc (rw n at (rw f at h))
    | inr (ls, s) ↦
        let q : (l ∷ ls) ≡ rest = cc (rw s at (rw f at h)) in
        subst (λ r. Kept r (l ∷ links)) q (keep l ls links (without_link-Kept d e links ls s))
  ]
]

pub links_without-Proper :
    (ip : Bytes) (links : List TopoLink) → Proper links → Proper (links_without ip links)
links_without-Proper ip links =
    Kept-Proper (links_without ip links) links (links_without-Kept ip links)

pub without_link-Proper :
    (d e : LinkEndpoint) (links rest : List TopoLink)
    → without_link d e links ≡ some rest
    → Proper links
    → Proper rest
without_link-Proper d e links rest h = Kept-Proper rest links (without_link-Kept d e links rest h)
