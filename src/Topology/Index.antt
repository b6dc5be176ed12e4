-- ===== src/Topology/Index.antt =====
-- What the map of local links holds: each link, as each of its ends sees it.
use nl.Prelude.{
  ℕ, ◌≡◌, ◌⊎◌, ◌↔◌, refl, sym, ap, subst, Bool-cases, inl, inr, false, List, [], ◌∷◌, ◌++◌,
}
use nl.Prelude.Bytes.{Bytes, bytes_eq, bytes_eq_sound, bytes_eq_refl}
use nl.Topology.{
  TopoLink, LocalLink, Adjacency, no_links, append_local, from_a, from_b, index_link, index_links,
  rebuild_adj,
}

abbrev pub In : LocalLink → List LocalLink → Type 0
In e [] = ⊥
In e (x ∷ xs) = (x ≡ e) ⊎ In e xs

-- `e` is the link as an end on the device `ip` sees it.
abbrev pub Sees : TopoLink → Bytes → LocalLink → Type 0
Sees l ip e = ((l.a.ip ≡ ip) × (from_a l ≡ e)) ⊎ ((l.b.ip ≡ ip) × (from_b l ≡ e))

abbrev pub Seen : List TopoLink → Bytes → LocalLink → Type 0
Seen [] ip e = ⊥
Seen (l ∷ links) ip e = Sees l ip e ⊎ Seen links ip e

In-snoc : (e x : LocalLink) (xs : List LocalLink) → In e (xs ++ (x ∷ [])) ↔ ((x ≡ e) ⊎ In e xs)
In-snoc e x xs = (there xs, back xs)
  where
    there : (ys : List LocalLink) → In e (ys ++ (x ∷ [])) → (x ≡ e) ⊎ In e ys
    there [] (inl h) = inl h
    there [] (inr h) = absurd h
    there (y ∷ ys) (inl h) = inr (inl h)
    there (y ∷ ys) (inr h) = elim (there ys h) [ inl k ↦ inl k | inr k ↦ inr (inr k) ]

    back : (ys : List LocalLink) → (x ≡ e) ⊎ In e ys → In e (ys ++ (x ∷ []))
    back [] (inl h) = inl h
    back [] (inr h) = absurd h
    back (y ∷ ys) (inl h) = inr (back ys (inl h))
    back (y ∷ ys) (inr (inl h)) = inl h
    back (y ∷ ys) (inr (inr h)) = inr (back ys (inr h))

append_local-In :
    (adj : Adjacency) (ip : Bytes) (x : LocalLink) (key : Bytes) (e : LocalLink)
    → In e (append_local adj ip x key) ↔ (((ip ≡ key) × (x ≡ e)) ⊎ In e (adj key))
unfolding append_local
append_local-In adj ip x key e = elim (Bool-cases (bytes_eq key ip)) [
  | inl t ↦
      let same = bytes_eq_sound key ip t in
      let s = In-snoc e x (adj key) in
      rw t (
        λ h. elim (s.0 h) [ inl k ↦ inl (sym same, k) | inr k ↦ inr k ],
        λ h. s.1 (elim h [ inl k ↦ inl k.1 | inr k ↦ inr k ]),
      )
  | inr f ↦ rw f (λ h. inr h, λ h. elim h [ inl k ↦ absurd (other f k.0) | inr k ↦ k ])
]
  where
    other : bytes_eq key ip ≡ false → ip ≡ key → ⊥
    other f same = cc (bytes_eq_refl key, subst (λ q. bytes_eq key q ≡ false) same f)

index_link-In :
    (adj : Adjacency) (l : TopoLink) (key : Bytes) (e : LocalLink)
    → In e (index_link adj l key) ↔ (Sees l key e ⊎ In e (adj key))
unfolding index_link
index_link-In adj l key e =
    let inner = append_local-In adj l.a.ip (from_a l) key e in
    let outer = append_local-In (append_local adj l.a.ip (from_a l)) l.b.ip (from_b l) key e in
    (
      λ h. elim (outer.0 h) [
        | inl k ↦ inl (inr k)
        | inr k ↦ elim (inner.0 k) [ inl m ↦ inl (inl m) | inr m ↦ inr m ]
      ],
      λ h. outer.1 (elim h [
        | inl (inl k) ↦ inr (inner.1 (inl k))
        | inl (inr k) ↦ inl k
        | inr k ↦ inr (inner.1 (inr k))
      ]),
    )

index_links-In :
    (adj : Adjacency) (links : List TopoLink) (key : Bytes) (e : LocalLink)
    → In e (index_links adj links key) ↔ (Seen links key e ⊎ In e (adj key))
unfolding index_links
index_links-In adj [] key e = (λ h. inr h, λ h. elim h [ inl k ↦ absurd k | inr k ↦ k ])
index_links-In adj (l ∷ links) key e =
    let first = index_link-In adj l key e in
    let rest = index_links-In (index_link adj l) links key e in
    (
      λ h. elim (rest.0 h) [
        | inl k ↦ inl (inr k)
        | inr k ↦ elim (first.0 k) [ inl m ↦ inl (inl m) | inr m ↦ inr m ]
      ],
      λ h. rest.1 (elim h [
        | inl (inl k) ↦ inr (first.1 (inl k))
        | inl (inr k) ↦ inl k
        | inr k ↦ inr (first.1 (inr k))
      ]),
    )

-- A map that was rebuilt holds, for each device, exactly the links as the device sees them.
pub rebuild_adj-In :
    (links : List TopoLink) (key : Bytes) (e : LocalLink)
    → In e (rebuild_adj links key) ↔ Seen links key e
unfolding rebuild_adj
rebuild_adj-In links key e =
    let s = index_links-In no_links links key e in
    (λ h. elim (s.0 h) [ inl k ↦ k | inr k ↦ absurd k ], λ h. s.1 (inl h))

-- The two ends of a link.
abbrev pub link_between : ℕ → Bytes → ℕ → LocalLink
link_between i peer j = record { local_if_index = i; peer_ip = peer; peer_if_index = j }

Seen-turned :
    (links : List TopoLink) (p : Bytes) (i : ℕ) (q : Bytes) (j : ℕ)
    → Seen links p (link_between i q j)
    → Seen links q (link_between j p i)
Seen-turned [] p i q j h = absurd h
Seen-turned (l ∷ links) p i q j (inl (inl (at, e))) =
    let a = ap (λ (x : LocalLink). x.local_if_index) e in
    let b = ap (λ (x : LocalLink). x.peer_ip) e in
    let c = ap (λ (x : LocalLink). x.peer_if_index) e in inl (inr (b, cc (at, a, b, c)))
Seen-turned (l ∷ links) p i q j (inl (inr (at, e))) =
    let a = ap (λ (x : LocalLink). x.local_if_index) e in
    let b = ap (λ (x : LocalLink). x.peer_ip) e in
    let c = ap (λ (x : LocalLink). x.peer_if_index) e in inl (inl (b, cc (at, a, b, c)))
Seen-turned (l ∷ links) p i q j (inr h) = inr (Seen-turned links p i q j h)

pub rebuild_adj_turned :
    (links : List TopoLink) (p : Bytes) (i : ℕ) (q : Bytes) (j : ℕ)
    → In (link_between i q j) (rebuild_adj links p)
    → In (link_between j p i) (rebuild_adj links q)
rebuild_adj_turned links p i q j h =
    (rebuild_adj-In links q (link_between j p i)).1
      (Seen-turned links p i q j ((rebuild_adj-In links p (link_between i q j)).0 h))

-- Appending links to a rebuilt map is rebuilding it for all of them.
pub index_links-append :
    (adj : Adjacency) (xs ys : List TopoLink)
    → index_links (index_links adj xs) ys ≡ index_links adj (xs ++ ys)
unfolding index_links
index_links-append adj [] ys = refl
index_links-append adj (l ∷ xs) ys = index_links-append (index_link adj l) xs ys
