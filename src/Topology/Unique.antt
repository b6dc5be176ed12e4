-- ===== src/Topology/Unique.antt =====
-- In proper links a port has one peer at most: go/nl6/topology.go.
use nl.Prelude.{ℕ, ◌≡◌, ◌⊎◌, sym, ap, ◌∙◌, subst, inl, inr, true, false, ◌==◌, List, [], ◌∷◌, arith}
use nl.Prelude.Bytes.{Bytes, bytes_eq, bytes_eq_refl}
use nl.Topology.{LinkEndpoint, TopoLink, LocalLink, same_endpoint}
use nl.Topology.Links.{Apart, ApartFromAll, Proper}
use nl.Topology.Index.{Sees, Seen, link_between}

-- The port `i` of the device `p` is an end of the link.
abbrev HasPort : TopoLink → Bytes → ℕ → Type 0
HasPort l p i = ((l.a.ip ≡ p) × (l.a.if_index ≡ i)) ⊎ ((l.b.ip ≡ p) × (l.b.if_index ≡ i))

same_endpoint-true :
    (d e : LinkEndpoint) → d.ip ≡ e.ip → d.if_index ≡ e.if_index → same_endpoint d e ≡ true
unfolding same_endpoint
same_endpoint-true d e h k =
    let t = bytes_eq_refl e.ip in
    let s : bytes_eq d.ip e.ip ≡ true = subst (λ q. bytes_eq q e.ip ≡ true) (sym h) t in
    let n : (d.if_index == e.if_index) ≡ true = ground (arith, k) in rw s n

clash :
    (d e : LinkEndpoint) (p : Bytes) (i : ℕ)
    → same_endpoint d e ≡ false
    → (d.ip ≡ p) × (d.if_index ≡ i)
    → (e.ip ≡ p) × (e.if_index ≡ i)
    → ⊥
clash d e p i f h k = cc (same_endpoint-true d e (h.0 ∙ sym k.0) (h.1 ∙ sym k.1), f)

Apart-clash : (l m : TopoLink) (p : Bytes) (i : ℕ) → Apart l m → HasPort l p i → HasPort m p i → ⊥
Apart-clash l m p i h (inl a) (inl b) = clash l.a m.a p i h.0 a b
Apart-clash l m p i h (inr a) (inl b) = clash l.b m.a p i h.1 a b
Apart-clash l m p i h (inl a) (inr b) = clash l.a m.b p i h.2 a b
Apart-clash l m p i h (inr a) (inr b) = clash l.b m.b p i h.3 a b

Sees-HasPort :
    (l : TopoLink) (p : Bytes) (i : ℕ) (q : Bytes) (j : ℕ)
    → Sees l p (link_between i q j)
    → HasPort l p i
Sees-HasPort l p i q j (inl (at, e)) = inl (at, ap (λ (x : LocalLink). x.local_if_index) e)
Sees-HasPort l p i q j (inr (at, e)) = inr (at, ap (λ (x : LocalLink). x.local_if_index) e)

Seen-clash :
    (l : TopoLink) (links : List TopoLink) (p : Bytes) (i : ℕ) (q : Bytes) (j : ℕ)
    → ApartFromAll l links
    → HasPort l p i
    → Seen links p (link_between i q j)
    → ⊥
Seen-clash l [] p i q j h k s = s
Seen-clash l (m ∷ links) p i q j h k (inl s) = Apart-clash l m p i h.0 k (Sees-HasPort m p i q j s)
Seen-clash l (m ∷ links) p i q j h k (inr s) = Seen-clash l links p i q j h.1 k s

Sees-unique :
    (l : TopoLink) (p : Bytes) (i : ℕ) (q q' : Bytes) (j j' : ℕ)
    → same_endpoint l.a l.b ≡ false
    → Sees l p (link_between i q j)
    → Sees l p (link_between i q' j')
    → link_between i q j ≡ link_between i q' j'
Sees-unique l p i q q' j j' f (inl (at, e)) (inl (at', e')) = sym e ∙ e'
Sees-unique l p i q q' j j' f (inr (at, e)) (inr (at', e')) = sym e ∙ e'
Sees-unique l p i q q' j j' f (inl (at, e)) (inr (at', e')) = absurd (
    clash l.a l.b p i f (at, ap (λ (x : LocalLink). x.local_if_index) e)
      (at', ap (λ (x : LocalLink). x.local_if_index) e'))
Sees-unique l p i q q' j j' f (inr (at, e)) (inl (at', e')) = absurd (
    clash l.a l.b p i f (at', ap (λ (x : LocalLink). x.local_if_index) e')
      (at, ap (λ (x : LocalLink). x.local_if_index) e))

pub Seen-unique :
    (links : List TopoLink) (p : Bytes) (i : ℕ) (q q' : Bytes) (j j' : ℕ)
    → Proper links
    → Seen links p (link_between i q j)
    → Seen links p (link_between i q' j')
    → link_between i q j ≡ link_between i q' j'
Seen-unique [] p i q q' j j' h s t = absurd s
Seen-unique (l ∷ links) p i q q' j j' h (inl s) (inl t) = Sees-unique l p i q q' j j' h.0 s t
Seen-unique (l ∷ links) p i q q' j j' h (inl s) (inr t) =
    absurd (Seen-clash l links p i q' j' h.1 (Sees-HasPort l p i q j s) t)
Seen-unique (l ∷ links) p i q q' j j' h (inr s) (inl t) =
    absurd (Seen-clash l links p i q j h.1 (Sees-HasPort l p i q' j' t) s)
Seen-unique (l ∷ links) p i q q' j j' h (inr s) (inr t) = Seen-unique links p i q q' j j' h.2 s t
