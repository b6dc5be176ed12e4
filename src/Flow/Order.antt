-- ===== src/Flow/Order.antt =====
-- The order in which `Expire` returns its records: `flowRecordLess` of go/nl6/flow_cache.go.
use nl.Prelude.{
  ◌≡◌, refl, ap, ◌∙◌, sym, subst, ◌⊎◌, Bool, Bool-cases, inl, inr, true, false, not, ◌&&◌, Option,
  [], ◌∷◌, ltb, ◌==◌, if◌then◌else◌, arith,
}
use nl.Prelude.Bytes.{Bytes, bytes_eq, bytes_eq_sound, bytes_eq_refl}
use nl.Flow.{FlowKey, FlowRecord, record_key, key_eq, bytes_less, key_less, flow_record_less}

-- A test of equality with a strict total order on what it tells apart.
record Ordered {ℓ} {A : Type ℓ} (same less : A → A → Bool) : Type ℓ where
  apart : (a b : A) → less a b ≡ true → same a b ≡ false
  trans : (a b c : A) → less a b ≡ true → less b c ≡ true → less a c ≡ true
  left : (a b c : A) → same a b ≡ true → (same a c ≡ same b c) × (less a c ≡ less b c)
  right : (a b c : A) → same b c ≡ true → (same a b ≡ same a c) × (less a b ≡ less a c)
  total : (a b : A) → same a b ≡ false → less a b ≡ false → less b a ≡ true

bytes_less_apart : (a b : Bytes) → bytes_less a b ≡ true → bytes_eq a b ≡ false
unfolding bytes_less bytes_eq
bytes_less_apart [] [] h = absurd (cc h)
bytes_less_apart [] (b ∷ bs) h = refl
bytes_less_apart (a ∷ xs) [] h = absurd (cc h)
bytes_less_apart (a ∷ xs) (b ∷ bs) h = ground (arith, h, bytes_less_apart xs bs)

bytes_less_trans :
    (a b c : Bytes) → bytes_less a b ≡ true → bytes_less b c ≡ true → bytes_less a c ≡ true
unfolding bytes_less
bytes_less_trans [] [] c h k = absurd (cc h)
bytes_less_trans [] (b ∷ bs) [] h k = absurd (cc k)
bytes_less_trans [] (b ∷ bs) (c ∷ cs) h k = refl
bytes_less_trans (a ∷ xs) [] c h k = absurd (cc h)
bytes_less_trans (a ∷ xs) (b ∷ bs) [] h k = absurd (cc k)
bytes_less_trans (a ∷ xs) (b ∷ bs) (c ∷ cs) h k = ground (arith, h, k, bytes_less_trans xs bs cs)

bytes_less_total :
    (a b : Bytes) → bytes_eq a b ≡ false → bytes_less a b ≡ false → bytes_less b a ≡ true
unfolding bytes_less bytes_eq
bytes_less_total [] [] h k = absurd (cc h)
bytes_less_total [] (b ∷ bs) h k = absurd (cc k)
bytes_less_total (a ∷ xs) [] h k = refl
bytes_less_total (a ∷ xs) (b ∷ bs) h k = ground (arith, h, k, bytes_less_total xs bs)

bytes-Ordered : Ordered bytes_eq bytes_less
bytes-Ordered = record {
  apart = bytes_less_apart;
  trans = bytes_less_trans;
  left = λ a b c h.
      let e = bytes_eq_sound a b h in (ap (λ q. bytes_eq q c) e, ap (λ q. bytes_less q c) e);
  right = λ a b c h. let e = bytes_eq_sound b c h in (ap (bytes_eq a) e, ap (bytes_less a) e);
  total = bytes_less_total;
}

number-Ordered : Ordered ◌==◌ ltb
number-Ordered = record {
  apart = λ a b h. ground arith;
  trans = λ a b c h k. ground arith;
  left = λ a b c h. ground arith;
  right = λ a b c h. ground arith;
  total = λ a b h k. ground arith;
}

-- The order of a part of what is compared.
by_part {ℓ κ} :
    {A : Type ℓ} {B : Type κ} (f : A → B) (same less : B → B → Bool)
    → Ordered same less
    → Ordered (λ a b. same (f a) (f b)) (λ a b. less (f a) (f b))
by_part f same less o = record {
  apart = λ a b. o.apart (f a) (f b);
  trans = λ a b c. o.trans (f a) (f b) (f c);
  left = λ a b c. o.left (f a) (f b) (f c);
  right = λ a b c. o.right (f a) (f b) (f c);
  total = λ a b. o.total (f a) (f b);
}

-- The order by one part, and by another where that one is the same.
by_first {ℓ} :
    {A : Type ℓ} (same less same' less' : A → A → Bool)
    → Ordered same less
    → Ordered same' less'
    → Ordered (λ a b. same a b && same' a b) (λ a b. if not (same a b) then less a b else less' a b)
by_first same less same' less' o o' = record {
  apart = λ a b h. ground (arith, h, o.apart a b, o'.apart a b);
  trans = λ a b c h k.
      ground (arith, h, k, o.trans a b c, o'.trans a b c, o.left a b c, o.right a b c, o.apart a c);
  left = λ a b c h. ground (arith, h, o.left a b c, o'.left a b c);
  right = λ a b c h. ground (arith, h, o.right a b c, o'.right a b c);
  total = λ a b h k.
      ground (arith, h, k, o.total a b, o'.total a b, o.apart b a, o.left a b b, o.right b a b);
}

-- The keys, compared part by part.
abbrev parts_eq : FlowKey → FlowKey → Bool
parts_eq a b =
    bytes_eq a.src_ip b.src_ip
    && (bytes_eq a.dst_ip b.dst_ip
        && (a.src_port == b.src_port && (a.dst_port == b.dst_port && a.protocol == b.protocol)))

key_eq-parts : (a b : FlowKey) → key_eq a b ≡ parts_eq a b
unfolding key_eq
key_eq-parts a b = ground arith

keys-Ordered : Ordered parts_eq key_less
unfolding key_less
keys-Ordered =
    by_first _ _ _ _ (by_part (λ (k : FlowKey). k.src_ip) bytes_eq bytes_less bytes-Ordered) (
      by_first _ _ _ _ (by_part (λ (k : FlowKey). k.dst_ip) bytes_eq bytes_less bytes-Ordered) (
        by_first _ _ _ _ (by_part (λ (k : FlowKey). k.src_port) ◌==◌ ltb number-Ordered) (
          by_first _ _ _ _ (by_part (λ (k : FlowKey). k.dst_port) ◌==◌ ltb number-Ordered)
            (by_part (λ (k : FlowKey). k.protocol) ◌==◌ ltb number-Ordered))))

parts_eq_refl : (k : FlowKey) → parts_eq k k ≡ true
parts_eq_refl k = ground (arith, bytes_eq_refl k.src_ip, bytes_eq_refl k.dst_ip)

irreflexive : (k : FlowKey) → key_less k k ≡ false
irreflexive k = elim (Bool-cases (key_less k k)) [
  | inr f ↦ f
  | inl t ↦ absurd (cc (keys-Ordered.apart k k t, parts_eq_refl k))
]

-- The keys are the same and neither is in front, or they differ and one of them is.
abbrev pub Trichotomy : Bool → Bool → Bool → Type 0
Trichotomy same front behind =
    ((same ≡ true) × (front ≡ false) × (behind ≡ false))
    ⊎ (((same ≡ false) × (front ≡ true) × (behind ≡ false))
        ⊎ ((same ≡ false) × (front ≡ false) × (behind ≡ true)))

keys-Trichotomy : (a b : FlowKey) → Trichotomy (parts_eq a b) (key_less a b) (key_less b a)
keys-Trichotomy a b =
    let o = keys-Ordered in
    elim (Bool-cases (parts_eq a b)) [
      | inl t ↦ inl (t, (o.left a b b t).1 ∙ irreflexive b, (o.right b a b t).1 ∙ irreflexive b)
      | inr f ↦ elim (Bool-cases (key_less a b)) [
        | inl t ↦ inr (inl (f, t, ground (arith, t, o.trans a b a, irreflexive a)))
        | inr g ↦ inr (inr (f, g, o.total a b f g))
      ]
    ]

-- flowRecordLess is a strict order that sort.Slice can sort by: of two records the keys are the
-- same and neither is in front of the other, or exactly one of them is; and a record in front of
-- another is in front of all that are behind that. So records of distinct keys have one order only.
pub flow_record_less_order :
    (to4 : Bytes → Option Bytes) (a b c : FlowRecord)
    → Trichotomy
        (key_eq (record_key to4 a) (record_key to4 b))
        (flow_record_less to4 a b)
        (flow_record_less to4 b a)
      × ((flow_record_less to4 a b && flow_record_less to4 b c && not (flow_record_less to4 a c))
          ≡ false)
unfolding flow_record_less
flow_record_less_order to4 a b c =
    let j = record_key to4 a in
    let k = record_key to4 b in
    (
      subst (λ q. Trichotomy q (key_less j k) (key_less k j)) (sym (key_eq-parts j k))
          (keys-Trichotomy j k),
      ground (arith, keys-Ordered.trans j k (record_key to4 c)),
    )
