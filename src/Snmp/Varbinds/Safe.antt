-- ===== src/Snmp/Varbinds/Safe.antt =====
-- Reading a variable-bindings list never reads out of range, and its loop ends.
use nl.Prelude.{
  ℕ, zero, suc, ◌+◌, ◌-◌, ◌≤◌, ◌<◌, ◌≡◌, true, ◌&&◌, ◌||◌, not, Option, none, some, List, [], ◌∷◌,
  ltb, leb, ◌==◌, length, drop, length-take, length-drop, arith,
}
use nl.Prelude.Bytes.{Bytes}
use nl.Prelude.Go.{
  ret, index, slice, Found, Returns, Returns-bind, Returns-try, Returns-if, index-Returns,
}
use nl.Snmp.Length.{parse_length}
use nl.Snmp.Length.Safe.{ParsesLength, parse_length-Returns}
use nl.Snmp.Tlv.{asn1_sequence}
use nl.Snmp.Oid.{asn1_oid, decode_oid}
use nl.Snmp.Varbinds.{
  non_negative, length_at, field, VarBind, VarBinds, malformed, absent, parsed, name_field,
  value_field, bindings_loop, with_contents, parse_list, parse_var_binds,
}

-- A length, and a position behind `pos` that is inside.
abbrev pub Header : Bytes → ℕ → ℕ × ℕ → Type 0
Header bs pos r = (pos < r.1) × (r.1 ≤ length bs)

pub length_at-Returns : (bs : Bytes) (pos : ℕ) → Returns (length_at bs pos) (Found (Header bs pos))
unfolding length_at
length_at-Returns bs pos =
    Returns-bind (parse_length bs pos) _ (ParsesLength bs pos) (Found (Header bs pos))
      (parse_length-Returns bs pos) kept
  where
    kept : (r : Option ℕ × ℕ) → ParsesLength bs pos r → Found (Header bs pos) (non_negative r)
    kept (none, p) h = tt
    kept (some n, p) h = (h.1, h.2)

pub field-Returns :
    (bs : Bytes) (tag pos : ℕ) → Returns (field bs tag pos) (Found (Header bs (pos + 1)))
unfolding field
field-Returns bs tag pos =
    Returns-if (leb (length bs) pos) _ _ (Found (Header bs (pos + 1))) (λ e. tt)
      (λ e.
        Returns-bind (index bs pos) _ (λ b. Unit {0}) (Found (Header bs (pos + 1)))
          (index-Returns bs pos (ground arith))
          (λ b u.
            Returns-if (b == tag) _ _ (Found (Header bs (pos + 1)))
              (λ t. length_at-Returns bs (pos + 1)) (λ t. tt)))

pub slice-Returns :
    (bs : Bytes) (lo hi : ℕ)
    → lo ≤ hi
    → hi ≤ length bs
    → Returns (slice bs lo hi) (λ s. length s ≡ hi - lo)
slice-Returns bs lo hi a b =
    let inside : (leb lo hi && leb hi (length bs)) ≡ true = ground arith in
    let t = length-take (hi - lo) (drop lo bs) in
    let d = length-drop lo bs in rw inside (omega (arith, t, d))

-- A name that is not empty, and a position behind it up to the binding's end.
abbrev Named : ℕ → ℕ → Bytes × ℕ → Type 0
Named next pos n = (0 < length n.0) × (pos < n.1) × (n.1 ≤ next)

name_field-Returns :
    (bs : Bytes) (next pos : ℕ)
    → next ≤ length bs
    → Returns (name_field bs next pos) (Found (Named next pos))
unfolding name_field
name_field-Returns bs next pos le =
    Returns-if (leb next pos) _ _ (Found (Named next pos)) (λ e. tt)
      (λ e.
        Returns-bind (index bs pos) _ (λ b. Unit {0}) (Found (Named next pos))
          (index-Returns bs pos (ground arith))
          (λ b u.
            Returns-if (not (b == asn1_oid)) _ _ (Found (Named next pos)) (λ t. tt)
              (λ t.
                Returns-try (length_at bs (pos + 1)) _ (Header bs (pos + 1)) (Named next pos)
                  (length_at-Returns bs (pos + 1))
                  (λ r h.
                    Returns-if (ltb next (r.1 + r.0)) _ _ (Found (Named next pos)) (λ over. tt)
                      (λ inside.
                        Returns-bind (slice bs r.1 (r.1 + r.0)) _ _ (Found (Named next pos))
                          (slice-Returns bs r.1 (r.1 + r.0) (omega arith) (ground arith))
                          (λ octets l.
                            decoded (decode_oid octets) (r.1 + r.0) (ground (arith, h.0))
                              (ground arith)))))))
  where
    decoded :
        (name : Bytes) (end : ℕ)
        → pos < end
        → end ≤ next
        → Returns {A = Option (Bytes × ℕ)}
            (elim name [ [] ↦ ret none | c ∷ cs ↦ ret (some (c ∷ cs, end)) ])
            (Found (Named next pos))
    decoded [] end lo hi = tt
    decoded (c ∷ cs) end lo hi = (omega arith, lo, hi)

-- A value that ends at the binding's end.
abbrev Holds : ℕ → ℕ → ℕ × Bytes → Type 0
Holds next pos v = pos + length v.1 < next

value_field-Returns :
    (bs : Bytes) (next pos : ℕ)
    → next ≤ length bs
    → Returns (value_field bs next pos) (Found (Holds next pos))
unfolding value_field
value_field-Returns bs next pos le =
    Returns-if (leb next pos) _ _ (Found (Holds next pos)) (λ e. tt)
      (λ e.
        Returns-bind (index bs pos) _ (λ b. Unit {0}) (Found (Holds next pos))
          (index-Returns bs pos (ground arith))
          (λ tag u.
            Returns-try (length_at bs (pos + 1)) _ (Header bs (pos + 1)) (Holds next pos)
              (length_at-Returns bs (pos + 1))
              (λ r h.
                Returns-if (ltb next (r.1 + r.0) || not (r.1 + r.0 == next)) _ _
                  (Found (Holds next pos)) (λ t. tt)
                  (λ t.
                    let lo : r.1 ≤ next = ground arith in
                    Returns-bind (slice bs r.1 next) _ _ (Found (Holds next pos))
                      (slice-Returns bs r.1 next lo le)
                      (λ content l. let a = h.0 in omega arith)))))

-- Every name is there.
abbrev pub AllNamed : List VarBind → Type 0
AllNamed [] = Unit {0}
AllNamed (b ∷ bs) = (0 < length b.name) × AllNamed bs

-- The octets of the values.
abbrev pub value_octets : List VarBind → ℕ
value_octets [] = 0
value_octets (b ∷ bs) = length b.content + value_octets bs

abbrev Within : ℕ → ℕ → List VarBind → Type 0
Within pos end binds = AllNamed binds × (value_octets binds ≤ end - pos)

bindings_loop-Returns :
    (rounds : ℕ) (bs : Bytes) (end pos : ℕ)
    → end ≤ length bs
    → end - pos < rounds
    → Returns (bindings_loop rounds bs end pos) (Found (Within pos end))
unfolding bindings_loop
bindings_loop-Returns zero bs end pos le fuel = absurd (omega arith)
bindings_loop-Returns (suc rounds) bs end pos le fuel =
    Returns-if (leb end pos) _ _ (Found (Within pos end)) (λ e. (tt, omega arith))
      (λ e.
        Returns-bind (index bs pos) _ (λ b. Unit {0}) (Found (Within pos end))
          (index-Returns bs pos (ground arith))
          (λ b u.
            Returns-if (not (b == asn1_sequence)) _ _ (Found (Within pos end)) (λ t. tt)
              (λ t.
                Returns-try (length_at bs (pos + 1)) _ (Header bs (pos + 1)) (Within pos end)
                  (length_at-Returns bs (pos + 1))
                  (λ r h.
                    Returns-if (ltb end (r.1 + r.0)) _ _ (Found (Within pos end)) (λ over. tt)
                      (λ inside.
                        let past = h.0 in
                        let next_le : r.1 + r.0 ≤ end = ground arith in
                        Returns-try (name_field bs (r.1 + r.0) r.1) _ (Named (r.1 + r.0) r.1)
                          (Within pos end) (name_field-Returns bs (r.1 + r.0) r.1 (omega arith))
                          (λ n named.
                            Returns-try (value_field bs (r.1 + r.0) n.1) _ (Holds (r.1 + r.0) n.1)
                              (Within pos end)
                              (value_field-Returns bs (r.1 + r.0) n.1 (omega arith))
                              (λ v holds.
                                Returns-try (bindings_loop rounds bs end (r.1 + r.0)) _
                                  (Within (r.1 + r.0) end) (Within pos end)
                                  (bindings_loop-Returns rounds bs end (r.1 + r.0) le (omega arith))
                                  (λ more within.
                                    let (a, b, c) = named in
                                    let w = within.1 in ((a, within.0), omega arith)))))))))

-- What a verdict on `bs` from `pos` holds.
abbrev pub Contained : Bytes → VarBinds → Type 0
Contained bs malformed = Unit {0}
Contained bs absent = Unit {0}
Contained bs (parsed binds contents) =
    AllNamed binds × (value_octets binds ≤ length contents) × (length contents ≤ length bs)

-- On any bytes and from any position `parseVarBinds` returns, with no index and no slice out of
-- range and within its rounds. What it parses are bindings with a name that is not empty, whose
-- values together are no longer than the contents of the list, which are inside the datagram.
pub parse_var_binds-Returns :
    (bs : Bytes) (pos : ℕ) → Returns (parse_var_binds bs pos) (Contained bs)
unfolding parse_var_binds parse_list
parse_var_binds-Returns bs pos =
    Returns-bind (field bs asn1_sequence pos) (parse_list bs) _ (Contained bs)
      (field-Returns bs asn1_sequence pos) behind
  where
    behind :
        (r : Option (ℕ × ℕ))
        → Found (Header bs (pos + 1)) r
        → Returns (parse_list bs r) (Contained bs)
    behind none h = tt
    behind (some (n, p)) h =
        Returns-if (ltb (length bs) (p + n)) _ _ (Contained bs) (λ over. tt)
          (λ inside.
            let le : p + n ≤ length bs = ground arith in
            Returns-bind (slice bs p (p + n)) _ _ (Contained bs)
              (slice-Returns bs p (p + n) (omega arith) le)
              (λ contents l.
                Returns-bind (bindings_loop (suc (length bs)) bs (p + n) p) _ _ (Contained bs)
                  (bindings_loop-Returns (suc (length bs)) bs (p + n) p le (omega arith))
                  (verdict contents l le)))
      where
        verdict :
            (contents : Bytes)
            → length contents ≡ p + n - p
            → p + n ≤ length bs
            → (o : Option (List VarBind)) → Found (Within p (p + n)) o
            → Contained bs (with_contents contents o)
        verdict contents l le none w = tt
        verdict contents l le (some binds) w = let v = w.1 in (w.0, omega arith, omega arith)
