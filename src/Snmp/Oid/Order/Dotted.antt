-- ===== src/Snmp/Oid/Order/Dotted.antt =====
-- On dotted texts the order of a walk is that of the arcs.
use nl.Prelude.{
  ℕ, zero, suc, ◌+◌, ◌-◌, ◌*◌, ◌%◌, ◌^◌, ◌≤◌, ◌<◌, ◌≡◌, refl, ap, ◌∙◌, Bool-cases, inl, inr, true,
  false, Option, none, some, List, [], ◌∷◌, ◌++◌, ltb, ◌==◌, if◌then◌else◌, length, length-append,
  arith,
}
use nl.Prelude.Bytes.{Bytes}
use nl.Prelude.Decimal.{is_digit, all_digits, decimal_value}
use nl.Prelude.Int.{ℤ, pos, negsuc}
use nl.Prelude.Text.{dot, trim_dot, itoa, join_dots, dotted, itoa-Spelled, trim_dot-dotted, AllInt}
use nl.Snmp.Oid.Order.{new_oid_cursor, segment, next, int_less, compare_loop, compare_oids}

-- The lexicographic order of arcs, in which a shorter list is in front of those that it starts.
pub compare_arcs : List ℕ → List ℕ → ℤ
compare_arcs [] [] = pos 0
compare_arcs [] (b ∷ bs) = negsuc 0
compare_arcs (a ∷ as') [] = pos 1
compare_arcs (a ∷ as') (b ∷ bs) =
    let rest = compare_arcs as' bs in if a == b then rest else if ltb a b then negsuc 0 else pos 1

value_grows : (acc : ℕ) (ds : Bytes) → acc ≤ decimal_value acc ds
unfolding decimal_value
value_grows acc [] = omega arith
value_grows acc (d ∷ ds) = let r = value_grows (acc * 10 + (d - 48)) ds in omega arith

segment-piece :
    (ds rest : Bytes) (acc : ℕ)
    → all_digits ds ≡ true
    → decimal_value acc ds < 2 ^ 63
    → segment (ds ++ (dot ∷ rest)) acc true ≡ (decimal_value acc ds, some rest)
unfolding segment decimal_value
segment-piece [] rest acc h lt = refl
segment-piece (d ∷ ds) rest acc h lt =
    let digit : is_digit d ≡ true = ground (arith, h) in
    let no_dot : (d == 46) ≡ false = ground (arith, h) in
    let grows = value_grows (acc * 10 + (d - 48)) ds in
    let whole : (acc * 10 + (d - 48)) % 2 ^ 64 ≡ acc * 10 + (d - 48) = omega arith in
    rw no_dot
      (rw digit (rw whole (segment-piece ds rest (acc * 10 + (d - 48)) (ground (arith, h)) lt)))

segment-last :
    (ds : Bytes) (acc : ℕ)
    → all_digits ds ≡ true
    → decimal_value acc ds < 2 ^ 63
    → segment ds acc true ≡ (decimal_value acc ds, none)
unfolding segment decimal_value
segment-last [] acc h lt = refl
segment-last (d ∷ ds) acc h lt =
    let digit : is_digit d ≡ true = ground (arith, h) in
    let no_dot : (d == 46) ≡ false = ground (arith, h) in
    let grows = value_grows (acc * 10 + (d - 48)) ds in
    let whole : (acc * 10 + (d - 48)) % 2 ^ 64 ≡ acc * 10 + (d - 48) = omega arith in
    rw no_dot (rw digit (rw whole (segment-last ds (acc * 10 + (d - 48)) (ground (arith, h)) lt)))

-- The cursor in front of some arcs.
cursor : List ℕ → Option Bytes
cursor [] = none
cursor (n ∷ ns) = some (dotted (n ∷ ns))

segment-dotted :
    (n : ℕ) (ns : List ℕ) → n < 2 ^ 63 → segment (dotted (n ∷ ns)) 0 true ≡ (n, cursor ns)
unfolding dotted join_dots cursor
segment-dotted n [] h =
    let s = itoa-Spelled n (omega arith) in
    let v = s.spells in segment-last (itoa n) 0 (s.digits) (omega arith) ∙ ap (λ k. (k, none)) v
segment-dotted n (m ∷ ns) h =
    let s = itoa-Spelled n (omega arith) in
    let v = s.spells in
    segment-piece (itoa n) (dotted (m ∷ ns)) 0 (s.digits) (omega arith)
    ∙ ap (λ k. (k, some (dotted (m ∷ ns)))) v

next-cursor : (n : ℕ) (ns : List ℕ) → n < 2 ^ 63 → next (cursor (n ∷ ns)) ≡ (n, true, cursor ns)
unfolding next cursor
next-cursor n ns h = rw (segment-dotted n ns h) refl

next-done : next (cursor []) ≡ (0, false, none)
unfolding next cursor
next-done = refl

int_less-small : (a b : ℕ) → a < 2 ^ 63 → b < 2 ^ 63 → int_less a b ≡ ltb a b
int_less-small a b h k = ground arith

compare_loop-arcs :
    (rounds : ℕ) (ms ns : List ℕ)
    → AllInt ms
    → AllInt ns
    → length ms < rounds
    → compare_loop rounds (cursor ms) (cursor ns) ≡ some (compare_arcs ms ns)
unfolding compare_loop compare_arcs
compare_loop-arcs zero ms ns a b lt = absurd (omega arith)
compare_loop-arcs (suc rounds) [] [] a b lt = rw next-done refl
compare_loop-arcs (suc rounds) [] (n ∷ ns) a b lt = rw next-done (
    rw (next-cursor n ns b.0) (elim (Bool-cases (0 == n)) [
      | inl e ↦ rw e refl
      | inr e ↦
          let less : int_less 0 n ≡ true = int_less-small 0 n (omega arith) b.0 ∙ ground arith in
          rw e (rw less refl)
    ]))
compare_loop-arcs (suc rounds) (m ∷ ms) [] a b lt = rw next-done (
    rw (next-cursor m ms a.0) (elim (Bool-cases (m == 0)) [
      | inl e ↦ rw e refl
      | inr e ↦
          let more : int_less m 0 ≡ false = int_less-small m 0 a.0 (omega arith) ∙ ground arith in
          rw e (rw more refl)
    ]))
compare_loop-arcs (suc rounds) (m ∷ ms) (n ∷ ns) a b lt = rw (next-cursor m ms a.0) (
    rw (next-cursor n ns b.0) (elim (Bool-cases (m == n)) [
      | inl e ↦ rw e (compare_loop-arcs rounds ms ns a.1 b.1 (omega arith))
      | inr e ↦ rw e (
          rw (int_less-small m n a.0 b.0)
            (elim (Bool-cases (ltb m n)) [ inl l ↦ rw l refl | inr l ↦ rw l refl ]))
    ]))

-- A dotted text has an octet for each of its arcs.
length-dotted : (ns : List ℕ) → AllInt ns → length ns ≤ length (dotted ns)
unfolding dotted join_dots
length-dotted [] a = omega arith
length-dotted (n ∷ []) a =
    let s = itoa-Spelled n (let k = a.0 in omega arith) in let d = s.some_digit in omega arith
length-dotted (n ∷ m ∷ ns) a =
    let s = itoa-Spelled n (let k = a.0 in omega arith) in
    let d = s.some_digit in
    let rest = length-dotted (m ∷ ns) a.1 in
    let l = length-append (itoa n) (dot ∷ dotted (m ∷ ns)) in omega arith

abbrev text_cursor : Bytes → Option Bytes
text_cursor [] = none
text_cursor (c ∷ rest) = some (c ∷ rest)

keep_text : (s : Bytes) → 0 < length s → text_cursor s ≡ some s
keep_text [] h = absurd (omega arith)
keep_text (c ∷ s) h = refl

new_oid_cursor-dotted : (ns : List ℕ) → AllInt ns → new_oid_cursor (dotted ns) ≡ cursor ns
unfolding new_oid_cursor cursor trim_dot dotted join_dots
new_oid_cursor-dotted [] a = refl
new_oid_cursor-dotted (n ∷ ns) a =
    let l = length-dotted (n ∷ ns) a in
    rw (trim_dot-dotted n ns a.0) (keep_text (dotted (n ∷ ns)) (omega arith))

-- On dotted texts of arcs that fit an int, `compareOIDs` returns, and its result is the
-- lexicographic order of the arcs, in which a text is in front of those that it starts.
pub compare_oids-dotted :
    (ms ns : List ℕ)
    → AllInt ms
    → AllInt ns
    → compare_oids (dotted ms) (dotted ns) ≡ some (compare_arcs ms ns)
unfolding compare_oids
compare_oids-dotted ms ns a b =
    let l = length-dotted ms a in
    rw (new_oid_cursor-dotted ms a) (
      rw (new_oid_cursor-dotted ns b)
        (compare_loop-arcs (length (dotted ms) + length (dotted ns) + 2) ms ns a b (omega arith)))
