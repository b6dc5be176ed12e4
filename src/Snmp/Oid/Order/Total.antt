-- ===== src/Snmp/Oid/Order/Total.antt =====
-- On any two texts `compareOIDs` returns, and it compares the sequences of their segments' values.
use nl.Prelude.{
  ℕ, zero, suc, ◌+◌, ◌-◌, ◌*◌, ◌%◌, ◌^◌, ◌≤◌, ◌<◌, ◌≡◌, refl, ap, ◌∙◌, Bool, true, false, not,
  Option, none, some, List, [], ◌∷◌, ltb, leb, ◌==◌, if◌then◌else◌, length, arith,
}
use nl.Prelude.Bytes.{Bytes}
use nl.Prelude.Int.{ℤ, pos, negsuc}
use nl.Prelude.Text.{trim_dot}
use nl.Snmp.Oid.Order.{
  new_oid_cursor, segment, next, compare_loop, compare_oids, oid_compare, is_positive, is_negative,
  oid_le, oid_lt,
}

-- An int by its place in the order of the ints, from 0.
abbrev rank : ℕ → ℕ
rank v = (v + 2 ^ 63) % 2 ^ 64

-- The ranks of the segments, in `rounds` rounds.
pub ranks : ℕ → Option Bytes → List ℕ
ranks zero c = []
ranks (suc rounds) none = []
ranks (suc rounds) (some s) = let (v, rest) = segment s 0 true in rank v ∷ ranks rounds rest

-- The lexicographic order in which the end of a sequence stands right in front of the value 0.
unfoldable pub compare_ranks : List ℕ → List ℕ → ℤ
compare_ranks [] [] = pos 0
compare_ranks [] (b ∷ ys) = if leb (2 ^ 63) b then negsuc 0 else pos 1
compare_ranks (a ∷ xs) [] = if leb (2 ^ 63) a then pos 1 else negsuc 0
compare_ranks (a ∷ xs) (b ∷ ys) =
    let rest = compare_ranks xs ys in if a == b then rest else if ltb a b then negsuc 0 else pos 1

-- How many rounds a cursor has left at most.
abbrev weight : Option Bytes → ℕ
weight none = 0
weight (some s) = suc (length s)

segment-bounds :
    (s : Bytes) (val : ℕ) (numeric : Bool)
    → val < 2 ^ 64
    → ((segment s val numeric).0 < 2 ^ 64) × (weight (segment s val numeric).1 ≤ length s)
unfolding segment
segment-bounds [] val true h = (h, omega arith)
segment-bounds [] val false h = (omega arith, omega arith)
segment-bounds (ch ∷ s) val numeric h =
    let digit = segment-bounds s ((val * 10 + (ch - 48)) % 2 ^ 64) numeric (omega arith) in
    let other = segment-bounds s val false h in ground (arith, digit, other)

ranks_enough : (m n : ℕ) (c : Option Bytes) → weight c ≤ m → weight c ≤ n → ranks m c ≡ ranks n c
unfolding ranks
ranks_enough zero zero c h k = refl
ranks_enough zero (suc n) none h k = refl
ranks_enough zero (suc n) (some s) h k = absurd (omega arith)
ranks_enough (suc m) zero none h k = refl
ranks_enough (suc m) zero (some s) h k = absurd (omega arith)
ranks_enough (suc m) (suc n) none h k = refl
ranks_enough (suc m) (suc n) (some s) h k =
    let b = (segment-bounds s 0 true (omega arith)).1 in
    ap (λ r. rank (segment s 0 true).0 ∷ r)
      (ranks_enough m n (segment s 0 true).1 (omega arith) (omega arith))

compare_loop-ranks :
    (rounds : ℕ) (c d : Option Bytes)
    → weight c < rounds
    → weight d < rounds
    → compare_loop rounds c d ≡ some (compare_ranks (ranks rounds c) (ranks rounds d))
unfolding compare_loop compare_ranks ranks next
compare_loop-ranks zero c d h k = absurd (omega arith)
compare_loop-ranks (suc rounds) none none h k = refl
compare_loop-ranks (suc rounds) none (some t) h k =
    let b = (segment-bounds t 0 true (omega arith)).0 in ground arith
compare_loop-ranks (suc rounds) (some s) none h k =
    let b = (segment-bounds s 0 true (omega arith)).0 in ground arith
compare_loop-ranks (suc rounds) (some s) (some t) h k =
    let a = segment-bounds s 0 true (omega arith) in
    let b = segment-bounds t 0 true (omega arith) in
    let ih =
      compare_loop-ranks rounds (segment s 0 true).1 (segment t 0 true).1 (omega arith)
        (omega arith) in
    ground (arith, a, b, ih)

-- The values of a text's segments, by their ranks.
unfoldable pub oid_ranks : Bytes → List ℕ
unfolding ranks
oid_ranks oid = let c = new_oid_cursor oid in ranks (weight c) c

length-trim_dot : (s : Bytes) → length (trim_dot s) ≤ length s
unfolding trim_dot
length-trim_dot [] = omega arith
length-trim_dot (c ∷ s) = ground arith

weight-cursor : (oid : Bytes) → weight (new_oid_cursor oid) ≤ suc (length oid)
unfolding new_oid_cursor
weight-cursor oid = kept (trim_dot oid) (length-trim_dot oid)
  where
    kept :
        (s : Bytes)
        → length s ≤ length oid
        → weight (elim s [ [] ↦ none | c ∷ rest ↦ some (c ∷ rest) ]) ≤ suc (length oid)
    kept [] h = omega arith
    kept (c ∷ s) h = omega arith

-- On any two texts `compareOIDs` returns, and its result is the lexicographic order of the values of
-- their segments as ints, in which the end of a text stands right in front of a segment 0.
pub compare_oids-ranks :
    (a b : Bytes) → compare_oids a b ≡ some (compare_ranks (oid_ranks a) (oid_ranks b))
unfolding compare_oids oid_ranks
compare_oids-ranks a b =
    let rounds = length a + length b + 2 in
    let wa = weight-cursor a in
    let wb = weight-cursor b in
    let ea =
      ranks_enough rounds (weight (new_oid_cursor a)) (new_oid_cursor a) (omega arith)
        (omega arith) in
    let eb =
      ranks_enough rounds (weight (new_oid_cursor b)) (new_oid_cursor b) (omega arith)
        (omega arith) in
    compare_loop-ranks rounds (new_oid_cursor a) (new_oid_cursor b) (omega arith) (omega arith)
    ∙ ap (λ r. some (compare_ranks r (ranks rounds (new_oid_cursor b)))) ea
    ∙ ap (λ r. some (compare_ranks (ranks (weight (new_oid_cursor a)) (new_oid_cursor a)) r)) eb

compare_ranks_flip :
    (xs ys : List ℕ) → (is_negative (compare_ranks xs ys) ≡ is_positive (compare_ranks ys xs))
unfolding compare_ranks
compare_ranks_flip [] [] = refl
compare_ranks_flip [] (b ∷ ys) = ground arith
compare_ranks_flip (a ∷ xs) [] = ground arith
compare_ranks_flip (a ∷ xs) (b ∷ ys) = ground (arith, compare_ranks_flip xs ys)

-- Not behind, as a Boolean.
abbrev upto : List ℕ → List ℕ → Bool
upto xs ys = not (is_positive (compare_ranks xs ys))

upto_trans : (xs ys zs : List ℕ) → upto xs ys ≡ true → upto ys zs ≡ true → upto xs zs ≡ true
unfolding compare_ranks
upto_trans [] [] zs h k = k
upto_trans [] (b ∷ ys) [] h k = refl
upto_trans [] (b ∷ ys) (c ∷ zs) h k = ground (arith, upto_trans [] ys zs)
upto_trans (a ∷ xs) [] [] h k = h
upto_trans (a ∷ xs) [] (c ∷ zs) h k = ground arith
upto_trans (a ∷ xs) (b ∷ ys) [] h k = ground arith
upto_trans (a ∷ xs) (b ∷ ys) (c ∷ zs) h k = ground (arith, upto_trans xs ys zs)

upto_total : (xs ys : List ℕ) → upto xs ys ≡ false → upto ys xs ≡ true
unfolding compare_ranks
upto_total [] [] h = refl
upto_total [] (b ∷ ys) h = ground arith
upto_total (a ∷ xs) [] h = ground arith
upto_total (a ∷ xs) (b ∷ ys) h = ground (arith, upto_total xs ys)

oid_compare-ranks : (a b : Bytes) → oid_compare a b ≡ compare_ranks (oid_ranks a) (oid_ranks b)
unfolding oid_compare
oid_compare-ranks a b = rw (compare_oids-ranks a b, oid_compare) refl

pub oid_lt-not_le : (a b : Bytes) → oid_lt a b ≡ not (oid_le b a)
unfolding oid_lt oid_le
oid_lt-not_le a b = rw (oid_compare-ranks a b) (
    rw (oid_compare-ranks b a) (
      compare_ranks_flip (oid_ranks a) (oid_ranks b)
      ∙ twice (is_positive (compare_ranks (oid_ranks b) (oid_ranks a)))))
  where
    twice : (b : Bool) → b ≡ not (not b)
    twice true = refl
    twice false = refl

pub oid_le_trans : (a b c : Bytes) → oid_le a b ≡ true → oid_le b c ≡ true → oid_le a c ≡ true
unfolding oid_le
oid_le_trans a b c h k = rw (oid_compare-ranks a c) (
    upto_trans (oid_ranks a) (oid_ranks b) (oid_ranks c) (rw (← oid_compare-ranks a b) h)
      (rw (← oid_compare-ranks b c) k))

pub oid_le_total : (a b : Bytes) → oid_le a b ≡ false → oid_le b a ≡ true
unfolding oid_le
oid_le_total a b h =
    rw (oid_compare-ranks b a)
      (upto_total (oid_ranks a) (oid_ranks b) (rw (← oid_compare-ranks a b) h))
