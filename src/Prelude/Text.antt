-- ===== src/Prelude/Text.antt =====
-- Text as bytes: `strings.Split`, `strings.Join` and `strings.TrimPrefix` at dots, `strconv.Atoi` and
-- `strconv.FormatUint`.
use mathlib.Core.Logic.{inl, inr}
use nl.Prelude.Tests.{Bool-cases, ltb, ◌==◌, if◌then◌else◌}
use nl.Prelude.Lists.{length}
use nl.Prelude.Bytes.{Bytes}
use nl.Prelude.Int.{ℤ, pos, negsuc}
use nl.Prelude.Decimal.{all_digits, decimal_value, decimal, Spelled, decimal-Spelled}
use Prim.Native.Nat.{ℕ, zero, suc, ◌^◌, ◌<◌}
use mathlib.Core.Path.{◌≡◌, refl, ◌∙◌, ap}
use mathlib.Core.Bool.{true}
use mathlib.Core.Option.{Option, none, some}
use mathlib.Core.List.{List, [], ◌∷◌, ◌++◌, map, append-nil}
use native.Mathlib.Omega.{arith}

abbrev pub dot : ℕ
dot = 46

unfoldable pub trim_dot : Bytes → Bytes
trim_dot [] = []
trim_dot (c ∷ s) = if c == dot then s else c ∷ s

-- A byte in front of the first piece.
abbrev pub push_first : ℕ → List Bytes → List Bytes
push_first c [] = (c ∷ []) ∷ []
push_first c (w ∷ ws) = (c ∷ w) ∷ ws

unfoldable pub split_dots : Bytes → List Bytes
split_dots [] = [] ∷ []
split_dots (c ∷ s) = let rest = split_dots s in if c == dot then [] ∷ rest else push_first c rest

unfoldable pub join_dots : List Bytes → Bytes
join_dots [] = []
join_dots (w ∷ []) = w
join_dots (w ∷ v ∷ ws) = w ++ (dot ∷ join_dots (v ∷ ws))

-- The value of a run of digits that is not empty.
abbrev pub digits_value : Bytes → Option ℕ
digits_value [] = none
digits_value (d ∷ ds) = if all_digits (d ∷ ds) then some (decimal_value 0 (d ∷ ds)) else none

abbrev pub non_negative : Option ℕ → Option ℤ
non_negative none = none
non_negative (some n) = if ltb n (2 ^ 63) then some (pos n) else none

abbrev pub negated : Option ℕ → Option ℤ
negated none = none
negated (some zero) = some (pos 0)
negated (some (suc n)) = if ltb n (2 ^ 63) then some (negsuc n) else none

-- An int of 64 bits, or none for `strconv`'s errors.
unfoldable pub atoi : Bytes → Option ℤ
atoi [] = none
atoi (c ∷ s) =
    if c == 45
    then negated (digits_value s)
    else if c == 43
    then non_negative (digits_value s)
    else non_negative (digits_value (c ∷ s))

-- A uint64 has 20 digits at most.
unfoldable pub itoa : ℕ → Bytes
itoa n = decimal 20 n

-- Numbers between dots.
unfoldable pub dotted : List ℕ → Bytes
dotted ns = join_dots (map itoa ns)

pub itoa-Spelled : (n : ℕ) → n < 2 ^ 64 → Spelled (itoa n) n
unfolding itoa
itoa-Spelled n h = decimal-Spelled 20 n (omega arith) (omega arith)

atoi-Spelled : (ds : Bytes) (n : ℕ) → Spelled ds n → n < 2 ^ 63 → atoi ds ≡ some (pos n)
unfolding atoi
atoi-Spelled [] n s h = absurd (let q = s.some_digit in omega arith)
atoi-Spelled (d ∷ ds) n s h = let a = s.digits in let v = s.spells in ground (arith, a, v)

pub atoi-itoa : (n : ℕ) → n < 2 ^ 63 → atoi (itoa n) ≡ some (pos n)
atoi-itoa n h = atoi-Spelled (itoa n) n (itoa-Spelled n (omega arith)) h

split_dots-last : (ds : Bytes) → all_digits ds ≡ true → split_dots ds ≡ ds ∷ []
unfolding split_dots
split_dots-last [] h = refl
split_dots-last (d ∷ ds) h = ground (arith, h, split_dots-last ds (ground (arith, h)))

split_dots-piece :
    (ds rest : Bytes)
    → all_digits ds ≡ true
    → split_dots (ds ++ (dot ∷ rest)) ≡ ds ∷ split_dots rest
unfolding split_dots
split_dots-piece [] rest h = refl
split_dots-piece (d ∷ ds) rest h = ground (arith, h, split_dots-piece ds rest (ground (arith, h)))

-- Each number fits an int.
abbrev pub AllInt : List ℕ → Type 0
AllInt [] = Unit {0}
AllInt (n ∷ ns) = (n < 2 ^ 63) × AllInt ns

pub itoa-digits : (n : ℕ) → n < 2 ^ 63 → all_digits (itoa n) ≡ true
itoa-digits n h = let s = itoa-Spelled n (omega arith) in s.digits

-- The pieces of a dotted text are its numbers' digits.
pub split_dots-dotted :
    (n : ℕ) (ns : List ℕ) → AllInt (n ∷ ns) → split_dots (dotted (n ∷ ns)) ≡ map itoa (n ∷ ns)
unfolding dotted join_dots
split_dots-dotted n [] a = split_dots-last (itoa n) (itoa-digits n a.0)
split_dots-dotted n (m ∷ ns) a =
    split_dots-piece (itoa n) (dotted (m ∷ ns)) (itoa-digits n a.0)
    ∙ ap (λ ws. itoa n ∷ ws) (split_dots-dotted m ns a.1)

digits_kept :
    (ds rest : Bytes) → all_digits ds ≡ true → 0 < length ds → trim_dot (ds ++ rest) ≡ ds ++ rest
unfolding trim_dot
digits_kept [] rest h lo = absurd (omega arith)
digits_kept (d ∷ ds) rest h lo = ground (arith, h)

-- A dotted text starts with a digit, so that no dot is trimmed from it.
pub trim_dot-dotted :
    (n : ℕ) (ns : List ℕ) → n < 2 ^ 63 → trim_dot (dotted (n ∷ ns)) ≡ dotted (n ∷ ns)
unfolding dotted join_dots
trim_dot-dotted n [] h =
    let s = itoa-Spelled n (omega arith) in
    rw append-nil at (digits_kept (itoa n) [] s.digits s.some_digit)
trim_dot-dotted n (m ∷ ns) h =
    let s = itoa-Spelled n (omega arith) in
    digits_kept (itoa n) (dot ∷ dotted (m ∷ ns)) s.digits s.some_digit

non_negative_bound : (o : Option ℕ) (n : ℕ) → non_negative o ≡ some (pos n) → n < 2 ^ 63
non_negative_bound none n h = ground arith
non_negative_bound (some m) n h = ground arith

negated_bound : (o : Option ℕ) (n : ℕ) → negated o ≡ some (pos n) → n < 2 ^ 63
negated_bound none n h = ground arith
negated_bound (some zero) n h = ground arith
negated_bound (some (suc m)) n h = ground arith

-- What `strconv.Atoi` reads fits an int.
pub atoi_bound : (s : Bytes) (n : ℕ) → atoi s ≡ some (pos n) → n < 2 ^ 63
unfolding atoi
atoi_bound [] n h = ground arith
atoi_bound (c ∷ s) n h = elim (Bool-cases (c == 45)) [
  | inl e ↦ negated_bound (digits_value s) n (rw e at h)
  | inr e ↦
      let k = rw e at h in
      elim (Bool-cases (c == 43)) [
        | inl f ↦ non_negative_bound (digits_value s) n (rw f at k)
        | inr f ↦ non_negative_bound (digits_value (c ∷ s)) n (rw f at k)
      ]
]
