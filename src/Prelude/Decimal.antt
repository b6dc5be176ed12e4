-- ===== src/Prelude/Decimal.antt =====
-- Decimal digits as bytes: what `%d`, `strconv.FormatUint`, `strconv.ParseUint` and `strconv.Atoi`
-- write and read.
use nl.Prelude.Tests.{ltb, leb, if◌then◌else◌, Bool-cases}
use nl.Prelude.Lists.{length, length-append}
use nl.Prelude.Bytes.{Bytes}
use Prim.Native.Nat.{ℕ, zero, suc, ◌+◌, ◌-◌, ◌*◌, ◌/◌, ◌%◌, ◌^◌, ◌<◌, ◌≤◌}
use mathlib.Core.Path.{◌≡◌, refl, ◌∙◌}
use mathlib.Core.Logic.{inl, inr}
use mathlib.Core.Bool.{Bool, true, false, ◌&&◌}
use mathlib.Core.List.{[], ◌∷◌, ◌++◌}
use native.Mathlib.Omega.{arith}
use native.Mathlib.Nat.{pow-suc}

abbrev pub is_digit : ℕ → Bool
is_digit d = leb 48 d && leb d 57

abbrev pub all_digits : Bytes → Bool
all_digits [] = true
all_digits (d ∷ ds) = is_digit d && all_digits ds

-- The number that decimal digits spell.
unfoldable pub decimal_value : ℕ → Bytes → ℕ
decimal_value acc [] = acc
decimal_value acc (d ∷ ds) = decimal_value (acc * 10 + (d - 48)) ds

-- The first digit is from '1' to '9'.
abbrev pub leads : Bytes → Bool
leads [] = false
leads (d ∷ ds) = leb 49 d && leb d 57

-- `%d`, by the most digits that there may be.
unfoldable pub decimal : ℕ → ℕ → Bytes
decimal zero n = []
decimal (suc most) n =
    let front = decimal most (n / 10) in
    if ltb n 10 then (48 + n) ∷ [] else front ++ ((48 + n % 10) ∷ [])

decimal_value-append :
    (acc : ℕ) (ds : Bytes) (d : ℕ)
    → decimal_value acc (ds ++ (d ∷ [])) ≡ decimal_value acc ds * 10 + (d - 48)
unfolding decimal_value
decimal_value-append acc [] d = refl
decimal_value-append acc (x ∷ ds) d = decimal_value-append (acc * 10 + (x - 48)) ds d

all_digits-append :
    (ds : Bytes) (d : ℕ)
    → all_digits ds ≡ true
    → is_digit d ≡ true
    → all_digits (ds ++ (d ∷ [])) ≡ true
all_digits-append [] d h k = ground (arith, k)
all_digits-append (x ∷ ds) d h k =
    ground (arith, h, k, all_digits-append ds d (ground (arith, h)) k)

leads-append : (ds : Bytes) (d : ℕ) → leads ds ≡ true → leads (ds ++ (d ∷ [])) ≡ true
leads-append [] d h = absurd (ground (arith, h))
leads-append (x ∷ ds) d h = h

-- Digits that spell a positive number.
pub record Numeral (ds : Bytes) (n most : ℕ) : Type 0 where
  pub digits : all_digits ds ≡ true
  pub led : leads ds ≡ true
  pub spells : decimal_value 0 ds ≡ n
  pub short : length ds ≤ most

-- `k` digits are enough below 10 ^ k, whatever the bound on their number.
pub decimal-Numeral : (most k n : ℕ) → k ≤ most → 0 < n → n < 10 ^ k → Numeral (decimal most n) n k
unfolding decimal decimal_value
decimal-Numeral most zero n le positive h = absurd (omega arith)
decimal-Numeral zero (suc k) n le positive h = absurd (omega arith)
decimal-Numeral (suc most) (suc k) n le positive h = elim (Bool-cases (ltb n 10)) [
  | inl e ↦ rw e (record {
    digits = ground arith;
    led = ground arith;
    spells = omega arith;
    short = omega arith;
  })
  | inr e ↦
      let front = decimal most (n / 10) in
      let r =
        decimal-Numeral most k (n / 10) (omega arith) (ground arith)
          (omega (arith, pow-suc 10 k)) in
      let v = r.spells in
      let l = r.short in
      rw e (record {
        digits = all_digits-append front (48 + n % 10) r.digits (ground arith);
        led = leads-append front (48 + n % 10) r.led;
        spells = decimal_value-append 0 front (48 + n % 10) ∙ (rw v (omega arith));
        short = omega (arith, length-append front ((48 + n % 10) ∷ []));
      })
]

-- Digits that spell a number, zero included.
pub record Spelled (ds : Bytes) (n : ℕ) : Type 0 where
  pub digits : all_digits ds ≡ true
  pub spells : decimal_value 0 ds ≡ n
  pub some_digit : 0 < length ds

pub decimal-Spelled : (most n : ℕ) → 0 < most → n < 10 ^ most → Spelled (decimal most n) n
unfolding decimal decimal_value
decimal-Spelled zero n lo h = absurd (omega arith)
decimal-Spelled (suc most) n lo h = elim (Bool-cases (ltb n 10)) [
  | inl e ↦ rw e (record { digits = ground arith; spells = omega arith; some_digit = omega arith })
  | inr e ↦
      let front = decimal most (n / 10) in
      let big : 10 ≤ n = ground arith in
      let power = pow-suc 10 most in
      let more : 0 < most = enough most n big h in
      let r = decimal-Spelled most (n / 10) more (omega (arith, power)) in
      let v = r.spells in
      rw e (record {
        digits = all_digits-append front (48 + n % 10) r.digits (ground arith);
        spells = decimal_value-append 0 front (48 + n % 10) ∙ (rw v (omega arith));
        some_digit = omega (arith, length-append front ((48 + n % 10) ∷ []));
      })
]
  where
    enough : (most n : ℕ) → 10 ≤ n → n < 10 ^ suc most → 0 < most
    enough zero n lo hi = absurd (omega arith)
    enough (suc most) n lo hi = omega arith
