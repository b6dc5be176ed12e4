-- ===== src/Snmp/Integer/Parse.antt =====
-- `parseBERInt` on any bytes, and on the octets of a number.
use nl.Prelude.{
  ℕ, zero, suc, ◌+◌, ◌-◌, ◌*◌, ◌%◌, ◌^◌, ◌≤◌, ◌<◌, ◌≡◌, refl, false, none, some, [], ◌∷◌, ◌++◌, ltb,
  ◌==◌, ◌||◌, length, drop, drop-cons, length-drop-le, length-append, Bool-cases, inl, inr, arith,
}
use nl.Prelude.Bytes.{Bytes, AllBytes, be_value, high_bit}
use nl.Prelude.Int.{signed64}
use nl.Prelude.Go.{ret, Returns, Returns-bind, Returns-weaken, index-Returns, index-ret, index}
use nl.Snmp.Integer.{strip_zeros, read_int64, parse_ber_int, sign_extend8}

strip_zeros-Returns :
    (k : ℕ) (bs : Bytes) (start : ℕ)
    → start + k < length bs
    → Returns (strip_zeros k bs start) (λ s. (start ≤ s) × (s ≤ start + k))
unfolding strip_zeros
strip_zeros-Returns zero bs start h = (omega arith, omega arith)
strip_zeros-Returns (suc k) bs start h =
    let (a, e) = index-ret bs start (omega arith) in
    let (b, f) = index-ret bs (start + 1) (omega arith) in
    let rest = strip_zeros-Returns k bs (start + 1) (omega arith) in
    rw e (elim (Bool-cases (a == 0)) [
      | inr q ↦ rw q (omega arith, omega arith)
      | inl q ↦ rw q (
          rw f (elim (Bool-cases (high_bit b)) [
            | inl top ↦ rw top (omega arith, omega arith)
            | inr top ↦ rw top (
                Returns-weaken (strip_zeros k bs (start + 1)) _ _ rest
                  (λ s r. (omega arith, omega arith)))
          ]))
    ])

read_int64-Returns :
    (k : ℕ) (bs : Bytes) (i v : ℕ)
    → i + k ≤ length bs
    → Returns (read_int64 k bs i v) (λ w. Unit {0})
unfolding read_int64
read_int64-Returns zero bs i v h = tt
read_int64-Returns (suc k) bs i v h =
    Returns-bind (index bs i) (λ b. read_int64 k bs (i + 1) (v * 256 % 2 ^ 64 + b)) (λ b. Unit {0})
      (λ w. Unit {0}) (index-Returns bs i (omega arith))
      (λ b u. read_int64-Returns k bs (i + 1) _ (omega arith))

-- A first octet that is zero is needed for the sign.
abbrev pub NoPad : Bytes → Type 0
NoPad [] = ⊥
NoPad (x ∷ []) = Unit {0}
NoPad (x ∷ y ∷ ds) = x ≡ 0 → 128 ≤ y

strip_zeros-NoPad :
    (bs rest ds : Bytes) (k start : ℕ)
    → k + 1 ≡ length ds
    → AllBytes ds
    → NoPad ds
    → drop start bs ≡ ds ++ rest
    → strip_zeros k bs start ≡ ret start
unfolding strip_zeros
strip_zeros-NoPad bs rest [] k start e a p h = absurd p
strip_zeros-NoPad bs rest (x ∷ []) zero start e a p h = refl
strip_zeros-NoPad bs rest (x ∷ []) (suc k) start e a p h = absurd (omega arith)
strip_zeros-NoPad bs rest (x ∷ y ∷ ds) zero start e a p h = refl
strip_zeros-NoPad bs rest (x ∷ y ∷ ds) (suc k) start e a p h =
    let (f, next, _) = drop-cons bs start x (y ∷ (ds ++ rest)) h in
    let (g, _, _) = drop-cons bs (start + 1) y (ds ++ rest) next in ground arith

read_int64-be_value :
    (bs rest ds : Bytes) (i w : ℕ)
    → drop i bs ≡ ds ++ rest
    → AllBytes ds
    → read_int64 (length ds) bs i (w % 2 ^ 64) ≡ ret (be_value w ds % 2 ^ 64)
unfolding read_int64 be_value
read_int64-be_value bs rest [] i w h a = refl
read_int64-be_value bs rest (d ∷ ds) i w h a =
    let (e, next, _) = drop-cons bs i d (ds ++ rest) h in
    let q : w % 2 ^ 64 * 256 % 2 ^ 64 + d ≡ (w * 256 + d) % 2 ^ 64 = omega arith in
    rw e (rw q (read_int64-be_value bs rest ds (i + 1) (w * 256 + d) next a.1))

-- Octets without padding, eight at most, are read as the two's complement number that they spell.
pub parse_ber_int-be_value :
    (bs rest ds : Bytes) (at x : ℕ)
    → drop at bs ≡ x ∷ (ds ++ rest)
    → AllBytes (x ∷ ds)
    → NoPad (x ∷ ds)
    → length ds ≤ 7
    → parse_ber_int bs at (suc (length ds))
      ≡ ret (some (signed64 (be_value (sign_extend8 x) ds % 2 ^ 64)))
unfolding parse_ber_int
parse_ber_int-be_value bs rest ds at x h a p short =
    let (e, next, _) = drop-cons bs at x (ds ++ rest) h in
    let size = length-drop-le bs (x ∷ (ds ++ rest)) at h in
    let room : (suc (length ds) == 0 || ltb (length bs) (at + suc (length ds))) ≡ false =
      ground (arith, length-append ds rest) in
    let k : suc (length ds) - 1 ≡ length ds = omega arith in
    let width : at + suc (length ds) - at ≡ suc (length ds) = omega arith in
    let low : sign_extend8 x ≡ sign_extend8 x % 2 ^ 64 = ground arith in
    let stripped = strip_zeros-NoPad bs rest (x ∷ ds) (length ds) at (omega arith) a p h in
    let wide : ltb 8 (suc (length ds)) ≡ false = ground arith in
    let body = rw (← low) at (read_int64-be_value bs rest ds (at + 1) (sign_extend8 x) next a.1) in
    rw room (rw k (rw stripped (rw width (rw wide (rw e (rw k (rw body)))))))

-- On any bytes, from any position and with any declared length `parse_ber_int` returns: it never
-- indexes out of range.
pub parse_ber_int-Returns :
    (bs : Bytes) (at n : ℕ) → Returns (parse_ber_int bs at n) (λ r. n ≡ 0 → r ≡ none)
unfolding parse_ber_int
parse_ber_int-Returns bs at n = elim (Bool-cases (n == 0 || ltb (length bs) (at + n))) [
  | inl bad ↦ rw bad (λ e. refl)
  | inr good ↦
      let room : at + n ≤ length bs = ground arith in
      let some_octet : 0 < n = ground arith in
      rw good (
        Returns-bind (strip_zeros (n - 1) bs at) _ _ _
          (strip_zeros-Returns (n - 1) bs at (omega arith))
          (λ start within. elim (Bool-cases (ltb 8 (at + n - start))) [
            | inl long ↦ rw long (λ e. refl)
            | inr short ↦ rw short (
                Returns-bind (index bs start) _ (λ b. Unit {0}) _
                  (index-Returns bs start (omega arith))
                  (λ b u.
                    Returns-bind (read_int64 (at + n - start - 1) bs (start + 1) (sign_extend8 b)) _
                      (λ w. Unit {0}) _
                      (read_int64-Returns (at + n - start - 1) bs (start + 1) _ (omega arith))
                      (λ v w e. absurd (omega arith))))
          ]))
]
