-- ===== src/Snmp/Length/Safe.antt =====
-- Parsing a length never reads out of range, whatever the bytes.
use native.Mathlib.Decide.{dec_lt}
use nl.Prelude.{
  true, false, leb, ℕ, zero, suc, ◌+◌, ◌*◌, ◌%◌, ◌^◌, ◌≤◌, ◌<◌, max, ◌≡◌, none, some, Option,
  length, arith,
}
use nl.Prelude.Bytes.{Bytes, low7}
use nl.Prelude.Go.{ret, Returns, Returns-bind, index-Returns, index, index-ret}
use nl.Snmp.Length.{read_be, length_form, parse_length, max_int32}

read_be-ret :
    (k : ℕ) (bs : Bytes) (pos acc : ℕ)
    → pos + k ≤ length bs
    → (v : ℕ) × (read_be k bs pos acc ≡ ret (v, pos + k))
unfolding read_be
read_be-ret zero bs pos acc h = let q : pos + 0 ≡ pos = omega arith in (acc, rw q)
read_be-ret (suc k) bs pos acc h =
    let (b, e) = index-ret bs pos (omega arith) in
    let (v, r) = read_be-ret k bs (pos + 1) (acc * 256 % 2 ^ 32 + b) (omega arith) in
    let q : pos + suc k ≡ pos + 1 + k = omega arith in (v, rw e (rw q r))

-- A result of `parse_length` at `pos`: a length up to MaxInt32, or none, and a later position
-- that is still inside the datagram (or `pos` itself, at its end).
abbrev pub ParsesLength : Bytes → ℕ → Option ℕ × ℕ → Type 0
ParsesLength bs pos (none, next) = (pos ≤ next) × (next ≤ max (length bs) pos)
ParsesLength bs pos (some n, next) = (n ≤ max_int32) × (pos < next) × (next ≤ length bs)

length_form-Returns :
    (bs : Bytes) (first pos : ℕ)
    → pos < length bs
    → Returns (length_form bs first (pos + 1)) (ParsesLength bs pos)
unfolding length_form
length_form-Returns bs first pos h = elim (dec_lt (length bs) (pos + 1 + low7 first)) [
  | yes p ↦ ground arith
  | no p ↦ ground (arith, read_be-ret (low7 first) bs (pos + 1) 0 (omega arith))
]

-- On any bytes and from any position `parse_length` returns, with no index out of range. A
-- length that it reports is at most MaxInt32 and the position behind it is inside the datagram;
-- without a length the position is not behind the datagram's end, or it is `pos`.
pub parse_length-Returns :
    (bs : Bytes) (pos : ℕ) → Returns (parse_length bs pos) (ParsesLength bs pos)
unfolding parse_length
parse_length-Returns bs pos = elim (dec_lt pos (length bs)) [
  | yes p ↦
      let inside : leb (length bs) pos ≡ false = ground arith in
      rw inside (
        Returns-bind (index bs pos) (λ first. length_form bs first (pos + 1)) (λ b. Unit {0})
          (ParsesLength bs pos) (index-Returns bs pos p)
          (λ first u. length_form-Returns bs first pos p))
  | no p ↦
      let past : leb (length bs) pos ≡ true = ground arith in rw past (omega arith, omega arith)
]
