-- ===== src/Snmp/Length/RoundTrip.antt =====
-- A length that is encoded is parsed back.
use mathlib.Core.WellFounded.{Acc}
use mathlib.Core.Logic.{dif_pos, dif_neg}
use native.Mathlib.Decide.{dec_lt}
use native.Mathlib.Bridge.{le_prop}
use native.Mathlib.Nat.{pow-suc}
use nl.Prelude.{
  ℕ, zero, suc, ◌+◌, ◌*◌, ◌/◌, ◌%◌, ◌^◌, ◌≤◌, ◌<◌, ◌≡◌, refl, ◌∙◌, some, [], ◌∷◌, ◌++◌, length,
  drop, drop-cons, length-drop-le, length-append, Bool-cases, ltb, ltb→lt, inl, inr, arith,
}
use nl.Prelude.Bytes.{low7, set_high, Bytes, AllBytes, be_value}
use nl.Prelude.Go.{ret}
use nl.Prelude.Order.{lt_wf}
use nl.Snmp.Length.{
  byte_shrinks, read_be, length_form, parse_length, prepend_bytes, be_bytes, encode_length,
  max_int32,
}

pub prepend_zero : (w : Acc ◌<◌ 0) (out : Bytes) → prepend_bytes 0 w out ≡ out
unfolding prepend_bytes
prepend_zero (Acc.intro _ smaller) out = dif_neg (dec_lt 0 0) (omega arith) _ _

-- One round of the loop.
pub prepend_step :
    (n : ℕ) (w : Acc ◌<◌ n) (out : Bytes)
    → 0 < n
    → (v : Acc ◌<◌ (n / 256)) × (prepend_bytes n w out ≡ prepend_bytes (n / 256) v (n % 256 ∷ out))
unfolding prepend_bytes
prepend_step n (Acc.intro _ smaller) out h =
    (smaller (n / 256) (byte_shrinks h), dif_pos (dec_lt 0 n) le_prop h _ _)

pub quotient_lt : (k n : ℕ) → n < 256 ^ suc k → n / 256 < 256 ^ k
quotient_lt k n h = omega (arith, pow-suc 256 k)

-- `k` octets are enough below 256 ^ k, and they spell the number.
pub prepend_bytes_lem :
    (k n : ℕ) (w : Acc ◌<◌ n) (out : Bytes)
    → n < 256 ^ k
    → (be_value 0 (prepend_bytes n w out) ≡ be_value n out)
      × (length (prepend_bytes n w out) ≤ k + length out)
      × (AllBytes out → AllBytes (prepend_bytes n w out))
unfolding be_value
prepend_bytes_lem k zero w out h = rw (prepend_zero w out) (refl, omega arith, λ a. a)
prepend_bytes_lem zero (suc n) w out h = absurd (omega arith)
prepend_bytes_lem (suc k) (suc n) w out h =
    let (v, e) = prepend_step (suc n) w out (omega arith) in
    let (val, len, all) =
      prepend_bytes_lem k (suc n / 256) v (suc n % 256 ∷ out) (quotient_lt k (suc n) h) in
    let q : suc n / 256 * 256 + suc n % 256 ≡ suc n = omega arith in
    rw e (rw val (rw q refl), omega arith, λ a. all (omega arith, a))

pub be_bytes_lem :
    (k n : ℕ)
    → n < 256 ^ k
    → (be_value 0 (be_bytes n) ≡ n) × (length (be_bytes n) ≤ k) × AllBytes (be_bytes n)
unfolding be_bytes be_value
be_bytes_lem k n h =
    let (val, len, all) = prepend_bytes_lem k n (lt_wf.apply n) [] h in (val, omega arith, all tt)

le-be_value : (acc : ℕ) (ds : Bytes) → acc ≤ be_value acc ds
unfolding be_value
le-be_value acc [] = omega arith
le-be_value acc (d ∷ ds) = omega (arith, le-be_value (acc * 256 + d) ds)

pub read_be-be_value :
    (bs ds rest : Bytes) (pos acc : ℕ)
    → drop pos bs ≡ ds ++ rest
    → be_value acc ds < 2 ^ 32
    → read_be (length ds) bs pos acc ≡ ret (be_value acc ds, pos + length ds)
unfolding read_be be_value
read_be-be_value bs [] rest pos acc h lt = let q : pos + 0 ≡ pos = omega arith in rw q
read_be-be_value bs (d ∷ ds) rest pos acc h lt =
    let (e, next, l) = drop-cons bs pos d (ds ++ rest) h in
    let small : acc * 256 % 2 ^ 32 + d ≡ acc * 256 + d =
      omega (arith, le-be_value (acc * 256 + d) ds) in
    let ends : pos + 1 + length ds ≡ pos + suc (length ds) = omega arith in
    rw e (rw small (rw (← ends) (read_be-be_value bs ds rest (pos + 1) (acc * 256 + d) next lt)))

-- The long form, behind its first octet.
length_form_long :
    (bs ds rest : Bytes) (pos n : ℕ)
    → drop pos bs ≡ ds ++ rest
    → be_value 0 ds ≡ n
    → n ≤ max_int32
    → 0 < length ds
    → length ds ≤ 4
    → length_form bs (set_high (length ds)) pos ≡ ret (some n, pos + length ds)
unfolding length_form
length_form_long bs ds rest pos n h val small nonempty short =
    let count : low7 (set_high (length ds)) ≡ length ds = omega arith in
    let room : pos + length ds ≤ length bs =
      omega (arith, length-drop-le bs (ds ++ rest) pos h, length-append ds rest) in
    rw count (ground (arith, read_be-be_value bs ds rest pos 0 h))

pub encode_short : (n : ℕ) → n < 128 → encode_length n ≡ n ∷ []
unfolding encode_length
encode_short n h = ground arith

pub encode_long : (n : ℕ) → 128 ≤ n → encode_length n ≡ set_high (length (be_bytes n)) ∷ be_bytes n
unfolding encode_length
encode_long n h = ground arith

-- One step of `parseLength`: the first octet is read, and the rest is the form that it selects.
pub parse_length_step :
    (bs rest : Bytes) (pos first : ℕ)
    → drop pos bs ≡ first ∷ rest
    → parse_length bs pos ≡ length_form bs first (pos + 1)
unfolding parse_length
parse_length_step bs rest pos first h = ground (arith, drop-cons bs pos first rest h)

be_bytes_nonempty : (n : ℕ) → 128 ≤ n → n < 256 ^ 4 → 0 < length (be_bytes n)
unfolding be_value
be_bytes_nonempty n h k = go (be_bytes n) (be_bytes_lem 4 n k).0
  where
    go : (ds : Bytes) → be_value 0 ds ≡ n → 0 < length ds
    go [] e = absurd (omega arith)
    go (d ∷ ds) e = omega arith

-- What `encode_length` writes anywhere in a datagram, `parse_length` reads back there, and it
-- stops behind the last octet. This holds for every length up to MaxInt32.
pub parse_length-encode_length :
    (bs rest : Bytes) (pos n : ℕ)
    → n ≤ max_int32
    → drop pos bs ≡ encode_length n ++ rest
    → parse_length bs pos ≡ ret (some n, pos + length (encode_length n))
parse_length-encode_length bs rest pos n small h = elim (Bool-cases (ltb n 128)) [
  | inl short ↦
      let e = encode_short n (ltb→lt n 128 short) in
      rw e (parse_length_step bs rest pos n (h ∙ rw e) ∙ (unfold length_form in rw short))
  | inr long ↦
      let big : 128 ≤ n = ground arith in
      let e = encode_long n big in
      let (val, short, _) = be_bytes_lem 4 n (omega arith) in
      let start = h ∙ rw e in
      let (_, next, _) =
        drop-cons bs pos (set_high (length (be_bytes n))) (be_bytes n ++ rest) start in
      let ends : pos + suc (length (be_bytes n)) ≡ pos + 1 + length (be_bytes n) = omega arith in
      rw e (
        rw ends (
          parse_length_step bs (be_bytes n ++ rest) pos _ start
          ∙ length_form_long bs (be_bytes n) rest (pos + 1) n next val small
              (be_bytes_nonempty n big (omega arith)) short))
]
