-- ===== src/Snmp/Oid/Component.antt =====
-- One sub-identifier: its two encoders and its decoder.
use nl.Prelude.{
  ℕ, zero, suc, ◌+◌, ◌*◌, ◌/◌, ◌%◌, ◌^◌, ◌<◌, ◌≤◌, ◌≡◌, refl, sym, ap, ◌∙◌, false, some, [], ◌∷◌,
  ◌++◌, append_assoc, ltb, ◌==◌, Bool-cases, inl, inr, arith,
}
use nl.Prelude.Bytes.{Bytes, low7, set_high}
use nl.Prelude.Order.{lt_wf}
use nl.Snmp.Oid.{
  chunk_shrinks, chunks, put_high, put_chunks, encode_oid_component, prepend_high,
  append_oid_component, decode_sub, max_oid_sub_identifier,
}
use mathlib.Core.Logic.{dif_pos, dif_neg}
use mathlib.Core.WellFounded.{Acc}
use native.Mathlib.Bridge.{le_prop}
use native.Mathlib.Decide.{dec_lt}

chunks_zero : (w : Acc ◌<◌ 0) → chunks 0 w ≡ []
unfolding chunks
chunks_zero (Acc.intro _ smaller) = dif_neg (dec_lt 0 0) (omega arith) _ _

chunks_step :
    (n : ℕ) (w : Acc ◌<◌ n)
    → 0 < n
    → (v : Acc ◌<◌ (n / 128)) × (chunks n w ≡ n % 128 ∷ chunks (n / 128) v)
unfolding chunks
chunks_step n (Acc.intro _ smaller) h =
    (smaller (n / 128) (chunk_shrinks h), dif_pos (dec_lt 0 n) le_prop h _ _)

prepend_zero : (w : Acc ◌<◌ 0) (out : Bytes) → prepend_high 0 w out ≡ out
unfolding prepend_high
prepend_zero (Acc.intro _ smaller) out = dif_neg (dec_lt 0 0) (omega arith) _ _

prepend_step :
    (n : ℕ) (w : Acc ◌<◌ n) (out : Bytes)
    → 0 < n
    → (v : Acc ◌<◌ (n / 128)) × (prepend_high n w out
        ≡ prepend_high (n / 128) v (set_high (n % 128) ∷ out))
unfolding prepend_high
prepend_step n (Acc.intro _ smaller) out h =
    (smaller (n / 128) (chunk_shrinks h), dif_pos (dec_lt 0 n) le_prop h _ _)

-- The trap path's loop writes the high chunks in front of what is there.
prepend_high-put_high :
    (k n : ℕ) (w w' : Acc ◌<◌ n) (out : Bytes)
    → n < k
    → prepend_high n w out ≡ put_high (chunks n w') ++ out
unfolding put_high
prepend_high-put_high zero n w w' out h = absurd (omega arith)
prepend_high-put_high (suc k) zero w w' out h = rw (prepend_zero w out) (rw (chunks_zero w'))
prepend_high-put_high (suc k) (suc n) w w' out h =
    let (v, e) = prepend_step (suc n) w out (omega arith) in
    let (v', e') = chunks_step (suc n) w' (omega arith) in
    rw e (
      rw e' (
        prepend_high-put_high k (suc n / 128) v v' (set_high (suc n % 128) ∷ out) (omega arith)
        ∙ sym
            (append_assoc (put_high (chunks (suc n / 128) v')) (set_high (suc n % 128) ∷ []) out)))

-- A component of more than one octet.
encode_long :
    (n : ℕ)
    → 128 ≤ n
    → (w : Acc ◌<◌ (n / 128)) × (encode_oid_component n
        ≡ put_high (chunks (n / 128) w) ++ (n % 128 ∷ []))
unfolding encode_oid_component put_chunks
encode_long n h =
    let long : ltb n 128 ≡ false = ground arith in
    let (w, e) = chunks_step n (lt_wf.apply n) (omega arith) in (w, rw long (rw e))

-- `appendOIDComponent` appends what `encodeOIDComponent` gives.
pub append_oid_component-encode :
    (dst : Bytes) (n : ℕ) → append_oid_component dst n ≡ dst ++ encode_oid_component n
unfolding append_oid_component
append_oid_component-encode dst n = elim (Bool-cases (ltb n 128)) [
  | inl e ↦ rw e (unfold encode_oid_component in rw e)
  | inr e ↦
      let (w, q) = encode_long n (ground arith) in
      rw e (
        rw q (
          ap (λ x. dst ++ x)
            (prepend_high-put_high (suc (n / 128)) (n / 128) (lt_wf.apply (n / 128)) w
              (n % 128 ∷ []) (omega arith))))
]

-- The decoder reads the high chunks of `n` to `n`.
decode_sub-put_high :
    (k n : ℕ) (w : Acc ◌<◌ n) (tail : Bytes)
    → n < k
    → n < 2 ^ 25
    → decode_sub (put_high (chunks n w) ++ tail) 0 ≡ decode_sub tail n
unfolding put_high decode_sub
decode_sub-put_high zero n w tail h lt = absurd (omega arith)
decode_sub-put_high (suc k) zero w tail h lt = rw (chunks_zero w)
decode_sub-put_high (suc k) (suc n) w tail h lt =
    let m = suc n in
    let (v, e) = chunks_step m w (omega arith) in
    let x = set_high (m % 128) in
    let high : ltb x 128 ≡ false = ground arith in
    let fits : ltb (max_oid_sub_identifier / 128) (m / 128) ≡ false = ground arith in
    let back : m / 128 * 128 + low7 x ≡ m = omega arith in
    rw e (
      rw (append_assoc (put_high (chunks (m / 128) v)) (x ∷ []) tail) (
        decode_sub-put_high k (m / 128) v (x ∷ tail) (omega arith) (omega arith)
        ∙ (rw fits (rw high (rw back)))))

-- What a component looks like to the decoder: it starts with no padding octet.
pub record Reads (bs : Bytes) (n : ℕ) (rest : Bytes) : Type 0 where
  pub first : ℕ
  pub more : Bytes
  pub starts : bs ≡ first ∷ more
  pub no_padding : (first == 0x80) ≡ false
  pub value : decode_sub bs 0 ≡ some (n, rest)

chunks_none : (n : ℕ) (w : Acc ◌<◌ n) → n ≡ 0 → chunks n w ≡ []
chunks_none zero w h = chunks_zero w
chunks_none (suc n) w h = absurd (omega arith)

put_high-starts :
    (k n : ℕ) (w : Acc ◌<◌ n) (tail : Bytes)
    → n < k
    → 0 < n
    → (x : ℕ) × (xs : Bytes) × (put_high (chunks n w) ++ tail ≡ x ∷ xs) × ((x == 0x80) ≡ false)
unfolding put_high
put_high-starts zero n w tail h lo = absurd (omega arith)
put_high-starts (suc k) n w tail h lo =
    let (v, e) = chunks_step n w lo in
    let x = set_high (n % 128) in
    elim (Bool-cases (ltb n 128)) [
      | inl small ↦
          let z : n / 128 ≡ 0 = ground arith in
          let none_more = chunks_none (n / 128) v z in (x, tail, rw e (rw none_more), ground arith)
      | inr big ↦
          let (y, ys, q, ne) =
            put_high-starts k (n / 128) v (x ∷ tail) (omega arith) (ground arith) in
          (y, ys, rw e (append_assoc (put_high (chunks (n / 128) v)) (x ∷ []) tail ∙ q), ne)
    ]

-- A sub-identifier of 32 bits, in front of anything, is read back, and starts with no padding.
pub encode_oid_component-Reads :
    (n : ℕ) (rest : Bytes)
    → n ≤ max_oid_sub_identifier
    → Reads (encode_oid_component n ++ rest) n rest
unfolding encode_oid_component
encode_oid_component-Reads n rest h = elim (Bool-cases (ltb n 128)) [
  | inl e ↦
      let q : n % 256 ≡ n = ground arith in
      rw (e, encode_oid_component)
        (rw q (record {
          first = n;
          more = rest;
          starts = refl;
          no_padding = ground arith;
          value = (unfold decode_sub in ground arith);
        }))
  | inr e ↦
      let (w, q) = encode_long n (ground arith) in
      let m = n / 128 in
      let (x, xs, starts, ne) =
        put_high-starts (suc m) m w (n % 128 ∷ rest) (omega arith) (ground arith) in
      let join = append_assoc (put_high (chunks m w)) (n % 128 ∷ []) rest in
      rw q (record {
        first = x;
        more = xs;
        starts = join ∙ starts;
        no_padding = ne;
        value =
            ap (λ bs. decode_sub bs 0) join
            ∙ decode_sub-put_high (suc m) m w (n % 128 ∷ rest) (omega arith) (omega arith)
            ∙ (unfold decode_sub in ground arith);
      })
]
