-- ===== src/Netconf/Chunks.antt =====
-- A message that was written in chunks is read back.
use nl.Prelude.{
  ℕ, suc, ◌+◌, ◌^◌, ◌<◌, ◌≤◌, ◌≡◌, refl, ap, ◌∙◌, true, false, some, [], ◌∷◌, ◌++◌, append_assoc,
  append-nil, ltb, leb, ◌==◌, length, take-append, drop-append, length-append, arith,
}
use nl.Prelude.Bytes.{Bytes, bytes_eq}
use nl.Netconf.{
  read, read_full, read_digits, chunk_size, read_chunk, after_header, read_chunks, read_message,
  write_message, netconf_max_message_bytes,
}
use nl.Prelude.Decimal.{all_digits, decimal, Numeral, decimal-Numeral}

read_digits_lem :
    (acc ds rest : Bytes)
    → all_digits ds ≡ true
    → length acc + length ds ≤ 10
    → read_digits acc (ds ++ (10 ∷ rest)) ≡ read (acc ++ ds) rest
unfolding read_digits
read_digits_lem acc [] rest h le = rw (append-nil acc)
read_digits_lem acc (d ∷ ds) rest h le =
    let digit : (d == 10) ≡ false = ground (arith, h) in
    let room : ltb 10 (length acc + 1) ≡ false = ground arith in
    let others : all_digits ds ≡ true = ground (arith, h) in
    rw digit (
      rw room (
        read_digits_lem (acc ++ (d ∷ [])) ds rest others (omega (arith, length-append acc (d ∷ [])))
        ∙ ap (λ x. read x rest) (append_assoc acc (d ∷ []) ds)))

chunk_size-Numeral :
    (ds : Bytes) (n most : ℕ) → Numeral ds n most → n < 2 ^ 32 → chunk_size ds ≡ some n
unfolding chunk_size
chunk_size-Numeral ds n most num small =
    let d = num.digits in let l = num.led in let v = num.spells in ground (arith, d, l, v)

read_full_lem : (bs rest : Bytes) → read_full (length bs) (bs ++ rest) ≡ read bs rest
read_full_lem bs rest =
    let room : leb (length bs) (length (bs ++ rest)) ≡ true =
      ground (arith, length-append bs rest) in
    rw room (rw (take-append bs rest (length bs) refl) (rw (drop-append bs rest (length bs) refl)))

-- One chunk, from its size on.
chunk_lem :
    (fuel : ℕ) (msg body rest digits : Bytes)
    → chunk_size digits ≡ some (length body)
    → length msg + length body ≤ netconf_max_message_bytes
    → read_chunk (read_chunks fuel) msg digits (body ++ rest) ≡ read_chunks fuel (msg ++ body) rest
unfolding read_chunk
chunk_lem fuel msg body rest digits size le =
    let room : ltb netconf_max_message_bytes (length msg + length body) ≡ false = ground arith in
    rw (size, read_chunk) (rw room (rw (read_full_lem body rest)))

-- The header of a round.
header_lem :
    (fuel : ℕ) (msg s : Bytes) (first : ℕ)
    → read_chunks (suc fuel) msg (10 ∷ 35 ∷ first ∷ s) ≡ after_header (read_chunks fuel) msg first s
unfolding read_chunks bytes_eq
header_lem fuel msg s first =
    let room : leb 2 (length (10 ∷ 35 ∷ first ∷ s)) ≡ true = ground arith in rw room refl

chunk_after_header :
    (fuel : ℕ) (msg body rest : Bytes) (d : ℕ) (ds : Bytes)
    → Numeral (d ∷ ds) (length body) 10
    → length msg + length body ≤ netconf_max_message_bytes
    → after_header (read_chunks fuel) msg d (ds ++ (10 ∷ (body ++ rest)))
      ≡ read_chunks fuel (msg ++ body) rest
unfolding after_header
chunk_after_header fuel msg body rest d ds num le =
    let l = num.led in
    let a = num.digits in
    let short = num.short in
    let other : (d == 35) ≡ false = ground (arith, l) in
    let digits : all_digits ds ≡ true = ground (arith, a) in
    rw (other, after_header)
      (rw (read_digits_lem (d ∷ []) ds (body ++ rest) digits (omega arith)) (
        chunk_lem fuel msg body rest (d ∷ ds)
          (chunk_size-Numeral (d ∷ ds) (length body) 10 num (omega arith)) le))

-- A round that reads the header and a chunk.
round_lem :
    (fuel : ℕ) (msg body rest digits : Bytes)
    → Numeral digits (length body) 10
    → length msg + length body ≤ netconf_max_message_bytes
    → read_chunks (suc fuel) msg (10 ∷ 35 ∷ (digits ++ (10 ∷ (body ++ rest))))
      ≡ read_chunks fuel (msg ++ body) rest
round_lem fuel msg body rest [] num le = let l = num.led in absurd (cc l)
round_lem fuel msg body rest (d ∷ ds) num le =
    header_lem fuel msg (ds ++ (10 ∷ (body ++ rest))) d
    ∙ chunk_after_header fuel msg body rest d ds num le

-- The end of the chunks.
end_lem :
    (fuel : ℕ) (msg rest : Bytes)
    → read_chunks (suc fuel) msg (10 ∷ 35 ∷ 35 ∷ 10 ∷ rest) ≡ read msg rest
end_lem fuel msg rest = header_lem fuel msg (10 ∷ rest) 35 ∙ (unfold after_header in refl)

-- The bytes of a message that is not empty.
frame :
    (b : ℕ) (msg rest : Bytes)
    → write_message true (b ∷ msg) ++ rest
      ≡ 10
        ∷ 35
        ∷ (decimal 19 (length (b ∷ msg)) ++ (10 ∷ ((b ∷ msg) ++ (10 ∷ 35 ∷ 35 ∷ 10 ∷ rest))))
unfolding write_message
frame b msg rest =
    let digits = decimal 19 (length (b ∷ msg)) in
    let filled : ltb 0 (length (b ∷ msg)) ≡ true = ground arith in
    rw filled (
      ap (λ x. 10 ∷ 35 ∷ x)
        (append_assoc (digits ++ (10 ∷ b ∷ msg)) (10 ∷ 35 ∷ 35 ∷ 10 ∷ []) rest
          ∙ append_assoc digits (10 ∷ b ∷ msg) (10 ∷ 35 ∷ 35 ∷ 10 ∷ rest)))

-- What `WriteMessage` writes for a message of at most 1 MiB, with chunked framing, `ReadMessage`
-- reads back from a stream, and leaves what comes behind.
pub read_message-write_message :
    (msg rest : Bytes)
    → length msg ≤ netconf_max_message_bytes
    → read_message true (write_message true msg ++ rest) ≡ read msg rest
unfolding read_message write_message
read_message-write_message [] rest le = end_lem (suc (suc (suc (suc (length rest))))) [] rest
read_message-write_message (b ∷ msg) rest le =
    let body = b ∷ msg in
    let tail = 10 ∷ 35 ∷ 35 ∷ 10 ∷ rest in
    let digits = decimal 19 (length body) in
    let num = decimal-Numeral 19 10 (length body) (omega arith) (omega arith) (omega arith) in
    let left = length (digits ++ (10 ∷ (body ++ tail))) in
    ap (λ s. read_chunks (suc (length s)) [] s) (frame b msg rest)
    ∙ round_lem (suc (suc left)) [] body tail digits num (omega arith)
    ∙ end_lem (suc left) body rest
