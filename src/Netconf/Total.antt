-- ===== src/Netconf/Total.antt =====
-- The readers answer on every stream, behind a number of bytes that their limits bound.
use nl.Prelude.{
  ℕ, zero, suc, ◌+◌, ◌-◌, ◌*◌, ◌^◌, ◌<◌, ◌≤◌, ◌≡◌, ◌≢◌, refl, ap, Bool, Bool-cases, inl, inr, true,
  false, not, ◌&&◌, ◌||◌, Option, none, some, [], ◌∷◌, ◌++◌, ltb, leb, ◌==◌, if◌then◌else◌, length,
  take, drop, length-append, length-drop, length-take, arith,
}
use nl.Prelude.Bytes.{Bytes, bytes_eq}
use nl.Prelude.Decimal.{decimal_value, leads, all_digits}
use nl.Netconf.{
  stream_ended, exceeds_limit, bad_chunk_size, bad_end_marker, out_of_fuel, netconf_eom, has_suffix,
  Read, read, fails, ◌>>◌, read_byte, read_full, read_digits, chunk_size, read_chunk, after_header,
  read_chunks, read_eom, read_message, netconf_max_message_bytes,
}

-- From a stream of `l` bytes the reader takes `n` at most: it gives a result and leaves the others, or
-- an error of its own, and meets the end only of a stream that has fewer.
abbrev pub Within {ℓ} : {A : Type ℓ} → ℕ → ℕ → Read A → Type 0
Within n l (read a rest) = (length rest ≤ l) × (l ≤ length rest + n)
Within n l (fails e) = (e ≢ out_of_fuel) × (e ≡ stream_ended → l < n)

-- A reader of what is left of a stream behind `n` bytes at most.
Within-behind {ℓ} :
    {A : Type ℓ} (n k l left : ℕ) (m : Read A)
    → left ≤ l
    → l ≤ left + n
    → Within k left m
    → Within (n + k) l m
Within-behind n k l left (read a rest) le ge h =
    (let x = h.0 in omega arith, let x = h.1 in omega arith)
Within-behind n k l left (fails e) le ge h = (h.0, λ q. let x = h.1 q in omega arith)

Within-bind {ℓ κ} :
    {A : Type ℓ} {B : Type κ} (n k l : ℕ) (m : Read A) (f : A → Bytes → Read B)
    → Within n l m
    → ((a : A) (rest : Bytes)
        → length rest ≤ l
        → m ≡ read a rest
        → Within k (length rest) (f a rest))
    → Within (n + k) l (m >> f)
Within-bind n k l (read a rest) f h go =
    Within-behind n k l (length rest) (f a rest) h.0 h.1 (go a rest h.0 refl)
Within-bind n k l (fails e) f h go = (h.0, λ q. let lt = h.1 q in omega arith)

Within-if {ℓ} :
    {A : Type ℓ} (n l : ℕ) (test : Bool) (r s : Read A)
    → (test ≡ true → Within n l r)
    → (test ≡ false → Within n l s)
    → Within n l (if test then r else s)
Within-if n l true r s h g = h refl
Within-if n l false r s h g = g refl

Within-weaken {ℓ} : {A : Type ℓ} (j n l : ℕ) (m : Read A) → Within j l m → j ≤ n → Within n l m
Within-weaken j n l (read a rest) h le = (h.0, let k = h.1 in omega arith)
Within-weaken j n l (fails e) h le = (h.0, λ q. let lt = h.1 q in omega arith)

-- A byte in front.
Within-suc {ℓ} : {A : Type ℓ} (n l : ℕ) (m : Read A) → Within n l m → Within (suc n) (suc l) m
Within-suc n l (read a rest) h = (let k = h.0 in omega arith, let k = h.1 in omega arith)
Within-suc n l (fails e) h = (h.0, λ q. let lt = h.1 q in omega arith)

read_byte-Within : (s : Bytes) → Within 1 (length s) (read_byte s)
read_byte-Within [] = (λ e. cc, λ e. omega arith)
read_byte-Within (b ∷ s) = (omega arith, omega arith)

read_full-Within : (n : ℕ) (s : Bytes) → Within n (length s) (read_full n s)
read_full-Within n s =
    Within-if n (length s) (leb n (length s)) (read (take n s) (drop n s)) (fails stream_ended)
      (λ t. (omega (arith, length-drop n s), ground (arith, length-drop n s, t)))
      (λ f. (λ q. cc, λ q. ground (arith, f)))

read_full-length :
    (n : ℕ) (s a rest : Bytes) → read_full n s ≡ read a rest → length rest + n ≡ length s
read_full-length n s a rest h = elim (Bool-cases (leb n (length s))) [
  | inr f ↦ let e = rw f at h in absurd (cc e)
  | inl t ↦
      let e = rw t at h in
      let r : drop n s ≡ rest = cc e in
      let d : length (drop n s) ≡ length rest = ap length r in
      let k = length-drop n s in ground (arith, t, d, k)
]

digits-step :
    (n : ℕ) (digits : Bytes) (b : ℕ) (s : Bytes)
    → 0 < n
    → (ltb 10 (length digits + 1) ≡ false
        → Within n (suc (length s)) (read_digits (digits ++ (b ∷ [])) s))
    → Within n (suc (length s)) (read_digits digits (b ∷ s))
unfolding read_digits
digits-step n digits b s pos more =
    Within-if n (suc (length s)) (b == 10) _ _ (λ t. (omega arith, omega arith))
      (λ f.
        Within-if n (suc (length s)) (ltb 10 (length digits + 1)) _ _ (λ t. (λ q. cc, λ q. cc))
          more)

-- A chunk's size has ten digits at most.
read_digits-Within :
    (k : ℕ) (digits s : Bytes)
    → length digits + k ≡ 10
    → Within (suc k) (length s) (read_digits digits s)
unfolding read_digits
read_digits-Within k digits [] h = (λ q. cc, λ q. omega arith)
read_digits-Within zero digits (b ∷ s) h =
    digits-step 1 digits b s (omega arith) (λ g. absurd (ground (arith, h, g)))
read_digits-Within (suc k) digits (b ∷ s) h =
    digits-step (suc (suc k)) digits b s (omega arith) (λ g. Within-suc (suc k) (length s) _ (
      read_digits-Within k (digits ++ (b ∷ [])) s
        (let e = length-append digits (b ∷ []) in omega arith)))

eom-step :
    (n : ℕ) (msg : Bytes) (b : ℕ) (s : Bytes)
    → 0 < n
    → (ltb (netconf_max_message_bytes + length netconf_eom) (length (msg ++ (b ∷ []))) ≡ false
        → Within n (suc (length s)) (read_eom (msg ++ (b ∷ [])) s))
    → Within n (suc (length s)) (read_eom msg (b ∷ s))
unfolding read_eom
eom-step n msg b s pos more =
    let grown = msg ++ (b ∷ []) in
    let body = take (length grown - length netconf_eom) grown in
    Within-if n (suc (length s)) (b == 62 && has_suffix grown netconf_eom) _ _
      (λ t.
        Within-if n (suc (length s)) (ltb netconf_max_message_bytes (length body)) _ _
          (λ u. (λ q. cc, λ q. cc)) (λ u. (omega arith, omega arith)))
      (λ f.
        Within-if n (suc (length s))
          (ltb (netconf_max_message_bytes + length netconf_eom) (length grown)) _ _
          (λ u. (λ q. cc, λ q. cc)) more)

-- The message has the limit's bytes at most, and the marker behind it.
read_eom-Within :
    (k : ℕ) (msg s : Bytes)
    → length msg + k ≡ netconf_max_message_bytes + length netconf_eom
    → Within (suc k) (length s) (read_eom msg s)
unfolding read_eom
read_eom-Within k msg [] h = (λ q. cc, λ q. omega arith)
read_eom-Within zero msg (b ∷ s) h =
    eom-step 1 msg b s (omega arith)
      (λ g. let e = length-append msg (b ∷ []) in absurd (ground (arith, h, g, e)))
read_eom-Within (suc k) msg (b ∷ s) h = eom-step (suc (suc k)) msg b s (omega arith) (λ g.
    Within-suc (suc k) (length s) _
      (read_eom-Within k (msg ++ (b ∷ [])) s (let e = length-append msg (b ∷ []) in omega arith)))

-- A chunk has a byte at least.
decimal_value-le : (acc : ℕ) (ds : Bytes) → acc ≤ decimal_value acc ds
unfolding decimal_value
decimal_value-le acc [] = omega arith
decimal_value-le acc (d ∷ ds) = let h = decimal_value-le (acc * 10 + (d - 48)) ds in omega arith

leads-positive : (ds : Bytes) → leads ds ≡ true → 0 < decimal_value 0 ds
unfolding decimal_value
leads-positive [] h = absurd (cc h)
leads-positive (d ∷ ds) h =
    let le = decimal_value-le (0 * 10 + (d - 48)) ds in ground (arith, h, le)

chunk_size-positive : (digits : Bytes) (n : ℕ) → chunk_size digits ≡ some n → 0 < n
unfolding chunk_size
chunk_size-positive digits n h =
    let value = decimal_value 0 digits in
    elim (Bool-cases (not (leads digits) || not (all_digits digits) || leb (2 ^ 32) value)) [
      | inl bad ↦ let e = rw bad at h in absurd (cc e)
      | inr good ↦
          let e = rw good at h in
          let v : value ≡ n = cc e in
          let p = leads-positive digits (ground (arith, good)) in omega arith
    ]

-- What is read at most from a round on whose message has `m` bytes yet: a chunk of one byte has the
-- longest header for its size.
abbrev pub chunks_budget : ℕ → ℕ
chunks_budget m = 14 * (netconf_max_message_bytes - m) + 13

-- A round, whose later rounds keep to their budgets.
module _ (room : ℕ) (more : Bytes → Bytes → Read Bytes)
    (later : (msg s : Bytes)
      → length s ≤ room
      → length msg ≤ netconf_max_message_bytes
      → Within (chunks_budget (length msg)) (length s) (more msg s)) where
  read_chunk-Within :
      (msg digits s : Bytes)
      → length s ≤ room
      → length msg ≤ netconf_max_message_bytes
      → Within
          (14 * (netconf_max_message_bytes - length msg))
          (length s)
          (read_chunk more msg digits s)
  unfolding read_chunk
  read_chunk-Within msg digits s le fits = go (chunk_size digits) (chunk_size-positive digits)
    where
      all : ℕ
      all = 14 * (netconf_max_message_bytes - length msg)

      taken :
          (n : ℕ)
          → 0 < n
          → length msg + n ≤ netconf_max_message_bytes
          → (t : Bool) → leb n (length s) ≡ t
          → Within all (length s) (
              (if t then read (take n s) (drop n s) else fails stream_ended) >> λ body rest.
              more (msg ++ body) rest)
      taken n pos under false e = (λ q. cc, λ q. ground (arith, e))
      taken n pos under true e =
          let d = length-drop n s in
          let l : length (msg ++ take n s) ≡ length msg + n =
            ground (arith, e, length-take n s, length-append msg (take n s)) in
          Within-weaken (n + chunks_budget (length (msg ++ take n s))) all (length s) _
            (Within-behind n (chunks_budget (length (msg ++ take n s))) (length s)
              (length (drop n s)) _ (omega arith) (ground (arith, e, d))
              (later (msg ++ take n s) (drop n s) (omega arith) (omega arith)))
            (omega arith)

      go :
          (size : Option ℕ)
          → ((n : ℕ) → size ≡ some n → 0 < n)
          → Within all (length s) (elim size [
            | none ↦ fails bad_chunk_size
            | some n ↦
                if ltb netconf_max_message_bytes (length msg + n)
                then fails exceeds_limit
                else (read_full n s >> λ body rest. more (msg ++ body) rest)
          ])
      go none p = (λ q. cc, λ q. cc)
      go (some n) p =
          Within-if all (length s) (ltb netconf_max_message_bytes (length msg + n)) _ _
            (λ t. (λ q. cc, λ q. cc))
            (λ f. taken n (p n refl) (ground (arith, f)) (leb n (length s)) refl)

  after_header-Within :
      (msg : Bytes) (first : ℕ) (s : Bytes)
      → length s ≤ room
      → length msg ≤ netconf_max_message_bytes
      → Within
          (10 + 14 * (netconf_max_message_bytes - length msg))
          (length s)
          (after_header more msg first s)
  unfolding after_header
  after_header-Within msg first s le fits =
      let all = 10 + 14 * (netconf_max_message_bytes - length msg) in
      Within-if all (length s) (first == 35) _ _
        (λ t.
          Within-weaken (1 + 0) all (length s) _
            (Within-bind 1 0 (length s) (read_byte s) _ (read_byte-Within s) (λ nl rest a e.
              Within-if 0 (length rest) (nl == 10) (read msg rest) (fails bad_end_marker)
                (λ u. (omega arith, omega arith)) (λ u. (λ q. cc, λ q. cc))))
            (omega arith))
        (λ f.
          Within-bind 10 (14 * (netconf_max_message_bytes - length msg)) (length s)
            (read_digits (first ∷ []) s) _ (read_digits-Within 9 (first ∷ []) s refl)
            (λ digits rest a e. read_chunk-Within msg digits rest (omega arith) fits))

read_chunks-Within :
    (fuel : ℕ) (msg s : Bytes)
    → length s < fuel
    → length msg ≤ netconf_max_message_bytes
    → Within (chunks_budget (length msg)) (length s) (read_chunks fuel msg s)
unfolding read_chunks
read_chunks-Within zero msg s h fits = absurd (omega arith)
read_chunks-Within (suc fuel) msg s h fits =
    let all = 10 + 14 * (netconf_max_message_bytes - length msg) in
    let later : (m r : Bytes)
        → length r ≤ length s - 2
        → length r < fuel
        → length m ≤ netconf_max_message_bytes
        → Within (chunks_budget (length m)) (length r) (read_chunks fuel m r) =
      λ m r le lt g. read_chunks-Within fuel m r lt g in
    Within-weaken (2 + (1 + all)) (chunks_budget (length msg)) (length s) _
      (Within-bind 2 (1 + all) (length s) (read_full 2 s) _ (read_full-Within 2 s) (λ hdr s1 a e.
        let two = read_full-length 2 s hdr s1 e in
        Within-if (1 + all) (length s1) (bytes_eq hdr (10 ∷ 35 ∷ [])) _ _
          (λ t.
            Within-bind 1 all (length s1) (read_byte s1) _ (read_byte-Within s1) (λ first s2 b q.
              after_header-Within (length s - 2) (read_chunks fuel)
                (λ m r le g. later m r le (omega arith) g) msg first s2 (omega arith) fits))
          (λ t. (λ q. cc, λ q. cc))))
      (omega arith)

-- What each framing reads at most: the limit with the marker and a byte, or chunks of one byte.
abbrev pub most_read : Bool → ℕ
most_read true = 14 * netconf_max_message_bytes + 13
most_read false = netconf_max_message_bytes + length netconf_eom + 1

-- On every stream `ReadMessage` answers, in either framing, with a message or an error of its own, and
-- takes at most 14 * 2^20 + 13 bytes with chunks, and 2^20 + 7 without: only a stream that has fewer
-- is read to its end.
pub read_message-Answers :
    (chunked : Bool) (s : Bytes) → Within (most_read chunked) (length s) (read_message chunked s)
unfolding read_message
read_message-Answers true s = read_chunks-Within (suc (length s)) [] s (omega arith) (omega arith)
read_message-Answers false s =
    Within-weaken (suc (netconf_max_message_bytes + length netconf_eom)) (most_read false)
      (length s) _
      (read_eom-Within (netconf_max_message_bytes + length netconf_eom) [] s (omega arith))
      (omega arith)
