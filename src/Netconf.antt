-- ===== src/Netconf.antt =====
-- The framing of NETCONF messages: go/nl6/netconf_framing.go. The stream is the bytes that are still
-- to come, after which it ends; a result is the message with the rest of the stream.
pub mod Chunks
pub mod Total
use nl.Prelude.{
  ℕ, zero, suc, ◌+◌, ◌-◌, ◌*◌, ◌/◌, ◌%◌, ◌^◌, ◌<◌, ◌≤◌, ◌≡◌, Bool, true, false, not, ◌&&◌, ◌||◌,
  Option, none, some, List, [], ◌∷◌, ◌++◌, ltb, leb, ◌==◌, if◌then◌else◌, length, take, drop, arith,
}
use nl.Prelude.Decimal.{is_digit, all_digits, decimal_value, leads, decimal}
use nl.Prelude.Bytes.{Bytes, bytes_eq}

pub data NetconfError : Type 0 where
  stream_ended exceeds_limit bad_chunk_header bad_end_marker size_too_long bad_chunk_size
        out_of_fuel :
      NetconfError

pub data Read {ℓ} (A : Type ℓ) : Type ℓ where
  read : A → Bytes → Read A
  fails : NetconfError → Read A

infixl 5 ◌>>◌
abbrev pub ◌>>◌ {ℓ κ} : {A : Type ℓ} {B : Type κ} → Read A → (A → Bytes → Read B) → Read B
read a rest >> f = f a rest
fails e >> f = fails e

abbrev pub netconf_max_message_bytes : ℕ
netconf_max_message_bytes = 2 ^ 20

-- "]]>]]>"
abbrev pub netconf_eom : Bytes
netconf_eom = 93 ∷ 93 ∷ 62 ∷ 93 ∷ 93 ∷ 62 ∷ []

-- `br.ReadByte`
abbrev pub read_byte : Bytes → Read ℕ
read_byte [] = fails stream_ended
read_byte (b ∷ s) = read b s

-- `io.ReadFull` of `n` bytes
abbrev pub read_full : ℕ → Bytes → Read Bytes
read_full n s = if leb n (length s) then read (take n s) (drop n s) else fails stream_ended

abbrev pub has_suffix : Bytes → Bytes → Bool
has_suffix bs suffix =
    leb (length suffix) (length bs) && bytes_eq (drop (length bs - length suffix) bs) suffix

-- The loop of `readEOM`.
pub read_eom : Bytes → Bytes → Read Bytes
read_eom msg [] = fails stream_ended
read_eom msg (b ∷ s) =
    let grown = msg ++ (b ∷ []) in
    let more = read_eom grown s in
    if b == 62 && has_suffix grown netconf_eom
    then (let body = take (length grown - length netconf_eom) grown in
        if ltb netconf_max_message_bytes (length body) then fails exceeds_limit else read body s)
    else if ltb (netconf_max_message_bytes + length netconf_eom) (length grown)
    then fails exceeds_limit
    else more

-- The loop over the digits of a chunk size, up to the newline.
pub read_digits : Bytes → Bytes → Read Bytes
read_digits digits [] = fails stream_ended
read_digits digits (b ∷ s) =
    let more = read_digits (digits ++ (b ∷ [])) s in
    if b == 10
    then read digits s
    else if ltb 10 (length digits + 1)
    then fails size_too_long
    else more

-- The checks on a size and `strconv.ParseUint(_, 10, 32)`, on digits alone; none is a bad size.
unfoldable pub chunk_size : Bytes → Option ℕ
chunk_size digits =
    let n = decimal_value 0 digits in
    if not (leads digits) || not (all_digits digits) || leb (2 ^ 32) n then none else some n

-- The end of a round, with the digits of its chunk's size read, and `more` for the rounds to come.
unfoldable pub read_chunk : (Bytes → Bytes → Read Bytes) → Bytes → Bytes → Bytes → Read Bytes
read_chunk more msg digits s = elim (chunk_size digits) [
  | none ↦ fails bad_chunk_size
  | some n ↦
      if ltb netconf_max_message_bytes (length msg + n)
      then fails exceeds_limit
      else (read_full n s >> λ body rest. more (msg ++ body) rest)
]

-- A round behind its header.
unfoldable pub after_header : (Bytes → Bytes → Read Bytes) → Bytes → ℕ → Bytes → Read Bytes
after_header more msg first s =
    if first == 35
    then (read_byte s >> λ nl rest. if nl == 10 then read msg rest else fails bad_end_marker)
    else (read_digits (first ∷ []) s >> λ digits rest. read_chunk more msg digits rest)

-- The loop of `readChunked`.
unfoldable pub read_chunks : ℕ → Bytes → Bytes → Read Bytes
read_chunks zero msg s = fails out_of_fuel
read_chunks (suc fuel) msg s = read_full 2 s >> λ hdr s1.
    if bytes_eq hdr (10 ∷ 35 ∷ [])
    then (read_byte s1 >> λ first s2. after_header (read_chunks fuel) msg first s2)
    else fails bad_chunk_header

unfoldable pub read_message : Bool → Bytes → Read Bytes
read_message true s = read_chunks (suc (length s)) [] s
read_message false s = read_eom [] s

-- `len(msg)` is an int, of 19 digits at most. The bytes are those of the one `Write`.
unfoldable pub write_message : Bool → Bytes → Bytes
write_message false msg = msg ++ netconf_eom
write_message true msg =
    (if ltb 0 (length msg) then 10 ∷ 35 ∷ (decimal 19 (length msg) ++ (10 ∷ msg)) else [])
    ++ (10 ∷ 35 ∷ 35 ∷ 10 ∷ [])
