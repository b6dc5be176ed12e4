-- ===== src/Snmp/Oid.antt =====
-- OBJECT IDENTIFIERs: `encodeOID`, `encodeOIDComponent` and `decodeOID` of go/nl6/snmp_encoding.go
-- and `appendOID` and `appendOIDComponent`, the trap path's encoder, of go/nl6/trap_encode_fast.go.
-- A text is its bytes.
pub mod Component
pub mod RoundTrip
pub mod Agreement
pub mod Order
use nl.Prelude.{
  ℕ, zero, suc, ◌+◌, ◌-◌, ◌*◌, ◌/◌, ◌%◌, ◌^◌, ◌<◌, Bool, true, false, not, ◌&&◌, ◌||◌, Option, none,
  some, List, [], ◌∷◌, ◌++◌, ltb, leb, ◌==◌, if◌then◌else◌, length, map, arith,
}
use nl.Prelude.Bytes.{Bytes, low7, set_high, to_byte}
use nl.Prelude.Int.{ℤ, pos, negsuc}
use nl.Prelude.Order.{lt_wf}
use nl.Prelude.Text.{dot, trim_dot, split_dots, atoi, dotted}
use nl.Snmp.Length.{encode_length}
use mathlib.Core.Logic.{dite}
use mathlib.Core.WellFounded.{Acc}
use native.Mathlib.Decide.{dec_lt}

abbrev pub asn1_oid : ℕ
asn1_oid = 0x06

abbrev pub max_oid_sub_identifier : ℕ
max_oid_sub_identifier = 0xFFFFFFFF

abbrev pub max_oid_body_bytes : ℕ
max_oid_body_bytes = 0xFFFF

pub chunk_shrinks : {n : ℕ} → 0 < n → n / 128 < n
chunk_shrinks h = omega arith

-- `for temp > 0 { chunks = append(chunks, byte(temp&0x7f)); temp >>= 7 }`
pub chunks : (n : ℕ) → Acc ◌<◌ n → Bytes
chunks n (Acc.intro _ smaller) =
    dite (dec_lt 0 n) (λ h. n % 128 ∷ chunks (n / 128) (smaller (n / 128) (chunk_shrinks h)))
      (λ _. [])

-- The chunks of index 1 and up, from the last one down, with their continuation bit.
pub put_high : Bytes → Bytes
put_high [] = []
put_high (c ∷ cs) = put_high cs ++ (set_high c ∷ [])

pub put_chunks : Bytes → Bytes
put_chunks [] = []
put_chunks (c ∷ cs) = put_high cs ++ (c ∷ [])

unfoldable pub encode_oid_component : ℕ → Bytes
unfolding put_chunks put_high chunks lt_wf dec_lt
encode_oid_component value =
    if ltb value 0x80 then to_byte value ∷ [] else put_chunks (chunks value (lt_wf.apply value))

-- The arcs may be negative; the sum is at most 2 ^ 64.
unfoldable pub legal_oid_arc_pair : ℤ → ℤ → Bool
legal_oid_arc_pair (pos first) (pos second) =
    not (ltb 2 first)
    && not (ltb first 2 && ltb 39 second)
    && leb ((40 * first + second) % 2 ^ 64) max_oid_sub_identifier
legal_oid_arc_pair _ _ = false

-- The test on an arc from the third on.
abbrev pub later_arc : Option ℤ → Option ℕ
later_arc (some (pos n)) = if ltb max_oid_sub_identifier n then none else some n
later_arc _ = none

-- The loop over the remaining parts.
pub encode_arcs : List Bytes → Option Bytes
encode_arcs [] = some []
encode_arcs (part ∷ parts) =
    let rest = encode_arcs parts in
    elim (later_arc (atoi part)) [
      | none ↦ none
      | some n ↦ elim rest [ none ↦ none | some bs ↦ some (encode_oid_component n ++ bs) ]
    ]

-- The first sub-identifier.
unfoldable pub encode_pair : Option ℤ → Option ℤ → Option Bytes
encode_pair (some (pos a)) (some (pos b)) =
    if legal_oid_arc_pair (pos a) (pos b) then some (encode_oid_component (40 * a + b)) else none
encode_pair _ _ = none

-- The body, or none where the source takes the degenerate path.
unfoldable pub oid_body : List Bytes → Option Bytes
oid_body [] = none
oid_body (p ∷ []) = none
oid_body (p ∷ q ∷ parts) = elim (encode_pair (atoi p) (atoi q)) [
  | none ↦ none
  | some head ↦ elim (encode_arcs parts) [ none ↦ none | some bs ↦ some (head ++ bs) ]
]

abbrev pub degenerate : Bytes
degenerate = asn1_oid ∷ 0 ∷ []

unfoldable pub frame_oid : Option Bytes → Bytes
frame_oid none = degenerate
frame_oid (some body) =
    if ltb max_oid_body_bytes (length body)
    then degenerate
    else asn1_oid ∷ (encode_length (length body) ++ body)

unfoldable pub encode_oid : Bytes → Bytes
encode_oid oid = frame_oid (oid_body (split_dots (trim_dot oid)))

-- `!(len(enc) == 2 && enc[0] == ASN1_OID && enc[1] == 0x00)`
abbrev pub is_degenerate : Bytes → Bool
is_degenerate (a ∷ b ∷ []) = a == asn1_oid && b == 0
is_degenerate _ = false

unfoldable pub encodable_as_oid : Bytes → Bool
encodable_as_oid v = not (is_degenerate (encode_oid v))

-- `for value > 0 { i--; tmp[i] = byte(value&0x7f) | 0x80; value >>= 7 }`
pub prepend_high : (n : ℕ) → Acc ◌<◌ n → Bytes → Bytes
prepend_high n (Acc.intro _ smaller) out =
    dite (dec_lt 0 n)
      (λ h. prepend_high (n / 128) (smaller (n / 128) (chunk_shrinks h)) (set_high (n % 128) ∷ out))
      (λ _. out)

unfoldable pub append_oid_component : Bytes → ℕ → Bytes
unfolding prepend_high lt_wf dec_lt
append_oid_component dst value =
    if ltb value 0x80
    then dst ++ (to_byte value ∷ [])
    else dst ++ prepend_high (value / 128) (lt_wf.apply (value / 128)) (value % 128 ∷ [])

-- The end of a component at index `idx`: the first arc that is kept and the body behind it.
unfoldable pub append_arc : ℕ → ℕ → Bytes → Option ℤ → Option (ℕ × Bytes)
append_arc idx first body (some (pos v)) =
    if leb 2 idx && ltb max_oid_sub_identifier v
    then none
    else if idx == 0
    then some (v, body)
    else if idx == 1
    then (if legal_oid_arc_pair (pos first) (pos v)
        then some (first, append_oid_component body (40 * first + v))
        else none)
    else some (first, append_oid_component body v)
append_arc idx first body _ = none

-- The loop over the bytes, with the component read so far, `oid[start:i]`.
pub append_arcs : Bytes → Bytes → ℕ → ℕ → Bytes → Option Bytes
append_arcs [] token idx first body = elim (append_arc idx first body (atoi token)) [
  | none ↦ none
  | some (_, out) ↦ some out
]
append_arcs (c ∷ s) token idx first body =
    let more = append_arcs s (token ++ (c ∷ [])) idx first body in
    if c == dot
    then elim (append_arc idx first body (atoi token)) [
      | none ↦ none
      | some (f, out) ↦ append_arcs s [] (idx + 1) f out
    ]
    else more

pub count_dots : Bytes → ℕ
count_dots [] = 0
count_dots (c ∷ s) = (if c == dot then 1 else 0) + count_dots s

-- The length in place of the octet that was kept for it.
unfoldable pub rewrite_length : Bytes → Bytes
rewrite_length body =
    let n = length body in
    if ltb n 0x80
    then to_byte n ∷ body
    else if ltb n 0x100
    then 0x81 ∷ to_byte n ∷ body
    else 0x82 ∷ to_byte (n / 2 ^ 8) ∷ to_byte n ∷ body

abbrev pub finish_oid : Bytes → Option Bytes → Bytes
finish_oid dst none = dst ++ degenerate
finish_oid dst (some body) =
    if ltb max_oid_body_bytes (length body)
    then dst ++ degenerate
    else dst ++ (asn1_oid ∷ rewrite_length body)

unfoldable pub append_oid : Bytes → Bytes → Bytes
unfolding append_arcs count_dots
append_oid dst oid =
    let s = trim_dot oid in
    if ltb (count_dots s + 1) 2 then dst ++ degenerate else finish_oid dst (append_arcs s [] 0 0 [])

-- The inner loop of `decodeOID`: the sub-identifier and what is behind it. The guard keeps the
-- shifted value below 2 ^ 32.
pub decode_sub : Bytes → ℕ → Option (ℕ × Bytes)
decode_sub [] value = none
decode_sub (b ∷ bs) value =
    let v = value * 128 + low7 b in
    let more = decode_sub bs v in
    if ltb (max_oid_sub_identifier / 128) value
    then none
    else if ltb b 0x80
    then some (v, bs)
    else more

-- The outer loop, with a round for each octet; none is a body that it refuses.
pub decode_subs : ℕ → Bytes → Option (List ℕ)
decode_subs zero bs = none
decode_subs (suc rounds) [] = some []
decode_subs (suc rounds) (b ∷ bs) = if b == 0x80 then none else elim (decode_sub (b ∷ bs) 0) [
  | none ↦ none
  | some (v, rest) ↦ elim (decode_subs rounds rest) [ none ↦ none | some vs ↦ some (v ∷ vs) ]
]

-- The first two arcs of a first sub-identifier.
unfoldable pub split_first : ℕ → ℕ × ℕ
split_first v = let first = if ltb 2 (v / 40) then 2 else v / 40 in (first, v - 40 * first)

abbrev pub arcs_text : Option (List ℕ) → Bytes
arcs_text (some (v ∷ vs)) =
    let (first, second) = split_first v in dot ∷ dotted (first ∷ second ∷ vs)
arcs_text _ = []

-- The empty text is a refusal.
unfoldable pub decode_oid : Bytes → Bytes
unfolding decode_subs decode_sub split_first
decode_oid [] = []
decode_oid (b ∷ bs) = arcs_text (decode_subs (suc (length (b ∷ bs))) (b ∷ bs))
