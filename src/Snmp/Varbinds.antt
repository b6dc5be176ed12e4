-- ===== src/Snmp/Varbinds.antt =====
-- The variable-bindings list of a request: `requestVarBindListPos`, `parseVarBinds` and
-- `parseVarBindNames` of go/nl6/snmp_handlers.go. A sum of an `int` position and a length of 31
-- bits does not overflow, and `a > b - c` on ints is written `a + c > b`.
pub mod Agreement
pub mod Safe
pub mod Envelope
use nl.Prelude.{
  ℕ, zero, suc, ◌+◌, ◌||◌, not, Option, none, some, List, [], ◌∷◌, ltb, leb, ◌==◌, if◌then◌else◌,
  length,
}
use nl.Prelude.Bytes.{Bytes}
use nl.Prelude.Go.{Go, ret, panic, stuck, ◌>>=◌, ◌>>?◌, index, slice}
use nl.Snmp.Length.{parse_length}
use nl.Snmp.Integer.{asn1_integer}
use nl.Snmp.Tlv.{asn1_octet_string, asn1_sequence}
use nl.Snmp.Oid.{asn1_oid, decode_oid}

-- A length and the position behind it, unless it is negative.
abbrev pub non_negative : Option ℕ × ℕ → Option (ℕ × ℕ)
non_negative (none, p) = none
non_negative (some n, p) = some (n, p)

unfoldable pub length_at : Bytes → ℕ → Go (Option (ℕ × ℕ))
length_at bs pos = parse_length bs pos >>= λ r. ret (non_negative r)

-- `pos >= len(data) || data[pos] != tag` refuses; then the length behind the tag.
unfoldable pub field : Bytes → ℕ → ℕ → Go (Option (ℕ × ℕ))
field bs tag pos =
    if leb (length bs) pos
    then ret none
    else (index bs pos >>= λ b. if b == tag then length_at bs (pos + 1) else ret none)

-- The INTEGERs of the loop `for i := 0; i < 3; i++`.
pub skip_integers : ℕ → Bytes → ℕ → Go (Option ℕ)
skip_integers zero bs pos = ret (some pos)
skip_integers (suc k) bs pos = field bs asn1_integer pos >>? λ r. skip_integers k bs (r.1 + r.0)

-- The PDU's tag, whichever it is, with its length.
unfoldable pub pdu_header : Bytes → ℕ → Go (Option (ℕ × ℕ))
pdu_header bs pos = if leb (length bs) pos then ret none else length_at bs (pos + 1)

-- The position of the list and the PDU's end.
unfoldable pub request_var_bind_list_pos : Bytes → Go (Option (ℕ × ℕ))
unfolding skip_integers
request_var_bind_list_pos bs = field bs asn1_sequence 0 >>? λ outer.
    field bs asn1_integer outer.1 >>? λ version.
    field bs asn1_octet_string (version.1 + version.0) >>? λ community.
    pdu_header bs (community.1 + community.0) >>? λ pdu.
    skip_integers 3 bs pdu.1 >>? λ pos. ret (some (pos, pdu.1 + pdu.0))

pub record VarBind : Type 0 where
  pub name : Bytes
  pub tag : ℕ
  pub content : Bytes

-- What `parseVarBinds` returns: malformed is (nil, nil, false), absent is (nil, nil, true).
pub data VarBinds : Type 0 where
  malformed : VarBinds
  absent : VarBinds
  parsed : List VarBind → Bytes → VarBinds

-- The name field of a binding that ends at `next`, and the position behind it.
unfoldable pub name_field : Bytes → ℕ → ℕ → Go (Option (Bytes × ℕ))
name_field bs next pos =
    if leb next pos
    then ret none
    else (index bs pos >>= λ b.
        if not (b == asn1_oid)
        then ret none
        else (length_at bs (pos + 1) >>? λ r.
            if ltb next (r.1 + r.0)
            then ret none
            else (slice bs r.1 (r.1 + r.0) >>= λ octets. elim (decode_oid octets) [
              | [] ↦ ret none
              | c ∷ cs ↦ ret (some (c ∷ cs, r.1 + r.0))
            ])))

-- The value field: its tag and its content, which ends at `next`.
unfoldable pub value_field : Bytes → ℕ → ℕ → Go (Option (ℕ × Bytes))
value_field bs next pos =
    if leb next pos
    then ret none
    else (index bs pos >>= λ tag. length_at bs (pos + 1) >>? λ r.
        if ltb next (r.1 + r.0) || not (r.1 + r.0 == next)
        then ret none
        else (slice bs r.1 next >>= λ content. ret (some (tag, content))))

-- The loop over the bindings of a list that ends at `end`; each takes an octet at least.
pub bindings_loop : ℕ → Bytes → ℕ → ℕ → Go (Option (List VarBind))
bindings_loop zero bs end pos = stuck
bindings_loop (suc rounds) bs end pos =
    if leb end pos
    then ret (some [])
    else (index bs pos >>= λ b.
        if not (b == asn1_sequence)
        then ret none
        else (length_at bs (pos + 1) >>? λ r.
            if ltb end (r.1 + r.0)
            then ret none
            else (name_field bs (r.1 + r.0) r.1 >>? λ n. value_field bs (r.1 + r.0) n.1 >>? λ v.
                bindings_loop rounds bs end (r.1 + r.0) >>? λ more.
                ret (some (record { name = n.0; tag = v.0; content = v.1 } ∷ more)))))

abbrev pub with_contents : Bytes → Option (List VarBind) → VarBinds
with_contents contents none = malformed
with_contents contents (some binds) = parsed binds contents

-- The list behind its header.
unfoldable pub parse_list : Bytes → Option (ℕ × ℕ) → Go VarBinds
unfolding bindings_loop
parse_list bs none = ret absent
parse_list bs (some (n, pos)) =
    if ltb (length bs) (pos + n)
    then ret malformed
    else (slice bs pos (pos + n) >>= λ contents.
        bindings_loop (suc (length bs)) bs (pos + n) pos >>= λ binds.
        ret (with_contents contents binds))

unfoldable pub parse_var_binds : Bytes → ℕ → Go VarBinds
parse_var_binds bs pos = field bs asn1_sequence pos >>= parse_list bs

-- The value of a binding in `parseVarBindNames`: only that it ends at `next`.
unfoldable pub skip_value : Bytes → ℕ → ℕ → Go (Option ℕ)
skip_value bs next pos =
    if leb next pos
    then ret none
    else (length_at bs (pos + 1) >>? λ r.
        if not (r.1 + r.0 == next) then ret none else ret (some next))

-- The loop of `parseVarBindNames`.
pub names_loop : ℕ → Bytes → ℕ → ℕ → Go (Option (List Bytes))
names_loop zero bs end pos = stuck
names_loop (suc rounds) bs end pos =
    if leb end pos
    then ret (some [])
    else (index bs pos >>= λ b.
        if not (b == asn1_sequence)
        then ret none
        else (length_at bs (pos + 1) >>? λ r.
            if ltb end (r.1 + r.0)
            then ret none
            else (name_field bs (r.1 + r.0) r.1 >>? λ n. skip_value bs (r.1 + r.0) n.1 >>? λ next.
                names_loop rounds bs end next >>? λ more. ret (some (n.0 ∷ more)))))

unfoldable pub names_of_list : Bytes → Option (ℕ × ℕ) → Go (Option (List Bytes))
unfolding names_loop
names_of_list bs none = ret (some [])
names_of_list bs (some (n, pos)) =
    if ltb (length bs) (pos + n) then ret none else names_loop (suc (length bs)) bs (pos + n) pos

-- The names, or none where the list is malformed.
unfoldable pub parse_var_bind_names : Bytes → ℕ → Go (Option (List Bytes))
parse_var_bind_names bs pos = field bs asn1_sequence pos >>= names_of_list bs
