-- ===== src/Snmp/Oid/Order.antt =====
-- The order of a walk: `compareOIDs` and `oidCursor` of go/nl6/snmp_handlers.go. A cursor is the
-- text that is left, or none when it is done; an int is its bit pattern of 64 bits.
pub mod Dotted
pub mod Total
use nl.Prelude.{
  ℕ, zero, suc, ◌+◌, ◌-◌, ◌*◌, ◌%◌, ◌^◌, Bool, true, false, not, ◌&&◌, Option, none, some, List, [],
  ◌∷◌, ltb, ◌==◌, if◌then◌else◌, length,
}
use nl.Prelude.Bytes.{Bytes}
use nl.Prelude.Decimal.{is_digit}
use nl.Prelude.Int.{ℤ, pos, negsuc}
use nl.Prelude.Text.{dot, trim_dot}

-- The text without a leading dot; an empty one has no segment.
unfoldable pub new_oid_cursor : Bytes → Option Bytes
new_oid_cursor oid = let s = trim_dot oid in elim s [ [] ↦ none | c ∷ rest ↦ some (c ∷ rest) ]

-- The value 0 of a segment that is not numeric.
abbrev pub segment_end : ℕ → Bool → Option Bytes → ℕ × Option Bytes
segment_end val numeric rest = (if numeric then val else 0, rest)

-- The loop over the bytes of a segment.
pub segment : Bytes → ℕ → Bool → ℕ × Option Bytes
segment [] val numeric = segment_end val numeric none
segment (ch ∷ s) val numeric =
    let digit = segment s ((val * 10 + (ch - 48)) % 2 ^ 64) numeric in
    let other = segment s val false in
    if ch == dot then segment_end val numeric (some s) else if is_digit ch then digit else other

-- The value, whether a segment was there, and the cursor behind it.
unfoldable pub next : Option Bytes → ℕ × Bool × Option Bytes
unfolding segment
next none = (0, false, none)
next (some s) = let (v, rest) = segment s 0 true in (v, true, rest)

-- `v1 < v2` on ints.
abbrev pub int_less : ℕ → ℕ → Bool
int_less v w = ltb ((v + 2 ^ 63) % 2 ^ 64) ((w + 2 ^ 63) % 2 ^ 64)

-- The loop; none when the rounds are over.
pub compare_loop : ℕ → Option Bytes → Option Bytes → Option ℤ
compare_loop zero c1 c2 = none
compare_loop (suc rounds) c1 c2 =
    let (v1, ok1, d1) = next c1 in
    let (v2, ok2, d2) = next c2 in
    let more = compare_loop rounds d1 d2 in
    if not ok1 && not ok2
    then some (pos 0)
    else if not (v1 == v2)
    then (if int_less v1 v2 then some (negsuc 0) else some (pos 1))
    else if not ok1
    then some (negsuc 0)
    else if not ok2
    then some (pos 1)
    else more

unfoldable pub compare_oids : Bytes → Bytes → Option ℤ
unfolding compare_loop
compare_oids oid1 oid2 =
    compare_loop (length oid1 + length oid2 + 2) (new_oid_cursor oid1) (new_oid_cursor oid2)

-- `compareOIDs`, whose rounds are always enough.
unfoldable pub oid_compare : Bytes → Bytes → ℤ
oid_compare a b = elim (compare_oids a b) [ none ↦ pos 0 | some z ↦ z ]

abbrev pub is_positive : ℤ → Bool
is_positive (pos zero) = false
is_positive (pos (suc n)) = true
is_positive (negsuc n) = false

abbrev pub is_negative : ℤ → Bool
is_negative (pos n) = false
is_negative (negsuc n) = true

-- `compareOIDs(a, b) <= 0`
unfoldable pub oid_le : Bytes → Bytes → Bool
oid_le a b = not (is_positive (oid_compare a b))

-- `compareOIDs(a, b) < 0`
unfoldable pub oid_lt : Bytes → Bytes → Bool
oid_lt a b = is_negative (oid_compare a b)
