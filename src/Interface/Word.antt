-- ===== src/Interface/Word.antt =====
-- The packed slot word and the pure rules of go/nl6/interface_state.go. Shifts and masks of
-- disjoint fields are written as products, remainders and sums.
pub mod Laws
use nl.Prelude.{ℕ, ◌+◌, ◌-◌, ◌*◌, ◌/◌, ◌%◌, ◌^◌, Bool, not, ◌&&◌, ltb, ◌==◌, if◌then◌else◌}

abbrev pub oper_up : ℕ
oper_up = 1

abbrev pub oper_down : ℕ
oper_down = 2

abbrev pub oper_testing : ℕ
oper_testing = 3

abbrev pub oper_unknown : ℕ
oper_unknown = 4

abbrev pub oper_lower_layer_dn : ℕ
oper_lower_layer_dn = 7

abbrev pub admin_up : ℕ
admin_up = 1

abbrev pub admin_down : ℕ
admin_down = 2

abbrev pub admin_testing : ℕ
admin_testing = 3

-- 58 bits of the word.
abbrev pub last_change_mask : ℕ
last_change_mask = 2 ^ 58 - 1

abbrev pub last_change_rewind_sentinel : ℕ
last_change_rewind_sentinel = 2 ^ 64 - 1

-- Link in bits 0 to 2, admin in bits 3 to 5, the last change above.
unfoldable pub pack_state : ℕ → ℕ → ℕ → ℕ
pack_state link admin last_change = link % 8 + admin % 8 * 2 ^ 3 + last_change % 2 ^ 58 * 2 ^ 6

unfoldable pub unpack_state : ℕ → ℕ × ℕ × ℕ
unpack_state w = (w % 8, w / 2 ^ 3 % 8, w / 2 ^ 6 % 2 ^ 58)

unfoldable pub normalise_slot : ℕ → ℕ → ℕ × ℕ
normalise_slot link admin =
    (if link == 0 then oper_unknown else link, if admin == 0 then admin_up else admin)

unfoldable pub wall_rel_ns : ℕ → ℕ → ℕ
wall_rel_ns now boot = if ltb now boot then last_change_mask else (now - boot) % 2 ^ 58

unfoldable pub last_change_abs : ℕ → ℕ → ℕ
last_change_abs boot rel =
    if rel == last_change_mask then last_change_rewind_sentinel else (boot + rel) % 2 ^ 64

unfoldable pub derive_oper : ℕ → ℕ → ℕ
derive_oper admin link =
    if admin == admin_down then oper_down else if admin == admin_testing then oper_testing else link

-- The second step of `deriveChildOper`, on the oper that the port has by itself.
unfoldable pub mask_by_parent : ℕ → ℕ → ℕ
mask_by_parent oper parent_oper =
    if oper == oper_up && not (parent_oper == oper_up) then oper_lower_layer_dn else oper

unfoldable pub derive_child_oper : ℕ → ℕ → ℕ → ℕ
unfolding derive_oper mask_by_parent
derive_child_oper admin link parent_oper = mask_by_parent (derive_oper admin link) parent_oper
