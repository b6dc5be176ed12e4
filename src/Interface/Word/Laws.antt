-- ===== src/Interface/Word/Laws.antt =====
-- What the packed word and the derivation of oper-status promise.
use nl.Prelude.{ℕ, ◌+◌, ◌-◌, ◌^◌, ◌≤◌, ◌<◌, ◌≡◌, ◌↔◌, arith}
use nl.Interface.Word.{
  oper_up, admin_up, pack_state, unpack_state, wall_rel_ns, last_change_abs, derive_child_oper,
  last_change_rewind_sentinel,
}

-- The three fields of a packed slot are read back, and the word is a uint64.
pub unpack_state-pack_state :
    (link admin last_change : ℕ)
    → link < 8
    → admin < 8
    → last_change < 2 ^ 58
    → (unpack_state (pack_state link admin last_change) ≡ (link, admin, last_change))
      × (pack_state link admin last_change < 2 ^ 64)
unfolding unpack_state pack_state
unpack_state-pack_state link admin last_change hl ha hc = (ground arith, omega arith)

-- Exactly the interfaces with admin up, link up and a parent that is up are up.
pub derive_child_oper-up :
    (admin link parent : ℕ)
    → 0 < admin
    → admin ≤ 3
    → (derive_child_oper admin link parent ≡ oper_up)
      ↔ ((admin ≡ admin_up) × (link ≡ oper_up) × (parent ≡ oper_up))
unfolding derive_child_oper
derive_child_oper-up admin link parent h k = (λ e. ground arith, λ e. ground arith)

-- The instant of a transition is served back for 2^58 - 1 nanoseconds after boot, and a clock that
-- stepped back before boot is served as the sentinel.
pub last_change_abs-wall_rel_ns :
    (now boot : ℕ)
    → now < 2 ^ 64
    → boot < 2 ^ 64
    → now < boot + (2 ^ 58 - 1)
    → (boot ≤ now → last_change_abs boot (wall_rel_ns now boot) ≡ now)
      × (now < boot → last_change_abs boot (wall_rel_ns now boot) ≡ last_change_rewind_sentinel)
unfolding last_change_abs wall_rel_ns
last_change_abs-wall_rel_ns now boot hn hb h = (λ p. ground arith, λ p. ground arith)
