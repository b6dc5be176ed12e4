-- ===== src/Interface/Mutate/Mirror.antt =====
-- A listener that applies the events of a mutation to the oper-statuses that it knew has those of
-- the new state.
use nl.Prelude.{ℕ, ◌-◌, ◌≤◌, ◌<◌, ◌≡◌, sym, ◌||◌, ltb, ◌==◌, ==_iff, Bool-cases, inl, inr, arith}
use nl.Interface.Word.{derive_child_oper, unpack_state, wall_rel_ns}
use nl.Interface.State.{
  InterfaceState, out_of_range, load, leaves, parent_oper, slot_oper, oper_status,
}
use nl.Interface.State.Family.{Family}
use nl.Interface.Mutate.{move_link, set_link_state, move_admin, set_admin_leaf}
use nl.Interface.Mutate.Slots.{leaves-Fits}
use nl.Interface.Mutate.Cascade.{mirror}
use nl.Interface.Mutate.Written.{quiet, mirror-cascade_children}

module _ (s : InterfaceState) (fam : Family s) (i new now : ℕ) where
  mirror-move_link :
      (j : ℕ)
      → 0 < i
      → i ≤ s.max_if_index
      → 0 < new
      → new < 8
      → mirror (oper_status s) (move_link s i new now).2 j ≡ oper_status (move_link s i new now).0 j
  unfolding move_link slot_oper
  mirror-move_link j positive inside lo hi =
      let w = load s (i - 1) in
      let f = leaves-Fits w in
      let rel = wall_rel_ns now s.boot_time_unix_ns in
      elim (Bool-cases ((leaves w).0 == new)) [
        | inl e ↦ rw e
        | inr e ↦
            rw e
              (elim (Bool-cases (
                derive_child_oper (leaves w).1 (leaves w).0 (parent_oper s (i - 1))
                == derive_child_oper (leaves w).1 new (parent_oper s (i - 1)))) [
                  | inl q ↦ rw q (
                      sym (
                        quiet s fam i new (leaves w).1 (unpack_state w).2 now (lo, hi, f.2, f.3)
                          positive inside ((==_iff _ _).0 q) j))
                  | inr q ↦ rw q (
                      mirror-cascade_children s fam i new (leaves w).1 rel now (lo, hi, f.2, f.3)
                        positive inside j)
                ])
      ]

  -- From a state with consistent parent tables, whatever the arguments: a listener that knew every
  -- oper-status and applies the events that `SetLinkState` returns, children's included, has
  -- exactly the oper-statuses that the new state serves.
  pub mirror-set_link_state :
      (j : ℕ)
      → mirror (oper_status s) (set_link_state s i new now).2 j
        ≡ oper_status (set_link_state s i new now).0 j
  unfolding set_link_state
  mirror-set_link_state j = elim (Bool-cases (out_of_range s i)) [
    | inl e ↦ rw e
    | inr e ↦ rw e (elim (Bool-cases (ltb new 1 || ltb 7 new)) [
      | inl v ↦ rw v
      | inr v ↦ rw v (
          unfold move_link in
          mirror-move_link j (ground arith) (ground arith) (ground arith) (ground arith))
    ])
  ]

  mirror-move_admin :
      (j : ℕ)
      → 0 < i
      → i ≤ s.max_if_index
      → 0 < new
      → new < 8
      → mirror (oper_status s) (move_admin s i new now).1 j
        ≡ oper_status (move_admin s i new now).0 j
  unfolding move_admin slot_oper
  mirror-move_admin j positive inside lo hi =
      let w = load s (i - 1) in
      let f = leaves-Fits w in
      let rel = wall_rel_ns now s.boot_time_unix_ns in
      elim (Bool-cases ((leaves w).1 == new)) [
        | inl e ↦ rw e
        | inr e ↦
            rw e
              (elim (Bool-cases (
                derive_child_oper (leaves w).1 (leaves w).0 (parent_oper s (i - 1))
                == derive_child_oper new (leaves w).0 (parent_oper s (i - 1)))) [
                  | inl q ↦ rw q (
                      sym (
                        quiet s fam i (leaves w).0 new (unpack_state w).2 now (f.0, f.1, lo, hi)
                          positive inside ((==_iff _ _).0 q) j))
                  | inr q ↦ rw q (
                      mirror-cascade_children s fam i (leaves w).0 new rel now (f.0, f.1, lo, hi)
                        positive inside j)
                ])
      ]

  -- From a state with consistent parent tables, whatever the arguments: a listener that knew every
  -- oper-status and applies the events that `ApplyAdminStatus` returns, has exactly the
  -- oper-statuses that the new state serves.
  pub mirror-set_admin_leaf :
      (j : ℕ)
      → mirror (oper_status s) (set_admin_leaf s i new now).1 j
        ≡ oper_status (set_admin_leaf s i new now).0 j
  unfolding set_admin_leaf
  mirror-set_admin_leaf j = elim (Bool-cases (out_of_range s i)) [
    | inl e ↦ rw e
    | inr e ↦ rw e (elim (Bool-cases (ltb new 1 || ltb 3 new)) [
      | inl v ↦ rw v
      | inr v ↦ rw v (
          unfold move_admin in
          mirror-move_admin j (ground arith) (ground arith) (ground arith) (ground arith))
    ])
  ]
