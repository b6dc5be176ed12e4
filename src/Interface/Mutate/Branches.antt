-- ===== src/Interface/Mutate/Branches.antt =====
-- What `SetLinkState` and `ApplyAdminStatus` do to the port itself, on every branch.
use nl.Prelude.{
  ℕ, ◌-◌, ◌≤◌, ◌<◌, ◌≡◌, ◌≢◌, refl, sym, ap, ◌∙◌, Bool, true, false, ◌||◌, ◌&&◌, List, [], ◌∷◌, ltb,
  ◌==◌, ==_iff, if◌then◌else◌, length, get_or-set, Bool-cases, inl, inr, ◌↔◌, arith,
}
use nl.Interface.Word.{derive_child_oper, pack_state, unpack_state, wall_rel_ns, last_change_abs}
use nl.Interface.State.{
  InterfaceState, out_of_range, load, store, leaves, parent_oper, slot_oper, oper_status,
  link_state, admin_status, last_change_ns,
}
use nl.Interface.State.Family.{Family}
use nl.Interface.Mutate.{
  StateChange, LinkMutation, link_unchanged, link_moved_masked, link_moved_visible,
  cascade_children, set_link_state,
}
use nl.Interface.Mutate.Slots.{Fits, leaves-Fits}
use nl.Interface.Mutate.Written.{written, own_written, own_after, own_leaves, after-Keeps}

-- The public readers in terms of the leaves.
link_state-leaves :
    (s : InterfaceState) (i : ℕ)
    → out_of_range s i ≡ false
    → link_state s i ≡ (leaves (load s (i - 1))).0
unfolding link_state leaves
link_state-leaves s i h = rw h

admin_status-leaves :
    (s : InterfaceState) (i : ℕ)
    → out_of_range s i ≡ false
    → admin_status s i ≡ (leaves (load s (i - 1))).1
unfolding admin_status leaves
admin_status-leaves s i h = rw h

-- Writing other leaves beside the time that a slot has keeps the time that is served.
last_change_ns-store :
    (s : InterfaceState) (i link admin : ℕ)
    → i - 1 < length s.slots
    → last_change_ns (store s (i - 1) (pack_state link admin (unpack_state (load s (i - 1))).2)) i
      ≡ last_change_ns s i
unfolding last_change_ns pack_state
last_change_ns-store s i link admin h =
    let own : (i - 1 == i - 1 && ltb (i - 1) (length s.slots)) ≡ true = ground arith in
    rw (get_or-set s.slots (i - 1) (i - 1) _ 0) (
      rw own (
        ap (λ r. if out_of_range s i then 0 else last_change_abs s.boot_time_unix_ns r)
          (omega arith)))

-- What `SetLinkState` on a port in range and with a valid link comes to.
pub record LinkOutcome (s : InterfaceState) (i new : ℕ)
    (r : InterfaceState × LinkMutation × List StateChange) : Type 0 where
  pub link_is : link_state r.0 i ≡ new
  pub admin_kept : admin_status r.0 i ≡ admin_status s i
  pub unchanged_iff : (r.1 ≡ link_unchanged) ↔ (link_state s i ≡ new)
  pub visible_iff : (r.1 ≡ link_moved_visible) ↔ (oper_status r.0 i ≢ oper_status s i)
  pub silent : r.1 ≢ link_moved_visible → (r.2 ≡ []) × (last_change_ns r.0 i ≡ last_change_ns s i)

module _ (s : InterfaceState) (fam : Family s) (i new now : ℕ) (positive : 0 < i)
    (inside : i ≤ s.max_if_index) (lo : 0 < new) (hi : new ≤ 7) where
  in_range : out_of_range s i ≡ false
  in_range = ground arith

  abbrev w : ℕ
  w = load s (i - 1)

  was_is : oper_status s i ≡ derive_child_oper (leaves w).1 (leaves w).0 (parent_oper s (i - 1))
  unfolding oper_status slot_oper
  was_is = rw in_range

  unchanged_outcome : (leaves w).0 ≡ new → LinkOutcome s i new (s, link_unchanged, [])
  unchanged_outcome e = record {
    link_is = link_state-leaves s i in_range ∙ e;
    admin_kept = refl;
    unchanged_iff = (λ c. link_state-leaves s i in_range ∙ e, λ c. refl);
    visible_iff = (λ c. cc, λ c. absurd (c refl));
    silent = λ c. (refl, refl);
  }

  masked_outcome :
      derive_child_oper (leaves w).1 (leaves w).0 (parent_oper s (i - 1))
        ≡ derive_child_oper (leaves w).1 new (parent_oper s (i - 1))
      → (leaves w).0 ≢ new
      → LinkOutcome s i new
          (store s (i - 1) (pack_state new (leaves w).1 (unpack_state w).2), link_moved_masked, [])
  masked_outcome e ne =
      let f = leaves-Fits w in
      let rel = (unpack_state w).2 in
      let t =
        written s fam i new (leaves w).1 rel now (lo, omega arith, f.2, f.3) positive inside in
      let own =
        own_leaves s fam i new (leaves w).1 rel now (lo, omega arith, f.2, f.3) positive inside in
      record {
        link_is = link_state-leaves t i in_range ∙ rw own;
        admin_kept =
            admin_status-leaves t i in_range ∙ rw own (sym (admin_status-leaves s i in_range));
        unchanged_iff = (λ c. cc, λ c. absurd (ne (sym (link_state-leaves s i in_range) ∙ c)));
        visible_iff = (
          λ c. cc,
          λ c. absurd (
              c (
                own_written s fam i new (leaves w).1 rel now (lo, omega arith, f.2, f.3) positive
                  inside
                ∙ sym e
                ∙ sym was_is)),
        );
        silent = λ c. (refl, last_change_ns-store s i new (leaves w).1 (omega (arith, fam.sized)));
      }

  visible_outcome :
      (rel time : ℕ) (ev : StateChange)
      → derive_child_oper (leaves w).1 (leaves w).0 (parent_oper s (i - 1))
        ≢ derive_child_oper (leaves w).1 new (parent_oper s (i - 1))
      → (leaves w).0 ≢ new
      → (let walk =
            cascade_children
              (store s (i - 1) (pack_state new (leaves w).1 rel))
              (i - 1)
              (slot_oper s (i - 1))
              (derive_child_oper (leaves w).1 new (parent_oper s (i - 1)))
              time
              rel in
          LinkOutcome s i new (walk.0, link_moved_visible, ev ∷ walk.1))
  visible_outcome rel time ev e ne =
      let f = leaves-Fits w in
      let fits : Fits (new, (leaves w).1) = (lo, omega arith, f.2, f.3) in
      let keeps = after-Keeps s fam i new (leaves w).1 rel time fits positive inside in
      let own =
        keeps.leaves_same (i - 1)
        ∙ own_leaves s fam i new (leaves w).1 rel time fits positive inside in
      let after =
        (cascade_children (store s (i - 1) (pack_state new (leaves w).1 rel)) (i - 1)
          (slot_oper s (i - 1)) (derive_child_oper (leaves w).1 new (parent_oper s (i - 1))) time
          rel).0 in
      let still : out_of_range after i ≡ false = rw (keeps.max_same) in_range in
      record {
        link_is = link_state-leaves after i still ∙ rw own;
        admin_kept =
            admin_status-leaves after i still ∙ rw own (sym (admin_status-leaves s i in_range));
        unchanged_iff = (λ c. cc, λ c. absurd (ne (sym (link_state-leaves s i in_range) ∙ c)));
        visible_iff = (
          λ c d. e (
              sym was_is
              ∙ sym d
              ∙ own_after s fam i new (leaves w).1 rel time fits positive inside),
          λ c. refl,
        );
        silent = λ c. absurd (c refl);
      }

  -- In a state with consistent parent tables, on a port in range and for a valid link, `SetLinkState`
  -- leaves the port with that link and its admin-status. It reports `link_unchanged` exactly if the link was that already, and
  -- `link_moved_visible` exactly if the oper-status moved; in every other case it returns no event
  -- and keeps the time of the last change.
  pub set_link_state-LinkOutcome : LinkOutcome s i new (set_link_state s i new now)
  unfolding set_link_state
  set_link_state-LinkOutcome =
      let valid : (ltb new 1 || ltb 7 new) ≡ false = ground arith in
      rw in_range (
        rw valid (elim (Bool-cases ((leaves w).0 == new)) [
          | inl e ↦ rw e (unchanged_outcome ((==_iff _ _).0 e))
          | inr e ↦
              rw e
                (elim (Bool-cases (
                  derive_child_oper (leaves w).1 (leaves w).0 (parent_oper s (i - 1))
                  == derive_child_oper (leaves w).1 new (parent_oper s (i - 1)))) [
                    | inl q ↦
                        rw q (masked_outcome ((==_iff _ _).0 q) (λ d. neq e ((==_iff _ _).1 d)))
                    | inr q ↦ rw q (
                        unfold slot_oper in
                        visible_outcome (wall_rel_ns now s.boot_time_unix_ns) now _
                          (λ d. neq q ((==_iff _ _).1 d)) (λ d. neq e ((==_iff _ _).1 d)))
                  ])
        ]))
    where
      neq : {b : Bool} → b ≡ false → b ≡ true → ⊥
      neq p q = cc
