-- ===== src/Interface/Mutate/Admin.antt =====
-- What `ApplyAdminStatus` makes of the admin-status of every port, and what it leaves alone.
use nl.Prelude.{
  ℕ, ◌-◌, ◌≤◌, ◌<◌, ◌≡◌, refl, sym, ◌∙◌, true, false, ◌||◌, ltb, leb, ◌==◌, ==_iff, if◌then◌else◌,
  length, length-set, Bool-cases, inl, inr, arith,
}
use nl.Interface.Word.{derive_child_oper, pack_state, unpack_state, wall_rel_ns}
use nl.Interface.State.{
  InterfaceState, out_of_range, load, store, leaves, parent_of, children_of, parent_oper, slot_oper,
  admin_status,
}
use nl.Interface.State.Family.{Family}
use nl.Interface.Mutate.{move_admin, set_admin_leaf}
use nl.Interface.Mutate.Slots.{Fits, Keeps, Keeps-refl, leaves-Fits, leaves-store}
use nl.Interface.Mutate.Written.{after-Keeps}

-- The tables are the same and the slots as many.
pub record Frame (s s' : InterfaceState) : Type 0 where
  pub parent_same : s'.parent ≡ s.parent
  pub children_same : s'.children ≡ s.children
  pub max_same : s'.max_if_index ≡ s.max_if_index
  pub size_same : length s'.slots ≡ length s.slots

Frame-refl : (s : InterfaceState) → Frame s s
Frame-refl s = record {
  parent_same = refl;
  children_same = refl;
  max_same = refl;
  size_same = refl;
}

parent_of-Frame :
    {s s' : InterfaceState} → Frame s s' → (slot : ℕ) → parent_of s' slot ≡ parent_of s slot
unfolding parent_of
parent_of-Frame f slot = rw (f.parent_same)

children_of-Frame :
    {s s' : InterfaceState} → Frame s s' → (slot : ℕ) → children_of s' slot ≡ children_of s slot
unfolding children_of
children_of-Frame f slot = rw (f.children_same)

pub Family-Frame : {s s' : InterfaceState} → Frame s s' → Family s → Family s'
unfolding parent_of
Family-Frame {s} {s'} f fam = record {
  sized = f.size_same ∙ fam.sized ∙ sym (f.max_same);
  child_parent = λ slot j h.
      let kid = rw (children_of-Frame f slot) at h in
      rw (f.max_same) (rw (parent_of-Frame f (j - 1)) (fam.child_parent slot j kid));
  parent_child = λ slot lt h.
      let below = rw (f.max_same) at lt in
      let some_parent = rw (parent_of-Frame f slot) at h in
      rw (parent_of-Frame f slot)
        (rw (children_of-Frame f (parent_of s slot - 1)) (fam.parent_child slot below some_parent));
  one_level = λ slot h.
      let some_parent = rw (parent_of-Frame f slot) at h in
      rw (parent_of-Frame f slot)
        (rw (parent_of-Frame f (parent_of s slot - 1)) (fam.one_level slot some_parent));
}

-- Every reader of a state with the same leaves.
admin_status-leaves :
    (s : InterfaceState) (j : ℕ)
    → admin_status s j ≡ (if out_of_range s j then 1 else (leaves (load s (j - 1))).1)
unfolding admin_status leaves
admin_status-leaves s j = refl

-- The leaves of one port have the new admin-status, and every other leaf is the same.
pub record Moved (s : InterfaceState) (i new : ℕ) (s' : InterfaceState) : Type 0 where
  pub frame : Frame s s'
  pub leaves_are :
      (k : ℕ)
      → leaves (load s' k)
        ≡ (if i - 1 == k then ((leaves (load s k)).0, new) else leaves (load s k))

module _ (s : InterfaceState) (fam : Family s) (i new now : ℕ) (positive : 0 < i)
    (inside : i ≤ s.max_if_index) (lo : 0 < new) (hi : new ≤ 3) where
  abbrev w : ℕ
  w = load s (i - 1)

  fits : Fits ((leaves w).0, new)
  fits = let f = leaves-Fits w in (f.0, f.1, lo, omega arith)

  unmoved : (leaves w).1 ≡ new → Moved s i new s
  unmoved e = record {
    frame = Frame-refl s;
    leaves_are = λ k. elim (Bool-cases (i - 1 == k)) [
      | inl same ↦ rw same (rw (← (==_iff (i - 1) k).0 same) (rw (← e) refl))
      | inr other ↦ rw other
    ];
  }

  moved :
      (rel : ℕ) (s' : InterfaceState)
      → Keeps (store s (i - 1) (pack_state (leaves w).0 new rel)) s'
      → Moved s i new s'
  moved rel s' k = record {
    frame = record {
      parent_same = k.parent_same;
      children_same = k.children_same;
      max_same = k.max_same;
      size_same = k.size_same ∙ length-set s.slots (i - 1) (pack_state (leaves w).0 new rel);
    };
    leaves_are = λ j.
        let slot_is : ltb (i - 1) (length s.slots) ≡ true = ground (arith, fam.sized) in
        k.leaves_same j
        ∙ leaves-store s (i - 1) (leaves w).0 new rel j fits
        ∙ rw slot_is (elim (Bool-cases (i - 1 == j)) [
          | inl same ↦ rw same (rw (← (==_iff (i - 1) j).0 same) refl)
          | inr other ↦ rw other
        ]);
  }

  move_admin-Moved : Moved s i new (move_admin s i new now).0
  unfolding move_admin slot_oper
  move_admin-Moved = elim (Bool-cases ((leaves w).1 == new)) [
    | inl e ↦ rw e (unmoved ((==_iff _ _).0 e))
    | inr e ↦
        rw e
          (elim (Bool-cases (
            derive_child_oper (leaves w).1 (leaves w).0 (parent_oper s (i - 1))
            == derive_child_oper new (leaves w).0 (parent_oper s (i - 1)))) [
              | inl q ↦ rw q (moved (unpack_state w).2 _ (Keeps-refl _))
              | inr q ↦
                  rw q (
                    moved rel _ (after-Keeps s fam i (leaves w).0 new rel now fits positive inside))
            ])
  ]
    where
      rel : ℕ
      rel = wall_rel_ns now s.boot_time_unix_ns

  -- For a port in range and a valid target, in a state with consistent parent tables,
  -- `ApplyAdminStatus` sets the admin-status of that port and of no other, and the tables stay.
  pub set_admin_leaf-Moved : Moved s i new (set_admin_leaf s i new now).0
  unfolding set_admin_leaf
  set_admin_leaf-Moved =
      let in_range : out_of_range s i ≡ false = ground arith in
      let valid : (ltb new 1 || ltb 3 new) ≡ false = ground arith in
      rw in_range (rw valid move_admin-Moved)

-- The readers of the public method.
pub admin_status-Moved :
    (s s' : InterfaceState) (i new : ℕ)
    → Moved s i new s'
    → 0 < i
    → i ≤ s.max_if_index
    → (j : ℕ) → 0 < j
    → admin_status s' j ≡ (if j == i then new else admin_status s j)
admin_status-Moved s s' i new m lo hi j pos =
    admin_status-leaves s' j
    ∙ rw (m.frame.max_same) (
        rw (m.leaves_are (j - 1)) (elim (Bool-cases (j == i)) [
          | inl same ↦
              let slot : (i - 1 == j - 1) ≡ true = ground arith in
              let in_range : (j == 0 || leb s.max_if_index (j - 1)) ≡ false = ground arith in
              rw same (rw slot (rw in_range refl))
          | inr other ↦
              let slot : (i - 1 == j - 1) ≡ false = ground arith in
              rw other (rw slot (sym (admin_status-leaves s j)))
        ]))
