-- ===== src/Interface/Mutate/Written.antt =====
-- One slot is written with new leaves and its children are walked: what every status becomes.
use nl.Prelude.{
  ℕ, ◌+◌, ◌-◌, ◌≤◌, ◌<◌, ◌≡◌, ◌≢◌, refl, sym, ap, ◌∙◌, true, false, List, ltb, ◌==◌, ==_iff,
  if◌then◌else◌, length, contains, Bool-cases, inl, inr, arith,
}
use nl.Interface.Word.{oper_up, derive_oper, derive_child_oper, pack_state}
use nl.Interface.State.{
  InterfaceState, out_of_range, load, store, leaves, parent_of, children_of, parent_oper, slot_oper,
  oper_status,
}
use nl.Interface.State.Family.{Family}
use nl.Interface.Mutate.{cascade, cascade_children}
use nl.Interface.Mutate.Slots.{Fits, Keeps, leaves-store, slot_oper-Keeps}
use nl.Interface.Mutate.Cascade.{mirror, under, cascade-Keeps, mirror-cascade}

-- Under a parent that is up a port has its own status.
derive_child_oper-oper_up : (a l : ℕ) → derive_child_oper a l oper_up ≡ derive_oper a l
unfolding derive_child_oper
derive_child_oper-oper_up a l = ground arith

module _ (s : InterfaceState) (fam : Family s) (i link admin rel time : ℕ)
    (fits : Fits (link, admin)) (positive : 0 < i) (inside : i ≤ s.max_if_index) where
  -- The state with the new leaves in the slot of `i`, before the walk over the children.
  abbrev pub written : InterfaceState
  written = store s (i - 1) (pack_state link admin rel)

  abbrev pub was : ℕ
  was = slot_oper s (i - 1)

  abbrev pub now : ℕ
  now = derive_child_oper admin link (parent_oper s (i - 1))

  leaves-written :
      (k : ℕ) → leaves (load written k) ≡ (if i - 1 == k then (link, admin) else leaves (load s k))
  leaves-written k =
      let e : ltb (i - 1) (length s.slots) ≡ true = ground (arith, fam.sized) in
      leaves-store s (i - 1) link admin rel k fits ∙ rw e (ground arith)

  -- An interface is not its own parent.
  parent_ne : (k : ℕ) → parent_of s k ≢ 0 → parent_of s k ≢ k + 1
  parent_ne k h e = let q : parent_of s k - 1 ≡ k = omega arith in h (rw q at (fam.one_level k h))

  -- A port with a child has no parent.
  parent_top : (k : ℕ) → parent_of s k ≡ i → parent_of s (i - 1) ≡ 0
  parent_top k e = rw e at (fam.one_level k (omega arith))

  parent_of-written : (k : ℕ) → parent_of written k ≡ parent_of s k
  unfolding parent_of
  parent_of-written k = refl

  children_of-written : (k : ℕ) → children_of written k ≡ children_of s k
  unfolding children_of
  children_of-written k = refl

  -- The parent's part in a status moves only for the children of `i`.
  parent_oper-written :
      (k : ℕ)
      → parent_oper written k
        ≡ (if parent_of s k == i then derive_oper admin link else parent_oper s k)
  unfolding parent_oper
  parent_oper-written k =
      rw (parent_of-written k) (rw (leaves-written (parent_of s k - 1)) (cases k))
    where
      cases :
          (k : ℕ)
          → (if parent_of s k == 0
              then oper_up
              else derive_oper
                  (if i - 1 == parent_of s k - 1
                    then (link, admin)
                    else leaves (load s (parent_of s k - 1))).1
                  (if i - 1 == parent_of s k - 1
                    then (link, admin)
                    else leaves (load s (parent_of s k - 1))).0)
            ≡ (if parent_of s k == i
                then derive_oper admin link
                else if parent_of s k == 0
                then oper_up
                else derive_oper
                    (leaves (load s (parent_of s k - 1))).1
                    (leaves (load s (parent_of s k - 1))).0)
      cases k = ground arith

  not_own : (k : ℕ) → i - 1 ≡ k → (parent_of s k == i) ≡ false
  not_own k e = elim (Bool-cases (parent_of s k == i)) [
    | inl p ↦
        let q : parent_of s k ≡ i = ground arith in absurd (parent_ne k (omega arith) (omega arith))
    | inr p ↦ p
  ]

  slot_oper-written :
      (k : ℕ)
      → slot_oper written k ≡ (
          if i - 1 == k
          then now
          else if parent_of s k == i
          then derive_child_oper
              (leaves (load s k)).1
              (leaves (load s k)).0
              (derive_oper admin link)
          else slot_oper s k)
  unfolding slot_oper
  slot_oper-written k = rw (leaves-written k) (
      rw (parent_oper-written k) (elim (Bool-cases (i - 1 == k)) [
        | inl q ↦
            let e : i - 1 ≡ k = ground arith in
            let other : (parent_of s k == i) ≡ false = not_own k e in rw q (rw other (rw (← e)))
        | inr q ↦ rw q (elim (Bool-cases (parent_of s k == i)) [ inl p ↦ rw p | inr p ↦ rw p ])
      ]))

  parent_oper_child : (k : ℕ) → parent_of s k ≡ i → parent_oper s k ≡ was
  unfolding slot_oper parent_oper
  parent_oper_child k e =
      let q : (i == 0) ≡ false = ground arith in
      rw e (
        rw q (
          rw (parent_top k e) (
            sym
              (derive_child_oper-oper_up (leaves (load s (i - 1))).1 (leaves (load s (i - 1))).0))))

  -- What the status of a child of `i` was derived from.
  slot_oper_child :
      (k : ℕ)
      → parent_of s k ≡ i
      → slot_oper s k ≡ derive_child_oper (leaves (load s k)).1 (leaves (load s k)).0 was
  unfolding slot_oper
  slot_oper_child k e = rw (parent_oper_child k e)

  now_top : (k : ℕ) → parent_of s k ≡ i → now ≡ derive_oper admin link
  unfolding parent_oper
  now_top k e = rw (parent_top k e) (derive_child_oper-oper_up admin link)

  slot_quiet : was ≡ now → (k : ℕ) → slot_oper written k ≡ slot_oper s k
  slot_quiet e k = slot_oper-written k ∙ elim (Bool-cases (i - 1 == k)) [
    | inl q ↦ let same : i - 1 ≡ k = ground arith in rw q (sym e ∙ ap (slot_oper s) same)
    | inr q ↦ rw q (elim (Bool-cases (parent_of s k == i)) [
      | inl p ↦
          let up : parent_of s k ≡ i = ground arith in
          rw p (rw (← now_top k up) (rw (← e) (sym (slot_oper_child k up))))
      | inr p ↦ rw p
    ])
  ]

  -- Where the port's own status does not move, no status moves.
  pub quiet : was ≡ now → (j : ℕ) → oper_status written j ≡ oper_status s j
  unfolding oper_status
  quiet e j = ap (λ o. if out_of_range s j then 4 else o) (slot_quiet e (j - 1))

  abbrev kids : List ℕ
  kids = children_of written (i - 1)

  abbrev after : InterfaceState
  after = (cascade written kids was now time rel).0

  abbrev pub heard : ℕ → ℕ
  heard k = if i == k then now else oper_status s k

  record IsKid (j : ℕ) : Type 0 where
    in_range : out_of_range s j ≡ false
    parent_is : parent_of s (j - 1) ≡ i
    differs : (i == j) ≡ false
    slot_differs : (i - 1 == j - 1) ≡ false

  IsKid-facts : (j : ℕ) → contains kids j ≡ true → IsKid j
  IsKid-facts j h =
      let (pos, top, up) = fam.child_parent (i - 1) j (rw (children_of-written (i - 1)) at h) in
      let up' : parent_of s (j - 1) ≡ i = omega arith in
      let ne : i - 1 ≢ j - 1 = λ e. false≢true' (sym (not_own (j - 1) e) ∙ (==_iff _ _).1 up') in
      record {
        in_range = ground arith;
        parent_is = up';
        differs = ground arith;
        slot_differs = ground arith;
      }
    where
      false≢true' : ¬ (false ≡ true)
      false≢true' e = cc

  -- What the listener knows of a child before the walk.
  heard_kid : (j : ℕ) → contains kids j ≡ true → heard j ≡ under written j was
  unfolding oper_status
  heard_kid j h =
      let k = IsKid-facts j h in
      rw (k.differs) (
        rw (k.in_range)
          (rw (leaves-written (j - 1)) (rw (k.slot_differs) (slot_oper_child (j - 1) k.parent_is))))

  -- What the new state has for a child.
  kid_after : (j : ℕ) → contains kids j ≡ true → oper_status written j ≡ under written j now
  unfolding oper_status
  kid_after j h =
      let k = IsKid-facts j h in
      let up : (parent_of s (j - 1) == i) ≡ true = (==_iff _ _).1 k.parent_is in
      rw (k.in_range) (
        slot_oper-written (j - 1)
        ∙ rw (k.slot_differs) (
            rw up (
              rw (leaves-written (j - 1))
                (rw (k.slot_differs) (rw (now_top (j - 1) k.parent_is))))))

  not_kid :
      (j : ℕ)
      → contains kids j ≡ false
      → out_of_range s j ≡ false
      → (parent_of s (j - 1) == i) ≡ false
  not_kid j h within = elim (Bool-cases (parent_of s (j - 1) == i)) [
    | inr p ↦ p
    | inl p ↦
        let up : parent_of s (j - 1) ≡ i = ground arith in
        let listed = fam.parent_child (j - 1) (ground arith) (omega arith) in
        let j' : j - 1 + 1 ≡ j = ground arith in
        let found : contains kids j ≡ true =
          rw (children_of-written (i - 1)) (rw up at (rw j' at listed)) in
        absurd (true_ne (sym found ∙ h))
  ]
    where
      true_ne : ¬ (true ≡ false)
      true_ne e = cc

  -- What the new state has elsewhere.
  rest_after : (j : ℕ) → contains kids j ≡ false → oper_status written j ≡ heard j
  unfolding oper_status
  rest_after j h = elim (Bool-cases (i == j)) [
    | inl q ↦
        let e : i ≡ j = ground arith in
        let own : (i - 1 == j - 1) ≡ true = ground arith in
        let fits_in : out_of_range s j ≡ false = ground arith in
        rw q (rw fits_in (slot_oper-written (j - 1) ∙ rw own))
    | inr q ↦ rw q (elim (Bool-cases (out_of_range s j)) [
      | inl out ↦ rw out
      | inr within ↦
          let other : (i - 1 == j - 1) ≡ false = ground arith in
          rw within (slot_oper-written (j - 1) ∙ rw other (rw (not_kid j h within)))
    ])
  ]

  oper_status-after : (j : ℕ) → oper_status after j ≡ oper_status written j
  unfolding oper_status
  oper_status-after j =
      let k = cascade-Keeps was now time rel written kids in
      rw (k.max_same) (rw (slot_oper-Keeps k (j - 1)))

  -- The events of the walk take a listener that has heard of the port itself to the new state.
  pub mirror-cascade_children :
      (j : ℕ)
      → mirror heard (cascade_children written (i - 1) was now time rel).1 j
        ≡ oper_status (cascade_children written (i - 1) was now time rel).0 j
  unfolding cascade_children
  mirror-cascade_children j =
      mirror-cascade was now time rel kids written heard j (λ h e. heard_kid j h ∙ e)
      ∙ elim (Bool-cases (contains kids j)) [
        | inl h ↦ rw h (sym (kid_after j h))
        | inr h ↦ rw h (sym (rest_after j h))
      ]
      ∙ sym (oper_status-after j)

  in_range_self : out_of_range s i ≡ false
  in_range_self = ground arith

  -- What the port's own readers serve afterwards.
  pub own_written : oper_status written i ≡ now
  unfolding oper_status
  own_written =
      let own : (i - 1 == i - 1) ≡ true = ground arith in
      rw in_range_self (slot_oper-written (i - 1) ∙ rw own)

  pub after-Keeps : Keeps written (cascade_children written (i - 1) was now time rel).0
  unfolding cascade_children
  after-Keeps = cascade-Keeps was now time rel written kids

  pub own_after : oper_status (cascade_children written (i - 1) was now time rel).0 i ≡ now
  unfolding cascade_children
  own_after = oper_status-after i ∙ own_written

  pub own_leaves : leaves (load written (i - 1)) ≡ (link, admin)
  own_leaves = let own : (i - 1 == i - 1) ≡ true = ground arith in leaves-written (i - 1) ∙ rw own
