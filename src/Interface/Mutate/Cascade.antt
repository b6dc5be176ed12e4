-- ===== src/Interface/Mutate/Cascade.antt =====
-- The walk over the children keeps every leaf, and its events carry a mirror of the oper-statuses
-- from the parent's old status to its new one.
use nl.Prelude.{
  ℕ, ◌-◌, ◌≡◌, refl, ◌∙◌, sym, ap, Bool, true, false, ◌||◌, List, [], ◌∷◌, ◌++◌, ◌==◌, ==_iff,
  if◌then◌else◌, Bool-cases, contains, inl, inr,
}
use nl.Interface.Word.{derive_child_oper}
use nl.Interface.State.{InterfaceState, load, leaves}
use nl.Interface.Mutate.{leaf_oper_status, leaf_admin_status, StateChange, cascade_child, cascade}
use nl.Interface.Mutate.Slots.{Keeps, Keeps-refl, Keeps-trans, store-Keeps}

-- A listener that keeps an oper-status for each ifIndex.
abbrev pub observe : (ℕ → ℕ) → StateChange → ℕ → ℕ
observe m e j = elim e.changed [
  | leaf_oper_status ↦ if e.if_index == j then e.oper else m j
  | leaf_admin_status ↦ m j
]

abbrev pub mirror : (ℕ → ℕ) → List StateChange → ℕ → ℕ
mirror m [] = m
mirror m (e ∷ es) = mirror (observe m e) es

pub mirror-append :
    (m : ℕ → ℕ) (xs ys : List StateChange) → mirror m (xs ++ ys) ≡ mirror (mirror m xs) ys
mirror-append m [] ys = refl
mirror-append m (x ∷ xs) ys = mirror-append (observe m x) xs ys

-- The oper-status that ifIndex `j` has under a parent with this status.
abbrev pub under : InterfaceState → ℕ → ℕ → ℕ
under s j parent = derive_child_oper (leaves (load s (j - 1))).1 (leaves (load s (j - 1))).0 parent

pub under-Keeps : {s s' : InterfaceState} → Keeps s s' → (j p : ℕ) → under s' j p ≡ under s j p
under-Keeps k j p = rw (k.leaves_same (j - 1))

module _ (was now time rel : ℕ) where
  cascade_child-Keeps :
      (s : InterfaceState) (c : ℕ) → Keeps s (cascade_child s c was now time rel).0
  unfolding cascade_child
  cascade_child-Keeps s c = elim (Bool-cases (under s c was == under s c now)) [
    | inl e ↦ rw e (Keeps-refl s)
    | inr e ↦ rw e (store-Keeps s (c - 1) rel)
  ]

  pub cascade-Keeps : (s : InterfaceState) (cs : List ℕ) → Keeps s (cascade s cs was now time rel).0
  unfolding cascade
  cascade-Keeps s [] = Keeps-refl s
  cascade-Keeps s (c ∷ cs) =
      Keeps-trans (cascade_child-Keeps s c)
        (cascade-Keeps (cascade_child s c was now time rel).0 cs)

  mirror-cascade_child :
      (s : InterfaceState) (c : ℕ) (m : ℕ → ℕ) (j : ℕ)
      → ((c == j) ≡ true → under s j was ≡ under s j now → m j ≡ under s j now)
      → mirror m (cascade_child s c was now time rel).1 j ≡ (if c == j then under s j now else m j)
  unfolding cascade_child
  mirror-cascade_child s c m j h = elim (Bool-cases (c == j)) [
    | inl q ↦ elim (Bool-cases (under s c was == under s c now)) [
      | inl e ↦ rw e (rw q (h q ((==_iff _ _).0 (rw ((==_iff c j).0 q) at e))))
      | inr e ↦ rw e (rw q (ap (λ k. under s k now) ((==_iff c j).0 q)))
    ]
    | inr q ↦ elim (Bool-cases (under s c was == under s c now)) [
      | inl e ↦ rw e (rw q)
      | inr e ↦ rw e (rw q)
    ]
  ]

  -- A mirror that agreed with the old status for those children whose status does not move, agrees
  -- with the new status for all children, and is untouched elsewhere.
  pub mirror-cascade :
      (cs : List ℕ) (s : InterfaceState) (m : ℕ → ℕ) (j : ℕ)
      → (contains cs j ≡ true → under s j was ≡ under s j now → m j ≡ under s j now)
      → mirror m (cascade s cs was now time rel).1 j
        ≡ (if contains cs j then under s j now else m j)
  unfolding cascade
  mirror-cascade [] s m j h = refl
  mirror-cascade (c ∷ cs) s m j h =
      let s' = (cascade_child s c was now time rel).0 in
      let own = (cascade_child s c was now time rel).1 in
      let keeps = cascade_child-Keeps s c in
      let first = mirror-cascade_child s c m j (λ q. h (rw q)) in
      let rest = mirror-cascade cs s' (mirror m own) j (λ q e.
        first
        ∙ carried q (sym (under-Keeps keeps j was) ∙ e ∙ under-Keeps keeps j now)
        ∙ sym (under-Keeps keeps j now)) in
      rw mirror-append
        (rest ∙ rw (under-Keeps keeps j now) (rw first (merged (c == j) (contains cs j))))
    where
      carried :
          contains cs j ≡ true
          → under s j was ≡ under s j now
          → (if c == j then under s j now else m j) ≡ under s j now
      carried q e = elim (Bool-cases (c == j)) [ inl t ↦ rw t | inr t ↦ rw t (h (rw t q) e) ]

      merged :
          (a b : Bool)
          → (if b then under s j now else if a then under s j now else m j)
            ≡ (if a || b then under s j now else m j)
      merged true true = refl
      merged true false = refl
      merged false true = refl
      merged false false = refl
