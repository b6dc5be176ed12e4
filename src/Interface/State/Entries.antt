-- ===== src/Interface/State/Entries.antt =====
-- One entry of the map that `setParents` (go/nl6/interface_state.go) is given, and the tables.
use nl.Prelude.{
  ℕ, ◌+◌, ◌-◌, ◌≤◌, ◌<◌, ◌≡◌, ◌≢◌, refl, ◌∙◌, Bool, true, false, ◌&&◌, ◌||◌, List, [], ◌∷◌, ◌++◌,
  ltb, ◌==◌, if◌then◌else◌, length, get_or, set, get_or-set, length-set, contains, Bool-cases, inl,
  inr, ◌⊎◌, arith,
}
use nl.Interface.State.{add_parent}

abbrev pub has_child : List (ℕ × ℕ) → ℕ → Bool
has_child [] j = false
has_child ((c, p) ∷ es) j = c == j || has_child es j

abbrev pub has_parent : List (ℕ × ℕ) → ℕ → Bool
has_parent [] j = false
has_parent ((c, p) ∷ es) j = p == j || has_parent es j

-- The entries of a map: no child twice.
abbrev pub Distinct : List (ℕ × ℕ) → Type 0
Distinct [] = Unit {0}
Distinct ((c, p) ∷ es) = (has_child es c ≡ false) × Distinct es

abbrev pub Tables : Type 0
Tables = List ℕ × List (List ℕ)

pub record Consistent (top : ℕ) (t : Tables) : Type 0 where
  pub parents_size : length t.0 ≡ top
  pub children_size : length t.1 ≡ top
  pub listed_parent :
      (slot j : ℕ)
      → contains (get_or t.1 slot []) j ≡ true
      → (0 < j) × (j ≤ top) × (get_or t.0 (j - 1) 0 ≡ slot + 1)
  pub parent_listed :
      (slot : ℕ)
      → get_or t.0 slot 0 ≢ 0
      → contains (get_or t.1 (get_or t.0 slot 0 - 1) []) (slot + 1) ≡ true

or_true : (a b : Bool) → (a || b) ≡ true → (a ≡ true) ⊎ (b ≡ true)
or_true true b h = inl refl
or_true false b h = inr h

contains-snoc : (xs : List ℕ) (c j : ℕ) → contains (xs ++ (c ∷ [])) j ≡ (contains xs j || c == j)
contains-snoc [] c j = ground arith
contains-snoc (x ∷ xs) c j = ground (arith, contains-snoc xs c j)

module _ (top : ℕ) (t : Tables) (c p : ℕ) (k : Consistent top t)
    (still_unset : get_or t.0 (c - 1) 0 ≡ 0) (lo : 0 < c) (hi : c ≤ top) (plo : 0 < p)
    (phi : p ≤ top) where
  new_parent :
      (slot : ℕ)
      → get_or (set t.0 (c - 1) p) slot 0 ≡ (if c - 1 == slot then p else get_or t.0 slot 0)
  new_parent slot = get_or-set t.0 (c - 1) slot p 0 ∙ ground (arith, k.parents_size)

  new_children :
      (slot j : ℕ)
      → contains (get_or (set t.1 (p - 1) (get_or t.1 (p - 1) [] ++ (c ∷ []))) slot []) j
        ≡ (contains (get_or t.1 slot []) j || (p - 1 == slot && c == j))
  new_children slot j =
      let room : ltb (p - 1) (length t.1) ≡ true = ground (arith, k.children_size) in
      rw (get_or-set t.1 (p - 1) slot (get_or t.1 (p - 1) [] ++ (c ∷ [])) []) (
        rw room (elim (Bool-cases (p - 1 == slot)) [
          | inl e ↦
              let same : p - 1 ≡ slot = ground arith in
              rw e (contains-snoc (get_or t.1 (p - 1) []) c j ∙ rw same)
          | inr e ↦ rw e (ground arith)
        ]))

  new_listed :
      (slot j : ℕ)
      → contains (get_or (set t.1 (p - 1) (get_or t.1 (p - 1) [] ++ (c ∷ []))) slot []) j ≡ true
      → (0 < j) × (j ≤ top) × (get_or (set t.0 (c - 1) p) (j - 1) 0 ≡ slot + 1)
  new_listed slot j h =
      let h' = rw (new_children slot j) at h in
      elim (Bool-cases (c - 1 == j - 1)) [
        | inl e ↦ rw (new_parent (j - 1)) (rw e (moved (ground arith) (or_true _ _ h')))
        | inr e ↦ rw (new_parent (j - 1)) (rw e (kept e (or_true _ _ h')))
      ]
    where
      moved :
          c - 1 ≡ j - 1
          → (contains (get_or t.1 slot []) j ≡ true) ⊎ ((p - 1 == slot && c == j) ≡ true)
          → (0 < j) × (j ≤ top) × (p ≡ slot + 1)
      moved e (inl old) =
          let (x, y, z) = k.listed_parent slot j old in absurd (omega (arith, rw e at still_unset))
      moved e (inr new) = ground arith

      kept :
          (c - 1 == j - 1) ≡ false
          → (contains (get_or t.1 slot []) j ≡ true) ⊎ ((p - 1 == slot && c == j) ≡ true)
          → (0 < j) × (j ≤ top) × (get_or t.0 (j - 1) 0 ≡ slot + 1)
      kept e (inl old) = k.listed_parent slot j old
      kept e (inr new) = ground arith

  old_parent :
      (slot : ℕ)
      → (c - 1 == slot) ≡ false
      → get_or (set t.0 (c - 1) p) slot 0 ≢ 0
      → get_or t.0 slot 0 ≢ 0
  old_parent slot e h z = h (new_parent slot ∙ rw e z)

  new_parent_listed :
      (slot : ℕ)
      → get_or (set t.0 (c - 1) p) slot 0 ≢ 0
      → contains
          (get_or
            (set t.1 (p - 1) (get_or t.1 (p - 1) [] ++ (c ∷ [])))
            (get_or (set t.0 (c - 1) p) slot 0 - 1)
            [])
          (slot + 1)
        ≡ true
  new_parent_listed slot h =
      rw (new_children (get_or (set t.0 (c - 1) p) slot 0 - 1) (slot + 1))
        (elim (Bool-cases (c - 1 == slot)) [
          | inl e ↦ rw (new_parent slot) (rw e (ground arith))
          | inr e ↦ rw (new_parent slot) (rw e (rw (k.parent_listed slot (old_parent slot e h))))
        ])

pub add_parent-Consistent :
    (top : ℕ) (t : Tables) (c p : ℕ)
    → Consistent top t
    → (0 < c → get_or t.0 (c - 1) 0 ≡ 0)
    → Consistent top (add_parent top t (c, p))
unfolding add_parent
add_parent-Consistent top t c p k still_unset =
    elim (Bool-cases (c == 0 || ltb top c || p == 0 || ltb top p)) [
      | inl bad ↦ rw bad k
      | inr good ↦ rw good (record {
        parents_size = length-set t.0 (c - 1) p ∙ k.parents_size;
        children_size = length-set t.1 (p - 1) _ ∙ k.children_size;
        listed_parent =
            new_listed top t c p k (still_unset (ground arith)) (ground arith) (ground arith)
              (ground arith) (ground arith);
        parent_listed =
            new_parent_listed top t c p k (still_unset (ground arith)) (ground arith) (ground arith)
              (ground arith) (ground arith);
      })
    ]
