-- ===== src/Interface/State/Parents.antt =====
-- `setParents` builds consistent tables from a one-level map of children to parents.
use native.Mathlib.Decide.{ℕ_discrete}
use nl.Prelude.{
  ℕ, ◌+◌, ◌-◌, ◌≡◌, ◌≢◌, ◌∙◌, true, false, List, [], ◌∷◌, none, length, get_or, replicate,
  get_or-set, get_or-replicate, length-replicate, contains, inl, inr, ◌⊎◌, arith,
}
use nl.Interface.State.{
  InterfaceState, add_parent, add_parents, set_parents, parent_of, children_of,
}
use nl.Interface.State.Family.{Family}
use nl.Interface.State.Entries.{
  has_child, has_parent, Distinct, Tables, Consistent, add_parent-Consistent,
}

-- Every parent in the table is one of the entries.
abbrev FromEntries : Tables → List (ℕ × ℕ) → Type 0
FromEntries t es =
    (slot : ℕ)
    → get_or t.0 slot 0 ≢ 0
    → (has_child es (slot + 1) ≡ true) × (has_parent es (get_or t.0 slot 0) ≡ true)

-- No entry that is still to come has a parent in the table.
abbrev Fresh : Tables → List (ℕ × ℕ) → Type 0
Fresh t es = (slot : ℕ) → has_child es (slot + 1) ≡ true → get_or t.0 slot 0 ≡ 0

add_parent-parent :
    (top : ℕ) (t : Tables) (c p slot : ℕ)
    → (get_or (add_parent top t (c, p)).0 slot 0 ≡ get_or t.0 slot 0)
      ⊎ ((c ≡ slot + 1) × (get_or (add_parent top t (c, p)).0 slot 0 ≡ p))
unfolding add_parent
add_parent-parent top t c p slot = ground (arith, get_or-set t.0 (c - 1) slot p 0)

abbrev Within : List (ℕ × ℕ) → List (ℕ × ℕ) → Type 0
Within es all =
    (j : ℕ)
    → (has_child es j ≡ true → has_child all j ≡ true)
      × (has_parent es j ≡ true → has_parent all j ≡ true)

add_parents-Consistent :
    (top : ℕ) (all es : List (ℕ × ℕ)) (t : Tables)
    → Consistent top t
    → Distinct es
    → Fresh t es
    → FromEntries t all
    → Within es all
    → Consistent top (add_parents top t es) × FromEntries (add_parents top t es) all
unfolding add_parents
add_parents-Consistent top all [] t k d f from sub = (k, from)
add_parents-Consistent top all ((c, p) ∷ es) t k d f from sub =
    add_parents-Consistent top all es (add_parent top t (c, p)) added d.1 still_unset from' within
  where
    added : Consistent top (add_parent top t (c, p))
    added = add_parent-Consistent top t c p k (λ pos. f (c - 1) (ground arith))

    still_unset : Fresh (add_parent top t (c, p)) es
    still_unset slot h = elim (add_parent-parent top t c p slot) [
      | inl same ↦ same ∙ f slot (ground arith)
      | inr moved ↦ cc (d.0, h, moved.0)
    ]

    from' : FromEntries (add_parent top t (c, p)) all
    from' slot h = elim (add_parent-parent top t c p slot) [
      | inl same ↦ rw same (from slot (λ z. h (same ∙ z)))
      | inr moved ↦ rw (moved.1) ((sub (slot + 1)).0 (ground arith), (sub p).1 (ground arith))
    ]

    within : Within es all
    within j = (λ h. (sub j).0 (ground arith), λ h. (sub j).1 (ground arith))

abbrev blank : ℕ → Tables
blank top = (replicate top 0, replicate top [])

abbrev nil_of : (A : Type 0) → List A
nil_of A = []

nothing : (j : ℕ) {P : Type 0} → contains [] j ≡ true → P
nothing j h = cc

blank-Consistent : (top : ℕ) → Consistent top (blank top)
blank-Consistent top = record {
  parents_size = length-replicate top 0;
  children_size = length-replicate top [];
  listed_parent = λ slot j h. nothing j (rw (get_or-replicate top slot (nil_of ℕ)) at h);
  parent_listed = λ slot h. absurd (h (get_or-replicate top slot 0));
}

tables_built :
    (top : ℕ) (es : List (ℕ × ℕ))
    → Distinct es
    → Consistent top (add_parents top (blank top) es)
      × FromEntries (add_parents top (blank top) es) es
tables_built top es d =
    add_parents-Consistent top es es (blank top) (blank-Consistent top) d
      (λ slot h. get_or-replicate top slot 0) (λ slot h. absurd (h (get_or-replicate top slot 0)))
      (λ j. (λ h. h, λ h. h))

top_level :
    (parents : List ℕ) (es : List (ℕ × ℕ))
    → ((p : ℕ) → has_parent es p ≡ true → has_child es p ≡ false)
    → (slot : ℕ) → has_parent es (get_or parents slot 0) ≡ true
    → (get_or parents (get_or parents slot 0 - 1) 0 ≢ 0
        → has_child es (get_or parents slot 0 - 1 + 1) ≡ true)
    → get_or parents slot 0 ≢ 0
    → get_or parents (get_or parents slot 0 - 1) 0 ≡ 0
top_level parents es flat slot up child h =
    elim (ℕ_discrete (get_or parents (get_or parents slot 0 - 1) 0) 0) [
      | yes e ↦ e
      | no n ↦
          let q : get_or parents slot 0 - 1 + 1 ≡ get_or parents slot 0 = omega arith in
          cc (rw q at (child n), flat (get_or parents slot 0) up)
    ]

-- Whatever map `setParents` is given on a fresh engine, out-of-range entries included: if no parent
-- in it is also a child, then the tables of parents and children that it builds agree both ways and
-- are one level deep.
pub set_parents-Family :
    (s : InterfaceState) (es : List (ℕ × ℕ))
    → length s.slots ≡ s.max_if_index
    → s.parent ≡ none
    → s.children ≡ none
    → Distinct es
    → ((p : ℕ) → has_parent es p ≡ true → has_child es p ≡ false)
    → Family (set_parents s es)
unfolding set_parents parent_of children_of
set_parents-Family s [] size no_parent no_children d flat = record {
  sized = size;
  child_parent = λ slot j h. nothing j (rw (no_children, children_of) at h);
  parent_child = λ slot lt h. absurd (h (rw (no_parent, parent_of)));
  one_level = λ slot h. absurd (h (rw (no_parent, parent_of)));
}
set_parents-Family s (e ∷ es) size no_parent no_children d flat =
    let (k, from) = tables_built s.max_if_index (e ∷ es) d in
    let t =
      add_parents s.max_if_index (replicate s.max_if_index 0, replicate s.max_if_index [])
        (e ∷ es) in
    record {
      sized = size;
      child_parent = k.listed_parent;
      parent_child = λ slot lt. k.parent_listed slot;
      one_level = λ slot h.
          top_level t.0 (e ∷ es) flat slot (from slot h).1 (λ n. (from (get_or t.0 slot 0 - 1) n).0)
            h;
    }
