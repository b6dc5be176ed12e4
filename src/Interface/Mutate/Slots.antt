-- ===== src/Interface/Mutate/Slots.antt =====
-- Reads of a slot after a write, in the normalised leaves that everything else is derived from.
use nl.Prelude.{
  ℕ, ◌-◌, ◌<◌, ◌≡◌, refl, ◌∙◌, ◌&&◌, ltb, ◌==◌, if◌then◌else◌, length, get_or-set, length-set,
  Bool-cases, inl, inr, arith,
}
use nl.Interface.Word.{pack_state}
use nl.Interface.State.{InterfaceState, load, store, leaves, parent_of, parent_oper, slot_oper}

-- Leaves that fit their three bits, and are not the 0 that is read as a default.
abbrev pub Fits : ℕ × ℕ → Type 0
Fits (link, admin) = (0 < link) × (link < 8) × (0 < admin) × (admin < 8)

pub leaves-Fits : (w : ℕ) → Fits (leaves w)
unfolding leaves
leaves-Fits w = ground arith

pub leaves-pack_state :
    (link admin rel : ℕ) → Fits (link, admin) → leaves (pack_state link admin rel) ≡ (link, admin)
unfolding leaves pack_state
leaves-pack_state link admin rel h = ground arith

pub leaves-store :
    (s : InterfaceState) (slot link admin rel j : ℕ)
    → Fits (link, admin)
    → leaves (load (store s slot (pack_state link admin rel)) j)
      ≡ (if slot == j && ltb slot (length s.slots) then (link, admin) else leaves (load s j))
leaves-store s slot link admin rel j h =
    rw (get_or-set s.slots slot j (pack_state link admin rel) 0)
      (elim (Bool-cases (slot == j && ltb slot (length s.slots))) [
        | inl e ↦ rw e (leaves-pack_state link admin rel h)
        | inr e ↦ rw e
      ])

-- Everything but the time of the last change is the same.
pub record Keeps (s s' : InterfaceState) : Type 0 where
  pub leaves_same : (j : ℕ) → leaves (load s' j) ≡ leaves (load s j)
  pub parent_same : s'.parent ≡ s.parent
  pub children_same : s'.children ≡ s.children
  pub max_same : s'.max_if_index ≡ s.max_if_index
  pub size_same : length s'.slots ≡ length s.slots
  pub boot_same : s'.boot_time_unix_ns ≡ s.boot_time_unix_ns

pub Keeps-refl : (s : InterfaceState) → Keeps s s
Keeps-refl s = record {
  leaves_same = λ j. refl;
  parent_same = refl;
  children_same = refl;
  max_same = refl;
  size_same = refl;
  boot_same = refl;
}

pub Keeps-trans : {s t u : InterfaceState} → Keeps s t → Keeps t u → Keeps s u
Keeps-trans a b = record {
  leaves_same = λ j. b.leaves_same j ∙ a.leaves_same j;
  parent_same = b.parent_same ∙ a.parent_same;
  children_same = b.children_same ∙ a.children_same;
  max_same = b.max_same ∙ a.max_same;
  size_same = b.size_same ∙ a.size_same;
  boot_same = b.boot_same ∙ a.boot_same;
}

pub store-Keeps :
    (s : InterfaceState) (slot rel : ℕ)
    → Keeps s (store s slot (pack_state (leaves (load s slot)).0 (leaves (load s slot)).1 rel))
store-Keeps s slot rel = record {
  leaves_same = λ j.
      leaves-store s slot (leaves (load s slot)).0 (leaves (load s slot)).1 rel j
        (leaves-Fits (load s slot))
      ∙ ground arith;
  parent_same = refl;
  children_same = refl;
  max_same = refl;
  size_same = length-set s.slots slot _;
  boot_same = refl;
}

pub parent_of-Keeps :
    {s s' : InterfaceState} → Keeps s s' → (j : ℕ) → parent_of s' j ≡ parent_of s j
unfolding parent_of
parent_of-Keeps k j = rw (k.parent_same, parent_of)

pub parent_oper-Keeps :
    {s s' : InterfaceState} → Keeps s s' → (j : ℕ) → parent_oper s' j ≡ parent_oper s j
unfolding parent_oper
parent_oper-Keeps {s} k j = rw (parent_of-Keeps k j) (rw (k.leaves_same (parent_of s j - 1)))

pub slot_oper-Keeps :
    {s s' : InterfaceState} → Keeps s s' → (j : ℕ) → slot_oper s' j ≡ slot_oper s j
unfolding slot_oper
slot_oper-Keeps k j = rw (k.leaves_same j) (rw (parent_oper-Keeps k j))
