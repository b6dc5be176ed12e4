-- ===== src/Scenario/Claim.antt =====
-- The participation slot of an exporter: `claimScenPart` and `releaseScenPart` of
-- go/nl6/scenario_gate.go. A call is its last round: one `Load` and the `CompareAndSwap` that won,
-- which no other call came between; a lost swap changes nothing and the loop reads again.
use nl.Prelude.{
  ◌≡◌, ◌≢◌, Bool, true, false, List, [], ◌∷◌, Option, none, some, if◌then◌else◌, Bool-cases, inl,
  inr,
}
use nl.Prelude.Bytes.{Bytes, bytes_eq, bytes_eq_sound, bytes_eq_refl}

-- `scenarioPart`, of which the arbitration reads the owner.
pub record ScenarioPart : Type 0 where
  pub owner : Bytes

-- `ok`, `holder` and the slot behind the call.
unfoldable pub claim_scen_part :
    Option ScenarioPart → ScenarioPart → (Bool × Bytes) × Option ScenarioPart
claim_scen_part none part = ((true, []), some part)
claim_scen_part (some cur) part =
    if bytes_eq cur.owner part.owner
    then ((true, []), some part)
    else ((false, cur.owner), some cur)

unfoldable pub release_scen_part : Option ScenarioPart → Bytes → Bool × Option ScenarioPart
release_scen_part none owner = (false, none)
release_scen_part (some cur) owner =
    if bytes_eq cur.owner owner then (true, none) else (false, some cur)

-- The calls that reach one slot, in the order of their swaps.
pub data SlotCall : Type 0 where
  claim : ScenarioPart → SlotCall
  release : Bytes → SlotCall

abbrev pub caller : SlotCall → Bytes
caller (claim part) = part.owner
caller (release owner) = owner

unfoldable pub slot_call : Option ScenarioPart → SlotCall → Option ScenarioPart
slot_call slot (claim part) = (claim_scen_part slot part).1
slot_call slot (release owner) = (release_scen_part slot owner).1

unfoldable pub slot_calls : Option ScenarioPart → List SlotCall → Option ScenarioPart
slot_calls slot [] = slot
slot_calls slot (c ∷ cs) = slot_calls (slot_call slot c) cs

-- Every call in the list is of another scenario.
abbrev pub Others : Bytes → List SlotCall → Type 0
Others owner [] = Unit
Others owner (c ∷ cs) = (owner ≢ caller c) × Others owner cs

bytes_eq-false : (a b : Bytes) → a ≢ b → bytes_eq a b ≡ false
bytes_eq-false a b h = elim (Bool-cases (bytes_eq a b)) [
  | inl e ↦ absurd (h (bytes_eq_sound a b e))
  | inr e ↦ e
]

slot_call_other :
    (part : ScenarioPart) (c : SlotCall)
    → part.owner ≢ caller c
    → slot_call (some part) c ≡ some part
unfolding slot_call claim_scen_part release_scen_part
slot_call_other part (claim p) h =
    rw (bytes_eq-false part.owner p.owner h, slot_call, claim_scen_part)
slot_call_other part (release o) h =
    rw (bytes_eq-false part.owner o h, slot_call, release_scen_part)

-- A device that a scenario holds stays with it, handle and all, through whatever claims and releases
-- other scenarios make; a claim of another is then refused and names the holder; and the holder's
-- own release frees the slot.
pub slot_calls_exclusive :
    (part other : ScenarioPart) (cs : List SlotCall)
    → Others part.owner cs
    → part.owner ≢ other.owner
    → ((claim_scen_part (slot_calls (some part) cs) other).0 ≡ (false, part.owner))
      × (release_scen_part (slot_calls (some part) cs) part.owner ≡ (true, none))
unfolding slot_calls claim_scen_part release_scen_part
slot_calls_exclusive part other [] h n =
    (rw (bytes_eq-false part.owner other.owner n), rw (bytes_eq_refl part.owner))
slot_calls_exclusive part other (c ∷ cs) h n =
    rw (slot_call_other part c h.0) (slot_calls_exclusive part other cs h.1 n)
