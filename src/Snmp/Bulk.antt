-- ===== src/Snmp/Bulk.antt =====
-- The walk of a GETBULK: `handleGetBulk` of go/nl6/snmp_handlers.go and `clampBulkWalk` of snmpv3.go.

pub mod Layout
use nl.Prelude.{
  ℕ, zero, suc, ◌+◌, ◌/◌, Bool, true, false, ◌||◌, List, [], ◌∷◌, ◌++◌, map, ltb, leb, ◌==◌,
  if◌then◌else◌, length, take, drop, min, max,
}
use nl.Prelude.Bytes.{Bytes, bytes_eq}
use nl.Snmp.Value.{value_end_of_mib_view}
use nl.Snmp.Walk.{Entry, MibView, is_empty, find_next_oid_with_served}
use nl.Snmp.GetNext.{min_varbind_size, or_end}

-- `budget` is `maxSNMPResponseSize`.
unfoldable pub clamp_bulk_walk : ℕ → ℕ → ℕ → ℕ
clamp_bulk_walk budget max_repetitions columns =
    let ceiling = budget / min_varbind_size / (if ltb columns 1 then 1 else columns) + 1 in
    if ltb ceiling max_repetitions then ceiling else max_repetitions

-- A repeater: the name asked for, `currentOIDs[col]` and `endOfMib[col]`.
pub record Column : Type 0 where
  pub start : Bytes
  pub current : Bytes
  pub ended : Bool

-- Whether the walk of a column is over.
abbrev pub is_over : Entry → Bool
is_over e = is_empty e.0 || bytes_eq e.1 value_end_of_mib_view

abbrev pub fresh_column : Bytes → Column
fresh_column oid = record { start = oid; current = oid; ended = false }

module _ (mib : MibView) where
  -- The binding of one column in one repetition.
  unfoldable pub repeat_column : Column → Entry × Column
  repeat_column col =
      let e = find_next_oid_with_served mib col.current in
      if col.ended
      then ((col.start, value_end_of_mib_view), col)
      else if is_over e
      then ((col.start, value_end_of_mib_view), record col { ended = true })
      else (e, record col { current = e.0 })

  pub repetition : List Column → List Entry × List Column
  repetition [] = ([], [])
  repetition (col ∷ cols) =
      let (e, col') = repeat_column col in
      let (es, cols') = repetition cols in (e ∷ es, col' ∷ cols')

  -- The loop over the repetitions.
  pub repetitions : ℕ → List Column → List Entry
  repetitions zero cols = []
  repetitions (suc n) cols = let (es, cols') = repetition cols in es ++ repetitions n cols'

  -- A binding that does not repeat.
  abbrev pub non_repeater : Bytes → Entry
  non_repeater oid = or_end oid (find_next_oid_with_served mib oid)

  -- The bindings of the answer.
  unfoldable pub get_bulk_bindings : ℕ → ℕ → ℕ → List Bytes → List Entry
  unfolding repetitions
  get_bulk_bindings budget non_repeaters max_repetitions oids =
      let cap = min non_repeaters (length oids) in
      let cols = drop cap oids in
      let front = map non_repeater (take cap oids) in
      if length cols == 0 || max_repetitions == 0
      then front
      else front
        ++ repetitions (clamp_bulk_walk budget max_repetitions (length cols))
            (map fresh_column cols)
