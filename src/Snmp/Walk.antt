-- ===== src/Snmp/Walk.antt =====
-- The walk of a device's objects: `findNextOIDWithServed` with `overrideIfHC` of
-- go/nl6/snmp_handlers.go, `lldpNextFromServed` and `overrideLLDP` of lldp_table.go, and `findResponseAt`.
-- The empty text stands for no OID, as in the source. The readings of the cyclers, which are floating
-- point, are fields: `metrics` is `getMetricValue` at one metric point.
pub mod Search
pub mod Candidates
pub mod Served
pub mod Successor
pub mod Clear
pub mod Found
pub mod Step
use nl.Prelude.{
  ℕ, zero, suc, ◌+◌, ◌-◌, ◌/◌, Bool, true, false, not, ◌&&◌, ◌||◌, Option, none, some, List, [],
  ◌∷◌, ◌++◌, ltb, ◌==◌, if◌then◌else◌, length, get_or,
}
use nl.Prelude.Bytes.{Bytes, bytes_eq, has_prefix}
use nl.Prelude.Text.{dot, dotted}
use nl.Snmp.Oid.Order.{oid_le, oid_lt}
use nl.Snmp.Value.{value_no_such_object, value_end_of_mib_view}

-- An OID and its value.
abbrev pub Entry : Type 0
Entry = Bytes × Bytes

abbrev pub no_entry : Entry
no_entry = ([], [])

-- What the walk reads of an `IfCounterCycler`; `rows` is `len(sortedIfIndexes) > 0`.
pub record IfCounterCycler : Type 0 where
  pub rows : Bool
  pub first_dyn_oid : Bytes
  pub last_dyn_oid : Bytes
  pub next_dynamic_oid : Bytes → Entry
  pub get_dynamic : Bytes → Bytes

-- A device as the walk reads it, at one metric point and one snapshot of the LLDP rows.
pub record MibView : Type 0 where
  pub oid_index : Bytes → Option Bytes
  pub oid_next_map : Bytes → Option Bytes
  pub sorted_oids : List Bytes
  pub sorted_metric_oids : List Bytes
  pub metrics : Option (Bytes → Bytes)
  pub if_counters : Option IfCounterCycler
  pub sys_name : Bytes
  pub sys_location : Bytes
  pub lldp_served : List Entry
  pub lldp_get : Bytes → Bytes

abbrev pub is_empty : Bytes → Bool
is_empty [] = true
is_empty (c ∷ s) = false

-- .1.3.6.1.2.1.1.5.0
abbrev pub sys_name_oid : Bytes
sys_name_oid = dot ∷ dotted (1 ∷ 3 ∷ 6 ∷ 1 ∷ 2 ∷ 1 ∷ 1 ∷ 5 ∷ 0 ∷ [])

-- .1.3.6.1.2.1.1.6.0
abbrev pub sys_location_oid : Bytes
sys_location_oid = dot ∷ dotted (1 ∷ 3 ∷ 6 ∷ 1 ∷ 2 ∷ 1 ∷ 1 ∷ 6 ∷ 0 ∷ [])

-- .1.0.8802.1.1.2.
abbrev lldp_root_dot : Bytes
lldp_root_dot = dot ∷ (dotted (1 ∷ 0 ∷ 8802 ∷ 1 ∷ 1 ∷ 2 ∷ []) ++ (dot ∷ []))

-- .1.3.6.1.2.1.31.1.1.1.18.
abbrev if_alias_prefix : Bytes
if_alias_prefix = dot ∷ (dotted (1 ∷ 3 ∷ 6 ∷ 1 ∷ 2 ∷ 1 ∷ 31 ∷ 1 ∷ 1 ∷ 1 ∷ 18 ∷ []) ++ (dot ∷ []))

-- .1.3.6.1.2.1.2.2.1.
abbrev if_table_prefix : Bytes
if_table_prefix = dot ∷ (dotted (1 ∷ 3 ∷ 6 ∷ 1 ∷ 2 ∷ 1 ∷ 2 ∷ 2 ∷ 1 ∷ []) ++ (dot ∷ []))

-- .1.3.6.1.2.1.31.1.1.1.
abbrev if_x_table_prefix : Bytes
if_x_table_prefix = dot ∷ (dotted (1 ∷ 3 ∷ 6 ∷ 1 ∷ 2 ∷ 1 ∷ 31 ∷ 1 ∷ 1 ∷ 1 ∷ []) ++ (dot ∷ []))

unfoldable pub is_lldp_oid : Bytes → Bool
is_lldp_oid oid = has_prefix oid lldp_root_dot

unfoldable pub is_if_alias_oid : Bytes → Bool
is_if_alias_oid oid = has_prefix oid if_alias_prefix

-- `if v != "" { return v }; return static`
abbrev pub unless_empty : Bytes → Bytes → Bytes
unless_empty v static = if is_empty v then static else v

unfoldable pub override_if_hc : Option IfCounterCycler → Bytes → Bytes → Bytes
override_if_hc none oid static = static
override_if_hc (some ic) oid static =
    if not (has_prefix oid if_table_prefix) && not (has_prefix oid if_x_table_prefix)
    then static
    else unless_empty (ic.get_dynamic oid) static

unfoldable pub override_lldp : MibView → Bytes → Bytes → Bytes
override_lldp mib oid static =
    if not (is_lldp_oid oid) && not (is_if_alias_oid oid)
    then static
    else unless_empty (mib.lldp_get oid) static

-- The binary search for the first index at which `upto` fails.
unfoldable pub search_after : ℕ → (ℕ → Bool) → ℕ → ℕ → ℕ
search_after zero upto left right = left
search_after (suc rounds) upto left right =
    let mid = (left + right) / 2 in
    let above = search_after rounds upto (mid + 1) right in
    let below = search_after rounds upto left mid in
    if ltb left right then (if upto mid then above else below) else left

abbrev pub upto_at : List Bytes → Bytes → ℕ → Bool
upto_at oids current i = oid_le (get_or oids i []) current

abbrev pub served_upto_at : List Entry → Bytes → ℕ → Bool
served_upto_at served current i = oid_le (get_or served i no_entry).0 current

unfoldable pub lldp_next_from_served : List Entry → Bytes → Entry
lldp_next_from_served served current =
    let lo = search_after (length served) (served_upto_at served current) 0 (length served) in
    if ltb lo (length served) then get_or served lo no_entry else no_entry

abbrev pub with_response : Bytes → Option Bytes → Entry
with_response oid none = no_entry
with_response oid (some response) = (oid, response)

abbrev pub precomputed_entry : MibView → Option Bytes → Entry
precomputed_entry mib none = no_entry
precomputed_entry mib (some next_oid) = with_response next_oid (mib.oid_index next_oid)

-- The successor by the map, with its value.
unfoldable pub precomputed : MibView → Bytes → Entry
precomputed mib current = precomputed_entry mib (mib.oid_next_map current)

-- Whether no metric lies behind `current` and in front of `next_oid`.
unfoldable pub metrics_clear : List Bytes → Bytes → Bytes → Bool
metrics_clear sorted next_oid current =
    length sorted == 0
    || oid_le next_oid (get_or sorted 0 [])
    || not (oid_lt current (get_or sorted (length sorted - 1) []))

abbrev pub has_rows : Option IfCounterCycler → Bool
has_rows none = false
has_rows (some ic) = ic.rows

unfoldable pub if_cycler_clear : Option IfCounterCycler → Bytes → Bytes → Bool
if_cycler_clear none next_oid current = true
if_cycler_clear (some ic) next_oid current =
    not ic.rows || oid_le next_oid ic.first_dyn_oid || not (oid_lt current ic.last_dyn_oid)

unfoldable pub lldp_clear : Entry → Bytes → Bool
lldp_clear lldp next_oid = is_empty lldp.0 || not (oid_le lldp.0 next_oid)

-- A candidate under a test.
abbrev pub candidate : Bool → Entry → List Entry
candidate test e = if test then e ∷ [] else []

abbrev pub indexed : Bytes → Option Bytes → List Entry
indexed oid none = []
indexed oid (some response) = (oid, response) ∷ []

-- The static candidate at the index that the binary search found.
unfoldable pub static_candidate : MibView → ℕ → List Entry
static_candidate mib left =
    let oid = get_or mib.sorted_oids left [] in
    if ltb left (length mib.sorted_oids)
    then (if not (bytes_eq oid sys_name_oid) && not (bytes_eq oid sys_location_oid)
        then indexed oid (mib.oid_index oid)
        else [])
    else []

-- The first metric behind `current` that has a value.
unfoldable pub metric_candidate : (Bytes → Bytes) → Bytes → List Bytes → List Entry
metric_candidate value current [] = []
metric_candidate value current (m ∷ oids) =
    let rest = metric_candidate value current oids in
    if oid_le m current then rest else if is_empty (value m) then rest else (m, value m) ∷ []

abbrev pub metric_candidates : Option (Bytes → Bytes) → Bytes → List Bytes → List Entry
metric_candidates none current oids = []
metric_candidates (some value) current oids = metric_candidate value current oids

abbrev pub dynamic_candidates : Option IfCounterCycler → Bytes → List Entry
dynamic_candidates none current = []
dynamic_candidates (some ic) current =
    if ic.rows
    then candidate (not (is_empty (ic.next_dynamic_oid current).0)) (ic.next_dynamic_oid current)
    else []

-- The body of the loop over the candidates.
unfoldable pub better : Entry → Entry → Entry
better best c = if oid_lt c.0 best.0 then c else best

-- The loop over the other candidates.
unfoldable pub least_candidate : Entry → List Entry → Entry
least_candidate best [] = best
least_candidate best (c ∷ others) = least_candidate (better best c) others

unfoldable pub candidates : MibView → Bytes → Entry → Entry → List Entry
candidates mib current next_entry lldp =
    (if is_empty next_entry.0
      then static_candidate mib (
          search_after (length mib.sorted_oids) (upto_at mib.sorted_oids current) 0
            (length mib.sorted_oids))
      else next_entry ∷ [])
    ++ (candidate (not (oid_le sys_name_oid current)) (sys_name_oid, mib.sys_name)
        ++ (candidate (not (oid_le sys_location_oid current)) (sys_location_oid, mib.sys_location)
            ++ (metric_candidates mib.metrics current mib.sorted_metric_oids
                ++ (dynamic_candidates mib.if_counters current
                    ++ candidate (not (is_empty lldp.0)) lldp))))

-- `consider` of a device without static OIDs.
abbrev pub consider : Bytes → Entry → Entry → Entry
consider current best e =
    if not (oid_le e.0 current) && (is_empty best.0 || oid_lt e.0 best.0) then e else best

unfoldable pub only_dynamic : MibView → Bytes → Entry → Entry
only_dynamic mib current lldp =
    let named = consider current no_entry (sys_name_oid, mib.sys_name) in
    let located = consider current named (sys_location_oid, mib.sys_location) in
    let best = if is_empty lldp.0 then located else consider current located lldp in
    if is_empty best.0
    then ([], value_end_of_mib_view)
    else (best.0, override_lldp mib best.0 best.1)

abbrev pub chosen : MibView → List Entry → Entry
chosen mib [] = ([], value_end_of_mib_view)
chosen mib (c ∷ others) =
    let best = least_candidate c others in
    (best.0, override_lldp mib best.0 (override_if_hc mib.if_counters best.0 best.1))

unfoldable pub find_next_oid_with_served : MibView → Bytes → Entry
unfolding least_candidate
find_next_oid_with_served mib current =
    let next_entry = precomputed mib current in
    let lldp = lldp_next_from_served mib.lldp_served current in
    if not (is_empty next_entry.0)
      && metrics_clear mib.sorted_metric_oids next_entry.0 current
      && if_cycler_clear mib.if_counters next_entry.0 current
      && lldp_clear lldp next_entry.0
    then (
      next_entry.0,
      override_lldp mib next_entry.0 (override_if_hc mib.if_counters next_entry.0 next_entry.1),
    )
    else if length mib.sorted_oids == 0
    then only_dynamic mib current lldp
    else chosen mib (candidates mib current next_entry lldp)

abbrev from_cycler : Option IfCounterCycler → Bytes → Bytes
from_cycler none oid = []
from_cycler (some ic) oid = ic.get_dynamic oid

abbrev from_metrics : Option (Bytes → Bytes) → Bytes → Bytes
from_metrics none oid = []
from_metrics (some value) oid = value oid

abbrev from_index : Option Bytes → Bytes
from_index none = value_no_such_object
from_index (some response) = response

unfoldable pub find_response_at : MibView → Bytes → Bytes
find_response_at mib oid =
    if bytes_eq oid sys_location_oid
    then mib.sys_location
    else if bytes_eq oid sys_name_oid
    then mib.sys_name
    else if not (is_empty (from_metrics mib.metrics oid))
    then from_metrics mib.metrics oid
    else if not (is_empty (from_cycler mib.if_counters oid))
    then from_cycler mib.if_counters oid
    else if (is_lldp_oid oid || is_if_alias_oid oid) && not (is_empty (mib.lldp_get oid))
    then mib.lldp_get oid
    else from_index (mib.oid_index oid)
