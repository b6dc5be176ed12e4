-- ===== src/Snmp/Walk/Served.antt =====
-- What a device serves to a walk, and what its indexes say of one another: the fields that
-- go/nl6/snmp_handlers.go reads in `findNextOIDWithServed`.
use nl.Prelude.{ℕ, ◌<◌, ◌≡◌, ◌⊎◌, true, false, Option, none, some, [], length, get_or}
use nl.Prelude.Bytes.{Bytes, bytes_eq}
use nl.Snmp.Oid.Order.{oid_le}
use nl.Snmp.Walk.{
  Entry, no_entry, IfCounterCycler, MibView, is_empty, sys_name_oid, sys_location_oid,
}
use nl.Snmp.Walk.Search.{Ascending, AscendingRows}

-- What the walk relies on in the counters of the interfaces: the successor lies behind the current
-- OID and between the bounds, and no OID that is a successor anywhere is skipped.
pub record IsWalkable (ic : IfCounterCycler) : Type 0 where
  pub behind :
      (c : Bytes)
      → is_empty (ic.next_dynamic_oid c).0 ≡ false
      → oid_le (ic.next_dynamic_oid c).0 c ≡ false
  pub from_first :
      (c : Bytes)
      → is_empty (ic.next_dynamic_oid c).0 ≡ false
      → oid_le ic.first_dyn_oid (ic.next_dynamic_oid c).0 ≡ true
  pub to_last :
      (c : Bytes)
      → is_empty (ic.next_dynamic_oid c).0 ≡ false
      → oid_le (ic.next_dynamic_oid c).0 ic.last_dyn_oid ≡ true
  pub complete :
      (c d : Bytes)
      → is_empty (ic.next_dynamic_oid d).0 ≡ false
      → oid_le (ic.next_dynamic_oid d).0 c ≡ false
      → (is_empty (ic.next_dynamic_oid c).0 ≡ false)
        × (oid_le (ic.next_dynamic_oid c).0 (ic.next_dynamic_oid d).0 ≡ true)

abbrev pub Walkable : Option IfCounterCycler → Type 0
Walkable none = Unit {0}
Walkable (some ic) = IsWalkable ic

-- The indexes of a device agree with each other. `build_resource_indexes` leaves the two scalars out.
pub record IsIndexed (mib : MibView) : Type 0 where
  pub sorted : Ascending mib.sorted_oids
  pub some_oid : 0 < length mib.sorted_oids
  pub named : (i : ℕ) → i < length mib.sorted_oids → is_empty (get_or mib.sorted_oids i []) ≡ false
  pub responds :
      (i : ℕ)
      → i < length mib.sorted_oids
      → (v : Bytes) × (mib.oid_index (get_or mib.sorted_oids i []) ≡ some v)
  pub no_name :
      (i : ℕ)
      → i < length mib.sorted_oids
      → bytes_eq (get_or mib.sorted_oids i []) sys_name_oid ≡ false
  pub no_location :
      (i : ℕ)
      → i < length mib.sorted_oids
      → bytes_eq (get_or mib.sorted_oids i []) sys_location_oid ≡ false
  pub next_behind : (c n : Bytes) → mib.oid_next_map c ≡ some n → oid_le n c ≡ false
  pub next_indexed :
      (c n : Bytes)
      → mib.oid_next_map c ≡ some n
      → (i : ℕ) × (i < length mib.sorted_oids) × (get_or mib.sorted_oids i [] ≡ n)
  pub next_least :
      (c n : Bytes)
      → mib.oid_next_map c ≡ some n
      → (i : ℕ) → i < length mib.sorted_oids
      → oid_le (get_or mib.sorted_oids i []) c ≡ false
      → oid_le n (get_or mib.sorted_oids i []) ≡ true
  pub metrics_sorted : Ascending mib.sorted_metric_oids
  pub metrics_named :
      (i : ℕ)
      → i < length mib.sorted_metric_oids
      → is_empty (get_or mib.sorted_metric_oids i []) ≡ false
  pub lldp_sorted : AscendingRows mib.lldp_served
  pub lldp_named :
      (i : ℕ) → i < length mib.lldp_served → is_empty (get_or mib.lldp_served i no_entry).0 ≡ false
  pub counters : Walkable mib.if_counters

-- What a device serves in a walk, source by source; the scalars apart.
pub data Served (mib : MibView) (o : Bytes) : Type 0 where
  static : (i : ℕ) → i < length mib.sorted_oids → get_or mib.sorted_oids i [] ≡ o → Served mib o
  metric :
      (value : Bytes → Bytes) (i : ℕ)
      → mib.metrics ≡ some value
      → i < length mib.sorted_metric_oids
      → get_or mib.sorted_metric_oids i [] ≡ o
      → is_empty (value o) ≡ false
      → Served mib o
  dynamic :
      (ic : IfCounterCycler) (d : Bytes)
      → mib.if_counters ≡ some ic
      → ic.rows ≡ true
      → (ic.next_dynamic_oid d).0 ≡ o
      → is_empty o ≡ false
      → Served mib o
  lldp :
      (i : ℕ)
      → i < length mib.lldp_served
      → (get_or mib.lldp_served i no_entry).0 ≡ o
      → Served mib o

abbrev pub Scalar : Bytes → Type 0
Scalar o = (o ≡ sys_name_oid) ⊎ (o ≡ sys_location_oid)

-- The step found an OID that is not behind `o`.
abbrev pub Reaches : Entry → Bytes → Type 0
Reaches e o = (is_empty e.0 ≡ false) × (oid_le e.0 o ≡ true)
