-- ===== src/Tests/Walk.antt =====
-- The walk on a device with sysContact.0 and sysServices.0, one metric, one octet counter and one LLDP
-- row: go/nl6/snmp_handlers.go and snmp_server.go.
use nl.Prelude.{
  ◌≡◌, refl, true, false, none, some, [], ◌∷◌, ◌++◌, length, if◌then◌else◌, map, take, drop,
}
use nl.Prelude.Bytes.{Bytes, bytes_eq}
use nl.Prelude.Int.{pos}
use nl.Prelude.Decimal.{decimal}
use nl.Prelude.Text.{dot, dotted, trim_dot, join_dots, itoa}
use nl.Snmp.Oid.Order.{oid_le, oid_lt, oid_compare, compare_oids, next, new_oid_cursor}
use nl.Snmp.Walk.{
  Entry, no_entry, IfCounterCycler, find_next_oid_with_served, MibView, sys_name_oid, precomputed,
  metrics_clear, if_cycler_clear, lldp_clear, lldp_next_from_served, search_after, candidates,
  static_candidate, metric_candidate, better, least_candidate,
}
use nl.Snmp.Oid.Order.Total.{oid_ranks, compare_ranks, compare_oids-ranks}
use nl.Snmp.GetNext.{get_next_bindings_for_request}
use nl.Snmp.GetNext.Skips.{AllAnswer, get_next_bindings-AllAnswer}
use nl.Snmp.Bulk.{non_repeater, clamp_bulk_walk, get_bulk_bindings}
use nl.Snmp.Bulk.Layout.{rows, get_bulk_bindings-rows}

abbrev contact : Bytes
contact = dot ∷ dotted (1 ∷ 3 ∷ 6 ∷ 1 ∷ 2 ∷ 1 ∷ 1 ∷ 4 ∷ 0 ∷ [])

abbrev services : Bytes
services = dot ∷ dotted (1 ∷ 3 ∷ 6 ∷ 1 ∷ 2 ∷ 1 ∷ 1 ∷ 7 ∷ 0 ∷ [])

abbrev seventy_two : Bytes
seventy_two = 55 ∷ 50 ∷ []

-- .1.3.6.1.2.1.2.2.1.10.1
abbrev octets : Bytes
octets = dot ∷ dotted (1 ∷ 3 ∷ 6 ∷ 1 ∷ 2 ∷ 1 ∷ 2 ∷ 2 ∷ 1 ∷ 10 ∷ 1 ∷ [])

abbrev cpu_load : Bytes
cpu_load = dot ∷ dotted (1 ∷ 3 ∷ 6 ∷ 1 ∷ 4 ∷ 1 ∷ 9 ∷ 1 ∷ [])

abbrev chassis : Bytes
chassis = dot ∷ dotted (1 ∷ 0 ∷ 8802 ∷ 1 ∷ 1 ∷ 2 ∷ 1 ∷ [])

abbrev next_octets : Bytes → Entry
next_octets c = if oid_le octets c then no_entry else (octets, 49 ∷ [])

abbrev counter : IfCounterCycler
counter = record {
  rows = true;
  first_dyn_oid = octets;
  last_dyn_oid = octets;
  next_dynamic_oid = next_octets;
  get_dynamic = λ o. [];
}

abbrev mib : MibView
mib = record {
  oid_index = λ o.
      if bytes_eq o contact
      then some []
      else if bytes_eq o services
      then some seventy_two
      else none;
  oid_next_map = λ o. if bytes_eq o contact then some services else none;
  sorted_oids = contact ∷ services ∷ [];
  sorted_metric_oids = cpu_load ∷ [];
  metrics = some (λ o. 57 ∷ []);
  if_counters = some counter;
  sys_name = 110 ∷ [];
  sys_location = 108 ∷ [];
  lldp_served = (chassis, 99 ∷ []) ∷ [];
  lldp_get = λ o. [];
}

name-behind-contact : oid_le sys_name_oid contact ≡ false
unfolding oid_le oid_compare compare_oids next new_oid_cursor trim_dot dotted join_dots itoa decimal
name-behind-contact = refl

services-behind-name : oid_le services sys_name_oid ≡ false
unfolding oid_le oid_compare compare_oids next new_oid_cursor trim_dot dotted join_dots itoa decimal
services-behind-name = refl

-- Behind the static OIDs come the counter and then the metric.
counter_next : (find_next_oid_with_served mib services).0 ≡ octets
unfolding find_next_oid_with_served precomputed candidates static_candidate metric_candidate better
    least_candidate metrics_clear if_cycler_clear lldp_clear lldp_next_from_served search_after
    bytes_eq dotted join_dots itoa decimal oid_le oid_lt oid_compare compare_oids next
    new_oid_cursor trim_dot
counter_next = refl

-- The walk goes past sysName.0, which this device has.
sys_name_skipped : (find_next_oid_with_served mib contact).0 ≡ services
unfolding find_next_oid_with_served precomputed metrics_clear if_cycler_clear lldp_clear
    lldp_next_from_served search_after bytes_eq dotted join_dots itoa decimal oid_le oid_lt
    oid_compare compare_oids next new_oid_cursor trim_dot
sys_name_skipped = refl

get_bulk_bindings-rows_example :
    get_bulk_bindings mib 548 1 2 (contact ∷ contact ∷ [])
    ≡ map (non_repeater mib) (take 1 (contact ∷ contact ∷ []))
      ++ rows mib 0
          (clamp_bulk_walk 548 2 (length (drop 1 (contact ∷ contact ∷ []))))
          (drop 1 (contact ∷ contact ∷ []))
get_bulk_bindings-rows_example = get_bulk_bindings-rows mib 548 1 2 (contact ∷ contact ∷ [])

get_next_bindings-AllAnswer_example :
    AllAnswer [] mib
      (contact ∷ services ∷ [])
      (get_next_bindings_for_request [] mib (pos 0) 5 (contact ∷ services ∷ []))
get_next_bindings-AllAnswer_example =
    get_next_bindings-AllAnswer [] mib (pos 0) 5 (contact ∷ services ∷ []) refl

compare_oids-ranks_example :
    compare_oids contact services ≡ some (compare_ranks (oid_ranks contact) (oid_ranks services))
compare_oids-ranks_example = compare_oids-ranks contact services
