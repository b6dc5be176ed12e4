-- ===== src/Tests/Flow.antt =====
-- The flow cache of go/nl6/flow_cache.go on two flows, and the budgets of datagram_budget.go.
use nl.Prelude.{ℕ, ◌≡◌, ◌&&◌, not, false, Bool, Option, some, List, [], ◌∷◌}
use nl.Prelude.Bytes.{Bytes}
use nl.Flow.{FlowRecord, FlowCache, new_flow_cache, add, expire}
use nl.Flow.{record_key, key_eq, flow_record_less}
use nl.Flow.Order.{Trichotomy, flow_record_less_order}
use nl.Flow.Expiry.{Expired, expire-Expired}
use nl.Flow.Cache.{Sound, adds, expires, trims, calls, new_flow_cache-Sound}

abbrev ip4 : Bytes → Option Bytes
ip4 ip = some ip

abbrev in_order : (FlowRecord → FlowRecord → Bool) → List FlowRecord → List FlowRecord
in_order less rs = rs

abbrev flow : ℕ → FlowRecord
flow port = record {
  src_ip = 10 ∷ 0 ∷ 0 ∷ 1 ∷ [];
  dst_ip = 10 ∷ 0 ∷ 0 ∷ 2 ∷ [];
  next_hop = [];
  src_port = port;
  dst_port = 443;
  protocol = 6;
  tcp_flags = 2;
  tos = 0;
  bytes = 1500;
  packets = 1;
  start_ms = 0;
  end_ms = 0;
  in_iface = 1;
  out_iface = 2;
  src_as = 0;
  dst_as = 0;
  src_mask = 24;
  dst_mask = 24;
  avc = record { app = 0; host = 0; uri = 0 };
}

abbrev cache : FlowCache
cache = add ip4 (add ip4 (new_flow_cache 60 15 8) (flow 1000) 5) (flow 1001) 12

expire-Expired_example : Expired in_order ip4 cache 21 (expire in_order ip4 cache 21)
expire-Expired_example = expire-Expired in_order ip4 cache 21

new_flow_cache-Sound_example : Sound (
    calls ip4 in_order
      (adds (flow 1000) 5 ∷ adds (flow 1000) 6 ∷ expires 21 ∷ trims 0 ∷ [])
      (new_flow_cache 60 15 8))
new_flow_cache-Sound_example =
    new_flow_cache-Sound ip4 in_order
      (adds (flow 1000) 5 ∷ adds (flow 1000) 6 ∷ expires 21 ∷ trims 0 ∷ []) 60 15 8

flow_record_less_order_example :
    Trichotomy
      (key_eq (record_key ip4 (flow 1000)) (record_key ip4 (flow 1001)))
      (flow_record_less ip4 (flow 1000) (flow 1001))
      (flow_record_less ip4 (flow 1001) (flow 1000))
    × ((flow_record_less ip4 (flow 1000) (flow 1001)
          && flow_record_less ip4 (flow 1001) (flow 1002)
          && not (flow_record_less ip4 (flow 1000) (flow 1002)))
        ≡ false)
flow_record_less_order_example = flow_record_less_order ip4 (flow 1000) (flow 1001) (flow 1002)
