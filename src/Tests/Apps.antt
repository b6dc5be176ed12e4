-- ===== src/Tests/Apps.antt =====
-- The application ledger of go/nl6/scenario_ledger.go on the records of one application.
use nl.Prelude.{
  get_or, replicate, subst, sym, ◌≡◌, ◌<◌, ◌^◌, ℕ, true, some, List, [], ◌∷◌, refl,
  get_or-replicate, arith,
}
use nl.Flow.{FlowRecord}
use nl.Scenario.Gate.{scenario_sub_window_count}
use nl.Scenario.Apps.{AvcApplication, AppKey, AppLedger, no_app, app_key_eq, at_key, add_app_batch}
use nl.Scenario.Apps.Totals.{IsFitting, Totals, add_app_batch-Totals}

abbrev web : List AvcApplication
web = record { id = 452; hosts = (119 ∷ 119 ∷ []) ∷ []; uris = [] } ∷ []

abbrev web_flow : ℕ → FlowRecord
web_flow octets = record {
  src_ip = 10 ∷ 0 ∷ 0 ∷ 1 ∷ [];
  dst_ip = 10 ∷ 0 ∷ 0 ∷ 2 ∷ [];
  next_hop = [];
  src_port = 1000;
  dst_port = 443;
  protocol = 6;
  tcp_flags = 2;
  tos = 0;
  bytes = octets;
  packets = 1;
  start_ms = 0;
  end_ms = 0;
  in_iface = 1;
  out_iface = 2;
  src_as = 0;
  dst_as = 0;
  src_mask = 24;
  dst_mask = 24;
  avc = record { app = 1; host = 1; uri = 0 };
}

abbrev web_key : AppKey
web_key = record { proto = 6; dst_port = 443; app_id = 452 }

abbrev empty_ledger : AppLedger
empty_ledger = record { apps = []; l7 = [] }

empty_ledger-IsFitting :
    IsFitting (some web) true (some 3) (at_key app_key_eq no_app web_key empty_ledger.apps)
unfolding at_key
empty_ledger-IsFitting = record {
  records = omega arith;
  bytes = omega arith;
  packets = omega arith;
  inside = omega arith;
  sub_windows = refl;
  sub_window = λ w.
      let e : get_or (replicate scenario_sub_window_count 0) w 0 ≡ 0 =
        get_or-replicate scenario_sub_window_count w 0 in
      subst (λ (n : ℕ). n < 2 ^ 64) (sym e) (omega arith);
}

add_app_batch-Totals_example :
    Totals
      (some web)
      true
      (some 3)
      web_key
      (at_key app_key_eq no_app web_key empty_ledger.apps)
      (web_flow 1500 ∷ web_flow 40 ∷ [])
      (at_key app_key_eq no_app web_key
        (add_app_batch
          (some web)
          true
          (some 3)
          empty_ledger
          (web_flow 1500 ∷ web_flow 40 ∷ [])).apps)
add_app_batch-Totals_example =
    add_app_batch-Totals (some web) true (some 3) empty_ledger (web_flow 1500 ∷ web_flow 40 ∷ [])
      web_key (omega arith) empty_ledger-IsFitting
