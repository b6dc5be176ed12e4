-- ===== src/Scenario/Apps.antt =====
-- The application ledger: `addAppBatch` and `addL7` of go/nl6/scenario_ledger.go, with `App` of
-- ipfix_avc.go. A map is its entries in the order in which they were made; a missing key reads as
-- the zero counters, and a sum is one of uint64. Each method holds `appMu`, so it is one step.
pub mod Totals
use nl.Prelude.{
  ℕ, zero, suc, ◌+◌, ◌-◌, ◌^◌, ◌%◌, Bool, true, false, ◌&&◌, ◌||◌, Option, none, some, List, [],
  ◌∷◌, ltb, leb, ◌==◌, if◌then◌else◌, length, get_elem?, get_or, set, replicate,
}
use nl.Prelude.Bytes.{Bytes, bytes_eq}
use nl.Flow.{FlowRecord}
use nl.Scenario.Gate.{scenario_sub_window_count}

pub record AvcApplication : Type 0 where
  pub id : ℕ
  pub hosts : List Bytes
  pub uris : List Bytes

-- The application at a 1-based place.
unfoldable pub app_at : List AvcApplication → ℕ → Option AvcApplication
app_at apps idx = if idx == 0 || ltb (length apps) idx then none else get_elem? apps (idx - 1)

pub record AppKey : Type 0 where
  pub proto : ℕ
  pub dst_port : ℕ
  pub app_id : ℕ

pub data L7Field : Type 0 where
  http_host : L7Field
  http_uri : L7Field

pub record L7Key : Type 0 where
  pub app_id : ℕ
  pub l7_field : L7Field
  pub value : Bytes

pub record L7Counters : Type 0 where
  pub records : ℕ
  pub bytes : ℕ
  pub packets : ℕ
  pub in_window_bytes : ℕ

pub record AppCounters : Type 0 where
  pub records : ℕ
  pub bytes : ℕ
  pub packets : ℕ
  pub in_window_bytes : ℕ
  pub sub_window_bytes : List ℕ

abbrev pub no_l7 : L7Counters
no_l7 = record { records = 0; bytes = 0; packets = 0; in_window_bytes = 0 }

abbrev pub no_app : AppCounters
no_app = record {
  records = 0;
  bytes = 0;
  packets = 0;
  in_window_bytes = 0;
  sub_window_bytes = replicate scenario_sub_window_count 0;
}

-- `a += b` on uint64.
abbrev pub plus64 : ℕ → ℕ → ℕ
plus64 a b = (a + b) % 2 ^ 64

abbrev pub field_eq : L7Field → L7Field → Bool
field_eq http_host http_host = true
field_eq http_uri http_uri = true
field_eq _ _ = false

unfoldable pub app_key_eq : AppKey → AppKey → Bool
app_key_eq j k = j.proto == k.proto && j.dst_port == k.dst_port && j.app_id == k.app_id

unfoldable pub l7_key_eq : L7Key → L7Key → Bool
l7_key_eq j k = j.app_id == k.app_id && field_eq j.l7_field k.l7_field && bytes_eq j.value k.value

-- `c := m[k]; if c == nil { ... }; *c = f(*c)` on a map of counters.
module _ {ℓ κ} {K : Type ℓ} {C : Type κ} (eq : K → K → Bool) (empty : C) where
  pub count_in : (C → C) → K → List (K × C) → List (K × C)
  count_in f k [] = (k, f empty) ∷ []
  count_in f k ((j, c) ∷ rest) =
      let behind = count_in f k rest in if eq j k then (j, f c) ∷ rest else (j, c) ∷ behind

  -- The counters at a key.
  unfoldable pub at_key : K → List (K × C) → C
  at_key k [] = empty
  at_key k ((j, c) ∷ rest) = let behind = at_key k rest in if eq j k then c else behind

-- `c.subWindowBytes[subIdx] += r.Bytes` unless the index is negative, which is none; an index is one
-- that `subWindowIndex` returned, below the count of the sub-windows.
abbrev pub count_sub_window : Option ℕ → ℕ → List ℕ → List ℕ
count_sub_window none bytes windows = windows
count_sub_window (some i) bytes windows = set windows i (plus64 (get_or windows i 0) bytes)

unfoldable pub count_app : Bool → Option ℕ → FlowRecord → AppCounters → AppCounters
count_app in_window sub_idx r c = record {
  records = plus64 c.records 1;
  bytes = plus64 c.bytes r.bytes;
  packets = plus64 c.packets r.packets;
  in_window_bytes = if in_window then plus64 c.in_window_bytes r.bytes else c.in_window_bytes;
  sub_window_bytes = count_sub_window sub_idx r.bytes c.sub_window_bytes;
}

unfoldable pub count_l7 : Bool → FlowRecord → L7Counters → L7Counters
count_l7 in_window r c = record {
  records = plus64 c.records 1;
  bytes = plus64 c.bytes r.bytes;
  packets = plus64 c.packets r.packets;
  in_window_bytes = if in_window then plus64 c.in_window_bytes r.bytes else c.in_window_bytes;
}

pub record AppLedger : Type 0 where
  pub apps : List (AppKey × AppCounters)
  pub l7 : List (L7Key × L7Counters)

abbrev pub app_in : Option (List AvcApplication) → FlowRecord → Option AvcApplication
app_in none r = none
app_in (some apps) r = app_at apps r.avc.app

abbrev pub id_of : Option AvcApplication → ℕ
id_of none = 0
id_of (some app) = app.id

unfoldable pub app_key_of : Option (List AvcApplication) → FlowRecord → AppKey
app_key_of cat r = record {
  proto = r.protocol;
  dst_port = r.dst_port;
  app_id = id_of (app_in cat r);
}

unfoldable pub add_l7 :
    L7Key → FlowRecord → Bool → List (L7Key × L7Counters) → List (L7Key × L7Counters)
unfolding count_in
add_l7 k r in_window l7 = count_in l7_key_eq no_l7 (count_l7 in_window r) k l7

-- `if h > 0 && h <= len(values)`
abbrev pub add_l7_at :
    L7Field
    → AvcApplication
    → List Bytes
    → ℕ
    → FlowRecord
    → Bool
    → List (L7Key × L7Counters)
    → List (L7Key × L7Counters)
add_l7_at field app values h r in_window l7 =
    if ltb 0 h && leb h (length values)
    then add_l7 (record { app_id = app.id; l7_field = field; value = get_or values (h - 1) [] }) r
        in_window l7
    else l7

abbrev pub add_fields :
    Option AvcApplication
    → FlowRecord
    → Bool
    → List (L7Key × L7Counters)
    → List (L7Key × L7Counters)
add_fields none r in_window l7 = l7
add_fields (some app) r in_window l7 =
    add_l7_at http_uri app app.uris r.avc.uri r in_window
      (add_l7_at http_host app app.hosts r.avc.host r in_window l7)

module _ (cat : Option (List AvcApplication)) (in_window : Bool) (sub_idx : Option ℕ) where
  unfoldable pub add_app_record : AppLedger → FlowRecord → AppLedger
  unfolding count_in
  add_app_record l r = record {
    apps = count_in app_key_eq no_app (count_app in_window sub_idx r) (app_key_of cat r) l.apps;
    l7 = add_fields (app_in cat r) r in_window l.l7;
  }

  unfoldable pub add_app_batch : AppLedger → List FlowRecord → AppLedger
  add_app_batch l [] = l
  add_app_batch l (r ∷ batch) = add_app_batch (add_app_record l r) batch
