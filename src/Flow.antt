-- ===== src/Flow.antt =====
-- The flow cache of a device: `Add`, `Expire` and `TrimTo` of go/nl6/flow_cache.go. The map is the
-- list of its entries in the order in which it is iterated; instants and durations are numbers of
-- nanoseconds. `to4` is the method of net.IP, and `sort` is sort.Slice, given `flowRecordLess`. The
-- random generation of flows, with its fields, is not modelled.
pub mod Expiry
pub mod Cache
pub mod Order
use nl.Prelude.{
  ℕ, zero, suc, ◌+◌, ◌-◌, ◌*◌, ◌/◌, ◌%◌, ◌^◌, Bool, true, false, not, ◌&&◌, ◌||◌, Option, none,
  some, List, [], ◌∷◌, leb, ltb, ◌==◌, if◌then◌else◌, length,
}
use nl.Prelude.Bytes.{Bytes, bytes_eq}

pub record FlowKey : Type 0 where
  pub src_ip : Bytes
  pub dst_ip : Bytes
  pub src_port : ℕ
  pub dst_port : ℕ
  pub protocol : ℕ

-- The 1-based places of a flow's application, host and URI; 0 is none.
pub record AvcRef : Type 0 where
  pub app : ℕ
  pub host : ℕ
  pub uri : ℕ

pub record FlowRecord : Type 0 where
  pub src_ip : Bytes
  pub dst_ip : Bytes
  pub next_hop : Bytes
  pub src_port : ℕ
  pub dst_port : ℕ
  pub protocol : ℕ
  pub tcp_flags : ℕ
  pub tos : ℕ
  pub bytes : ℕ
  pub packets : ℕ
  pub start_ms : ℕ
  pub end_ms : ℕ
  pub in_iface : ℕ
  pub out_iface : ℕ
  pub src_as : ℕ
  pub dst_as : ℕ
  pub src_mask : ℕ
  pub dst_mask : ℕ
  pub avc : AvcRef

pub record FlowEntry : Type 0 where
  pub flow : FlowRecord
  pub last_seen_at : ℕ
  pub active_deadline : ℕ

pub record FlowCache : Type 0 where
  pub flows : List (FlowKey × FlowEntry)
  pub active_timeout : ℕ
  pub inactive_timeout : ℕ
  pub max_flows : ℕ
  pub expired_active : ℕ
  pub expired_inactive : ℕ

unfoldable pub new_flow_cache : ℕ → ℕ → ℕ → FlowCache
new_flow_cache active_timeout inactive_timeout max_flows = record {
  flows = [];
  active_timeout = active_timeout;
  inactive_timeout = inactive_timeout;
  max_flows = max_flows;
  expired_active = 0;
  expired_inactive = 0;
}

-- An address of a key; zero where the record's is no IPv4 address.
abbrev pub key_ip : Option Bytes → Bytes
key_ip none = 0 ∷ 0 ∷ 0 ∷ 0 ∷ []
key_ip (some ip4) = ip4

unfoldable pub record_key : (Bytes → Option Bytes) → FlowRecord → FlowKey
record_key to4 r = record {
  src_ip = key_ip (to4 r.src_ip);
  dst_ip = key_ip (to4 r.dst_ip);
  src_port = r.src_port;
  dst_port = r.dst_port;
  protocol = r.protocol;
}

-- `==` of keys
unfoldable pub key_eq : FlowKey → FlowKey → Bool
key_eq a b =
    bytes_eq a.src_ip b.src_ip
    && bytes_eq a.dst_ip b.dst_ip
    && a.src_port == b.src_port
    && a.dst_port == b.dst_port
    && a.protocol == b.protocol

pub has_key : FlowKey → List (FlowKey × FlowEntry) → Bool
has_key k [] = false
has_key k ((k', e) ∷ flows) = let rest = has_key k flows in key_eq k k' || rest

-- `a | b` on numbers of `w` bits.
pub bit_or : ℕ → ℕ → ℕ → ℕ
bit_or zero a b = 0
bit_or (suc w) a b = (if a % 2 == 1 || b % 2 == 1 then 1 else 0) + 2 * bit_or w (a / 2) (b / 2)

-- What another record adds to an entry.
unfoldable pub accumulate : FlowRecord → ℕ → FlowEntry → FlowEntry
unfolding bit_or
accumulate r now e = record {
  flow = record (e.flow) {
    bytes = (e.flow.bytes + r.bytes) % 2 ^ 64;
    packets = (e.flow.packets + r.packets) % 2 ^ 32;
    tcp_flags = bit_or 8 e.flow.tcp_flags r.tcp_flags;
    end_ms = r.end_ms;
  };
  last_seen_at = now;
  active_deadline = e.active_deadline;
}

-- The entry under a key, written.
pub update :
    FlowKey → (FlowEntry → FlowEntry) → List (FlowKey × FlowEntry) → List (FlowKey × FlowEntry)
update k f [] = []
update k f ((k', e) ∷ flows) =
    let rest = update k f flows in if key_eq k k' then (k', f e) ∷ flows else (k', e) ∷ rest

unfoldable pub add : (Bytes → Option Bytes) → FlowCache → FlowRecord → ℕ → FlowCache
unfolding has_key update
add to4 fc r now =
    let key = record_key to4 r in
    let entry : FlowEntry = record {
      flow = r;
      last_seen_at = now;
      active_deadline = now + fc.active_timeout;
    } in
    if has_key key fc.flows
    then record fc { flows = update key (accumulate r now) fc.flows }
    else if leb fc.max_flows (length fc.flows)
    then fc
    else record fc { flows = (key, entry) ∷ fc.flows }

-- `!now.Before(e.activeDeadline)`
abbrev pub by_active : ℕ → FlowEntry → Bool
by_active now e = leb e.active_deadline now

-- `now.Sub(e.lastSeenAt) >= fc.inactiveTimeout`
abbrev pub by_inactive : ℕ → ℕ → FlowEntry → Bool
by_inactive timeout now e = leb (e.last_seen_at + timeout) now

-- The loop of `Expire`: the flows that stay, the records, and the two counts.
pub expire_loop :
    ℕ → ℕ → List (FlowKey × FlowEntry) → List (FlowKey × FlowEntry) × List FlowRecord × ℕ × ℕ
expire_loop timeout now [] = ([], [], 0, 0)
expire_loop timeout now ((k, e) ∷ flows) =
    let (kept, expired, active, inactive) = expire_loop timeout now flows in
    if not (by_active now e) && not (by_inactive timeout now e)
    then ((k, e) ∷ kept, expired, active, inactive)
    else if by_active now e
    then (kept, e.flow ∷ expired, active + 1, inactive)
    else (kept, e.flow ∷ expired, active, inactive + 1)

-- `bytes.Compare(a, b)`: whether it is below 0, given that it is not 0.
pub bytes_less : Bytes → Bytes → Bool
bytes_less [] [] = false
bytes_less [] (b ∷ bs) = true
bytes_less (a ∷ bs') [] = false
bytes_less (a ∷ bs') (b ∷ bs) = let rest = bytes_less bs' bs in if a == b then rest else ltb a b

unfoldable pub key_less : FlowKey → FlowKey → Bool
unfolding bytes_less
key_less a b =
    if not (bytes_eq a.src_ip b.src_ip)
    then bytes_less a.src_ip b.src_ip
    else if not (bytes_eq a.dst_ip b.dst_ip)
    then bytes_less a.dst_ip b.dst_ip
    else if not (a.src_port == b.src_port)
    then ltb a.src_port b.src_port
    else if not (a.dst_port == b.dst_port)
    then ltb a.dst_port b.dst_port
    else ltb a.protocol b.protocol

unfoldable pub flow_record_less : (Bytes → Option Bytes) → FlowRecord → FlowRecord → Bool
flow_record_less to4 a b = key_less (record_key to4 a) (record_key to4 b)

unfoldable pub expire :
    ((FlowRecord → FlowRecord → Bool) → List FlowRecord → List FlowRecord)
    → (Bytes → Option Bytes)
    → FlowCache
    → ℕ
    → FlowCache × List FlowRecord
unfolding expire_loop
expire sort to4 fc now =
    let (kept, expired, active, inactive) = expire_loop fc.inactive_timeout now fc.flows in
    (
      record fc {
        flows = kept;
        expired_active = (fc.expired_active + active) % 2 ^ 64;
        expired_inactive = (fc.expired_inactive + inactive) % 2 ^ 64;
      },
      sort (flow_record_less to4) expired,
    )

-- The loop of `TrimTo` over the keys that are left.
pub trim_loop : ℕ → List (FlowKey × FlowEntry) → List (FlowKey × FlowEntry) × ℕ
trim_loop target [] = ([], 0)
trim_loop target (f ∷ flows) =
    let (kept, dropped) = trim_loop target flows in
    if leb (length (f ∷ flows)) target then (f ∷ flows, 0) else (kept, dropped + 1)

-- A negative target is 0.
unfoldable pub trim_to : FlowCache → ℕ → FlowCache × ℕ
unfolding trim_loop
trim_to fc target =
    let (kept, dropped) = trim_loop target fc.flows in (record fc { flows = kept }, dropped)
