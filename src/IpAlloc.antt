-- ===== src/IpAlloc.antt =====
-- The allocation of device addresses: go/nl6/ipalloc.go. An IPv4 address is the number of its four
-- octets, most significant first; a netmask string is its bytes.
pub mod Hosts
pub mod Routes
use nl.Prelude.{
  ℕ, zero, suc, ◌+◌, ◌-◌, ◌%◌, ◌^◌, Bool, true, false, not, ◌&&◌, ◌||◌, List, [], ◌∷◌, ltb, leb,
  ◌==◌, if◌then◌else◌,
}
use nl.Prelude.Bytes.{Bytes, bytes_eq}
use nl.Prelude.Go.{Go, ret, stuck}

abbrev pub default_prefix_len : ℕ
default_prefix_len = 16

-- The cases "8", "16" and "24".
unfoldable pub parse_prefix : Bytes → ℕ
parse_prefix netmask =
    if bytes_eq netmask (56 ∷ [])
    then 8
    else if bytes_eq netmask (49 ∷ 54 ∷ [])
    then 16
    else if bytes_eq netmask (50 ∷ 52 ∷ [])
    then 24
    else default_prefix_len

-- `hostMask` is `hosts - 1`, the mask of the host bits, so that `n & hostMask` is a remainder.
abbrev pub assignable_host : ℕ → ℕ → Bool
assignable_host n hosts = not (n % hosts == 0) && not (n % hosts == hosts - 1)

-- `for ; !assignableHost(n, hostMask); n++`
pub skip_reserved : ℕ → ℕ → ℕ → Go ℕ
skip_reserved zero n hosts = stuck
skip_reserved (suc rounds) n hosts =
    let more = skip_reserved rounds ((n + 1) % 2 ^ 32) hosts in
    if assignable_host n hosts then ret n else more

-- On an IPv4 address; another `net.IP` is returned as it is.
unfoldable pub next_host : ℕ → ℕ → Go ℕ
unfolding skip_reserved
next_host n prefix =
    if leb 31 prefix
    then ret ((n + 1) % 2 ^ 32)
    else skip_reserved 3 ((n + 1) % 2 ^ 32) (2 ^ (32 - prefix))

-- The loop of `networkRoutesBetween`; a route is its network address.
pub routes_from : ℕ → ℕ → ℕ → ℕ → List ℕ
routes_from zero cur last block = []
routes_from (suc fuel) cur last block =
    let more = routes_from fuel ((cur + block) % 2 ^ 32) last block in
    if leb last cur || ltb ((cur + block) % 2 ^ 32) cur then cur ∷ [] else cur ∷ more

-- `x & mask`, where the mask clears the host bits.
abbrev pub network_of : ℕ → ℕ → ℕ
network_of x prefix = x - x % 2 ^ (32 - prefix)

-- The networks of the routes, all of length `prefix`. Their distance bounds the rounds.
unfoldable pub network_routes_between : ℕ → ℕ → ℕ → List ℕ
unfolding routes_from
network_routes_between start end prefix =
    if ltb 32 prefix
    then []
    else routes_from (suc (network_of end prefix - network_of start prefix))
        (network_of start prefix) (network_of end prefix) (2 ^ (32 - prefix) % 2 ^ 32)
