-- ===== src/IpAlloc/Routes.antt =====
-- The routes of a batch cover every address of it.
use nl.Prelude.{
  ℕ, zero, suc, ◌+◌, ◌-◌, ◌%◌, ◌^◌, ◌≤◌, ◌<◌, ◌≡◌, false, List, ◌∷◌, ltb, leb, Bool-cases, inl, inr,
  ◌||◌, arith,
}
use native.Mathlib.Nat.{mod-lt, pow-le-pow_right}
use nl.IpAlloc.{routes_from, network_of, network_routes_between}

-- One of these networks of `hosts` addresses has the address.
pub data Covered (hosts x : ℕ) : List ℕ → Type 0 where
  by_first : {cur : ℕ} {rest : List ℕ} → cur ≤ x → x < cur + hosts → Covered hosts x (cur ∷ rest)
  by_later : {cur : ℕ} {rest : List ℕ} → Covered hosts x rest → Covered hosts x (cur ∷ rest)

module _ (last hosts x : ℕ) (some_host : 0 < hosts) (below : x < last + hosts)
    (word : x < 2 ^ 32) where
  near-Covered :
      (fuel cur : ℕ)
      → cur ≤ x
      → x < cur + hosts
      → Covered hosts x (routes_from (suc fuel) cur last hosts)
  unfolding routes_from
  near-Covered fuel cur from near =
      elim (Bool-cases (leb last cur || ltb ((cur + hosts) % 2 ^ 32) cur)) [
        | inl e ↦ rw e (by_first from near)
        | inr e ↦ rw e (by_first from near)
      ]

  routes_from-Covered :
      (fuel cur : ℕ)
      → last ≤ cur + fuel
      → cur ≤ x
      → Covered hosts x (routes_from (suc fuel) cur last hosts)
  unfolding routes_from
  routes_from-Covered zero cur enough from = near-Covered zero cur from (omega arith)
  routes_from-Covered (suc fuel) cur enough from = elim (Bool-cases (ltb x (cur + hosts))) [
    | inl near ↦ near-Covered (suc fuel) cur from (ground arith)
    | inr far ↦
        let next : (cur + hosts) % 2 ^ 32 ≡ cur + hosts = ground arith in
        let on : (leb last cur || ltb (cur + hosts) cur) ≡ false = ground arith in
        rw next
          (rw on (by_later (routes_from-Covered fuel (cur + hosts) (omega arith) (ground arith))))
  ]

-- Every address from the first to the last of a batch, in any prefix length from 1 to 32, is in one of the routes
-- that `networkRoutesBetween` gives.
pub network_routes_between-Covered :
    (start end prefix x : ℕ)
    → prefix ≤ 32
    → 0 < prefix
    → end < 2 ^ 32
    → start ≤ x
    → x ≤ end
    → Covered (2 ^ (32 - prefix)) x (network_routes_between start end prefix)
unfolding network_routes_between
network_routes_between-Covered start end prefix x le positive small lo hi =
    let hosts = 2 ^ (32 - prefix) in
    let most : hosts ≤ 2 ^ 31 =
      pow-le-pow_right {n = 2} (omega arith) {i = 32 - prefix} {j = 31} (omega arith) in
    let some_host : 0 < hosts =
      pow-le-pow_right {n = 2} (omega arith) {i = 0} {j = 32 - prefix} (omega arith) in
    let word : hosts % 2 ^ 32 ≡ hosts = omega arith in
    let valid : ltb 32 prefix ≡ false = ground arith in
    let low = mod-lt end some_host in
    rw valid (
      rw word (
        routes_from-Covered (network_of end prefix) hosts x some_host (omega arith) (omega arith)
          (network_of end prefix - network_of start prefix) (network_of start prefix) (omega arith)
          (omega arith)))
