-- ===== src/IpAlloc/Hosts.antt =====
-- The next host is the first assignable address, in any netmask that the program accepts.
use nl.Prelude.{
  ℕ, ◌+◌, ◌-◌, ◌%◌, ◌^◌, ◌≤◌, ◌<◌, ◌≡◌, refl, true, false, Bool-cases, inl, inr, ◌⊎◌, arith,
}
use nl.Prelude.Bytes.{Bytes}
use nl.Prelude.Go.{Returns}
use native.Mathlib.Decide.{dec_lt}
use nl.IpAlloc.{parse_prefix, assignable_host, skip_reserved, next_host}

-- `m` is `k` addresses on, is assignable, and nothing in between is.
pub record FirstHost (n hosts m : ℕ) : Type 0 where
  pub k : ℕ
  pub near : (0 < k) × (k ≤ 3)
  pub ahead : m ≡ (n + k) % 2 ^ 32
  pub assignable : assignable_host m hosts ≡ true
  pub first : (j : ℕ) → 0 < j → j < k → assignable_host ((n + j) % 2 ^ 32) hosts ≡ false

parse_prefix-cases :
    (netmask : Bytes)
    → (parse_prefix netmask ≡ 8) ⊎ ((parse_prefix netmask ≡ 16) ⊎ (parse_prefix netmask ≡ 24))
unfolding parse_prefix
parse_prefix-cases netmask = ground arith

-- Three addresses are enough where one of any three in a row is assignable.
skip_reserved-FirstHost :
    (n hosts : ℕ)
    → (assignable_host ((n + 1) % 2 ^ 32) hosts ≡ false
        → assignable_host ((n + 2) % 2 ^ 32) hosts ≡ false
        → assignable_host ((n + 3) % 2 ^ 32) hosts ≡ true)
    → Returns (skip_reserved 3 ((n + 1) % 2 ^ 32) hosts) (FirstHost n hosts)
unfolding skip_reserved
skip_reserved-FirstHost n hosts three =
    let two : ((n + 1) % 2 ^ 32 + 1) % 2 ^ 32 ≡ (n + 2) % 2 ^ 32 = omega arith in
    let more : ((n + 2) % 2 ^ 32 + 1) % 2 ^ 32 ≡ (n + 3) % 2 ^ 32 = omega arith in
    elim (Bool-cases (assignable_host ((n + 1) % 2 ^ 32) hosts)) [
      | inl a ↦ rw a (record {
        k = 1;
        near = (omega arith, omega arith);
        ahead = refl;
        assignable = a;
        first = λ j lo hi. absurd (omega arith);
      })
      | inr a ↦ rw a (
          rw two (elim (Bool-cases (assignable_host ((n + 2) % 2 ^ 32) hosts)) [
            | inl b ↦ rw b (record {
              k = 2;
              near = (omega arith, omega arith);
              ahead = refl;
              assignable = b;
              first = λ j lo hi. (let q : j ≡ 1 = omega arith in rw q a);
            })
            | inr b ↦ rw b (
                rw more (
                  rw (three a b) (record {
                    k = 3;
                    near = (omega arith, omega arith);
                    ahead = refl;
                    assignable = three a b;
                    first = λ j lo hi. elim (dec_lt j 2) [
                      | yes l ↦ (let q : j ≡ 1 = omega arith in rw q a)
                      | no g ↦ (let q : j ≡ 2 = omega arith in rw q b)
                    ];
                  })))
          ]))
    ]

-- For every netmask string and every address: `nextHost` returns, and its result is the first
-- address after it, at most three on and around the end of the address space, that is neither the
-- network nor the broadcast address of its subnet.
pub next_host-FirstHost :
    (n : ℕ) (netmask : Bytes)
    → Returns (next_host n (parse_prefix netmask)) (FirstHost n (2 ^ (32 - parse_prefix netmask)))
unfolding next_host
next_host-FirstHost n netmask = elim (parse_prefix-cases netmask) [
  | inl e ↦ rw e (skip_reserved-FirstHost n (2 ^ 24) (λ a b. ground arith))
  | inr (inl e) ↦ rw e (skip_reserved-FirstHost n (2 ^ 16) (λ a b. ground arith))
  | inr (inr e) ↦ rw e (skip_reserved-FirstHost n (2 ^ 8) (λ a b. ground arith))
]
