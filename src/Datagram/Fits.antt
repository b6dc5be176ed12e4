-- ===== src/Datagram/Fits.antt =====
-- A response within the budget of an MTU makes a datagram within that MTU.
use nl.Prelude.{
  ℕ, ◌+◌, ◌≤◌, ◌<◌, ◌≡◌, ◌⊎◌, refl, subst, ◌||◌, Bool-cases, inl, inr, Option, none, some, List,
  ltb, length, arith,
}
use nl.Prelude.Bytes.{Bytes}
use nl.Datagram.{
  DatagramBudgets, set_link_mtu, recompute_datagram_budgets, ipv4_header_bytes, ipv6_header_bytes,
  udp_header_bytes,
}
use nl.Snmp.Value.{OidTypeEntry}
use nl.Snmp.Response.{SnmpRequest, overflow_too_big, bounded_response}
use nl.Snmp.Response.Budget.{message_size}
use nl.Snmp.Response.Bound.{length-bounded_response}

-- Every payload budget, with its headers, is exactly the MTU.
pub record Exact (mtu : ℕ) (b : DatagramBudgets) : Type 0 where
  pub mtu_is : b.link_mtu ≡ mtu
  pub accepted_range : (576 ≤ mtu) × (mtu ≤ 65535)
  pub flow_ipv4 : b.max_flow_payload_ipv4 + ipv4_header_bytes + udp_header_bytes ≡ mtu
  pub flow_ipv6 : b.max_flow_payload_ipv6 + ipv6_header_bytes + udp_header_bytes ≡ mtu
  pub buffer : b.flow_buf_size ≡ mtu
  pub trap : b.max_trap_pdu + ipv4_header_bytes + udp_header_bytes ≡ mtu
  pub snmp : b.max_snmp_response_size + ipv4_header_bytes + udp_header_bytes ≡ mtu

-- An MTU that is refused is out of range.
abbrev pub Result : ℕ → Option DatagramBudgets → Type 0
Result mtu none = (mtu < 576) ⊎ (65535 < mtu)
Result mtu (some b) = Exact mtu b

-- `SetLinkMTU` refuses exactly an MTU outside 576 to 65535, and otherwise every budget, with the
-- headers of its datagrams, is exactly the MTU.
pub set_link_mtu-Result : (mtu : ℕ) (old : DatagramBudgets) → Result mtu (set_link_mtu mtu old)
unfolding set_link_mtu recompute_datagram_budgets
set_link_mtu-Result mtu old = elim (Bool-cases (ltb mtu 576 || ltb 65535 mtu)) [
  | inl bad ↦ rw bad (elim (Bool-cases (ltb mtu 576)) [
    | inl low ↦ inl (ground arith)
    | inr high ↦ inr (ground arith)
  ])
  | inr good ↦
      let lo : 576 ≤ mtu = ground arith in
      let hi : mtu ≤ 65535 = ground arith in
      rw good (record {
        mtu_is = refl;
        accepted_range = (lo, hi);
        flow_ipv4 = omega arith;
        flow_ipv6 = omega arith;
        buffer = refl;
        trap = omega arith;
        snmp = omega arith;
      })
]

-- After `SetLinkMTU` has accepted an MTU, and for a request whose response without bindings fits
-- the budget, a response under `overflowTooBig` with its IP and UDP headers fits the MTU.
pub bounded_response_fits_mtu :
    (to4 : Bytes → Option Bytes) (table : List OidTypeEntry) (mtu : ℕ) (old b : DatagramBudgets)
    (req : SnmpRequest) (bindings : List Bytes)
    → set_link_mtu mtu old ≡ some b
    → message_size to4 table b.max_snmp_response_size req 0 ≤ b.max_snmp_response_size
    → length (bounded_response to4 table b.max_snmp_response_size req overflow_too_big bindings)
        + ipv4_header_bytes
        + udp_header_bytes
      ≤ mtu
bounded_response_fits_mtu to4 table mtu old b req bindings set fits =
    let x : Exact mtu b = subst (Result mtu) set (set_link_mtu-Result mtu old) in
    let budget = x.snmp in
    let (lo, hi) = x.accepted_range in
    let l =
      length-bounded_response to4 table b.max_snmp_response_size req (omega arith) bindings fits in
    omega arith
