-- ===== src/Datagram.antt =====
-- The datagram budgets of go/nl6/datagram_budget.go: one path MTU, set once, and the ceilings that
-- are computed from it. An error of `SetLinkMTU` is none.
pub mod Fits
use nl.Prelude.{ℕ, ◌-◌, ◌||◌, Option, none, some, ltb, if◌then◌else◌}

abbrev pub default_link_mtu : ℕ
default_link_mtu = 1500

abbrev pub min_link_mtu : ℕ
min_link_mtu = 576

abbrev pub udp_header_bytes : ℕ
udp_header_bytes = 8

abbrev pub ipv4_header_bytes : ℕ
ipv4_header_bytes = 20

abbrev pub ipv6_header_bytes : ℕ
ipv6_header_bytes = 40

-- The package's variables.
pub record DatagramBudgets : Type 0 where
  pub link_mtu : ℕ
  pub max_flow_payload_ipv4 : ℕ
  pub max_flow_payload_ipv6 : ℕ
  pub flow_buf_size : ℕ
  pub max_trap_pdu : ℕ
  pub max_snmp_response_size : ℕ

unfoldable pub recompute_datagram_budgets : DatagramBudgets → DatagramBudgets
recompute_datagram_budgets b = record b {
  max_flow_payload_ipv4 = b.link_mtu - ipv4_header_bytes - udp_header_bytes;
  max_flow_payload_ipv6 = b.link_mtu - ipv6_header_bytes - udp_header_bytes;
  flow_buf_size = b.link_mtu;
  max_trap_pdu = b.link_mtu - ipv4_header_bytes - udp_header_bytes;
  max_snmp_response_size = b.link_mtu - ipv4_header_bytes - udp_header_bytes;
}

unfoldable pub set_link_mtu : ℕ → DatagramBudgets → Option DatagramBudgets
set_link_mtu mtu b =
    if ltb mtu min_link_mtu || ltb 65535 mtu
    then none
    else some (recompute_datagram_budgets (record b { link_mtu = mtu }))
