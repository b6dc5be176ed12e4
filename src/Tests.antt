-- ===== src/Tests.antt =====
-- Runs of the modelled code on small inputs, and the properties applied to concrete ones.
mod Snmp
mod Interface
mod Scenario
mod Counters
mod IpAlloc
mod Netconf
mod Agent
mod Flow
mod Walk
mod Topology
mod Apps
