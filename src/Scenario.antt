-- ===== src/Scenario.antt =====
-- Load-test scenarios: the lifecycle phases, the gate on each fire, the ledger and the drain
-- barrier (go/nl6/scenario_controller.go, scenario_gate.go, scenario_ledger.go, scenario_drain.go).
pub mod Phase
pub mod Gate
pub mod Fire
pub mod Claim
pub mod Apps
