-- ===== src/Interface.antt =====
-- The interface state engine: go/nl6/interface_state.go.
pub mod Word
pub mod State
pub mod Mutate
pub mod Broadcast
