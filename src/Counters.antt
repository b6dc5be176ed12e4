-- ===== src/Counters.antt =====
-- The hold of an interface's octet counters while it is not up: go/nl6/if_counter_hold.go.
pub mod Hold
