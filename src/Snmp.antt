-- ===== src/Snmp.antt =====
-- The SNMP agent: go/nl6/snmp_encoding.go and the request parsers of go/nl6/snmp_handlers.go.
pub mod Length
pub mod Integer
pub mod Tlv
pub mod Oid
pub mod Varbinds
pub mod Set
pub mod Value
pub mod Response
pub mod Request
pub mod Walk
pub mod GetNext
pub mod Bulk
pub mod Server
