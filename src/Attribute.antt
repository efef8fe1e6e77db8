-- ===== src/Attribute.antt =====
-- internal/attribute/attribute.go: what a packet proves about which nodes. Keys and hops are texts
-- of lower-case hex digits, and their length in Go is the length of the list.
pub mod Index
pub mod Evidence
