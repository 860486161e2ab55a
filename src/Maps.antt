-- ===== src/Maps.antt =====
-- bpfmap/: the maps that an eBPF program and the controller share.
pub mod Attr
pub mod ArrayMap
pub mod Ght
pub mod HashMap
pub mod Registry
pub mod Tests
