-- ===== src/Cache.antt =====
-- cache.go: the attribute cache and the directory cache, over one LRU map.
pub mod Lru
pub mod ChildOf
pub mod Attr
pub mod Dir
