-- ===== src/Kv.antt =====
-- The classes of include/nats_client/Kv.hpp: a bucket, an entry, a watcher and a list of keys.
pub mod Store
pub mod Entry
pub mod Watcher
pub mod KeysList
