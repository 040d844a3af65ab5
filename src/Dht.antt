-- ===== src/Dht.antt =====
-- libs_server/vds_dht_network: the distributed hash table.
pub mod ObjectId
pub mod Route
pub mod Protocol
pub mod Channel
