-- ===== src/Json.antt =====
-- kernel/vds_parser: the JSON parser.
pub mod Tree
pub mod Parser
