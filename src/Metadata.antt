-- ===== src/Metadata.antt =====
-- src/metadata: the cluster's topics and partitions, read from the metadata log at the start.
pub mod Topic
pub mod Cache
pub mod Parser
