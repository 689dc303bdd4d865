-- ===== src/Storage.antt =====
-- src/storage: the log files of the partitions.
pub mod FileSystem
pub mod LogFiles
pub mod LogParser
