-- ===== src/Api/Controller/Ends.antt =====
-- On which files a Fetch is answered.
use codecrafters_kafka_cpp.Common.{ℕ, ◌^◌, ◌<◌, ◌≡◌, length, Any, some, Bytes}
use codecrafters_kafka_cpp.Metadata.Topic.{TopicRecord}
use codecrafters_kafka_cpp.Metadata.Cache.{MetadataCache, get_topic_by_id}
use codecrafters_kafka_cpp.Storage.FileSystem.{FileSystem}
use codecrafters_kafka_cpp.Storage.LogFiles.{read_log_file}
use codecrafters_kafka_cpp.Storage.LogParser.Ends.{HasBadLength}
use codecrafters_kafka_cpp.Api.Dto.Fetch.{FetchPartitionRequest, FetchTopicRequest}
use codecrafters_kafka_cpp.Api.Dto.Request.{Request}
use codecrafters_kafka_cpp.Api.Dto.Response
use codecrafters_kafka_cpp.Api.Dto.Response.{Response}
use codecrafters_kafka_cpp.Api.Handler.{World}

module _ (fs : FileSystem) (cache : MetadataCache) (w : World fs) where
  -- Every log that can be read is shorter than 2 ^ 63 bytes, as a file is.
  abbrev pub LogsAreShort : Type 0
  LogsAreShort =
      (name : Bytes) (index : ℕ) (log : Bytes)
      → read_log_file fs name index w.files ≡ some log
      → length log < 2 ^ 63

  -- The log of a partition that is asked for can be read and has a header with a bad length.
  abbrev pub HasBadLog : TopicRecord → FetchPartitionRequest → Type 0
  HasBadLog topic req =
      (log : Bytes) × (read_log_file fs topic.name req.index w.files ≡ some log) × HasBadLength log

  -- A known topic has such a partition among those asked for.
  abbrev pub AsksBadLog : FetchTopicRequest → Type 0
  AsksBadLog req =
      (topic : TopicRecord) × (get_topic_by_id req.topic_id cache ≡ some topic)
      × Any (HasBadLog topic) req.partitions
