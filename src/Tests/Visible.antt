-- ===== src/Tests/Visible.antt =====
-- A Produce of one batch, and a Fetch that finds it.
use codecrafters_kafka_cpp.Common.{
  ◌≡◌, refl, [], ◌∷◌, true, length, none, some, Bytes, be_bytes, le_bytes, ok, arith,
}
use codecrafters_kafka_cpp.Core.Wire.{
  varint_bytes, groups, array_bytes, items_bytes, string_bytes, nullable_bytes, tag_buffer_bytes,
}
use codecrafters_kafka_cpp.Metadata.Cache.{find, get_partitions}
use codecrafters_kafka_cpp.Storage.LogParser.Batches.{batch_bytes, log_of}
use codecrafters_kafka_cpp.Storage.LogParser.Extract.{from_offset}
use codecrafters_kafka_cpp.Api.Registry.{fetch, produce}
use codecrafters_kafka_cpp.Api.Dto.Fetch.{deserialize_fetch}
use codecrafters_kafka_cpp.Api.Dto.Fetch.Decode.{fetch_bytes, Decodes-fetch}
use codecrafters_kafka_cpp.Api.Dto.Produce.{ProduceRequest, deserialize_produce}
use codecrafters_kafka_cpp.Api.Dto.Produce.Decode.{
  produce_bytes, produce_topic_bytes, produce_partition_bytes, FitsProduce, Decodes-produce,
}
use codecrafters_kafka_cpp.Api.Handler.{World}
use codecrafters_kafka_cpp.Api.Controller.{handle_fetch_partitions, handle_produce, has_partition}
use codecrafters_kafka_cpp.Api.Controller.Visible.{
  records_response, accepted_response, handle_fetch_partitions-handle_produce,
}
use codecrafters_kafka_cpp.Api.Router.Answers.{parse_body-layout}
use codecrafters_kafka_cpp.Tests.Data.{memory, memory-IsReliable, foo, foo_id, foo_topic, foo_cache}
use codecrafters_kafka_cpp.Tests.Topics.{foo_cache-IsConsistent, foo_by_id}
use codecrafters_kafka_cpp.Tests.Logs.{batch_at, batch_at-0, batch_at-3}
use codecrafters_kafka_cpp.Tests.Requests.{fetch_foo, fetch_foo-FitsFetch}
use codecrafters_kafka_cpp.Tests.Answers.{request_for, empty_disk, fetch_foo_size}

-- Two batches, at the offsets 0 and 3, for the partition 0 of "foo".
abbrev two_batches : Bytes
two_batches = log_of (batch_at 0 ∷ batch_at 3 ∷ [])

abbrev pub produce_two : ProduceRequest
produce_two = record {
  transactional_id = none;
  acks = 1;
  timeout_ms = 1500;
  topics =
      record { name = foo; partitions = record { index = 0; records = some two_batches } ∷ [] }
      ∷ [];
}

two_batches_size : length two_batches ≡ 28
unfolding log_of batch_bytes be_bytes le_bytes
two_batches_size = refl

pub produce_two-FitsProduce : FitsProduce produce_two
produce_two-FitsProduce = record {
  transactional_id = tt;
  acks = omega arith;
  timeout_ms = omega arith;
  count = omega arith;
  topics = (
    record {
      name = omega arith;
      count = omega arith;
      partitions =
          (record { index = omega arith; records = rw two_batches_size (omega arith) }, tt);
    },
    tt,
  );
}

pub produce_two_size : length (produce_bytes [] produce_two) ≡ 49
unfolding produce_bytes produce_topic_bytes produce_partition_bytes array_bytes items_bytes
    varint_bytes groups be_bytes le_bytes tag_buffer_bytes string_bytes nullable_bytes log_of
    batch_bytes
produce_two_size = refl

foo-listed : has_partition 0 (get_partitions foo_id foo_cache) ≡ true
unfolding has_partition get_partitions find
foo-listed = refl

-- Fetched from the offset 2 on, the second batch comes back.
handle_fetch_partitions-handle_produce_example :
    (w' : World memory) × (handle_produce memory foo_cache
        (request_for produce (produce_bytes [] produce_two))
        empty_disk
      ≡ ok (accepted_response (request_for produce (produce_bytes [] produce_two)) foo 0, w'))
    × (handle_fetch_partitions memory foo_cache (request_for fetch (fetch_bytes fetch_foo)) w'
        ≡ ok (
          records_response
              (request_for fetch (fetch_bytes fetch_foo))
              foo_id
              0
              (log_of (from_offset 2 (batch_at 0 ∷ batch_at 3 ∷ []))),
          w',
        ))
unfolding log_of batch_bytes be_bytes le_bytes
handle_fetch_partitions-handle_produce_example =
    handle_fetch_partitions-handle_produce memory-IsReliable foo_cache
      (request_for produce (produce_bytes [] produce_two))
      (request_for fetch (fetch_bytes fetch_foo)) produce_two fetch_foo
      (record {
        index = 0;
        current_leader_epoch = 0;
        fetch_offset = 2;
        last_fetched_epoch = 0;
        log_start_offset = 0;
        partition_max_bytes = 1048576;
      })
      foo_topic foo_id [] (batch_at 0 ∷ batch_at 3 ∷ []) empty_disk foo_cache-IsConsistent
      (parse_body-layout deserialize_produce
        (Decodes-produce [] (omega arith) tt produce_two produce_two-FitsProduce)
        (rw produce_two_size (omega arith)))
      refl
      (parse_body-layout deserialize_fetch (Decodes-fetch fetch_foo fetch_foo-FitsFetch)
        (rw fetch_foo_size (omega arith)))
      refl foo_by_id foo-listed refl (batch_at-0, (batch_at-3, tt)) (omega arith)
