-- ===== src/Tests/Unwritten.antt =====
-- A disk that cannot be written.
use codecrafters_kafka_cpp.Common.{
  ◌≡◌, refl, [], ◌∷◌, true, none, some, length, be_bytes, le_bytes, ok, arith,
}
use codecrafters_kafka_cpp.Core.Wire.{
  varint_bytes, groups, array_bytes, items_bytes, string_bytes, nullable_bytes, tag_buffer_bytes,
}
use codecrafters_kafka_cpp.Storage.FileSystem.{FileSystem}
use codecrafters_kafka_cpp.Metadata.Cache.{get_topic_by_name, get_partitions, find}
use codecrafters_kafka_cpp.Api.Registry.{produce}
use codecrafters_kafka_cpp.Api.Dto.Produce.{ProduceRequest, deserialize_produce}
use codecrafters_kafka_cpp.Api.Dto.Produce.Decode.{
  produce_bytes, produce_topic_bytes, produce_partition_bytes, FitsProduce, Decodes-produce,
}
use codecrafters_kafka_cpp.Api.Handler.{World}
use codecrafters_kafka_cpp.Api.Controller.{handle_produce, has_partition}
use codecrafters_kafka_cpp.Api.Controller.Visible.{accepted_response}
use codecrafters_kafka_cpp.Api.Controller.Unwritten.{handle_produce-unwritten}
use codecrafters_kafka_cpp.Api.Router.Answers.{parse_body-layout}
use codecrafters_kafka_cpp.Tests.Data.{memory, foo, foo_id, foo_topic, foo_cache}
use codecrafters_kafka_cpp.Tests.Answers.{request_for}

abbrev write_protected : FileSystem
write_protected = record memory { append_file = λ path bytes s. none }

abbrev nothing : World write_protected
nothing = record { files = λ path. none; console = [] }

abbrev produce_one : ProduceRequest
produce_one = record {
  transactional_id = none;
  acks = 1;
  timeout_ms = 1500;
  topics =
      record { name = foo; partitions = record { index = 1; records = some (1 ∷ 2 ∷ []) } ∷ [] }
      ∷ [];
}

produce_one-FitsProduce : FitsProduce produce_one
produce_one-FitsProduce = record {
  transactional_id = tt;
  acks = omega arith;
  timeout_ms = omega arith;
  count = omega arith;
  topics = (
    record {
      name = omega arith;
      count = omega arith;
      partitions = (record { index = omega arith; records = omega arith }, tt);
    },
    tt,
  );
}

produce_one_size : length (produce_bytes [] produce_one) ≡ 23
unfolding produce_bytes produce_topic_bytes produce_partition_bytes array_bytes items_bytes
    varint_bytes groups be_bytes le_bytes tag_buffer_bytes string_bytes nullable_bytes
produce_one_size = refl

foo_by_name : get_topic_by_name foo foo_cache ≡ some foo_topic
unfolding get_topic_by_name find
foo_by_name = refl

foo-has : has_partition 1 (get_partitions foo_id foo_cache) ≡ true
unfolding has_partition get_partitions find
foo-has = refl

handle_produce-unwritten_example :
    handle_produce write_protected foo_cache
      (request_for produce (produce_bytes [] produce_one))
      nothing
    ≡ ok (accepted_response (request_for produce (produce_bytes [] produce_one)) foo 1, nothing)
handle_produce-unwritten_example =
    handle_produce-unwritten write_protected foo_cache
      (request_for produce (produce_bytes [] produce_one)) produce_one foo_topic foo 1 1 (2 ∷ [])
      nothing nothing.files nothing.files
      (parse_body-layout deserialize_produce
        (Decodes-produce [] (omega arith) tt produce_one produce_one-FitsProduce)
        (rw produce_one_size (omega arith)))
      refl foo_by_name foo-has refl refl
