-- ===== src/Tests/Threads.antt =====
-- Threads of the broker, one of which handles a Produce.
use codecrafters_kafka_cpp.Common.{
  ◌≡◌, refl, ◌∙◌, [], ◌∷◌, ◌++◌, false, some, be_bytes, le_bytes, ok, arith,
}
use codecrafters_kafka_cpp.Core.Wire.{
  varint_bytes, groups, array_bytes, items_bytes, string_bytes, nullable_bytes, tag_buffer_bytes,
}
use codecrafters_kafka_cpp.Storage.LogParser.Batches.{batch_bytes, log_of}
use codecrafters_kafka_cpp.Api.Registry.{produce, to_underlying, get_request_header_version}
use codecrafters_kafka_cpp.Api.Dto.Produce.{deserialize_produce}
use codecrafters_kafka_cpp.Api.Dto.Produce.Decode.{
  produce_bytes, produce_topic_bytes, produce_partition_bytes, Decodes-produce,
}
use codecrafters_kafka_cpp.Api.Dto.Request.Decode.{header_bytes}
use codecrafters_kafka_cpp.Api.Dto.Response.{Response}
use codecrafters_kafka_cpp.Api.Handler.{World, connected, waiting, print}
use codecrafters_kafka_cpp.Api.Router.{route, main_router}
use codecrafters_kafka_cpp.Api.Router.Answers.{parse_body-layout}
use codecrafters_kafka_cpp.Api.ClientSession.Rounds.{request_bytes, request_of}
use codecrafters_kafka_cpp.Api.Program.{pure}
use codecrafters_kafka_cpp.Api.Program.Answers.{Answers, Answered}
use codecrafters_kafka_cpp.Api.Program.Controller.{handle_produce}
use codecrafters_kafka_cpp.Api.Program.Pipeline.{route_main}
use codecrafters_kafka_cpp.Api.Program.Produce.{handle_produce-Amid}
use codecrafters_kafka_cpp.Api.Program.Refines.{route_main-run}
use codecrafters_kafka_cpp.Api.Program.Rules.{Ensured}
use codecrafters_kafka_cpp.Broker.{Broker, metadata_of}
use codecrafters_kafka_cpp.Broker.Threads.{
  waits, works, Threads, running, advance, waited, accepted, Reach, here, later, at_heads,
}
use codecrafters_kafka_cpp.Broker.Threads.Arrives.{advance-arrives}
use codecrafters_kafka_cpp.Broker.Threads.Middle.{middle_step, finished-Reach}
use codecrafters_kafka_cpp.Broker.Threads.Rounds.{Reach-in_threads}
use codecrafters_kafka_cpp.Broker.Threads.Keeps.{Arrival}
use codecrafters_kafka_cpp.Broker.Threads.Invariant.{Reach-Extends_amid, Reach-Answered}
use codecrafters_kafka_cpp.Tests.Data.{
  memory, memory-IsReliable, no_files, foo, foo_topic, foo_cache,
}
use codecrafters_kafka_cpp.Tests.Sessions.{wire}
use codecrafters_kafka_cpp.Tests.Visible.{produce_two, produce_two-FitsProduce, produce_two_size}
use codecrafters_kafka_cpp.Tests.Answers.{request_for, empty_disk}
use codecrafters_kafka_cpp.Tests.Brokers.{at_start, after_answer, reached, started, disk}
use codecrafters_kafka_cpp.Tests.Logs.{batch_at}
use codecrafters_kafka_cpp.Metadata.Cache.{get_topic_by_name, find}
use codecrafters_kafka_cpp.Api.Controller.Produce.{Knows}
use codecrafters_kafka_cpp.Api.Router.Extends.{Extends}
use codecrafters_kafka_cpp.Api.ClientSession.Asks.{produces}
use codecrafters_kafka_cpp.Tests.EndToEnd.{
  asks_to_produce, foo-Lists, produce_exchange, produce_exchange-FitsExchange,
}

handle_produce-Amid_example :
    Ensured memory foo_cache ⊥
      (handle_produce foo_cache (request_for produce (produce_bytes [] produce_two)))
      (Answers memory foo_cache produce
        (request_for produce (produce_bytes [] produce_two))
        no_files)
      no_files
handle_produce-Amid_example =
    handle_produce-Amid memory-IsReliable foo_cache
      (request_for produce (produce_bytes [] produce_two)) produce_two no_files
      (parse_body-layout deserialize_produce
        (Decodes-produce [] (omega arith) tt produce_two produce_two-FitsProduce)
        (rw produce_two_size (omega arith)))

-- The client of the Produce is accepted, by a broker whose only file is the metadata log.
abbrev opened : Broker memory wire
opened = record { cache = foo_cache; world = empty_disk; clients = [] }

-- The console when the client has its thread.
abbrev entry : World memory
entry = print connected (print waiting empty_disk)

abbrev before_request : wire.State
before_request = (be_bytes 4 60 ++ request_bytes produce_exchange, [])

abbrev in_work : Response → World memory → Threads memory wire
in_work response w = record {
  cache = foo_cache;
  world = w;
  threads = works ([], []) (request_of produce_exchange) (pure response) ∷ [];
  accepting = false;
}

request_arrives :
    advance memory wire foo_cache entry (waits before_request)
    ≡ ok (
      entry,
      some (
          works
            ([], [])
            (request_of produce_exchange)
            (route_main foo_cache (request_of produce_exchange))),
    )
unfolding header_bytes produce_bytes produce_topic_bytes produce_partition_bytes array_bytes
    items_bytes varint_bytes groups be_bytes le_bytes tag_buffer_bytes string_bytes nullable_bytes
    log_of batch_bytes to_underlying get_request_header_version
request_arrives =
    advance-arrives memory wire foo_cache entry produce_exchange before_request
      (request_bytes produce_exchange, []) ([], []) produce_exchange-FitsExchange.header
      produce_exchange-FitsExchange.client produce_exchange-FitsExchange.request refl refl

foo-Knows : Knows foo_cache foo 0
unfolding get_topic_by_name find
foo-Knows = (foo_topic, refl, foo-Lists)

-- What the router answers, and the world that it leaves.
answered :
    (w : World memory) × (route (main_router memory foo_cache) (request_of produce_exchange) entry
      ≡ ok (produce_exchange.response, w))
answered =
    let (w, e, grown) =
      produces memory-IsReliable foo_cache produce_exchange foo 0
        (log_of (batch_at 0 ∷ batch_at 3 ∷ [])) entry produce_exchange-FitsExchange asks_to_produce
        foo-Knows in
    (w, e)

at_response :
    Reach memory wire
      (at_heads memory wire opened)
      (running (in_work produce_exchange.response answered.0))
at_response =
    let t₀ : Threads memory wire = at_heads memory wire opened in
    finished-Reach t₀ foo_cache [] [] ([], []) (request_of produce_exchange)
      (route_main foo_cache (request_of produce_exchange)) produce_exchange.response entry
      answered.0 (route_main-run memory foo_cache (request_of produce_exchange) entry ∙ answered.1)
      (middle_step t₀ foo_cache [] [] entry (waits before_request) _ request_arrives
        (later (later here (waited refl)) (accepted before_request refl)))

Reach-Answered_example :
    (e : Threads memory wire) × Arrival
      (at_heads memory wire opened)
      e
      (in_work produce_exchange.response answered.0)
      ([], [])
      (request_of produce_exchange)
    × Answered memory foo_cache
        (request_of produce_exchange)
        e.world.files
        produce_exchange.response
        answered.0.files
Reach-Answered_example =
    Reach-Answered wire opened (in_work produce_exchange.response answered.0) [] [] ([], [])
      (request_of produce_exchange) produce_exchange.response memory-IsReliable at_response refl

Reach-Extends_amid_example :
    (metadata_of memory disk ≡ ok after_answer.cache)
    × Extends memory after_answer.cache disk after_answer.world.files
Reach-Extends_amid_example =
    Reach-Extends_amid wire disk at_start (at_heads memory wire after_answer) memory-IsReliable
      started (Reach-in_threads at_start reached)
