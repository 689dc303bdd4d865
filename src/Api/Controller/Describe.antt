-- ===== src/Api/Controller/Describe.antt =====
-- What DescribeTopicPartitions answers.
use mathlib.Core.List.{Perm}
use mathlib.Core.List.Perm
use codecrafters_kafka_cpp.Common.{
  ◌≡◌, refl, ◌⊎◌, inl, inr, List, [], ◌∷◌, map, Pairs, Pairs-map, ◌-◌, ◌^◌, true, false, Bool-cases,
  none, some, Option-cases, Bytes, ok, arith,
}
use codecrafters_kafka_cpp.Metadata.Topic.{TopicRecord}
use codecrafters_kafka_cpp.Metadata.Cache.{MetadataCache, get_topic_by_name, get_partitions}
use codecrafters_kafka_cpp.Api.Dto.Describe.{
  DescribeTopicRequest, DescribeRequest, DescribeTopicResponse, deserialize_describe,
}
use codecrafters_kafka_cpp.Api.Dto.Request.{Request}
use codecrafters_kafka_cpp.Api.Dto.Response
use codecrafters_kafka_cpp.Api.Controller.{
  parse_body, describe_partition, zero_id, describe_found, describe_topic, bytes_lt, insert_by_name,
  sort_by_name, handle_describe_topic_partitions,
}

bytes_lt-asymm : (xs ys : Bytes) → bytes_lt xs ys ≡ true → bytes_lt ys xs ≡ false
unfolding bytes_lt
bytes_lt-asymm [] [] h = refl
bytes_lt-asymm [] (y ∷ ys) h = refl
bytes_lt-asymm (x ∷ xs) [] h = cc
bytes_lt-asymm (x ∷ xs) (y ∷ ys) h = ground (arith, bytes_lt-asymm xs ys)

-- No name is below the one in front of it.
abbrev pub IsSorted : List DescribeTopicResponse → Type 0
IsSorted [] = Unit {0}
IsSorted (t ∷ []) = Unit {0}
IsSorted (t ∷ u ∷ us) = (bytes_lt u.name t.name ≡ false) × IsSorted (u ∷ us)

-- The head of a list that `insert_by_name` has made is the new topic or the old head.
insert-IsSorted_behind :
    (t u : DescribeTopicResponse) (us : List DescribeTopicResponse)
    → bytes_lt u.name t.name ≡ true
    → IsSorted (u ∷ us)
    → IsSorted (insert_by_name t us)
    → IsSorted (u ∷ insert_by_name t us)
unfolding insert_by_name
insert-IsSorted_behind t u [] lt s r = (bytes_lt-asymm u.name t.name lt, tt)
insert-IsSorted_behind t u (v ∷ vs) lt s r = elim (Bool-cases (bytes_lt v.name t.name)) [
  | inl later ↦ rw later (s.0, rw later at r)
  | inr here ↦ rw here (bytes_lt-asymm u.name t.name lt, rw here at r)
]

tail-IsSorted :
    (u : DescribeTopicResponse) (us : List DescribeTopicResponse) → IsSorted (u ∷ us) → IsSorted us
tail-IsSorted u [] s = tt
tail-IsSorted u (v ∷ vs) s = s.1

insert_by_name-IsSorted :
    (t : DescribeTopicResponse) (us : List DescribeTopicResponse)
    → IsSorted us
    → IsSorted (insert_by_name t us)
unfolding insert_by_name
insert_by_name-IsSorted t [] s = tt
insert_by_name-IsSorted t (u ∷ us) s = elim (Bool-cases (bytes_lt u.name t.name)) [
  | inl later ↦
      rw later (
        insert-IsSorted_behind t u us later s (insert_by_name-IsSorted t us (tail-IsSorted u us s)))
  | inr here ↦ rw here (here, s)
]

sort_by_name-IsSorted : (ts : List DescribeTopicResponse) → IsSorted (sort_by_name ts)
unfolding sort_by_name
sort_by_name-IsSorted [] = tt
sort_by_name-IsSorted (t ∷ ts) =
    insert_by_name-IsSorted t (sort_by_name ts) (sort_by_name-IsSorted ts)

insert_by_name-perm :
    (t : DescribeTopicResponse) (us : List DescribeTopicResponse)
    → Perm (insert_by_name t us) (t ∷ us)
unfolding insert_by_name
insert_by_name-perm t [] = Perm.refl (t ∷ [])
insert_by_name-perm t (u ∷ us) = elim (Bool-cases (bytes_lt u.name t.name)) [
  | inl later ↦ rw later (Perm.trans (Perm.cons u (insert_by_name-perm t us)) (Perm.swap t u us))
  | inr here ↦ rw here (Perm.refl (t ∷ u ∷ us))
]

sort_by_name-perm : (ts : List DescribeTopicResponse) → Perm (sort_by_name ts) ts
unfolding sort_by_name
sort_by_name-perm [] = Perm.refl []
sort_by_name-perm (t ∷ ts) =
    Perm.trans (insert_by_name-perm t (sort_by_name ts)) (Perm.cons t (sort_by_name-perm ts))

-- What the answer to one topic has to be: for a name that the cache has, its identifier and one
-- partition for each that the cache lists, in its order, without an error; for any other name the
-- error 3, the zero identifier and no partition.
abbrev pub Describes : MetadataCache → DescribeTopicRequest → DescribeTopicResponse → Type 0
Describes cache req t =
    (t.name ≡ req.name)
    × (t.is_internal ≡ false)
    × (((record_ : TopicRecord) × (get_topic_by_name req.name cache ≡ some record_)
          × (t.error_code ≡ 0)
          × (t.topic_id ≡ record_.topic_id)
          × (t.partitions ≡ map describe_partition (get_partitions record_.topic_id cache)))
        ⊎ ((get_topic_by_name req.name cache ≡ none)
            × (t.error_code ≡ 3)
            × (t.topic_id ≡ zero_id)
            × (t.partitions ≡ [])))

describe_topic-Describes :
    (cache : MetadataCache) (req : DescribeTopicRequest)
    → Describes cache req (describe_topic cache req)
unfolding describe_topic describe_found
describe_topic-Describes cache req = elim (Option-cases (get_topic_by_name req.name cache)) [
  | inl missing ↦ rw missing (refl, refl, inr (refl, refl, refl, refl))
  | inr (r, found) ↦ rw found (refl, refl, inl (r, refl, refl, refl, refl))
]

-- A request whose body is read as `req` is answered, with its correlation identifier, by one topic
-- for each topic asked for, sorted by name.
pub handle_describe_topic_partitions-answers :
    (cache : MetadataCache) (request : Request) (req : DescribeRequest)
    → parse_body deserialize_describe request.body ≡ ok req
    → (topics answers : List DescribeTopicResponse) × (handle_describe_topic_partitions cache
          request
        ≡ ok (record {
          correlation_id = request.header.correlation_id;
          body =
              Response.ResponseBody.describe
                (record { throttle_time_ms = 0; topics = topics; next_cursor = 2 ^ 8 - 1 });
        }))
      × Pairs (Describes cache) req.topics answers
      × Perm topics answers
      × IsSorted topics
unfolding handle_describe_topic_partitions
handle_describe_topic_partitions-answers cache request req e =
    let answers = map (describe_topic cache) req.topics in
    (
      sort_by_name answers,
      answers,
      rw e,
      Pairs-map (Describes cache) (describe_topic cache) (describe_topic-Describes cache)
          req.topics,
      sort_by_name-perm answers,
      sort_by_name-IsSorted answers,
    )
