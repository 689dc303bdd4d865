-- ===== src/Api/Dto/Describe/Decode.antt =====
-- A DescribeTopicPartitions request of version 0 as the protocol lays it out, and what the broker reads
-- of it.
use codecrafters_kafka_cpp.Common.{
  ℕ, ◌+◌, ◌<◌, ◌^◌, ◌≡◌, refl, ap, ◌∙◌, Option, none, some, [], ◌∷◌, ◌++◌, append_assoc, length,
  length-append, All, All-imp, Bytes, be_bytes, length-be_bytes, ok, arith,
}
use codecrafters_kafka_cpp.Core.Wire.{FitsLength, string_bytes, array_bytes}
use codecrafters_kafka_cpp.Core.Reader.Decodes.{
  Decodes, Decodes-bind, Decodes-last, Decodes-pure, Decodes-skip,
}
use codecrafters_kafka_cpp.Core.Reader.Primitives.{Decodes-string, Decodes-array}
use codecrafters_kafka_cpp.Api.Dto.Describe.{
  DescribeTopicRequest, DescribeRequest, deserialize_describe_topic, deserialize_describe,
}

unfoldable pub describe_topic_bytes : DescribeTopicRequest → Bytes
describe_topic_bytes topic = string_bytes topic.name ++ 0 ∷ []

-- What the protocol has behind the topics and the broker does not know: how many partitions the response
-- may have, and the topic and the partition to go on from, which may be null.
pub record Page : Type 0 where
  pub response_partition_limit : ℕ
  pub cursor : Option (Bytes × ℕ)

-- -1 for null; else 1, the topic, the partition and an empty tag buffer.
abbrev pub cursor_bytes : Option (Bytes × ℕ) → Bytes
cursor_bytes none = 255 ∷ []
cursor_bytes (some (name, index)) = 1 ∷ (string_bytes name ++ (be_bytes 4 index ++ 0 ∷ []))

unfoldable pub page_bytes : Page → Bytes
page_bytes page = be_bytes 4 page.response_partition_limit ++ (cursor_bytes page.cursor ++ 0 ∷ [])

unfoldable pub describe_bytes : DescribeRequest → Page → Bytes
describe_bytes req page = array_bytes describe_topic_bytes req.topics ++ page_bytes page

pub record FitsDescribe (req : DescribeRequest) : Type 0 where
  pub count : FitsLength (length req.topics)
  pub names : All (λ topic. FitsLength (length topic.name)) req.topics

Decodes-describe_topic :
    (topic : DescribeTopicRequest)
    → FitsLength (length topic.name)
    → Decodes deserialize_describe_topic (describe_topic_bytes topic) topic
unfolding deserialize_describe_topic describe_topic_bytes
Decodes-describe_topic topic h =
    Decodes-bind _ _ topic.name (Decodes-string topic.name h)
      (Decodes-last _ _ tt (Decodes-skip (0 ∷ [])) (Decodes-pure topic))

-- The topics and any one byte behind them.
Decodes-topics :
    (req : DescribeRequest) (b : ℕ)
    → FitsDescribe req
    → Decodes deserialize_describe (array_bytes describe_topic_bytes req.topics ++ b ∷ []) req
unfolding deserialize_describe
Decodes-topics req b h =
    Decodes-bind _ _ req.topics
      (Decodes-array deserialize_describe_topic describe_topic_bytes req.topics h.count
        (All-imp Decodes-describe_topic req.topics h.names))
      (Decodes-last _ _ tt (Decodes-skip (b ∷ [])) (Decodes-pure req))

first_and_rest : (xs : Bytes) → 0 < length xs → (b : ℕ) × (bs : Bytes) × (xs ≡ b ∷ bs)
first_and_rest [] h = elim h [ ]
first_and_rest (b ∷ bs) h = (b, bs, refl)

page_bytes-cons : (page : Page) → (b : ℕ) × (bs : Bytes) × (page_bytes page ≡ b ∷ bs)
unfolding page_bytes
page_bytes-cons page =
    let limit = page.response_partition_limit in
    first_and_rest (page_bytes page) (
      omega (
        arith,
        length-be_bytes 4 limit,
        length-append (be_bytes 4 limit) (cursor_bytes page.cursor ++ 0 ∷ []),
      ))

topics_then :
    (req : DescribeRequest) (b : ℕ) (bs before after : Bytes)
    → FitsDescribe req
    → length before + length (array_bytes describe_topic_bytes req.topics ++ b ∷ bs) + length after
      < 2 ^ 64
    → deserialize_describe
        (before ++ ((array_bytes describe_topic_bytes req.topics ++ b ∷ bs) ++ after))
        (length before)
      ≡ ok (req, length before + length (array_bytes describe_topic_bytes req.topics) + 1)
topics_then req b bs before after h small =
    let topics = array_bytes describe_topic_bytes req.topics in
    let read = (Decodes-topics req b h).run before (bs ++ after) (
      omega (
        arith,
        length-append topics (b ∷ []),
        length-append topics (b ∷ bs),
        length-append bs after,
      )) in
    let there : deserialize_describe (before ++ ((topics ++ b ∷ bs) ++ after)) (length before)
        ≡ ok (req, length before + length (topics ++ b ∷ [])) =
      rw (append_assoc topics (b ∷ bs) after)
        (rw (append_assoc topics (b ∷ []) (bs ++ after)) at read) in
    there
    ∙ ap (λ (n : ℕ). ok (req, n)) {x = length before + length (topics ++ b ∷ [])}
        (omega (arith, length-append topics (b ∷ [])))

-- Wherever the layout of a request whose topics fit stands in a span shorter than 2 ^ 64, whatever its
-- partition limit and its cursor are, the broker reads its topics. It then stops one byte behind them,
-- within the partition limit: the rest of the limit, the cursor and the tag buffer stay unread.
pub deserialize_describe-describe_bytes :
    (req : DescribeRequest) (page : Page) (before after : Bytes)
    → FitsDescribe req
    → length before + length (describe_bytes req page) + length after < 2 ^ 64
    → deserialize_describe (before ++ (describe_bytes req page ++ after)) (length before)
      ≡ ok (req, length before + length (array_bytes describe_topic_bytes req.topics) + 1)
unfolding describe_bytes
deserialize_describe-describe_bytes req page before after h small =
    let (b, bs, split) = page_bytes-cons page in
    rw split (topics_then req b bs before after h (rw split at small))
