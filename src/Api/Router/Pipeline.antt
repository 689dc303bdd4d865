-- ===== src/Api/Router/Pipeline.antt =====
-- The order of the middlewares, and what the pipeline of `main` does with a request.
use mathlib.Core.List.{foldl, foldr, reverse, reverse-append}
use codecrafters_kafka_cpp.Common.{
  ℕ, ◌≡◌, refl, ap, ◌∙◌, List, [], ◌∷◌, ◌++◌, true, false, Outcome, ok, throws, invalid_argument,
}
use codecrafters_kafka_cpp.Storage.FileSystem.{FileSystem}
use codecrafters_kafka_cpp.Metadata.Cache.{MetadataCache}
use codecrafters_kafka_cpp.Api.Registry.{
  ApiKey, produce, fetch, api_versions, describe_topic_partitions, other,
}
use codecrafters_kafka_cpp.Api.Dto.ApiVersions.{is_supported_version}
use codecrafters_kafka_cpp.Api.Dto.ApiVersions.{ApiVersionsResponse}
use codecrafters_kafka_cpp.Api.Dto.Describe.{DescribeResponse}
use codecrafters_kafka_cpp.Api.Dto.Fetch.{FetchResponse}
use codecrafters_kafka_cpp.Api.Dto.Request.{Request}
use codecrafters_kafka_cpp.Api.Dto.Response
use codecrafters_kafka_cpp.Api.Dto.Response.{Response, ResponseBody}
use codecrafters_kafka_cpp.Api.Handler.{World, HandlerFunc, MiddlewareFunc, print, rejected}
use codecrafters_kafka_cpp.Api.Controller.{handle}
use codecrafters_kafka_cpp.Api.Middleware.{version_validator_middleware, logging_middleware, reject}
use codecrafters_kafka_cpp.Api.Router.{
  KafkaRouterBuilder, with_middleware, wrap, build, route, main_router,
}

foldl-append :
    {A B : Type 0} (f : B → A → B) (b : B) (xs ys : List A)
    → foldl f b (xs ++ ys) ≡ foldl f (foldl f b xs) ys
foldl-append f b [] ys = refl
foldl-append f b (x ∷ xs) ys = foldl-append f (f b x) xs ys

module _ {fs : FileSystem} where
  foldl-wrap :
      (controller : HandlerFunc fs) (mws : List (MiddlewareFunc fs))
      → foldl wrap controller (reverse mws)
        ≡ foldr (λ mw next request. mw request next) controller mws
  foldl-wrap controller [] = refl
  foldl-wrap controller (mw ∷ mws) =
      ap (foldl wrap controller) (reverse-append (mw ∷ []) mws)
      ∙ foldl-append wrap controller (reverse mws) (mw ∷ [])
      ∙ ap (λ (node : HandlerFunc fs). wrap node mw) (foldl-wrap controller mws)

  -- The compiled pipeline calls the middlewares in the order in which they were added, each with the
  -- rest of the pipeline as its next handler, and the controller last.
  pub build-foldr :
      (builder : KafkaRouterBuilder fs)
      → (build builder).compiled_pipeline
        ≡ foldr (λ mw next request. mw request next) builder.controller builder.middlewares
  unfolding build
  build-foldr builder = foldl-wrap builder.controller builder.middlewares

module _ (fs : FileSystem) (cache : MetadataCache) (request : Request) (w : World fs) where
  pub route-main :
      route (main_router fs cache) request w
      ≡ version_validator_middleware request (λ req. logging_middleware req (handle fs cache)) w
  unfolding route main_router build with_middleware
  route-main = refl

  -- What a request with a supported version goes through: the log around the controller, and nothing
  -- of the version check shows.
  pub main_router-supported :
      is_supported_version request.header.api request.header.version ≡ true
      → route (main_router fs cache) request w ≡ logging_middleware request (handle fs cache) w
  main_router-supported h = route-main ∙ unfold version_validator_middleware in rw h

-- What becomes of a request whose version is refused, by its key.
abbrev pub IsRejection :
    {fs : FileSystem} → ApiKey → ℕ → World fs → Outcome (Response × World fs) → Type 0
IsRejection {fs} api_versions id w out =
    (body : ApiVersionsResponse) × (out
      ≡ ok (
        record { correlation_id = id; body = Response.ResponseBody.api_versions body },
        print rejected w,
      ))
    × (body.error_code ≡ 35)
    × (body.keys ≡ [])
IsRejection {fs} describe_topic_partitions id w out =
    (body : DescribeResponse) × (out
      ≡ ok (
        record { correlation_id = id; body = Response.ResponseBody.describe body },
        print rejected w,
      ))
    × (body.topics ≡ [])
IsRejection {fs} fetch id w out =
    (body : FetchResponse) × (out
      ≡ ok (
        record { correlation_id = id; body = Response.ResponseBody.fetch body },
        print rejected w,
      ))
    × (body.error_code ≡ 35)
    × (body.responses ≡ [])
IsRejection {fs} produce id w out = out ≡ throws invalid_argument
IsRejection {fs} (other raw) id w out = out ≡ throws invalid_argument

reject-IsRejection :
    {fs : FileSystem} (key : ApiKey) (id : ℕ) (w : World fs)
    → IsRejection key id w (reject key id (print rejected w))
unfolding reject
reject-IsRejection api_versions id w = (_, refl, refl, refl)
reject-IsRejection describe_topic_partitions id w = (_, refl, refl)
reject-IsRejection fetch id w = (_, refl, refl, refl)
reject-IsRejection produce id w = refl
reject-IsRejection (other raw) id w = refl

-- A request with a version that is not supported never reaches the log or the controller: the answer
-- echoes its identifier and carries error 35 for ApiVersions and Fetch, no topic for
-- DescribeTopicPartitions, and one line is printed; for Produce and unknown keys an exception is
-- thrown.
pub main_router-rejects :
    (fs : FileSystem) (cache : MetadataCache) (request : Request) (w : World fs)
    → is_supported_version request.header.api request.header.version ≡ false
    → IsRejection request.header.api request.header.correlation_id w
        (route (main_router fs cache) request w)
unfolding version_validator_middleware
main_router-rejects fs cache request w h =
    rw (route-main fs cache request w, h)
      (reject-IsRejection request.header.api request.header.correlation_id w)
