-- ===== src/Api/Router.antt =====
-- src/api/router.cpp and router.hpp, and the pipeline that src/main.cpp builds.
pub mod Pipeline
pub mod Answers
pub mod Moves
pub mod Safety
pub mod Extends
use mathlib.Core.List.{foldl, reverse}
use codecrafters_kafka_cpp.Common.{List, [], ◌∷◌, ◌++◌}
use codecrafters_kafka_cpp.Storage.FileSystem.{FileSystem}
use codecrafters_kafka_cpp.Metadata.Cache.{MetadataCache}
use codecrafters_kafka_cpp.Api.Dto.Response.{Response}
use codecrafters_kafka_cpp.Api.Handler.{M, HandlerFunc, MiddlewareFunc}
use codecrafters_kafka_cpp.Api.Controller.{handle}
use codecrafters_kafka_cpp.Api.Middleware.{version_validator_middleware, logging_middleware}

module _ (fs : FileSystem) where
  pub record KafkaRouterBuilder : Type 0 where
    pub middlewares : List (MiddlewareFunc fs)
    pub controller : HandlerFunc fs

  pub record KafkaRouter : Type 0 where
    pub compiled_pipeline : HandlerFunc fs

module _ {fs : FileSystem} where
  unfoldable pub with_middleware : MiddlewareFunc fs → KafkaRouterBuilder fs → KafkaRouterBuilder fs
  with_middleware mw builder = record builder { middlewares = builder.middlewares ++ mw ∷ [] }

  -- One round of the loop from `rbegin` to `rend`.
  abbrev pub wrap : HandlerFunc fs → MiddlewareFunc fs → HandlerFunc fs
  wrap current_node current_mw req = current_mw req current_node

  unfoldable pub build : KafkaRouterBuilder fs → KafkaRouter fs
  build builder = record {
    compiled_pipeline = foldl wrap builder.controller (reverse builder.middlewares);
  }

  -- `KafkaRouter::handle`
  unfoldable pub route : KafkaRouter fs → HandlerFunc fs
  route router request = router.compiled_pipeline request

-- The router of `main`.
unfoldable pub main_router : (fs : FileSystem) → MetadataCache → KafkaRouter fs
unfolding build with_middleware
main_router fs cache = build (
    with_middleware logging_middleware (
      with_middleware version_validator_middleware
        (record { middlewares = []; controller = handle fs cache })))
