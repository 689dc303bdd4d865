-- ===== src/Api/Router/Moves.antt =====
-- How the files move under the pipeline of `main`: a relation between the files before and after that
-- is reflexive and transitive holds of an answer, if it holds of the handler.
use codecrafters_kafka_cpp.Common.{
  ℕ, ◌≡◌, refl, List, [], ◌∷◌, Bool-cases, inl, inr, Bytes, invalid_argument,
}
use codecrafters_kafka_cpp.Common.Returns.{Returns, returned, threw, Returns-bind_if, Returns-imp}
use codecrafters_kafka_cpp.Storage.FileSystem.{FileSystem}
use codecrafters_kafka_cpp.Metadata.Cache.{MetadataCache}
use codecrafters_kafka_cpp.Api.Registry.{
  ApiKey, produce, fetch, api_versions, describe_topic_partitions, other,
}
use codecrafters_kafka_cpp.Api.Dto.ApiVersions.{is_supported_version}
use codecrafters_kafka_cpp.Api.Dto.Request.{Request}
use codecrafters_kafka_cpp.Api.Handler.{World, M, rejected, incoming, print, for_each}
use codecrafters_kafka_cpp.Api.Controller.{handle, dispatch}
use codecrafters_kafka_cpp.Api.Middleware.{
  version_validator_middleware, logging_middleware, reject, dump_body, get_api_name,
}
use codecrafters_kafka_cpp.Api.Router.Pipeline.{route-main}
use codecrafters_kafka_cpp.Api.Router.{route, main_router}

pub dump_body-files :
    {fs : FileSystem} (body : Bytes) (w : World fs) → (dump_body body w).files ≡ w.files
unfolding dump_body print
dump_body-files [] w = refl
dump_body-files (b ∷ bs) w = refl

module _ {fs : FileSystem} (R : fs.State → fs.State → Type 0) (stays : (s : fs.State) → R s s)
    (goes_on : (s t u : fs.State) → R s t → R t u → R s u) where
  abbrev pub Moves : {A : Type 0} → World fs → A × World fs → Type 0
  Moves w (a, w') = R w.files w'.files

  pub for_each-Moves :
      {A B : Type 0} (f : A → M fs B)
      → ((a : A) (w : World fs) → Returns (Moves w) (f a w))
      → (as' : List A) (w : World fs) → Returns (Moves w) (for_each f as' w)
  unfolding for_each
  for_each-Moves f h [] w = returned _ (stays w.files)
  for_each-Moves f h (a ∷ as') w =
      Returns-bind_if (Moves w) (Moves w) (f a w) _ (h a w) (λ (b, v) e.
        Returns-bind_if (Moves v) (Moves w) (for_each f as' v) _ (for_each-Moves f h as' v)
          (λ (bs, u) e'. returned _ (goes_on w.files v.files u.files e e')))

  reject-Moves : (key : ApiKey) (id : ℕ) (w : World fs) → Returns (Moves w) (reject key id w)
  unfolding reject
  reject-Moves api_versions id w = returned _ (stays w.files)
  reject-Moves describe_topic_partitions id w = returned _ (stays w.files)
  reject-Moves fetch id w = returned _ (stays w.files)
  reject-Moves produce id w = threw invalid_argument
  reject-Moves (other raw) id w = threw invalid_argument

  module _ (cache : MetadataCache) (request : Request)
      (handled : (w : World fs)
        → Returns (Moves w) (dispatch fs cache request.header.api request w)) where
    logging-Moves :
        (w : World fs) → Returns (Moves w) (logging_middleware request (handle fs cache) w)
    unfolding logging_middleware handle print
    logging-Moves w =
        let shown : World fs =
          print
            (incoming (get_api_name request.header.api) request.header.version
              request.header.correlation_id)
            w in
        Returns-bind_if (λ (r, v). R w.files v.files) (Moves w)
          (dispatch fs cache request.header.api request (dump_body request.body shown)) _
          (Returns-imp (λ (r, v) e. rw (dump_body-files request.body shown) at e)
            (handled (dump_body request.body shown)))
          (λ (response, after) e. returned _ e)

    pub main_router-Moves :
        (w : World fs) → Returns (Moves w) (route (main_router fs cache) request w)
    unfolding version_validator_middleware print
    main_router-Moves w =
        rw (route-main fs cache request w)
          (elim (Bool-cases (is_supported_version request.header.api request.header.version)) [
            | inl supported ↦ rw supported (logging-Moves w)
            | inr unsupported ↦
                rw unsupported
                  (reject-Moves request.header.api request.header.correlation_id (print rejected w))
          ])
