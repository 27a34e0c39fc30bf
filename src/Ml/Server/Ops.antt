-- ===== src/Ml/Server/Ops.antt =====
-- `InferenceServer` (services/ml-pipeline/inference_server.py). The boosters of xgboost are a
-- parameter, and their predictions do not raise; the latencies are left out. `F` is the type of the features of a request, `M` that of
-- the boosters.
use vox_guard.Base.{
  ℕ, ◌+◌, String, Bool, true, false, Option, none, some, List, [], ◌∷◌, leb, length, map,
}
use vox_guard.Ml.Registry.State.{ModelRegistry}
use vox_guard.Ml.Registry.Maintenance.{get_champion}
use vox_guard.Ml.Splitter.Ops.{TrafficSplitter, should_use_model_b}

-- The booster in a file, none where its loading raises, and its probabilities for some requests, as
-- many as these, in units of 1/10000.
pub record Boosters (F M : Type 0) : Type 0 where
  pub load_model : String → Option M
  pub probability : M → F → ℕ

-- `challenger` is the identifier and the booster that `set_challenger_model` has set together.
pub record InferenceServer (M : Type 0) : Type 0 where
  pub registry : ModelRegistry
  pub champion_id : String
  pub champion_model : M
  pub enable_ab_testing : Bool
  pub traffic_splitter : Option TrafficSplitter
  pub challenger : Option (String × M)
  pub total_requests : ℕ
  pub champion_requests : ℕ
  pub challenger_requests : ℕ

pub record PredictionResponse : Type 0 where
  pub is_fraud : Bool
  pub probability : ℕ
  pub model_version : String

module _ {F M : Type 0} (boosters : Boosters F M) where
  abbrev pub serve_champion : Bool → ModelRegistry → String → Option M → Option (InferenceServer M)
  serve_champion ab registry id none = none
  serve_champion ab registry id (some booster) = some (record {
    registry = registry;
    champion_id = id;
    champion_model = booster;
    enable_ab_testing = ab;
    traffic_splitter = none;
    challenger = none;
    total_requests = 0;
    champion_requests = 0;
    challenger_requests = 0;
  })

  abbrev pub serve_found :
      Bool → ModelRegistry → Option (String × String) → Option (InferenceServer M)
  serve_found ab registry none = none
  serve_found ab registry (some (id, path)) =
      serve_champion ab registry id (boosters.load_model path)

  -- `__init__`; none is an exception, also the one if there is no champion.
  unfoldable pub new_server : Bool → ModelRegistry → Option (InferenceServer M)
  new_server ab registry = serve_found ab registry (get_champion registry)

  abbrev pub by_champion : InferenceServer M → (String × M) × InferenceServer M
  by_champion s =
      ((s.champion_id, s.champion_model), record s { champion_requests = s.champion_requests + 1 })

  abbrev pub split_between :
      String × M → Bool × TrafficSplitter → InferenceServer M → (String × M) × InferenceServer M
  split_between challenger (true, t) s = (
    challenger,
    record s { traffic_splitter = some t; challenger_requests = s.challenger_requests + 1 },
  )
  split_between challenger (false, t) s = by_champion (record s { traffic_splitter = some t })

  abbrev pub choose_from :
      Bool
      → Option TrafficSplitter
      → Option (String × M)
      → ℕ
      → InferenceServer M
      → (String × M) × InferenceServer M
  choose_from true (some t) (some challenger) draw s =
      split_between challenger (should_use_model_b draw t) s
  choose_from true (some t) none draw s = by_champion s
  choose_from true none challenger draw s = by_champion s
  choose_from false splitter challenger draw s = by_champion s

  -- The model that `predict` asks, which counts one request whatever the number of rows.
  unfoldable pub choose : ℕ → InferenceServer M → (String × M) × InferenceServer M
  choose draw s = choose_from s.enable_ab_testing s.traffic_splitter s.challenger draw s

  abbrev pub response : String × M → F → PredictionResponse
  response (id, booster) f = record {
    is_fraud = leb 7000 (boosters.probability booster f);
    probability = boosters.probability booster f;
    model_version = id;
  }

  -- `handle_request`; `draw` is the splitter's random number.
  unfoldable pub handle_request : ℕ → F → InferenceServer M → PredictionResponse × InferenceServer M
  handle_request draw f s =
      let (model, t) = choose draw s in
      (response model f, record t { total_requests = t.total_requests + 1 })

  -- What the future of a request gets: nothing if the client has cancelled it.
  abbrev pub set_result : String × M → F × Bool → Option PredictionResponse
  set_result model (f, true) = none
  set_result model (f, false) = some (response model f)

  -- A round of `batch_processor`, for the requests that it has taken from the queue, each with
  -- `future.cancelled()` at the end of the round.
  unfoldable pub process_batch :
      ℕ → List (F × Bool) → InferenceServer M → List (Option PredictionResponse) × InferenceServer M
  process_batch draw [] s = ([], s)
  process_batch draw (f ∷ fs) s =
      let (model, t) = choose draw s in
      (
        map (set_result model) (f ∷ fs),
        record t { total_requests = t.total_requests + length (f ∷ fs) },
      )
