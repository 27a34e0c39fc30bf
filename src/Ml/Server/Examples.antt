-- ===== src/Ml/Server/Examples.antt =====
-- A server that shares its traffic, with a batch of two, the second of which is cancelled, and a
-- request of its own.
use vox_guard.Base.{ℕ, ◌≡◌, refl, true, false, none, some, [], ◌∷◌}
use vox_guard.Ml.Splitter.Ops.{should_use_model_b}
use vox_guard.Ml.Server.Ops.{Boosters, InferenceServer, choose, handle_request, process_batch}
use vox_guard.Ml.Server.Counts.{single, batch, Counts, serve_all, serve_all-Counts}

-- A booster is what it says.
abbrev boosters : Boosters ℕ ℕ
boosters = record { load_model = λ path. some 9000; probability = λ booster f. booster }

abbrev server : InferenceServer ℕ
server = record {
  registry = record {
    index = record { models = []; champion = none };
    index_file = none;
    disk = [];
  };
  champion_id = "a";
  champion_model = 3000;
  enable_ab_testing = true;
  traffic_splitter = some (record {
    config = record { model_a_traffic = 9000; model_b_traffic = 1000 };
    model_a_count = 0;
    model_b_count = 0;
  });
  challenger = some ("b", 8000);
  total_requests = 0;
  champion_requests = 0;
  challenger_requests = 0;
}

-- The second request is given to the challenger.
challenged :
    (serve_all boosters
      (batch 5000 ((1, false) ∷ (2, true) ∷ []) ∷ single 500 3 ∷ [])
      server).1.challenger_requests
    ≡ 1
unfolding serve_all process_batch handle_request choose should_use_model_b
challenged = refl

serve_all-Counts_example :
    Counts boosters
      (true ∷ false ∷ true ∷ [])
      3
      2
      1
      server
      (serve_all boosters (batch 5000 ((1, false) ∷ (2, true) ∷ []) ∷ single 500 3 ∷ []) server)
serve_all-Counts_example =
    serve_all-Counts boosters (batch 5000 ((1, false) ∷ (2, true) ∷ []) ∷ single 500 3 ∷ []) server
