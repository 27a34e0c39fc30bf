-- ===== src/Ml/Server/Counts.antt =====
-- What the counters of the server count (services/ml-pipeline/inference_server.py).
use vox_guard.Base.{
  ℕ, ◌+◌, ◌≡◌, refl, String, Bool, true, false, Option, none, some, List, [], ◌∷◌, ◌++◌, length,
  map, not, arith, ap, ◌∙◌,
}
use vox_guard.Ml.Splitter.Ops.{TrafficSplitter, should_use_model_b}
use vox_guard.Ml.Server.Ops.{
  Boosters, InferenceServer, PredictionResponse, split_between, choose_from, choose, set_result,
  handle_request, process_batch,
}

-- A request of its own, or what a round finds in the queue, with the random number; the Boolean of a
-- request in the queue says whether it has been cancelled.
pub data Arrival (F : Type 0) : Type 0 where
  single : ℕ → F → Arrival F
  batch : ℕ → List (F × Bool) → Arrival F

module _ {F M : Type 0} (boosters : Boosters F M) where
  abbrev pub serve_next :
      Arrival F → InferenceServer M → List (Option PredictionResponse) × InferenceServer M
  serve_next (single draw f) s = let (r, t) = handle_request boosters draw f s in (some r ∷ [], t)
  serve_next (batch draw fs) s = process_batch boosters draw fs s

  unfoldable pub serve_all :
      List (Arrival F) → InferenceServer M → List (Option PredictionResponse) × InferenceServer M
  serve_all [] s = ([], s)
  serve_all (a ∷ as') s =
      let (rs, t) = serve_next a s in let (more, u) = serve_all as' t in (rs ++ more, u)

  -- How many requests came, and how often a model was asked.
  abbrev pub requests_in : Arrival F → ℕ
  requests_in (single draw f) = 1
  requests_in (batch draw fs) = length fs

  abbrev pub asked_in : Arrival F → ℕ
  asked_in (single draw f) = 1
  asked_in (batch draw []) = 0
  asked_in (batch draw (f ∷ fs)) = 1

  abbrev pub sum_by : (Arrival F → ℕ) → List (Arrival F) → ℕ
  sum_by n [] = 0
  sum_by n (a ∷ as') = n a + sum_by n as'

  -- How many requests of a batch are not its first.
  abbrev pub beyond_in : Arrival F → ℕ
  beyond_in (single draw f) = 0
  beyond_in (batch draw []) = 0
  beyond_in (batch draw (f ∷ fs)) = length fs

  -- For each request, whether it waits for its response to the end.
  abbrev pub waiting_in : Arrival F → List Bool
  waiting_in (single draw f) = true ∷ []
  waiting_in (batch draw fs) = map (λ (p : F × Bool). not p.1) fs

  abbrev pub waiting : List (Arrival F) → List Bool
  waiting [] = []
  waiting (a ∷ as') = waiting_in a ++ waiting as'

  abbrev pub asked : InferenceServer M → ℕ
  asked s = s.champion_requests + s.challenger_requests

  split_between-asked :
      (c : String × M) (o : Bool × TrafficSplitter) (s : InferenceServer M)
      → (asked (split_between boosters c o s).1 ≡ asked s + 1)
        × ((split_between boosters c o s).1.total_requests ≡ s.total_requests)
  split_between-asked c (true, t) s = (omega arith, refl)
  split_between-asked c (false, t) s = (omega arith, refl)

  choose_from-asked :
      (b : Bool) (t : Option TrafficSplitter) (c : Option (String × M)) (draw : ℕ)
      (s : InferenceServer M)
      → (asked (choose_from boosters b t c draw s).1 ≡ asked s + 1)
        × ((choose_from boosters b t c draw s).1.total_requests ≡ s.total_requests)
  choose_from-asked true (some t) (some c) draw s =
      split_between-asked c (should_use_model_b draw t) s
  choose_from-asked true (some t) none draw s = (omega arith, refl)
  choose_from-asked true none c draw s = (omega arith, refl)
  choose_from-asked false t c draw s = (omega arith, refl)

  abbrev pub is_given : Option PredictionResponse → Bool
  is_given none = false
  is_given (some r) = true

  given-map :
      (m : String × M) (fs : List (F × Bool))
      → map is_given (map (set_result boosters m) fs) ≡ map (λ (p : F × Bool). not p.1) fs
  given-map m [] = refl
  given-map m ((f, true) ∷ fs) = ap (λ gs. false ∷ gs) (given-map m fs)
  given-map m ((f, false) ∷ fs) = ap (λ gs. true ∷ gs) (given-map m fs)

  given-append :
      (xs ys : List (Option PredictionResponse))
      → map is_given (xs ++ ys) ≡ map is_given xs ++ map is_given ys
  given-append [] ys = refl
  given-append (x ∷ xs) ys = ap (λ gs. is_given x ∷ gs) (given-append xs ys)

  -- Responses for those who wait, so many more requests, and a model asked so many more times, which
  -- with the requests beyond the first of a batch are all of them.
  abbrev pub Counts :
      List Bool
      → ℕ
      → ℕ
      → ℕ
      → InferenceServer M
      → List (Option PredictionResponse) × InferenceServer M
      → Type 0
  Counts waits requests times beyond s r =
      (map is_given r.0 ≡ waits)
      × (r.1.total_requests ≡ s.total_requests + requests)
      × (asked r.1 ≡ asked s + times)
      × (asked r.1 + beyond ≡ asked s + requests)

  serve_next-Counts :
      (a : Arrival F) (s : InferenceServer M)
      → Counts (waiting_in a) (requests_in a) (asked_in a) (beyond_in a) s (serve_next a s)
  unfolding handle_request process_batch choose
  serve_next-Counts (single draw f) s =
      let (more, same) =
        choose_from-asked s.enable_ab_testing s.traffic_splitter s.challenger draw s in
      (refl, omega (arith, same), omega (arith, more), omega (arith, more))
  serve_next-Counts (batch draw []) s = (refl, omega arith, omega arith, omega arith)
  serve_next-Counts (batch draw (f ∷ fs)) s =
      let (more, same) =
        choose_from-asked s.enable_ab_testing s.traffic_splitter s.challenger draw s in
      (given-map _ (f ∷ fs), omega (arith, same), omega (arith, more), omega (arith, more))

  -- In order, a request gets a response unless it has been cancelled in the queue, and the total
  -- counts every request, cancelled or not. The counts of the two models together are the number of
  -- times that a model was asked, which is one for a batch of any size: they fall behind the total by
  -- the requests of each batch beyond its first.
  pub serve_all-Counts :
      (as' : List (Arrival F)) (s : InferenceServer M)
      → Counts
          (waiting as')
          (sum_by requests_in as')
          (sum_by asked_in as')
          (sum_by beyond_in as')
          s
          (serve_all as' s)
  unfolding serve_all
  serve_all-Counts [] s = (refl, omega arith, omega arith, omega arith)
  serve_all-Counts (a ∷ as') s =
      let (answered, total, times, behind) = serve_next-Counts a s in
      let (answered', total', times', behind') = serve_all-Counts as' (serve_next a s).1 in
      (
        given-append (serve_next a s).0 (serve_all as' (serve_next a s).1).0
            ∙ (ap (λ gs. gs ++ map is_given (serve_all as' (serve_next a s).1).0) answered
                ∙ ap (λ gs. waiting_in a ++ gs) answered'),
        omega (arith, total, total'),
        omega (arith, times, times'),
        omega (arith, behind, behind'),
      )
