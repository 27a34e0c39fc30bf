-- ===== src/Cdr/Metrics/Window.antt =====
-- What the window of five seconds counts (services/sip-processor/app/cdr/metrics.py).
use vox_guard.Base.{
  ℕ, ◌+◌, ◌≤◌, ◌<◌, ◌≡◌, ◌≢◌, String, List, [], ◌∷◌, any, length, str_eq, if◌then◌else◌, arith, ap,
  ◌∙◌,
}
use vox_guard.Cdr.Metrics.Counters.{
  Key, attempts, answered, total_window, durations, window, Redis, record_attempt, get_all_metrics,
}

abbrev pub kind : Key → ℕ
kind (attempts b) = 0
kind (answered b) = 1
kind (total_window b) = 2
kind (durations b) = 3
kind (window b) = 4

-- A member is added to a set.
abbrev pub add : String → List String → List String
add a s = if any (str_eq a) s then s else a ∷ s

-- What Redis documents of sets, where `members` are those that a set shows at a time: `SADD` adds a
-- member, `EXPIRE` keeps the set until the time to live has passed from then on, also if there was
-- one before, and a command changes no key but its own.
pub record HasSets {R : Type 0} (redis : Redis R) (members : Key → ℕ → R → List String)
    : Type 0 where
  pub sadd_adds :
      (k : Key) (a : String) (now : ℕ) (r : R)
      → members k now (redis.sadd k a now r) ≡ add a (members k now r)
  pub expire_keeps :
      (k : Key) (ttl now u : ℕ) (r : R)
      → now ≤ u
      → u < now + ttl
      → members k u (redis.expire k ttl now r) ≡ members k now r
  pub expire_others :
      (k q : Key) (ttl now u : ℕ) (r : R)
      → kind k ≢ kind q
      → members q u (redis.expire k ttl now r) ≡ members q u r
  pub incr_others :
      (k q : Key) (now u : ℕ) (r : R)
      → kind k ≢ kind q
      → members q u (redis.incr k now r) ≡ members q u r
  pub scard_counts : (k : Key) (u : ℕ) (r : R) → redis.scard k u r ≡ length (members k u r)

-- The callers of a list of attempts, each once, and those before.
abbrev pub callers : List (String × ℕ) → List String → List String
callers [] seen = seen
callers ((a, t) ∷ rest) seen = callers rest (add a seen)

-- Each attempt comes less than five seconds after the one before, the last one at the second time.
abbrev pub IsBurst : ℕ → List (String × ℕ) → ℕ → Type 0
IsBurst t [] end = t ≡ end
IsBurst t ((a, u) ∷ rest) end = (t ≤ u) × (u < t + 5) × IsBurst u rest end

-- The attempts of these callers at these times.
module _ {R : Type 0} (redis : Redis R) (window_seconds : ℕ) (b_number : String) where
  abbrev pub record_all : List (String × ℕ) → R → R
  record_all [] r = r
  record_all ((a, t) ∷ rest) r =
      record_all rest (record_attempt redis window_seconds b_number a t r)

module _ {R : Type 0} (redis : Redis R) (members : Key → ℕ → R → List String)
    (sets : HasSets redis members) (window_seconds : ℕ) (b_number : String) where
  -- For five seconds from the time on, the window shows these callers.
  abbrev Shows : ℕ → List String → R → Type 0
  Shows t s r = (u : ℕ) → t ≤ u → u < t + 5 → members (window b_number) u r ≡ s

  record_attempt-Shows :
      (a : String) (now : ℕ) (r : R)
      → Shows now
          (add a (members (window b_number) now r))
          (record_attempt redis window_seconds b_number a now r)
  unfolding record_attempt
  record_attempt-Shows a now r = λ u later soon.
      sets.expire_others (total_window b_number) (window b_number) window_seconds now u _
        (ground arith)
      ∙ (sets.incr_others (total_window b_number) (window b_number) now u _ (ground arith)
          ∙ (sets.expire_keeps (window b_number) 5 now u _ later soon
              ∙ (sets.sadd_adds (window b_number) a now _
                  ∙ ap (add a) (
                      sets.expire_others (attempts b_number) (window b_number) window_seconds now
                        now _ (ground arith)
                      ∙ sets.incr_others (attempts b_number) (window b_number) now now _
                          (ground arith)))))

  burst-Shows :
      (t end : ℕ) (rest : List (String × ℕ)) (s : List String) (r : R)
      → IsBurst t rest end
      → Shows t s r
      → Shows end (callers rest s) (record_all redis window_seconds b_number rest r)
  burst-Shows t end [] s r same h =
      λ u later soon. h u (omega (arith, same, later)) (omega (arith, same, soon))
  burst-Shows t end ((a, u) ∷ rest) s r (later, soon, burst) h =
      burst-Shows u end rest (add a s) (record_attempt redis window_seconds b_number a u r) burst
        (λ v later' soon'. record_attempt-Shows a u r v later' soon' ∙ ap (add a) (h u later soon))

  -- If Redis keeps sets as documented, the window never closes while calls come: for any number of
  -- attempts, over any time, each less than five seconds after the one before, the number of
  -- concurrent callers is that of all the different callers since the first, as long as five seconds
  -- have not passed since the last.
  pub get_all_metrics-callers :
      (a : String) (t end u : ℕ) (rest : List (String × ℕ)) (r : R)
      → members (window b_number) t r ≡ []
      → IsBurst t rest end
      → end ≤ u
      → u < end + 5
      → (get_all_metrics redis window_seconds b_number u
          (record_all redis window_seconds b_number ((a, t) ∷ rest) r)).metrics.concurrent_callers
        ≡ length (callers rest (a ∷ []))
  unfolding get_all_metrics
  get_all_metrics-callers a t end u rest r empty burst later soon =
      sets.scard_counts (window b_number) u _
      ∙ ap length (
          burst-Shows t end rest (a ∷ []) (record_attempt redis window_seconds b_number a t r) burst
            (λ v later' soon'. record_attempt-Shows a t r v later' soon' ∙ ap (add a) empty) u later
            soon)
