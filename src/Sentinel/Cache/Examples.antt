-- ===== src/Sentinel/Cache/Examples.antt =====
-- A cache at work.
use vox_guard.Base.{ℕ, ◌≡◌, refl, Option, none, some, List, [], ◌∷◌, arith}
use vox_guard.Sentinel.Cache.Defs.{SimpleCache, new_cache, call_cached}
use vox_guard.Sentinel.Cache.Refinement.{
  Timed, getting, setting, deleting, answers, answers-new_cache,
}
use vox_guard.Sentinel.Cache.Calls.{Repeats, call_cached_again}

abbrev calls : List (Timed ℕ)
calls =
    (setting "a" 1 none, 5)
    ∷ (getting "a", 8)
    ∷ (setting "b" 2 (some 1), 8)
    ∷ (getting "b", 10)
    ∷ (deleting "a", 11)
    ∷ (getting "a", 12)
    ∷ []

answers-new_cache_example :
    answers calls (new_cache 10) ≡ none ∷ some 1 ∷ none ∷ none ∷ none ∷ none ∷ []
answers-new_cache_example = answers-new_cache 10 5 calls (omega arith)

abbrev empty : SimpleCache (Option ℕ)
empty = record { cache = []; default_ttl = 300; hits = 0; misses = 0 }

call_cached_again_example :
    Repeats "alerts" 60
      (some 7)
      (some 9)
      (call_cached "alerts" 60 (some 9) 20 21 (call_cached "alerts" 60 (some 7) 3 4 empty).1).0
unfolding call_cached
call_cached_again_example =
    call_cached_again "alerts" 60 (some 7) (some 9) 3 4 20 21 empty refl (omega arith)
