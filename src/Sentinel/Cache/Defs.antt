-- ===== src/Sentinel/Cache/Defs.antt =====
-- The cache and the decorator that uses it.
use vox_guard.Base.{
  ℕ, ◌+◌, String, Bool, true, false, Option, none, some, [], ltb, length, if◌then◌else◌,
}
use vox_guard.Base.Dict.{Dict, lookup, insert, erase}

-- A value is kept with the time at which it expires.
pub record SimpleCache (V : Type 0) : Type 0 where
  pub cache : Dict (V × ℕ)
  pub default_ttl : ℕ
  pub hits : ℕ
  pub misses : ℕ

unfoldable pub new_cache : {V : Type 0} → ℕ → SimpleCache V
new_cache ttl = record { cache = []; default_ttl = ttl; hits = 0; misses = 0 }

abbrev pub ttl_or : ℕ → Option ℕ → ℕ
ttl_or default none = default
ttl_or default (some ttl) = ttl

module _ {V : Type 0} where
  abbrev pub miss : SimpleCache V → Option V × SimpleCache V
  miss c = (none, record c { misses = c.misses + 1 })

  abbrev pub get_found : String → ℕ → Option (V × ℕ) → SimpleCache V → Option V × SimpleCache V
  get_found key now none c = miss c
  get_found key now (some (value, expires_at)) c =
      if ltb expires_at now
      then miss (record c { cache = erase key c.cache })
      else (some value, record c { hits = c.hits + 1 })

  unfoldable pub get : String → ℕ → SimpleCache V → Option V × SimpleCache V
  get key now c = get_found key now (lookup key c.cache) c

  unfoldable pub set : String → V → Option ℕ → ℕ → SimpleCache V → SimpleCache V
  set key value ttl now c = record c {
    cache = insert key (value, now + ttl_or c.default_ttl ttl) c.cache;
  }

  unfoldable pub delete : String → SimpleCache V → SimpleCache V
  delete key c = record c { cache = erase key c.cache }

  unfoldable pub clear : SimpleCache V → SimpleCache V
  clear c = record c { cache = []; hits = 0; misses = 0 }

-- The hit rate is the quotient of the two counts, in percent.
pub record CacheStats : Type 0 where
  pub hits : ℕ
  pub misses : ℕ
  pub total : ℕ
  pub size : ℕ

unfoldable pub get_stats : {V : Type 0} → SimpleCache V → CacheStats
get_stats c = record {
  hits = c.hits;
  misses = c.misses;
  total = c.hits + c.misses;
  size = length c.cache;
}

-- A Python value that may be None; None is also what a miss looks like.
abbrev pub flatten : {V : Type 0} → Option (Option V) → Option V
flatten none = none
flatten (some v) = v

-- What a call of a decorated function returns, and whether the function has run.
pub record Called (V : Type 0) : Type 0 where
  pub value : Option V
  pub ran : Bool

module _ {V : Type 0} where
  abbrev pub after_lookup :
      String
      → ℕ
      → Option V
      → ℕ
      → Option V × SimpleCache (Option V)
      → Called V × SimpleCache (Option V)
  after_lookup key ttl result later (some v, c) = (record { value = some v; ran = false }, c)
  after_lookup key ttl result later (none, c) =
      (record { value = result; ran = true }, set key result (some ttl) later c)

  -- `wrapper`: `result` is what the function returns if it is run, `later` the time when it has.
  unfoldable pub call_cached :
      String → ℕ → Option V → ℕ → ℕ → SimpleCache (Option V) → Called V × SimpleCache (Option V)
  unfolding get set
  call_cached key ttl result now later c =
      let (found, c') = get key now c in after_lookup key ttl result later (flatten found, c')
