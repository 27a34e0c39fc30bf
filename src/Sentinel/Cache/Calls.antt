-- ===== src/Sentinel/Cache/Calls.antt =====
-- What the decorator `cached` saves.
use vox_guard.Base.{ℕ, ◌+◌, ◌≤◌, ◌≡◌, String, true, false, Option, none, some, arith}
use vox_guard.Base.Dict.{lookup, lookup-insert_self}
use vox_guard.Sentinel.Cache.Defs.{
  SimpleCache, get, set, Called, after_lookup, call_cached, flatten,
}

module _ {V : Type 0} (key : String) (ttl : ℕ) where
  fresh_call :
      (value : V) (result : Option V) (now later e : ℕ) (c : SimpleCache (Option V))
      → lookup key c.cache ≡ some (some value, e)
      → now ≤ e
      → (call_cached key ttl result now later c).0 ≡ record { value = some value; ran = false }
  unfolding call_cached
  fresh_call value result now later e c found le = rw found (ground arith)

  stale_call :
      (result : Option V) (now later e : ℕ) (c : SimpleCache (Option V))
      → lookup key c.cache ≡ some (none, e)
      → (call_cached key ttl result now later c).0 ≡ record { value = result; ran = true }
  unfolding call_cached
  stale_call result now later e c found = rw found (ground arith)

  after_lookup-stores :
      (found result : Option V) (later : ℕ) (c : SimpleCache (Option V))
      → (after_lookup key ttl result later (found, c)).0.ran ≡ true
      → lookup key (after_lookup key ttl result later (found, c)).1.cache
        ≡ some (result, later + ttl)
  unfolding set
  after_lookup-stores none result later c ran = lookup-insert_self key (result, later + ttl) c.cache
  after_lookup-stores (some v) result later c ran = absurd (ground arith)

  run_stores :
      (result : Option V) (now later : ℕ) (c : SimpleCache (Option V))
      → (call_cached key ttl result now later c).0.ran ≡ true
      → lookup key (call_cached key ttl result now later c).1.cache ≡ some (result, later + ttl)
  unfolding call_cached
  run_stores result now later c ran =
      after_lookup-stores (flatten (get key now c).0) result later (get key now c).1 ran

  -- What a second call returns, and whether it runs the function, by what the first run returned.
  abbrev pub Repeats : Option V → Option V → Called V → Type 0
  Repeats (some v) again r = r ≡ record { value = some v; ran = false }
  Repeats none again r = r ≡ record { value = again; ran = true }

  repeats :
      (result again : Option V) (now later e : ℕ) (c : SimpleCache (Option V))
      → lookup key c.cache ≡ some (result, e)
      → now ≤ e
      → Repeats result again (call_cached key ttl again now later c).0
  repeats (some v) again now later e c found le = fresh_call v again now later e c found le
  repeats none again now later e c found le = stale_call again now later e c found

  -- After a call that has run the function, a call in the time to live returns what the first one
  -- did and does not run it, unless that was None: then it is run again, every time.
  pub call_cached_again :
      (result again : Option V) (now later now' later' : ℕ) (c : SimpleCache (Option V))
      → (call_cached key ttl result now later c).0.ran ≡ true
      → now' ≤ later + ttl
      → Repeats result again
          (call_cached key ttl again now' later' (call_cached key ttl result now later c).1).0
  call_cached_again result again now later now' later' c ran le =
      repeats result again now' later' (later + ttl) (call_cached key ttl result now later c).1
        (run_stores result now later c ran) le
