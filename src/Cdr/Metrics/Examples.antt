-- ===== src/Cdr/Metrics/Examples.antt =====
-- A server that keeps its sets in a function from keys, with the time at which they expire; its
-- counters and lists are empty.
use vox_guard.Base.{
  ℕ, ◌+◌, ◌≡◌, ◌≢◌, refl, String, Bool, ◌&&◌, Option, none, some, List, [], ◌∷◌, length, str_eq,
  eq_iff, ltb, ◌==◌, if◌then◌else◌, arith, ap, ◌∙◌,
}
use vox_guard.Cdr.Metrics.Counters.{
  Key, attempts, answered, total_window, durations, window, Redis, get_all_metrics,
}
use vox_guard.Cdr.Metrics.Window.{kind, add, HasSets, record_all, get_all_metrics-callers}

abbrev number : Key → String
number (attempts b) = b
number (answered b) = b
number (total_window b) = b
number (durations b) = b
number (window b) = b

abbrev key_eq : Key → Key → Bool
key_eq k q = (kind k == kind q) && str_eq (number k) (number q)

-- The members, and the time of expiry, if there is one.
abbrev Entry : Type 0
Entry = List String × Option ℕ

abbrev Sets : Type 0
Sets = Key → Entry

abbrev live : ℕ → Entry → List String
live u (s, none) = s
live u (s, some e) = if ltb u e then s else []

abbrev set_entry : Key → Entry → Sets → Sets
set_entry k v r q = if key_eq k q then v else r q

abbrev with_member : String → ℕ → Entry → Entry
with_member a now (s, none) = (add a s, none)
with_member a now (s, some e) = if ltb now e then (add a s, some e) else (a ∷ [], none)

abbrev no_counters : Redis Sets
no_counters = record {
  incr = λ k now r. r;
  expire = λ k ttl now r. set_entry k (live now (r k), some (now + ttl)) r;
  sadd = λ k a now r. set_entry k (with_member a now (r k)) r;
  rpush = λ k v now r. r;
  ltrim = λ k n now r. r;
  get = λ k now r. none;
  scard = λ k now r. length (live now (r k));
  lrange = λ k now r. [];
  delete = λ ks now r. r;
}

abbrev members : Key → ℕ → Sets → List String
members k u r = live u (r k)

set_entry_self : (k : Key) (v : Entry) (r : Sets) → set_entry k v r k ≡ v
set_entry_self k v r = ground (arith, eq_iff (number k) (number k))

set_entry_others : (k q : Key) (v : Entry) (r : Sets) → kind k ≢ kind q → set_entry k v r q ≡ r q
set_entry_others k q v r other = ground (arith, other)

live-with_member :
    (a : String) (now : ℕ) (e : Entry) → live now (with_member a now e) ≡ add a (live now e)
live-with_member a now (s, none) = refl
live-with_member a now (s, some e) = ground arith

no_counters-HasSets : HasSets no_counters members
no_counters-HasSets = record {
  sadd_adds = λ k a now r.
      ap (live now) (set_entry_self k (with_member a now (r k)) r) ∙ live-with_member a now (r k);
  expire_keeps = λ k ttl now u r later soon.
      ap (live u) (set_entry_self k (live now (r k), some (now + ttl)) r) ∙ ground (arith, soon);
  expire_others = λ k q ttl now u r other.
      ap (live u) (set_entry_others k q (live now (r k), some (now + ttl)) r other);
  incr_others = λ k q now u r other. refl;
  scard_counts = λ k u r. refl;
}

-- Four callers in nine seconds.
get_all_metrics-callers_example :
    (get_all_metrics no_counters 300 "b" 13 (
      record_all no_counters 300 "b"
        (("a1", 0) ∷ ("a2", 3) ∷ ("a3", 6) ∷ ("a4", 9) ∷ [])
        (λ k. ([], none)))).metrics.concurrent_callers
    ≡ 4
get_all_metrics-callers_example =
    get_all_metrics-callers no_counters members no_counters-HasSets 300 "b" "a1" 0 9 13
      (("a2", 3) ∷ ("a3", 6) ∷ ("a4", 9) ∷ []) (λ k. ([], none)) refl
      (omega arith, omega arith, (omega arith, omega arith, (omega arith, omega arith, refl)))
      (omega arith) (omega arith)
