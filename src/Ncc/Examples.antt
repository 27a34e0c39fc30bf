-- ===== src/Ncc/Examples.antt =====
-- A server whose state is a function from paths to contents, and a service that is busy and then
-- answers.
use vox_guard.Base.{
  ℕ, ◌≤◌, ◌≡◌, ◌≢◌, refl, String, Bool, true, false, Option, none, some, [], ◌∷◌, str_eq, eq_iff,
  leb, if◌then◌else◌, arith, ◌∙◌,
}
use vox_guard.Ncc.Sftp.{Sftp, Local, upload_file}
use vox_guard.Ncc.Upload.{IsServer, Transferred, upload_file-Transferred}
use vox_guard.Ncc.Report.{
  DayQueries, Statistics, no_alerts, set_count, count_alerts, query_daily_statistics,
}
use vox_guard.Ncc.Totals.{sum_of, AreDistinct, query_daily_statistics-sum}
use vox_guard.Ncc.Atrs.{
  responded, client_error, granted, Service, AtrsClient, new_client, answered, request_failed,
  request,
}
use vox_guard.Ncc.Retries.{Justified, request_ends, request_refused}

-- A file is its size.
abbrev Files : Type 0
Files = String → Option ℕ

abbrev set_file : String → Option ℕ → Files → Files
set_file p v r q = if str_eq p q then v else r q

abbrev moved : String → String → Option ℕ → Files → Bool × Files
moved p q none r = (false, r)
moved p q (some c) r = (true, set_file q (some c) (set_file p none r))

abbrev server : Sftp ℕ Files
server = record {
  put = λ c p r. (true, set_file p (some c) r);
  stat = λ p r. r p;
  rename = λ p q r. moved p q (r p) r;
  remove = λ p r. set_file p none r;
}

abbrev read_local : String → Option ℕ
read_local path = if str_eq path "report.csv" then some 5 else none

abbrev files : Local ℕ
files = record { read = read_local; getsize = λ c. c; remote_dir = "/in" }

abbrev view : Files → String → Option ℕ
view r p = r p

set_file_others : (p q : String) (v : Option ℕ) (r : Files) → q ≢ p → set_file p v r q ≡ r q
set_file_others p q v r other = ground (arith, eq_iff p q)

set_file_self : (p : String) (v : Option ℕ) (r : Files) → set_file p v r p ≡ v
set_file_self p v r = ground (arith, eq_iff p p)

moved_to :
    (p q : String) (o : Option ℕ) (r : Files) → (moved p q o r).0 ≡ true → (moved p q o r).1 q ≡ o
moved_to p q none r h = absurd (ground (arith, h))
moved_to p q (some c) r h = set_file_self q (some c) (set_file p none r)

not_moved :
    (p q s : String) (o : Option ℕ) (r : Files)
    → (moved p q o r).0 ≡ false
    → (moved p q o r).1 s ≡ r s
not_moved p q s none r h = refl
not_moved p q s (some c) r h = absurd (ground (arith, h))

moved_others :
    (p q s : String) (o : Option ℕ) (r : Files) → s ≢ p → s ≢ q → (moved p q o r).1 s ≡ r s
moved_others p q s none r h k = refl
moved_others p q s (some c) r h k =
    set_file_others q s (some c) (set_file p none r) k ∙ set_file_others p s none r h

server-IsServer : IsServer server files view
server-IsServer = record {
  put_others = λ c p q r other. set_file_others p q (some c) r other;
  stat_size = λ p r n found. (n, found, refl);
  rename_moves = λ p q r ok. moved_to p q (r p) r ok;
  rename_fails = λ p q s r failed. not_moved p q s (r p) r failed;
  rename_others = λ p q s r h k. moved_others p q s (r p) r h k;
  remove_others = λ p q r other. set_file_others p q none r other;
}

abbrev no_files : Files
no_files p = none

upload_file-Transferred_example :
    Transferred server files view server-IsServer 5 "/in/daily.csv" no_files
      (upload_file server files "report.csv" "daily.csv" true no_files)
upload_file-Transferred_example =
    upload_file-Transferred server files view server-IsServer "report.csv" "daily.csv" no_files

abbrev service : Service ℕ
service = record {
  exchange = λ n. if leb 2 n then responded 200 0 7 else client_error;
  grant = λ n. granted "t" 3600;
  now = λ n. n;
  granted_at = λ n. n;
}

third_time : (request service 3 5 0 new_client).0 ≡ answered 7
unfolding request
third_time = refl

request_ends_example :
    Justified service 3 (request service 3 5 0 new_client).0 (request service 3 5 0 new_client).1
    × ((request service 3 5 0 new_client).1.requests ≤ 4)
request_ends_example = request_ends service 3 new_client

-- A request that is wrong.
abbrev refusing : Service ℕ
refusing = record {
  exchange = λ n. responded 422 0 n;
  grant = λ n. granted "t" 3600;
  now = λ n. 0;
  granted_at = λ n. n;
}

abbrev authorized : AtrsClient
authorized = record {
  token = some "t";
  token_expiry = some 10000;
  requests = 0;
  refreshes = 0;
  delays = [];
}

request_refused_example :
    ((request refusing 3 4 0 authorized).0 ≡ request_failed 3)
    × ((request refusing 3 4 0 authorized).1.requests ≡ 4)
request_refused_example =
    request_refused refusing 3 3 0 authorized (λ n. (422, 0, n, refl, refl, refl, refl)) (λ n. refl)
      refl

abbrev day : DayQueries
day = record {
  total_calls = some 1000;
  alerts_rows = (some "critical", 2) ∷ (some "low", 3) ∷ (some "info", 4) ∷ [];
  calls_disconnected = none;
  patterns_blocked = some 1;
  p99_latency = none;
  avg_latency = some 3000;
}

query_daily_statistics-sum_example :
    (s : Statistics) × (query_daily_statistics (λ t. t) day ≡ some s)
    × (sum_of s.alerts_by_severity ≤ s.fraud_alerts_generated)
    × (AreDistinct (λ t. t) day.alerts_rows
        → sum_of s.alerts_by_severity ≡ s.fraud_alerts_generated)
query_daily_statistics-sum_example =
    query_daily_statistics-sum (λ t. t) day (refl, (refl, (refl, tt)))

-- Two rows whose severities differ only in case.
mixed_case :
    count_alerts (λ t. "high") ((some "high", 2) ∷ (some "HIGH", 3) ∷ []) (no_alerts, 0)
    ≡ some (record { critical = 0; high = 3; medium = 0; low = 0 }, 5)
unfolding count_alerts set_count
mixed_case = refl
