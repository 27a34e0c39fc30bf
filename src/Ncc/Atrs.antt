-- ===== src/Ncc/Atrs.antt =====
-- `AtrsClient` (services/ncc-integration/atrs_client.py): the token and the requests with their
-- retries. What the service answers is a parameter; `J` is the type of the bodies.
use vox_guard.Base.{
  ℕ, zero, suc, ◌+◌, ◌*◌, String, Bool, true, Option, none, some, List, [], ◌∷◌, ◌++◌, leb, ltb,
  ◌==◌, if◌then◌else◌,
}

-- What comes of a request: a status with the header `X-RateLimit-Reset` and the body, an
-- `aiohttp.ClientError`, also for a body that is not JSON, or another exception.
pub data Exchange (J : Type 0) : Type 0 where
  responded : ℕ → ℕ → J → Exchange J
  client_error other_error : Exchange J

-- What comes of a request for a token: a token and the seconds until it expires, an
-- `AtrsAuthenticationError`, or another exception.
pub data Grant : Type 0 where
  granted : String → ℕ → Grant
  refused broken : Grant

-- The answers to the requests and to those for a token, by their number, and the clock at each.
pub record Service (J : Type 0) : Type 0 where
  pub exchange : ℕ → Exchange J
  pub grant : ℕ → Grant
  pub now : ℕ → ℕ
  pub granted_at : ℕ → ℕ

-- `requests` and `refreshes` count what has been sent, `delays` lists the seconds slept.
pub record AtrsClient : Type 0 where
  pub token : Option String
  pub token_expiry : Option ℕ
  pub requests : ℕ
  pub refreshes : ℕ
  pub delays : List ℕ

abbrev pub new_client : AtrsClient
new_client = record { token = none; token_expiry = none; requests = 0; refreshes = 0; delays = [] }

-- The body, or the exception that a request ends with; the last one is not the code's.
pub data Response (J : Type 0) : Type 0 where
  answered : J → Response J
  rate_limited : ℕ → Response J
  request_failed : ℕ → Response J
  authentication_failed crashed out_of_fuel : Response J

abbrev pub expires_within : Option String → Option ℕ → ℕ → Bool
expires_within none expiry now = true
expires_within (some t) none now = true
expires_within (some t) (some expiry) now = leb expiry (now + 60)

-- `_is_token_expired`
unfoldable pub is_token_expired : ℕ → AtrsClient → Bool
is_token_expired now c = expires_within c.token c.token_expiry now

abbrev pub power_of_2 : ℕ → ℕ
power_of_2 zero = 1
power_of_2 (suc n) = 2 * power_of_2 n

module _ {J : Type 0} (service : Service J) where
  -- The exception, if any, and the client.
  abbrev pub store_token : Grant → AtrsClient → Option (Response J) × AtrsClient
  store_token (granted token expires_in) c = (
    none,
    record c {
      token = some token;
      token_expiry = some (service.granted_at c.refreshes + expires_in);
      refreshes = c.refreshes + 1;
    },
  )
  store_token refused c = (some authentication_failed, record c { refreshes = c.refreshes + 1 })
  store_token broken c = (some crashed, record c { refreshes = c.refreshes + 1 })

  unfoldable pub refresh_token : AtrsClient → Option (Response J) × AtrsClient
  refresh_token c = store_token (service.grant c.refreshes) c

  unfoldable pub ensure_token : AtrsClient → Option (Response J) × AtrsClient
  unfolding refresh_token is_token_expired
  ensure_token c =
      if is_token_expired (service.now c.requests) c then refresh_token c else (none, c)

  module _ (max_retries : ℕ) where
    -- The handler of `aiohttp.ClientError`; `retry` is the request with one more retry.
    abbrev pub on_client_error :
        (AtrsClient → Response J × AtrsClient) → ℕ → AtrsClient → Response J × AtrsClient
    on_client_error retry retry_count c =
        if ltb retry_count max_retries
        then retry (record c { delays = c.delays ++ (power_of_2 retry_count ∷ []) })
        else (request_failed retry_count, c)

    abbrev pub on_unauthorized :
        (AtrsClient → Response J × AtrsClient) → ℕ → AtrsClient → Response J × AtrsClient
    on_unauthorized retry zero c = retry (record c { token = none })
    on_unauthorized retry (suc n) c = (authentication_failed, c)

    -- A status of 400 or more is a `ClientResponseError`, which is a `ClientError`.
    unfoldable pub react :
        (AtrsClient → Response J × AtrsClient)
        → ℕ
        → Exchange J
        → AtrsClient
        → Response J × AtrsClient
    react retry retry_count (responded status reset body) c =
        if status == 429
        then (rate_limited reset, c)
        else if status == 401
        then on_unauthorized retry retry_count c
        else if leb 400 status
        then on_client_error retry retry_count c
        else (answered body, c)
    react retry retry_count client_error c = on_client_error retry retry_count c
    react retry retry_count other_error c = (crashed, c)

    abbrev pub send :
        (AtrsClient → Response J × AtrsClient)
        → ℕ
        → Option (Response J) × AtrsClient
        → Response J × AtrsClient
    send retry retry_count (some failure, c) = (failure, c)
    send retry retry_count (none, c) =
        react retry retry_count (service.exchange c.requests)
          (record c { requests = c.requests + 1 })

    -- `_request`, for at most as many requests as there is fuel.
    unfoldable pub request : ℕ → ℕ → AtrsClient → Response J × AtrsClient
    unfolding react ensure_token
    request zero retry_count c = (out_of_fuel, c)
    request (suc fuel) retry_count c =
        send (request fuel (retry_count + 1)) retry_count (ensure_token c)
