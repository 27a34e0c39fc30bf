-- ===== src/Ncc/Retries.antt =====
-- How requests end (services/ncc-integration/atrs_client.py).
use vox_guard.Base.{
  ℕ, zero, suc, ◌+◌, ◌≤◌, ◌<◌, ◌≡◌, ◌⊎◌, refl, Bool, true, false, none, [], ◌∷◌, ◌++◌, leb, ltb,
  ◌==◌, max, if◌then◌else◌, arith, ap, ◌∙◌, Bool-cases, inl, inr,
}
use vox_guard.Ncc.Atrs.{
  Exchange, responded, client_error, other_error, Grant, granted, refused, broken, Service,
  AtrsClient, Response, answered, rate_limited, request_failed, authentication_failed, crashed,
  out_of_fuel, store_token, refresh_token, is_token_expired, expires_within, ensure_token,
  power_of_2, on_client_error, on_unauthorized, react, send, request,
}

module _ {J : Type 0} (service : Service J) (max_retries : ℕ) where
  -- The last request had this result.
  abbrev LastWas : AtrsClient → Exchange J → Type 0
  LastWas c x = (n : ℕ) × (c.requests ≡ suc n) × (service.exchange n ≡ x)

  -- Why a request ended as it did: it returns the body of the last answer, which was not an error;
  -- it says that it is rate limited as the last answer did; it gives up when the retries are used
  -- up; and it never runs out of fuel.
  abbrev pub Justified : Response J → AtrsClient → Type 0
  Justified (answered body) c =
      (status : ℕ) × (reset : ℕ) × LastWas c (responded status reset body) × (status < 400)
  Justified (rate_limited reset) c = (body : J) × LastWas c (responded 429 reset body)
  Justified (request_failed retries) c = max_retries ≤ retries
  Justified authentication_failed c = Unit
  Justified crashed c = Unit
  Justified out_of_fuel c = ⊥

  -- How a request ends that starts with a count of retries and of requests.
  abbrev pub Ends : ℕ → ℕ → Response J × AtrsClient → Type 0
  Ends retries requests r =
      Justified r.0 r.1 × (r.1.requests + retries ≤ requests + (max max_retries 1 + 1))

  -- What a retry is good for, where one is made.
  abbrev Retries : (AtrsClient → Response J × AtrsClient) → ℕ → Type 0
  Retries retry retries =
      (d : AtrsClient)
      → (retries < max_retries) ⊎ (retries ≡ 0)
      → Ends (retries + 1) d.requests (retry d)

  retried-Ends :
      (retries n : ℕ) (r : Response J × AtrsClient)
      → Ends (retries + 1) (suc n) r
      → Ends retries n r
  retried-Ends retries n r (why, few) = (why, omega (arith, few))

  on_client_error-Ends :
      (retry : AtrsClient → Response J × AtrsClient) (retries n : ℕ) (c : AtrsClient)
      → Retries retry retries
      → retries ≤ max max_retries 1
      → c.requests ≡ suc n
      → Ends retries n (on_client_error service max_retries retry retries c)
  on_client_error-Ends retry retries n c again few count =
      elim (Bool-cases (ltb retries max_retries)) [
        | inl less ↦
            rw less (retried-Ends retries n _ (rw (← count) (again _ (inl (ground arith)))))
        | inr more ↦ rw more (ground arith, omega (arith, few, count))
      ]

  on_unauthorized-Ends :
      (retry : AtrsClient → Response J × AtrsClient) (retries n : ℕ) (c : AtrsClient)
      → Retries retry retries
      → retries ≤ max max_retries 1
      → c.requests ≡ suc n
      → Ends retries n (on_unauthorized service max_retries retry retries c)
  on_unauthorized-Ends retry zero n c again few count =
      retried-Ends 0 n _ (rw (← count) (again _ (inr refl)))
  on_unauthorized-Ends retry (suc k) n c again few count = (tt, omega (arith, few, count))

  react-Ends :
      (retry : AtrsClient → Response J × AtrsClient) (retries n : ℕ) (x : Exchange J)
      (c : AtrsClient)
      → Retries retry retries
      → retries ≤ max max_retries 1
      → c.requests ≡ suc n
      → service.exchange n ≡ x
      → Ends retries n (react service max_retries retry retries x c)
  unfolding react
  react-Ends retry retries n (responded status reset body) c again few count was =
      elim (Bool-cases (status == 429)) [
        | inl limited ↦
            let is : status ≡ 429 = ground (arith, limited) in
            rw limited (
              (body, (n, count, was ∙ ap (λ k. responded k reset body) is)),
              omega (arith, few, count),
            )
        | inr other ↦ rw other (elim (Bool-cases (status == 401)) [
          | inl unauthorized ↦
              rw unauthorized (on_unauthorized-Ends retry retries n c again few count)
          | inr authorized ↦ rw authorized (elim (Bool-cases (leb 400 status)) [
            | inl bad ↦ rw bad (on_client_error-Ends retry retries n c again few count)
            | inr good ↦
                rw good ((status, reset, (n, count, was), ground arith), omega (arith, few, count))
          ])
        ])
      ]
  react-Ends retry retries n client_error c again few count was =
      on_client_error-Ends retry retries n c again few count
  react-Ends retry retries n other_error c again few count was = (tt, omega (arith, few, count))

  stored-Ends :
      (retry : AtrsClient → Response J × AtrsClient) (retries : ℕ) (g : Grant) (c : AtrsClient)
      → Retries retry retries
      → retries ≤ max max_retries 1
      → Ends retries c.requests (send service max_retries retry retries (store_token service g c))
  stored-Ends retry retries (granted t e) c again few =
      react-Ends retry retries c.requests (service.exchange c.requests) _ again few (omega arith)
        refl
  stored-Ends retry retries refused c again few = (tt, omega (arith, few))
  stored-Ends retry retries broken c again few = (tt, omega (arith, few))

  sent-Ends :
      (retry : AtrsClient → Response J × AtrsClient) (retries : ℕ) (b : Bool) (c : AtrsClient)
      → Retries retry retries
      → retries ≤ max max_retries 1
      → Ends retries c.requests (
          send service max_retries retry retries
            (if b then store_token service (service.grant c.refreshes) c else (none, c)))
  sent-Ends retry retries true c again few =
      stored-Ends retry retries (service.grant c.refreshes) c again few
  sent-Ends retry retries false c again few =
      react-Ends retry retries c.requests (service.exchange c.requests) _ again few (omega arith)
        refl

  request-Ends :
      (fuel retries : ℕ) (c : AtrsClient)
      → max max_retries 1 ≤ fuel + retries
      → retries ≤ max max_retries 1
      → Ends retries c.requests (request service max_retries (suc fuel) retries c)
  unfolding request ensure_token refresh_token
  request-Ends zero retries c enough few =
      sent-Ends (request service max_retries 0 (retries + 1)) retries _ c
        (λ d left. absurd (ground (arith, left, enough, few))) few
  request-Ends (suc fuel) retries c enough few =
      sent-Ends (request service max_retries (suc fuel) (retries + 1)) retries _ c
        (λ d left. request-Ends fuel (retries + 1) d (omega (arith, enough)) (ground (arith, left)))
        few

  -- However the service answers, a request ends: it never sends more than one more than the retries
  -- that are allowed, or two if none are; a body that it returns is that of the last answer, with a
  -- status below 400; it reports a rate limit as the last answer gave it, and it gives up only when
  -- the retries are used up. Fuel for two requests more than the retries is enough.
  pub request_ends :
      (c : AtrsClient)
      → Justified
          (request service max_retries (suc (suc max_retries)) 0 c).0
          (request service max_retries (suc (suc max_retries)) 0 c).1
        × ((request service max_retries (suc (suc max_retries)) 0 c).1.requests
            ≤ c.requests + (max max_retries 1 + 1))
  request_ends c =
      let (why, few) = request-Ends (suc max_retries) 0 c (omega arith) (omega arith) in
      (why, omega (arith, few))

  -- Every status of 400 or more is retried, also one that says that the request is wrong: if the
  -- service answers each request with such a status, other than 401 and 429, and the token does not
  -- expire, the client sends the same request as often as it may, and then gives up.
  pub request_refused :
      (fuel retries : ℕ) (c : AtrsClient)
      → ((n : ℕ)
          → (status : ℕ) × (reset : ℕ) × (body : J) × (service.exchange n
              ≡ responded status reset body)
            × (leb 400 status ≡ true)
            × (status == 401 ≡ false)
            × (status == 429 ≡ false))
      → ((n : ℕ) → expires_within c.token c.token_expiry (service.now n) ≡ false)
      → fuel + retries ≡ max_retries
      → ((request service max_retries (suc fuel) retries c).0 ≡ request_failed max_retries)
        × ((request service max_retries (suc fuel) retries c).1.requests ≡ c.requests + suc fuel)
  unfolding request react ensure_token is_token_expired
  request_refused zero retries c bad valid left =
      let (status, reset, body, was, is_bad, not_401, not_429) = bad c.requests in
      let used : ltb retries max_retries ≡ false = ground (arith, left) in
      rw (valid c.requests, was, not_429, not_401, is_bad, used)
        (ap request_failed (omega (arith, left)), omega arith)
  request_refused (suc fuel) retries c bad valid left =
      let (status, reset, body, was, is_bad, not_401, not_429) = bad c.requests in
      let more : ltb retries max_retries ≡ true = ground (arith, left) in
      let d = record c {
        requests = c.requests + 1;
        delays = c.delays ++ (power_of_2 retries ∷ []);
      } in
      let (gave_up, count) = request_refused fuel (retries + 1) d bad valid (omega (arith, left)) in
      rw (valid c.requests, was, not_429, not_401, is_bad, more) (gave_up, omega (arith, count))
