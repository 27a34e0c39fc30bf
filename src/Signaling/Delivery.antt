-- ===== src/Signaling/Delivery.antt =====
-- What the handler sees of the captured events
-- (services/sip-processor/app/signaling/listener.py).
use vox_guard.Base.{
  ℕ, ◌+◌, ◌≤◌, ◌≡◌, refl, Bool, true, false, Option, none, some, List, [], ◌∷◌, ◌++◌, length, ltb,
  if◌then◌else◌, arith, ap, sym, ◌∙◌, Bool-cases, inl, inr, length-append,
}
use vox_guard.Signaling.Listener.{
  queue_size, Listener, no_events, put_nowait, put_parsed, event_of, packet_callback, handle_first,
  process_event, start, stop, Action, capturing, processing, starting, stopping, step, run,
}

-- The first list is the second one with some elements left out.
pub data IsPart {E : Type 0} : List E → List E → Type 0 where
  done : IsPart [] []
  kept : {xs ys : List E} (x : E) → IsPart xs ys → IsPart (x ∷ xs) (x ∷ ys)
  dropped : {xs ys : List E} (y : E) → IsPart xs ys → IsPart xs (y ∷ ys)

module _ {E : Type 0} where
  abbrev pub option_list : Option E → List E
  option_list none = []
  option_list (some e) = e ∷ []

  append_nil : (xs : List E) → xs ++ [] ≡ xs
  append_nil [] = refl
  append_nil (x ∷ xs) = ap (λ l. x ∷ l) (append_nil xs)

  append_assoc : (xs ys zs : List E) → (xs ++ ys) ++ zs ≡ xs ++ (ys ++ zs)
  append_assoc [] ys zs = refl
  append_assoc (x ∷ xs) ys zs = ap (λ l. x ∷ l) (append_assoc xs ys zs)

  append-kept : (xs ys : List E) (e : E) → IsPart xs ys → IsPart (xs ++ (e ∷ [])) (ys ++ (e ∷ []))
  append-kept _ _ e done = kept e done
  append-kept _ _ e (kept x part) = kept x (append-kept _ _ e part)
  append-kept _ _ e (dropped y part) = dropped y (append-kept _ _ e part)

  append-dropped : (xs ys : List E) (e : E) → IsPart xs ys → IsPart xs (ys ++ (e ∷ []))
  append-dropped _ _ e done = dropped e done
  append-dropped _ _ e (kept x part) = kept x (append-dropped _ _ e part)
  append-dropped _ _ e (dropped y part) = dropped y (append-dropped _ _ e part)

  -- What has been handled, then what is in the queue.
  abbrev pub taken : Listener E → List E
  taken l = l.handled ++ l.event_queue

  -- What holds after `past` has been captured: the queue fits, nothing is out of order or there
  -- twice, and nothing is lost as long as no more than the queue holds has been captured.
  pub record Delivers (past : List E) (l : Listener E) : Type 0 where
    pub fits : length l.event_queue ≤ queue_size
    pub is_part : IsPart (taken l) past
    pub is_lossless : length past ≤ queue_size → taken l ≡ past

  queue-taken : (l : Listener E) → length l.event_queue ≤ length (taken l)
  queue-taken l = omega (arith, length-append l.handled l.event_queue)

  put_nowait-Delivers :
      (past : List E) (e : E) (l : Listener E)
      → Delivers past l
      → Delivers (past ++ (e ∷ [])) (put_nowait e l)
  unfolding put_nowait
  put_nowait-Delivers past e l h = elim (Bool-cases (ltb (length l.event_queue) queue_size)) [
    | inl room ↦ rw room (record {
      fits = ground (arith, length-append l.event_queue (e ∷ []), room);
      is_part = rw (← append_assoc l.handled l.event_queue (e ∷ [])) (append-kept _ _ e h.is_part);
      is_lossless = λ few.
          sym (append_assoc l.handled l.event_queue (e ∷ []))
          ∙ ap (λ xs. xs ++ (e ∷ []))
              (h.is_lossless (omega (arith, few, length-append past (e ∷ []))));
    })
    | inr full ↦ rw full (record {
      fits = h.fits;
      is_part = append-dropped _ _ e h.is_part;
      is_lossless = λ few.
          let fewer : length past + 1 ≤ queue_size =
            omega (arith, few, length-append past (e ∷ [])) in
          let same = ap length (h.is_lossless (omega (arith, fewer))) in
          absurd (ground (arith, full, fewer, same, queue-taken l));
    })
  ]

  put_parsed-Delivers :
      (past : List E) (o : Option E) (l : Listener E)
      → Delivers past l
      → Delivers (past ++ option_list o) (put_parsed o l)
  put_parsed-Delivers past none l h = rw (append_nil past) h
  put_parsed-Delivers past (some e) l h = put_nowait-Delivers past e l h

  either-Delivers :
      (b : Bool) (past : List E) (l m : Listener E)
      → Delivers past l
      → Delivers past m
      → Delivers past (if b then l else m)
  either-Delivers true past l m h k = h
  either-Delivers false past l m h k = k

  handle_first-Delivers :
      (past es : List E) (l : Listener E)
      → l.event_queue ≡ es
      → Delivers past l
      → Delivers past (handle_first es l)
  handle_first-Delivers past [] l same h = h
  handle_first-Delivers past (e ∷ es) l same h =
      let moved : (l.handled ++ (e ∷ [])) ++ es ≡ taken l =
        append_assoc l.handled (e ∷ []) es ∙ ap (λ q. l.handled ++ q) (sym same) in
      record {
        fits = omega (arith, h.fits, ap length same);
        is_part = rw moved h.is_part;
        is_lossless = λ few. moved ∙ h.is_lossless few;
      }

module _ {E : Type 0} (port : ℕ) where
  abbrev pub capture_of : Action E → Option E
  capture_of (capturing p) = event_of port p
  capture_of processing = none
  capture_of starting = none
  capture_of stopping = none

  -- The events of the packets, in the order of their capture.
  abbrev pub captured : List (Action E) → List E
  captured [] = []
  captured (a ∷ as') = option_list (capture_of a) ++ captured as'

  step-Delivers :
      (past : List E) (a : Action E) (l : Listener E)
      → Delivers past l
      → Delivers (past ++ option_list (capture_of a)) (step port a l)
  unfolding packet_callback process_event start stop
  step-Delivers past (capturing p) l h = put_parsed-Delivers past (event_of port p) l h
  step-Delivers past processing l h =
      rw (append_nil past)
        (either-Delivers l.running past _ l (handle_first-Delivers past l.event_queue l refl h) h)
  step-Delivers past starting l h =
      rw (append_nil past)
        (record { fits = h.fits; is_part = h.is_part; is_lossless = h.is_lossless })
  step-Delivers past stopping l h =
      rw (append_nil past)
        (record { fits = h.fits; is_part = h.is_part; is_lossless = h.is_lossless })

  run-Delivers :
      (past : List E) (as' : List (Action E)) (l : Listener E)
      → Delivers past l
      → Delivers (past ++ captured as') (run port as' l)
  unfolding run
  run-Delivers past [] l h = rw (append_nil past) h
  run-Delivers past (a ∷ as') l h =
      rw (← append_assoc past (option_list (capture_of a)) (captured as')) (
        run-Delivers (past ++ option_list (capture_of a)) as' (step port a l)
          (step-Delivers past a l h))

  -- With a handler set, however captures, rounds of the handler, starts and stops follow each other: the queue never
  -- holds more than 10000 events; the events handled, followed by those in the queue, are the
  -- captured ones in their order, some of them left out; and none is left out as long as at most
  -- 10000 have been captured.
  pub run-no_events : (as' : List (Action E)) → Delivers (captured as') (run port as' no_events)
  run-no_events as' =
      run-Delivers [] as' no_events
        (record { fits = omega arith; is_part = done; is_lossless = λ few. refl })
