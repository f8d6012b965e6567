-- ===== src/Rpc/Settled.antt =====
-- How long it takes until each call is settled.
use freenetic.Base.{
  le_of_ltb, ℕ, zero, suc, ◌+◌, ◌*◌, ◌≤◌, ltb, ◌&&◌, Bool, true, false, not, ◌||◌, List, [], ◌∷◌,
  ◌≡◌, ◌⊎◌, inl, inr, refl, ap, some, Text, text_eq, length, is_some, if◌then◌else◌, if-intro,
  arith, Bool-cases, Option-cases,
}
use freenetic.Rpc.{Env, Call, Payload}
use freenetic.Rpc.Queue.{
  Flight, State, Event, called, flushed, answered, failed, initial, send, flush_calls,
  select_endpoint, take_flight, answer, reject_flight, retry_flight, fail, on_flight, on_microtask,
  step, run,
}
use freenetic.Rpc.Places.{
  one_if, count, sum_of, sum_of-append, take_flight-sum_of, count_settled, issued, IsPlaced, places,
  run-IsPlaced, step-IsPlaced,
}

-- The event is possible in the state.
unfoldable pub takes_effect : {D : Type 0} → Event D → State D → Bool
takes_effect (called object method) s = true
takes_effect flushed s = ltb 0 s.microtasks
takes_effect (answered i payload) s = is_some (take_flight i s.flights)
takes_effect (failed i error) s = is_some (take_flight i s.flights)

unfoldable pub is_call : {D : Type 0} → Event D → Bool
is_call (called object method) = true
is_call flushed = false
is_call (answered i payload) = false
is_call (failed i error) = false

unfoldable pub default_event : {D : Type 0} → State D → Event D
default_event s = if ltb 0 s.microtasks then flushed else failed 0 []

-- What happens next: the event that the schedule names, where it is possible and no call, and otherwise
-- the microtask or the end of the first request.
unfoldable pub next_event : {D : Type 0} → (State D → Event D) → State D → Event D
next_event schedule s =
    if not (is_call (schedule s)) && takes_effect (schedule s) s
    then schedule s
    else default_event s

-- So many events, none of them a call.
unfoldable pub proceed : {D : Type 0} → Env → (State D → Event D) → ℕ → State D → State D
proceed env schedule zero s = s
proceed env schedule (suc n) s = proceed env schedule n (step env (next_event schedule s) s)

-- A request may be tried twice.
unfoldable pub tries : Flight → ℕ
tries f = if f.retry then 1 else 2

-- More than the events that are left until each call is settled.
unfoldable pub weight : {D : Type 0} → State D → ℕ
weight s = 3 * length s.pending + (sum_of tries s.flights + s.microtasks)

-- Each id given to a call is settled once, and no other is.
unfoldable pub IsSettled : {D : Type 0} → State D → Type 0
IsSettled s = (i : ℕ) → count_settled i s.settled ≡ issued i s.request_id

tries_left : (f : Flight) → 1 ≤ tries f
unfolding tries
tries_left f = if-intro (λ n. 1 ≤ n) f.retry (λ _. omega arith) (λ _. omega arith)

or_false : (a b : Bool) → (a || b) ≡ false → a ≡ false
or_false true b h = h
or_false false b h = refl

no_tries : (fs : List Flight) → sum_of tries fs ≡ 0 → fs ≡ []
unfolding sum_of
no_tries [] h = refl
no_tries (f ∷ fs) h = let a = tries_left f in absurd (omega arith)

no_calls : (cs : List Call) → length cs ≡ 0 → cs ≡ []
no_calls [] h = refl
no_calls (c ∷ cs) h = absurd (omega arith)

one_if_positive : (n : ℕ) → one_if (ltb 0 (suc n)) ≡ 1
one_if_positive n = ground arith

module _ {D : Type 0} where
  send-weight :
      (env : Env) (cs : List Call) (s : State D)
      → s.pending ≡ cs
      → weight (send env cs s) ≤ weight s
  unfolding weight send sum_of tries
  send-weight env [] s e = omega arith
  send-weight env (c ∷ cs) s e =
      let url = select_endpoint env s.endpoint in
      let f : Flight = record { calls = c ∷ cs; url = url; retry = false } in
      let a = ap length e in let d = sum_of-append tries s.flights (f ∷ []) in omega arith

  answer-weight :
      (env : Env) (payload : Payload D) (i : ℕ) (s : State D) (f : Flight) (rest : List Flight)
      → take_flight i s.flights ≡ some (f, rest)
      → 1 + weight (answer env payload f rest s) ≤ weight s
  unfolding weight answer
  answer-weight env payload i s f rest e =
      let a = take_flight-sum_of tries i s.flights rest f e in let b = tries_left f in omega arith

  retry_flight-weight :
      (env : Env) (i : ℕ) (s : State D) (f : Flight) (rest : List Flight)
      → take_flight i s.flights ≡ some (f, rest)
      → f.retry ≡ false
      → 1 + weight (retry_flight env f rest s) ≤ weight s
  unfolding weight retry_flight tries sum_of
  retry_flight-weight env i s f rest e h =
      let a = take_flight-sum_of tries i s.flights rest f e in
      let g : Flight = record f { url = env.fallback_url; retry = true } in
      let b = sum_of-append tries rest (g ∷ []) in let c : tries f ≡ 2 = rw (h) refl in omega arith

  reject_flight-weight :
      (error : Text) (i : ℕ) (s : State D) (f : Flight) (rest : List Flight)
      → take_flight i s.flights ≡ some (f, rest)
      → 1 + weight (reject_flight error f rest s) ≤ weight s
  unfolding weight reject_flight
  reject_flight-weight error i s f rest e =
      let a = take_flight-sum_of tries i s.flights rest f e in let b = tries_left f in omega arith

  fail-weight :
      (env : Env) (error : Text) (i : ℕ) (s : State D) (f : Flight) (rest : List Flight)
      → take_flight i s.flights ≡ some (f, rest)
      → 1 + weight (fail env error f rest s) ≤ weight s
  unfolding fail
  fail-weight env error i s f rest e =
      if-intro (λ (t : State D). 1 + weight t ≤ weight s)
        (f.retry || text_eq f.url env.fallback_url) (λ _. reject_flight-weight error i s f rest e)
        (λ h.
          retry_flight-weight env i s f rest e
            (or_false f.retry (text_eq f.url env.fallback_url) h))

  on_flight-weight :
      (handle : Flight → List Flight → State D → State D) (i : ℕ) (s : State D)
      → ((f : Flight) (rest : List Flight)
          → take_flight i s.flights ≡ some (f, rest)
          → 1 + weight (handle f rest s) ≤ weight s)
      → one_if (is_some (take_flight i s.flights))
          + weight (on_flight handle (take_flight i s.flights) s)
        ≤ weight s
  unfolding on_flight
  on_flight-weight handle i s h = elim (Option-cases (take_flight i s.flights)) [
    | inl e ↦ rw (e, on_flight) (omega arith)
    | inr ((f, rest), e) ↦ rw (e, on_flight) (h f rest e)
  ]

  on_microtask-weight :
      (env : Env) (n : ℕ) (s : State D)
      → s.microtasks ≡ n
      → one_if (ltb 0 n) + weight (on_microtask env n s) ≤ weight s
  unfolding weight on_microtask flush_calls
  on_microtask-weight env zero s e = omega arith
  on_microtask-weight env (suc n) s e =
      let t : State D = record s { microtasks = n } in
      let b = one_if_positive n in let a = send-weight env t.pending t refl in omega arith

  -- An event other than a call that is possible makes the weight smaller.
  step-weight :
      (env : Env) (e : Event D) (s : State D)
      → is_call e ≡ false
      → one_if (takes_effect e s) + weight (step env e s) ≤ weight s
  unfolding is_call takes_effect step
  step-weight env (called object method) s h = cc
  step-weight env flushed s h = on_microtask-weight env s.microtasks s refl
  step-weight env (answered i payload) s h =
      on_flight-weight (answer env payload) i s (λ f rest. answer-weight env payload i s f rest)
  step-weight env (failed i error) s h =
      on_flight-weight (fail env error) i s (λ f rest. fail-weight env error i s f rest)

  weightless-IsSettled : (s : State D) → IsPlaced s → weight s ≡ 0 → IsSettled s
  unfolding IsPlaced IsSettled places weight count sum_of
  weightless-IsSettled s (h, k, m, l) e =
      let a : s.pending ≡ [] = no_calls s.pending (omega arith) in
      let b : s.flights ≡ [] = no_tries s.flights (omega arith) in
      λ i.
        let c = k i in
        let d : count i s.pending ≡ 0 = rw (a) refl in
        let f : sum_of (λ (g : Flight). count i g.calls) s.flights ≡ 0 = rw (b) refl in omega arith

module _ {D : Type 0} where
  -- Where no microtask is queued and no request is under way, nothing is left to do.
  idle_weight :
      (s : State D) → IsPlaced s → ltb 0 s.microtasks ≡ false → s.flights ≡ [] → weight s ≡ 0
  unfolding IsPlaced weight sum_of
  idle_weight s (h, k, m, l) e f =
      let a = le_of_ltb 0 s.microtasks e in let b = ap (sum_of tries) f in by_pending l a b
    where
      by_pending :
          (s.pending ≡ []) ⊎ (s.flush_scheduled ≡ true)
          → s.microtasks ≤ 0
          → sum_of tries s.flights ≡ 0
          → 3 * length s.pending + (sum_of tries s.flights + s.microtasks) ≡ 0
      by_pending (inl p) a b = let c = ap length p in omega arith
      by_pending (inr p) a b = let c = ap one_if p in absurd (omega arith)

  default_event-progress :
      (s : State D) (fs : List Flight)
      → s.flights ≡ fs
      → IsPlaced s
      → (is_call (default_event s) ≡ false)
        × ((takes_effect (default_event s) s ≡ true) ⊎ (weight s ≡ 0))
  unfolding default_event is_call takes_effect take_flight
  default_event-progress s fs f h = elim (Bool-cases (ltb 0 s.microtasks)) [
    | inl e ↦ rw (e) (refl, inl e)
    | inr e ↦ rw (e) (refl, by_flights fs f e)
  ]
    where
      by_flights :
          (gs : List Flight)
          → s.flights ≡ gs
          → ltb 0 s.microtasks ≡ false
          → (is_some (take_flight 0 s.flights) ≡ true) ⊎ (weight s ≡ 0)
      by_flights [] g e = inr (idle_weight s h e g)
      by_flights (f ∷ gs) g e = inl (rw (g) refl)

module _ {D : Type 0} (env : Env) (schedule : State D → Event D) where
  -- The next event is no call, and it is possible unless nothing is left to do.
  next_event-progress :
      (s : State D)
      → IsPlaced s
      → (is_call (next_event schedule s) ≡ false)
        × ((takes_effect (next_event schedule s) s ≡ true) ⊎ (weight s ≡ 0))
  unfolding next_event
  next_event-progress s h =
      elim (Bool-cases (not (is_call (schedule s)) && takes_effect (schedule s) s)) [
        | inl e ↦
            let (a, b) = both (is_call (schedule s)) (takes_effect (schedule s) s) e in
            rw (e) (a, inl b)
        | inr e ↦ rw (e) (default_event-progress s s.flights refl h)
      ]
    where
      both : (a b : Bool) → (not a && b) ≡ true → (a ≡ false) × (b ≡ true)
      both a b e = ground arith

  proceed-weight :
      (n : ℕ) (s : State D)
      → IsPlaced s
      → weight s ≤ n
      → IsPlaced (proceed env schedule n s) × (weight (proceed env schedule n s) ≡ 0)
  unfolding proceed
  proceed-weight zero s h k = (h, omega arith)
  proceed-weight (suc n) s h k =
      let e = next_event schedule s in
      let (a, b) = next_event-progress s h in
      proceed-weight n (step env e s) (step-IsPlaced env e s h) (smaller e a b)
    where
      smaller :
          (e : Event D)
          → is_call e ≡ false
          → (takes_effect e s ≡ true) ⊎ (weight s ≡ 0)
          → weight (step env e s) ≤ n
      smaller e a (inl b) = let c = step-weight env e s a in let d = ap one_if b in omega arith
      smaller e a (inr b) = let c = step-weight env e s a in omega arith

-- After any events, let no more calls be made. However the requests are answered or fail, in whatever
-- order, and whenever the microtask runs: as soon as as many events have come as the weight says, three
-- for each call that waits, two for each request, one for each that is tried again, and one for a
-- microtask, each id given to a call is settled exactly once.
pub proceed-IsSettled :
    {D : Type 0}
    → (env : Env) (es : List (Event D)) (schedule : State D → Event D) (n : ℕ)
    → weight (run env es initial) ≤ n
    → IsSettled (proceed env schedule n (run env es initial))
proceed-IsSettled env es schedule n h =
    let (a, b) = proceed-weight env schedule n (run env es initial) (run-IsPlaced env es) h in
    weightless-IsSettled (proceed env schedule n (run env es initial)) a b
