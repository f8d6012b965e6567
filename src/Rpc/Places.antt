-- ===== src/Rpc/Places.antt =====
-- Where each call is: among those that wait, in a request, or settled.
use freenetic.Base.{
  if◌then◌else◌, ℕ, zero, suc, ◌+◌, ◌≤◌, Bool, true, false, ◌&&◌, ◌||◌, List, [], ◌∷◌, ◌++◌, ◌≡◌,
  ◌⊎◌, inl, inr, refl, ap, Option, none, some, Text, text_eq, ltb, leb, ◌==◌, if-intro, arith,
  Option-cases,
}
use freenetic.Rpc.{Env, Call, Outcome, Reply, Payload, outcomes, dispatch_replies, replies_of}
use freenetic.Rpc.Queue.{
  Flight, State, Event, called, flushed, answered, failed, initial, call, send, flush_calls,
  take_flight, answer, reject_all, reject_flight, retry_flight, fail, on_flight, on_microtask, step,
  run, select_endpoint,
}

abbrev pub one_if : Bool → ℕ
one_if true = 1
one_if false = 0

-- How many of the calls have an id.
unfoldable pub count : ℕ → List Call → ℕ
count i [] = 0
count i (c ∷ cs) = one_if (i == c.id) + count i cs

unfoldable pub sum_of : (Flight → ℕ) → List Flight → ℕ
sum_of size [] = 0
sum_of size (f ∷ fs) = size f + sum_of size fs

abbrev pub count_flights : ℕ → List Flight → ℕ
count_flights i fs = sum_of (λ (f : Flight). count i f.calls) fs

-- How many times a call is settled.
unfoldable pub count_settled : {D : Type 0} → ℕ → List (ℕ × Outcome D) → ℕ
count_settled i [] = 0
count_settled i ((j, o) ∷ os) = one_if (i == j) + count_settled i os

unfoldable pub places : {D : Type 0} → ℕ → State D → ℕ
places i s = count i s.pending + (count_flights i s.flights + count_settled i s.settled)

-- One for the ids that were given to a call, 0 for the others.
unfoldable pub issued : ℕ → ℕ → ℕ
issued i next = one_if (leb 1 i && ltb i next)

-- Each call made is in one place, once; a microtask is queued exactly where the flag is set, and never
-- two; and calls wait only while one is queued.
unfoldable pub IsPlaced : {D : Type 0} → State D → Type 0
IsPlaced s =
    1 ≤ s.request_id
    × ((i : ℕ) → places i s ≡ issued i s.request_id)
    × s.microtasks ≡ one_if s.flush_scheduled
    × ((s.pending ≡ []) ⊎ (s.flush_scheduled ≡ true))

count-append : (i : ℕ) (cs ds : List Call) → count i (cs ++ ds) ≡ count i cs + count i ds
unfolding count
count-append i [] ds = omega arith
count-append i (c ∷ cs) ds = rw (count-append i cs ds) (omega arith)

pub sum_of-append :
    (size : Flight → ℕ) (fs gs : List Flight)
    → sum_of size (fs ++ gs) ≡ sum_of size fs + sum_of size gs
unfolding sum_of
sum_of-append size [] gs = omega arith
sum_of-append size (f ∷ fs) gs = rw (sum_of-append size fs gs) (omega arith)

module _ {D : Type 0} where
  count_settled-append :
      (i : ℕ) (os ps : List (ℕ × Outcome D))
      → count_settled i (os ++ ps) ≡ count_settled i os + count_settled i ps
  unfolding count_settled
  count_settled-append i [] ps = omega arith
  count_settled-append i ((j, o) ∷ os) ps = rw (count_settled-append i os ps) (omega arith)

  count_settled-outcomes :
      (i : ℕ) (rs : List (Option (Reply D))) (index : ℕ) (cs : List Call)
      → count_settled i (outcomes rs index cs) ≡ count i cs
  unfolding count_settled count outcomes
  count_settled-outcomes i rs index [] = refl
  count_settled-outcomes i rs index (c ∷ cs) =
      ap (λ n. one_if (i == c.id) + n) (count_settled-outcomes i rs (index + 1) cs)

count_settled-reject_all :
    (D : Type 0) (i : ℕ) (error : Text) (cs : List Call)
    → count_settled {D = D} i (reject_all error cs) ≡ count i cs
unfolding count_settled count reject_all
count_settled-reject_all D i error [] = refl
count_settled-reject_all D i error (c ∷ cs) =
    ap (λ n. one_if (i == c.id) + n) (count_settled-reject_all D i error cs)

pub take_flight-sum_of :
    (size : Flight → ℕ) (k : ℕ) (fs rest : List Flight) (f : Flight)
    → take_flight k fs ≡ some (f, rest)
    → sum_of size fs ≡ size f + sum_of size rest
unfolding take_flight sum_of
take_flight-sum_of size k [] rest f h = cc
take_flight-sum_of size zero (g ∷ fs) rest f h = cc
take_flight-sum_of size (suc k) (g ∷ fs) rest f h = elim (Option-cases (take_flight k fs)) [
  | inl e ↦ let h' : none ≡ some (f, rest) = rw (e) at h in cc
  | inr ((g', gs), e) ↦
      let h' : some (g', g ∷ gs) ≡ some (f, rest) = rw (e) at h in
      let a : g' ≡ f = cc in
      let b : g ∷ gs ≡ rest = cc in
      rw (← a, ← b, take_flight-sum_of size k fs gs g' e) (omega arith)
]

one_if_le : (b : Bool) → one_if b ≤ 1
one_if_le true = omega arith
one_if_le false = omega arith

queued : (b : Bool) (n : ℕ) → n ≡ one_if b → (if b then n else n + 1) ≡ 1
queued true n e = e
queued false n e = omega arith

issued_suc : (i n : ℕ) → 1 ≤ n → issued i (n + 1) ≡ one_if (i == n) + issued i n
unfolding issued
issued_suc i n h = ground arith

module _ {D : Type 0} where
  call-IsPlaced :
      (object method : Text) (s : State D) → IsPlaced s → IsPlaced (call object method s)
  unfolding IsPlaced places call count
  call-IsPlaced object method s (h, k, m, l) = (
    omega arith,
    (λ i.
        let c : Call = record { id = s.request_id; object = object; method = method } in
        let a = k i in
        let b = count-append i s.pending (c ∷ []) in
        let d = issued_suc i s.request_id h in omega arith),
    queued s.flush_scheduled s.microtasks m,
    inr refl,
  )

  send-IsPlaced :
      (env : Env) (cs : List Call) (s : State D)
      → s.pending ≡ cs
      → s.microtasks ≡ 0
      → 1 ≤ s.request_id
      → ((i : ℕ) → places i s ≡ issued i s.request_id)
      → IsPlaced (send env cs s)
  unfolding IsPlaced places send count sum_of
  send-IsPlaced env [] s e m h k = (h, k, m, inl e)
  send-IsPlaced env (c ∷ cs) s e m h k = (
    h,
    (λ i.
        let a = ap (count i) e in
        let d = k i in
        let url = select_endpoint env s.endpoint in
        let f : Flight = record { calls = c ∷ cs; url = url; retry = false } in
        let b = sum_of-append (λ (g : Flight). count i g.calls) s.flights (f ∷ []) in omega arith),
    m,
    inl refl,
  )

  on_microtask-IsPlaced :
      (env : Env) (n : ℕ) (s : State D)
      → s.microtasks ≡ n
      → IsPlaced s
      → IsPlaced (on_microtask env n s)
  unfolding IsPlaced places on_microtask flush_calls
  on_microtask-IsPlaced env zero s e h = h
  on_microtask-IsPlaced env (suc n) s e (h, k, m, l) =
      let a = one_if_le s.flush_scheduled in
      send-IsPlaced env s.pending (record s { microtasks = n }) refl (omega arith) h k

  answer-IsPlaced :
      (env : Env) (payload : Payload D) (i : ℕ) (s : State D) (f : Flight) (rest : List Flight)
      → take_flight i s.flights ≡ some (f, rest)
      → IsPlaced s
      → IsPlaced (answer env payload f rest s)
  unfolding IsPlaced places answer dispatch_replies
  answer-IsPlaced env payload i s f rest e (h, k, m, l) = (
    h,
    (λ j.
        let a = take_flight-sum_of (λ (g : Flight). count j g.calls) i s.flights rest f e in
        let b = count_settled-append j s.settled (outcomes (replies_of payload) 0 f.calls) in
        let c = count_settled-outcomes j (replies_of payload) 0 f.calls in
        let d = k j in omega arith),
    m,
    l,
  )

  reject_flight-IsPlaced :
      (error : Text) (i : ℕ) (s : State D) (f : Flight) (rest : List Flight)
      → take_flight i s.flights ≡ some (f, rest)
      → IsPlaced s
      → IsPlaced (reject_flight error f rest s)
  unfolding IsPlaced places reject_flight
  reject_flight-IsPlaced error i s f rest e (h, k, m, l) = (
    h,
    (λ j.
        let a = take_flight-sum_of (λ (g : Flight). count j g.calls) i s.flights rest f e in
        let b = count_settled-append j s.settled (reject_all error f.calls) in
        let c = count_settled-reject_all D j error f.calls in let d = k j in omega arith),
    m,
    l,
  )

  retry_flight-IsPlaced :
      (env : Env) (i : ℕ) (s : State D) (f : Flight) (rest : List Flight)
      → take_flight i s.flights ≡ some (f, rest)
      → IsPlaced s
      → IsPlaced (retry_flight env f rest s)
  unfolding IsPlaced places retry_flight sum_of
  retry_flight-IsPlaced env i s f rest e (h, k, m, l) = (
    h,
    (λ j.
        let a = take_flight-sum_of (λ (g : Flight). count j g.calls) i s.flights rest f e in
        let g : Flight = record f { url = env.fallback_url; retry = true } in
        let b = sum_of-append (λ (g : Flight). count j g.calls) rest (g ∷ []) in
        let d = k j in omega arith),
    m,
    l,
  )

  fail-IsPlaced :
      (env : Env) (error : Text) (i : ℕ) (s : State D) (f : Flight) (rest : List Flight)
      → take_flight i s.flights ≡ some (f, rest)
      → IsPlaced s
      → IsPlaced (fail env error f rest s)
  unfolding fail
  fail-IsPlaced env error i s f rest e h =
      if-intro (λ (t : State D). IsPlaced t) (f.retry || text_eq f.url env.fallback_url)
        (λ _. reject_flight-IsPlaced error i s f rest e h)
        (λ _. retry_flight-IsPlaced env i s f rest e h)

  on_flight-IsPlaced :
      (handle : Flight → List Flight → State D → State D) (i : ℕ) (s : State D)
      → ((f : Flight) (rest : List Flight)
          → take_flight i s.flights ≡ some (f, rest)
          → IsPlaced (handle f rest s))
      → IsPlaced s
      → IsPlaced (on_flight handle (take_flight i s.flights) s)
  unfolding on_flight
  on_flight-IsPlaced handle i s h k = elim (Option-cases (take_flight i s.flights)) [
    | inl e ↦ rw (e, on_flight) k
    | inr ((f, rest), e) ↦ rw (e, on_flight) (h f rest e)
  ]

  pub step-IsPlaced : (env : Env) (e : Event D) (s : State D) → IsPlaced s → IsPlaced (step env e s)
  unfolding step
  step-IsPlaced env (called object method) s h = call-IsPlaced object method s h
  step-IsPlaced env flushed s h = on_microtask-IsPlaced env s.microtasks s refl h
  step-IsPlaced env (answered i payload) s h =
      on_flight-IsPlaced (answer env payload) i s
        (λ f rest e. answer-IsPlaced env payload i s f rest e h) h
  step-IsPlaced env (failed i error) s h =
      on_flight-IsPlaced (fail env error) i s (λ f rest e. fail-IsPlaced env error i s f rest e h) h

  pub run-IsPlaced_from :
      (env : Env) (es : List (Event D)) (s : State D) → IsPlaced s → IsPlaced (run env es s)
  unfolding run
  run-IsPlaced_from env [] s h = h
  run-IsPlaced_from env (e ∷ es) s h =
      run-IsPlaced_from env es (step env e s) (step-IsPlaced env e s h)

initial-IsPlaced : (D : Type 0) → IsPlaced (initial {D = D})
unfolding IsPlaced initial places count sum_of count_settled issued
initial-IsPlaced D = (omega arith, (λ i. ground arith), refl, inl refl)

-- Whatever calls are made, and in whatever order requests are sent, answered and fail, each id given
-- to a call stands exactly once among the calls that wait, that are in a request and that are settled,
-- and no other id does; a microtask is queued exactly where the flag is set, and never two; and calls
-- wait only where one is queued.
pub run-IsPlaced : {D : Type 0} → (env : Env) (es : List (Event D)) → IsPlaced (run env es initial)
run-IsPlaced env es = run-IsPlaced_from env es initial (initial-IsPlaced _)
