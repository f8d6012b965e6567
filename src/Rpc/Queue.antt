-- ===== src/Rpc/Queue.antt =====
-- The state of freenetic-rpc.js and the events that change it: a call, the microtask that sends what
-- was gathered, the answer to a request and its failure. An event that is not possible, such as the
-- answer to a request that was not made, leaves the state as it is.
use freenetic.Base.{
  ℕ, zero, suc, ◌+◌, Bool, true, false, ◌||◌, List, [], ◌∷◌, ◌++◌, map, Option, none, some, Text,
  text_eq, if◌then◌else◌,
}
use freenetic.Rpc.{Env, Call, Outcome, rejected, Payload, dispatch_replies}

-- A request under way: the calls in it, and whether it is the one that is tried again.
pub record Flight : Type 0 where
  pub calls : List Call
  pub url : Text
  pub retry : Bool

-- `microtasks` counts the calls of `flushCalls` that are queued: the flag does not queue one by itself.
pub record State (D : Type 0) : Type 0 where
  pub request_id : ℕ
  pub endpoint : Option Text
  pub flush_scheduled : Bool
  pub microtasks : ℕ
  pub pending : List Call
  pub flights : List Flight
  pub settled : List (ℕ × Outcome D)

unfoldable pub initial : {D : Type 0} → State D
initial = record {
  request_id = 1;
  endpoint = none;
  flush_scheduled = false;
  microtasks = 0;
  pending = [];
  flights = [];
  settled = [];
}

unfoldable pub call : {D : Type 0} → Text → Text → State D → State D
call object method s = record s {
  request_id = s.request_id + 1;
  flush_scheduled = true;
  microtasks = if s.flush_scheduled then s.microtasks else s.microtasks + 1;
  pending = s.pending ++ record { id = s.request_id; object = object; method = method } ∷ [];
}

-- `directUrl || FALLBACK_URL`
unfoldable pub first_url : Text → Text → Text
first_url [] fallback = fallback
first_url (c ∷ direct) fallback = c ∷ direct

unfoldable pub select_endpoint : Env → Option Text → Text
select_endpoint env (some url) = url
select_endpoint env none = first_url env.direct_url env.fallback_url

unfoldable pub send : {D : Type 0} → Env → List Call → State D → State D
send env [] s = record s { flush_scheduled = false }
send env (c ∷ cs) s =
    let url = select_endpoint env s.endpoint in
    record s {
      flush_scheduled = false;
      pending = [];
      endpoint = some url;
      flights = s.flights ++ record { calls = c ∷ cs; url = url; retry = false } ∷ [];
    }

unfoldable pub flush_calls : {D : Type 0} → Env → State D → State D
flush_calls env s = send env s.pending s

-- The request at an index, and the others.
unfoldable pub take_flight : ℕ → List Flight → Option (Flight × List Flight)
take_flight i [] = none
take_flight zero (f ∷ fs) = some (f, fs)
take_flight (suc i) (f ∷ fs) = elim (take_flight i fs) [
  | none ↦ none
  | some (g, gs) ↦ some (g, f ∷ gs)
]

-- A fallback that works is remembered.
unfoldable pub answer : {D : Type 0} → Env → Payload D → Flight → List Flight → State D → State D
answer env payload f rest s = record s {
  endpoint = if f.retry then some env.fallback_url else s.endpoint;
  flights = rest;
  settled = s.settled ++ dispatch_replies f.calls payload;
}

unfoldable pub reject_all : {D : Type 0} → Text → List Call → List (ℕ × Outcome D)
reject_all error cs = map (λ (c : Call). (c.id, rejected error)) cs

-- `calls.forEach(call => call.reject(error))`
unfoldable pub reject_flight : {D : Type 0} → Text → Flight → List Flight → State D → State D
reject_flight error f rest s = record s {
  flights = rest;
  settled = s.settled ++ reject_all error f.calls;
}

-- The same calls are sent again to the fallback.
unfoldable pub retry_flight : {D : Type 0} → Env → Flight → List Flight → State D → State D
retry_flight env f rest s = record s {
  flights = rest ++ record f { url = env.fallback_url; retry = true } ∷ [];
}

unfoldable pub fail : {D : Type 0} → Env → Text → Flight → List Flight → State D → State D
fail env error f rest s =
    if f.retry || text_eq f.url env.fallback_url
    then reject_flight error f rest s
    else retry_flight env f rest s

pub data Event (D : Type 0) : Type 0 where
  called : Text → Text → Event D
  flushed : Event D
  answered : ℕ → Payload D → Event D
  failed : ℕ → Text → Event D

-- The request at an index, where there is one, is dealt with.
unfoldable pub on_flight :
    {D : Type 0}
    → (Flight → List Flight → State D → State D)
    → Option (Flight × List Flight)
    → State D
    → State D
on_flight handle none s = s
on_flight handle (some (f, rest)) s = handle f rest s

-- The first of the microtasks runs, where there is one.
unfoldable pub on_microtask : {D : Type 0} → Env → ℕ → State D → State D
on_microtask env zero s = s
on_microtask env (suc n) s = flush_calls env (record s { microtasks = n })

unfoldable pub step : {D : Type 0} → Env → Event D → State D → State D
step env (called object method) s = call object method s
step env flushed s = on_microtask env s.microtasks s
step env (answered i payload) s = on_flight (answer env payload) (take_flight i s.flights) s
step env (failed i error) s = on_flight (fail env error) (take_flight i s.flights) s

unfoldable pub run : {D : Type 0} → Env → List (Event D) → State D → State D
run env [] s = s
run env (e ∷ es) s = run env es (step env e s)
