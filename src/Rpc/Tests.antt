-- ===== src/Rpc/Tests.antt =====
-- Runs of the scheduler of freenetic-rpc.js.
use freenetic.Base
use freenetic.Base.{
  ℕ, true, false, List, [], ◌∷◌, ◌≡◌, ◌⊎◌, refl, Option, none, some, Text, codes, get_elem?, arith,
}
use freenetic.Rpc.{
  Env, Call, Reply, ReplyError, Outcome, resolved, rejected, Payload, batch, single, decode_reply,
  dispatch_replies,
}
use freenetic.Rpc
use freenetic.Rpc.Queue
use freenetic.Rpc.Queue.{State, Event, called, flushed, answered, failed, initial, run}
use freenetic.Rpc.Places
use freenetic.Rpc.Places.{IsPlaced, run-IsPlaced}
use freenetic.Rpc.Settled
use freenetic.Rpc.Settled.{IsSettled, proceed, proceed-IsSettled}
use freenetic.Rpc.Replies.{dispatch_replies-by_id}

abbrev router : Env
router = record { direct_url = codes "/ubus"; fallback_url = codes "/cgi-bin/luci/admin/ubus" }

abbrev board : Call
board = record { id = 1; object = codes "system"; method = codes "board" }

abbrev info : Call
info = record { id = 2; object = codes "system"; method = codes "info" }

abbrev reply : ℕ → ℕ → Text → Option (Reply Text)
reply i status t = some (record { id = some i; error = none; result = some (some status, some t) })

abbrev answers : Payload Text
answers = batch (reply 2 4 [] ∷ reply 1 0 (codes "router") ∷ [])

-- Two calls are sent in one request, which fails; it is sent again.
abbrev sent : List (Event Text)
sent =
    called board.object board.method
    ∷ called info.object info.method
    ∷ flushed
    ∷ failed 0 (codes "timeout")
    ∷ []

-- The replies come in the other order; one of them is an error.
abbrev settled : List (ℕ × Outcome Text)
settled =
    (1, resolved (some (codes "router")))
    ∷ (2, rejected (codes "ubus error (object=system method=info, code 4)"))
    ∷ []

dispatched : dispatch_replies (board ∷ info ∷ []) answers ≡ settled
unfolding dispatch_replies Rpc.replies_of Rpc.outcomes Rpc.reply_for Rpc.has_ids Rpc.reply_id
    Rpc.by_id Rpc.has_id decode_reply Rpc.decode_result Rpc.status_text Rpc.named_call Base.some_of
    Base.decimal
dispatched = refl

-- The request that failed is tried again, at the fallback, with both calls.
abbrev under_way : State Text
under_way = record {
  request_id = 3;
  endpoint = some (codes "/ubus");
  flush_scheduled = false;
  microtasks = 0;
  pending = [];
  flights = record { calls = board ∷ info ∷ []; url = router.fallback_url; retry = true } ∷ [];
  settled = [];
}

run-sent : run router sent initial ≡ under_way
unfolding run Queue.step Queue.on_microtask Queue.call Queue.flush_calls Queue.send
    Queue.select_endpoint Queue.first_url Queue.on_flight Queue.take_flight Queue.fail
    Queue.retry_flight initial Base.text_eq
run-sent = refl

-- A fallback that works is used from then on.
run-answered :
    run router (answered 0 answers ∷ []) under_way
    ≡ record under_way { endpoint = some router.fallback_url; flights = []; settled = settled }
unfolding run Queue.step Queue.on_microtask Queue.on_flight Queue.take_flight Queue.answer
    dispatch_replies Rpc.replies_of Rpc.outcomes Rpc.reply_for Rpc.has_ids Rpc.reply_id Rpc.by_id
    Rpc.has_id decode_reply Rpc.decode_result Rpc.status_text Rpc.named_call Base.some_of
    Base.decimal
run-answered = refl

-- Two calls that wait.
abbrev asked : List (Event Text)
asked = called board.object board.method ∷ called info.object info.method ∷ []

weight-asked : Settled.weight (run router asked initial) ≡ 7
unfolding run Queue.step Queue.on_microtask Queue.call initial Settled.weight Places.sum_of
weight-asked = refl

run-IsPlaced_example : IsPlaced (run router sent initial)
run-IsPlaced_example = run-IsPlaced router sent

-- The microtask runs, and the answers come.
abbrev late : State Text → Event Text
late s = elim (s.endpoint) [ none ↦ flushed | some url ↦ answered 0 answers ]

proceed-IsSettled_example : IsSettled (proceed router late 7 (run router asked initial))
proceed-IsSettled_example = proceed-IsSettled router asked late 7 (rw (weight-asked) (omega arith))

dispatch_replies-by_id_example :
    get_elem? (dispatch_replies (board ∷ info ∷ []) answers) 0
    ≡ some (
      1,
      decode_reply board (
          some
            (record { id = some 1; error = none; result = some (some 0, some (codes "router")) })),
    )
unfolding Rpc.has_id Base.every
dispatch_replies-by_id_example =
    dispatch_replies-by_id (reply 2 4 [] ∷ []) []
      (record { id = some 1; error = none; result = some (some 0, some (codes "router")) }) []
      (info ∷ []) board refl refl
