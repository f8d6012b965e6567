-- ===== src/Rpc.antt =====
-- The scheduler of freenetic-rpc.js: calls are gathered, sent together, and settled by the replies.
-- Promises, timers and `fetch` are the runtime's: what a request comes to is an event with the payload
-- or the error. A call stands for its promise, and `settled` lists what was resolved and rejected, in
-- order and each time. The session and the parameters of a call, which the replies do not depend on,
-- are left out, and the id of a reply is a number or missing.
pub mod Queue
pub mod Places
pub mod Settled
pub mod Replies
mod Tests
use freenetic.Base.{
  ℕ, zero, suc, ◌+◌, Bool, true, false, ◌||◌, List, [], ◌∷◌, ◌++◌, map, Option, none, some, or_else,
  Text, codes, text_eq, decimal, get_elem?, some_of, is_some, if◌then◌else◌, ◌==◌,
}

-- `L.env.ubuspath`, empty where it is missing, and `FALLBACK_URL`.
pub record Env : Type 0 where
  pub direct_url : Text
  pub fallback_url : Text

pub record Call : Type 0 where
  pub id : ℕ
  pub object : Text
  pub method : Text

pub record ReplyError : Type 0 where
  pub code : Option Text
  pub message : Text

-- The status of `result` is none where the array is empty, its data none where it is falsy.
pub record Reply (D : Type 0) : Type 0 where
  pub id : Option ℕ
  pub error : Option ReplyError
  pub result : Option (Option ℕ × Option D)

-- What a promise comes to; `resolved none` is the empty object.
pub data Outcome (D : Type 0) : Type 0 where
  resolved : Option D → Outcome D
  rejected : Text → Outcome D

unfoldable pub named_call : Call → Text
named_call c = codes "(object=" ++ c.object ++ codes " method=" ++ c.method ++ codes ", "

unfoldable pub message_or : Text → Text
message_or [] = codes "JSON-RPC error"
message_or (c ∷ s) = c ∷ s

unfoldable pub code_text : Option Text → Text
code_text none = []
code_text (some code) = codes ", code " ++ code

unfoldable pub error_text : Call → ReplyError → Text
error_text c e =
    codes "ubus request failed "
    ++ named_call c
    ++ message_or e.message
    ++ code_text e.code
    ++ codes ")"

unfoldable pub status_text : Call → Option ℕ → Text
status_text c none = codes "ubus error " ++ named_call c ++ codes "code undefined)"
status_text c (some rc) =
    codes "ubus error " ++ named_call c ++ codes "code " ++ decimal rc ++ codes ")"

unfoldable pub decode_result : {D : Type 0} → Call → Option (Option ℕ × Option D) → Outcome D
decode_result c none = rejected (codes "Malformed ubus reply")
decode_result c (some (some zero, value)) = resolved value
decode_result c (some (some (suc rc), value)) = rejected (status_text c (some (suc rc)))
decode_result c (some (none, value)) = rejected (status_text c none)

unfoldable pub decode_reply : {D : Type 0} → Call → Option (Reply D) → Outcome D
decode_reply c none = rejected (codes "Malformed ubus reply")
decode_reply c (some r) = elim (r.error) [
  | some e ↦ rejected (error_text c e)
  | none ↦ decode_result c r.result
]

pub data Payload (D : Type 0) : Type 0 where
  batch : List (Option (Reply D)) → Payload D
  single : Option (Reply D) → Payload D

unfoldable pub replies_of : {D : Type 0} → Payload D → List (Option (Reply D))
replies_of (batch rs) = rs
replies_of (single r) = r ∷ []

unfoldable pub reply_id : {D : Type 0} → Option (Reply D) → Option ℕ
reply_id none = none
reply_id (some r) = r.id

unfoldable pub has_id : {D : Type 0} → ℕ → Option (Reply D) → Bool
has_id i r = elim (reply_id r) [ none ↦ false | some j ↦ i == j ]

-- `byId[i]`: the last reply with the id.
unfoldable pub by_id : {D : Type 0} → ℕ → List (Option (Reply D)) → Option (Reply D)
by_id i [] = none
by_id i (r ∷ rs) = or_else (by_id i rs) (if has_id i r then r else none)

unfoldable pub has_ids : {D : Type 0} → List (Option (Reply D)) → Bool
has_ids rs = some_of (λ r. is_some (reply_id r)) rs

unfoldable pub reply_at : {D : Type 0} → List (Option (Reply D)) → ℕ → Option (Reply D)
reply_at [] index = none
reply_at (r ∷ rs) zero = r
reply_at (r ∷ rs) (suc index) = reply_at rs index

unfoldable pub reply_for : {D : Type 0} → List (Option (Reply D)) → ℕ → Call → Option (Reply D)
reply_for rs index c = if has_ids rs then by_id c.id rs else reply_at rs index

unfoldable pub outcomes :
    {D : Type 0} → List (Option (Reply D)) → ℕ → List Call → List (ℕ × Outcome D)
outcomes rs index [] = []
outcomes rs index (c ∷ cs) =
    (c.id, decode_reply c (reply_for rs index c)) ∷ outcomes rs (index + 1) cs

unfoldable pub dispatch_replies : {D : Type 0} → List Call → Payload D → List (ℕ × Outcome D)
dispatch_replies calls payload = outcomes (replies_of payload) 0 calls
