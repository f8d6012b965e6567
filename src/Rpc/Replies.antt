-- ===== src/Rpc/Replies.antt =====
-- Which reply of a batch a call is settled by.
use freenetic.Base.{
  ℕ, suc, ◌+◌, true, false, not, List, [], ◌∷◌, ◌++◌, ◌≡◌, inl, inr, refl, Option, none, some,
  get_elem?, length, some_of, is_some, every, ==_iff, Bool-cases, arith,
}
use freenetic.Rpc.{
  Call, Reply, batch, decode_reply, reply_id, has_id, by_id, has_ids, reply_for, outcomes,
  dispatch_replies, replies_of,
}

module _ {D : Type 0} where
  by_id-none :
      (i : ℕ) (rs : List (Option (Reply D)))
      → every (λ q. not (has_id i q)) rs ≡ true
      → by_id i rs ≡ none
  unfolding by_id every
  by_id-none i [] h = refl
  by_id-none i (q ∷ rs) h = elim (Bool-cases (has_id i q)) [
    | inl e ↦ let h' : false ≡ true = rw (e) at h in cc
    | inr e ↦
        let h' : every (λ r. not (has_id i r)) rs ≡ true = rw (e) at h in
        rw (e, by_id-none i rs h') refl
  ]

  has_id-own : (i : ℕ) (r : Reply D) → r.id ≡ some i → has_id i (some r) ≡ true
  unfolding has_id reply_id
  has_id-own i r h = rw (h) (((==_iff i i).1) refl)

  by_id-last :
      (i : ℕ) (before after : List (Option (Reply D))) (r : Reply D)
      → r.id ≡ some i
      → every (λ q. not (has_id i q)) after ≡ true
      → by_id i (before ++ some r ∷ after) ≡ some r
  unfolding by_id
  by_id-last i [] after r h k = rw (by_id-none i after k, has_id-own i r h) refl
  by_id-last i (q ∷ before) after r h k = rw (by_id-last i before after r h k) refl

  has_ids-own :
      (i : ℕ) (before after : List (Option (Reply D))) (r : Reply D)
      → r.id ≡ some i
      → has_ids (before ++ some r ∷ after) ≡ true
  unfolding has_ids some_of reply_id
  has_ids-own i [] after r h = rw (h) refl
  has_ids-own i (q ∷ before) after r h = elim (Bool-cases (is_some (reply_id q))) [
    | inl e ↦ rw (e) refl
    | inr e ↦ rw (e) (has_ids-own i before after r h)
  ]

  outcomes-at :
      (rs : List (Option (Reply D))) (k : ℕ) (before after : List Call) (c : Call)
      → get_elem? (outcomes rs k (before ++ c ∷ after)) (length before)
        ≡ some (c.id, decode_reply c (reply_for rs (k + length before) c))
  unfolding outcomes
  outcomes-at rs k [] after c = let e : k + 0 ≡ k = omega arith in rw (e) refl
  outcomes-at rs k (d ∷ before) after c =
      let e : k + suc (length before) ≡ k + 1 + length before = omega arith in
      rw (e) (outcomes-at rs (k + 1) before after c)

  -- A call of a batch is settled by the last reply with its id, wherever the call and the reply stand.
  pub dispatch_replies-by_id :
      (before after : List (Option (Reply D))) (r : Reply D) (earlier later : List Call) (c : Call)
      → r.id ≡ some c.id
      → every (λ q. not (has_id c.id q)) after ≡ true
      → get_elem?
          (dispatch_replies (earlier ++ c ∷ later) (batch (before ++ some r ∷ after)))
          (length earlier)
        ≡ some (c.id, decode_reply c (some r))
  unfolding dispatch_replies replies_of reply_for
  dispatch_replies-by_id before after r earlier later c h k =
      rw
        (
          outcomes-at (before ++ some r ∷ after) 0 earlier later c,
          has_ids-own c.id before after r h,
          by_id-last c.id before after r h k,
        )
        refl
