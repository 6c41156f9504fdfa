-- ===== src/Reliable/Retry.antt =====
-- retryPendingMessages (src/ReliableMessaging.cpp): what becomes of each pending message.
use peer_to_peer_network_ove.Prelude.{
  ℕ, ◌≤◌, ◌==◌, ◌≡◌, ◌∙◌, refl, inl, inr, if◌then◌else◌, Bool, false, not, ◌&&◌, Option, some, none,
  List, [], ◌∷◌, mem, Map, lookup, lookup-insert, lookup-erase, Above, Ascending, lookup-Above,
  Above-Ascending, ==_iff, arith, Option-cases,
}
use peer_to_peer_network_ove.Prelude.Int.{ℤ}
use peer_to_peer_network_ove.Common.{TimePoint}
use peer_to_peer_network_ove.Network.{Poco}
use peer_to_peer_network_ove.Reliable.{
  ReliableMessage, Reliable, mark_message_failed, is_due, may_retry, select, fail_loop, retried,
  retry_one, retry_loop, retry_pending_messages,
}

-- No identifier stands twice in the list.
abbrev Distinct : List ℕ → Type 0
Distinct [] = Unit {0}
Distinct (id ∷ ids) = (mem id ids ≡ false) × Distinct ids

module _ (p : ReliableMessage → Bool) where
  select-Above :
      (j k : ℕ) (m : Map ReliableMessage) → Above k m → j ≤ k → mem j (select p m) ≡ false
  select-Above j k [] a b = refl
  select-Above j k ((i, w) ∷ m) a b = ground (arith, a.0, a.1, select-Above j i m)

  mem-select :
      (k : ℕ) (m : Map ReliableMessage)
      → Ascending m
      → mem k (select p m) ≡ elim (lookup k m) [ none ↦ false | some v ↦ p v ]
  mem-select k [] a = refl
  mem-select k ((i, w) ∷ m) a = ground (
    arith,
    mem-select k m (Above-Ascending i m a),
    lookup-Above k i m a,
    select-Above k i m a,
    ==_iff i k,
  )

  select-Distinct : (m : Map ReliableMessage) → Ascending m → Distinct (select p m)
  select-Distinct [] a = tt
  select-Distinct ((i, w) ∷ m) a =
      ground (arith, select-Distinct m (Above-Ascending i m a), select-Above i i m a)

fail_loop-lookup :
    (k : ℕ) (ids : List ℕ) (r : Reliable)
    → lookup k (fail_loop ids r).pending_messages
      ≡ (if mem k ids then none else lookup k r.pending_messages)
unfolding fail_loop mark_message_failed
fail_loop-lookup k [] r = refl
fail_loop-lookup k (id ∷ ids) r =
    ground (
      arith,
      fail_loop-lookup k ids (mark_message_failed id r),
      lookup-erase k id r.pending_messages,
    )

abbrev retry_entry : TimePoint → Option ReliableMessage → Option ReliableMessage
retry_entry now none = none
retry_entry now (some m) = some (retried now m)

module _ (env : Poco) (now : TimePoint) where
  retry_one-lookup :
      (k id : ℕ) (r : Reliable)
      → lookup k (retry_one env now id r).pending_messages ≡ (
          if id == k
          then retry_entry now (lookup k r.pending_messages)
          else lookup k r.pending_messages)
  unfolding retry_one
  retry_one-lookup k id r = elim (Option-cases (lookup id r.pending_messages)) [
    | inl absent ↦ ground (arith, ==_iff id k)
    | inr (m, found) ↦
        ground (arith, ==_iff id k, lookup-insert k id (retried now m) r.pending_messages)
  ]

  retry_loop-lookup :
      (k : ℕ) (ids : List ℕ) (r : Reliable)
      → Distinct ids
      → lookup k (retry_loop env now ids r).pending_messages ≡ (
          if mem k ids
          then retry_entry now (lookup k r.pending_messages)
          else lookup k r.pending_messages)
  unfolding retry_loop
  retry_loop-lookup k [] r d = refl
  retry_loop-lookup k (id ∷ ids) r d = ground (
    arith,
    retry_loop-lookup k ids (retry_one env now id r) d.1,
    retry_one-lookup k id r,
    ==_iff id k,
  )

  -- What becomes of one entry.
  abbrev pub next_entry : ℤ → ℤ → ReliableMessage → Option ReliableMessage
  next_entry seconds max_retries m =
      if is_due seconds now m
      then (if may_retry max_retries m then some (retried now m) else none)
      else some m

  -- retryPendingMessages keeps the entries that are acknowledged or wait for less than the timeout,
  -- counts one more retry for those that wait longer and have retries left, and drops the others.
  pub retry_pending_messages-lookup :
      (seconds max_retries : ℤ) (r : Reliable) (k : ℕ)
      → Ascending r.pending_messages
      → lookup k (retry_pending_messages env seconds max_retries now r).pending_messages
        ≡ elim (lookup k r.pending_messages) [
          | none ↦ none
          | some m ↦ next_entry seconds max_retries m
        ]
  unfolding retry_pending_messages
  retry_pending_messages-lookup seconds max_retries r k a =
      let retries = λ (m : ReliableMessage). is_due seconds now m && may_retry max_retries m in
      let fails = λ (m : ReliableMessage). is_due seconds now m && not (may_retry max_retries m) in
      let to_retry = select retries r.pending_messages in
      let to_fail = select fails r.pending_messages in
      fail_loop-lookup k to_fail (retry_loop env now to_retry r)
      ∙ rw
          (
            mem-select fails k r.pending_messages a,
            retry_loop-lookup k to_retry r (select-Distinct retries r.pending_messages a),
            mem-select retries k r.pending_messages a,
          )
          (elim (Option-cases (lookup k r.pending_messages)) [
            | inl absent ↦ rw (absent)
            | inr (m, found) ↦ rw (found) (ground arith)
          ])
