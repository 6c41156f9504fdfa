-- ===== src/Reliable/GivingUp.antt =====
-- src/ReliableMessaging.cpp: rounds of retryPendingMessages that are far enough apart.
use peer_to_peer_network_ove.Prelude.{
  ℕ, ◌+◌, ◌≤◌, ◌<◌, ◌≡◌, false, some, none, List, [], ◌∷◌, length, lookup, inl, inr, Bool-cases,
  refl, ◌∙◌, Ascending, arith,
}
use peer_to_peer_network_ove.Prelude.Int.{ℤ, pos, ltb_ℤ}
use peer_to_peer_network_ove.Common.{TimePoint, elapsed_seconds}
use peer_to_peer_network_ove.Network.{Poco, Network}
use peer_to_peer_network_ove.Reliable.{
  ReliableMessage, Reliable, new_reliable, is_acknowledged, may_retry, retried,
  retry_pending_messages,
}
use peer_to_peer_network_ove.Reliable.Retry.{retry_pending_messages-lookup}
use peer_to_peer_network_ove.Reliable.Bound.{
  Call, run, run-Ascending, run-retry_count, retry_pending_messages-Ascending,
}
use peer_to_peer_network_ove.Prelude.{◌∙◌}
use peer_to_peer_network_ove.Prelude.{Bool-cases}

-- Every round is at least the timeout after the one before it.
abbrev pub Spaced : ℤ → TimePoint → List TimePoint → Type 0
Spaced seconds last [] = Unit {0}
Spaced seconds last (now ∷ times) =
    (ltb_ℤ (elapsed_seconds now last) seconds ≡ false) × Spaced seconds now times

module _ (env : Poco) (seconds : ℤ) (limit : ℕ) where
  unfoldable pub rounds : List TimePoint → Reliable → Reliable
  rounds [] r = r
  rounds (now ∷ times) r = rounds times (retry_pending_messages env seconds (pos limit) now r)

  rounds-none :
      (k : ℕ) (times : List TimePoint) (r : Reliable)
      → Ascending r.pending_messages
      → lookup k r.pending_messages ≡ none
      → lookup k (rounds times r).pending_messages ≡ none
  unfolding rounds
  rounds-none k [] r a absent = absent
  rounds-none k (now ∷ times) r a absent =
      let next = retry_pending_messages env seconds (pos limit) now r in
      rounds-none k times next (retry_pending_messages-Ascending env seconds (pos limit) now r a)
        (retry_pending_messages-lookup env now seconds (pos limit) r k a ∙ rw (absent) refl)

  rounds-give_up :
      (k : ℕ) (times : List TimePoint) (r : Reliable) (m : ReliableMessage)
      → Ascending r.pending_messages
      → lookup k r.pending_messages ≡ some m
      → is_acknowledged m ≡ false
      → Spaced seconds m.last_retry times
      → limit < m.retry_count + length times
      → m.retry_count ≤ limit
      → lookup k (rounds times r).pending_messages ≡ none
  unfolding rounds
  rounds-give_up k [] r m a found waits spaced enough few = absurd (omega arith)
  rounds-give_up k (now ∷ times) r m a found waits spaced enough few =
      let next = retry_pending_messages env seconds (pos limit) now r in
      let ascends = retry_pending_messages-Ascending env seconds (pos limit) now r a in
      let entry = retry_pending_messages-lookup env now seconds (pos limit) r k a in
      elim (Bool-cases (may_retry (pos limit) m)) [
        | inl again ↦
            rounds-give_up k times next (retried now m) ascends (ground (arith, entry)) waits
              spaced.1 (omega arith) (ground arith)
        | inr over ↦ rounds-none k times next ascends (ground (arith, entry))
      ]

  -- After any history of calls on a new ReliableMessaging with one maxRetries, a pending message that
  -- is not acknowledged is given up: after more than maxRetries rounds of retryPendingMessages, each
  -- at least the timeout after the one before it, the message is not pending any more.
  pub run-gives_up :
      (network : Network) (cs : List Call) (k : ℕ) (m : ReliableMessage) (times : List TimePoint)
      → lookup k (run env limit cs (new_reliable network)).pending_messages ≡ some m
      → is_acknowledged m ≡ false
      → Spaced seconds m.last_retry times
      → limit < length times
      → lookup k (rounds times (run env limit cs (new_reliable network))).pending_messages ≡ none
  run-gives_up network cs k m times found waits spaced enough =
      let r = run env limit cs (new_reliable network) in
      rounds-give_up k times r m (run-Ascending env limit network cs) found waits spaced
        (omega arith) (run-retry_count env limit network cs k m found)
