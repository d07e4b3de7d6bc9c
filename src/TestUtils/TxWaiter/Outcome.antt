-- ===== src/TestUtils/TxWaiter/Outcome.antt =====
-- The outcomes of `watch_tx` (src/test_utils/tx_waiter.rs).
use kakarot_rpc.Prelude.{
  ℕ, zero, suc, ◌+◌, ◌<◌, ◌≡◌, refl, Option, none, some, leb, arith, dec_lt, subst, true, false,
}
use kakarot_rpc.Prelude.Result.{Result, err}
use kakarot_rpc.EthProvider.Error.{ProviderError}
use kakarot_rpc.TestUtils.TxWaiter.{
  ExecutionResult, WatchError, poll_once, watch_loop, watch_tx, or_else,
}

module _ (receipt : ℕ → Result ProviderError ExecutionResult) (count : ℕ) where
  abbrev Unanswered : ℕ → Type 0
  Unanswered i = (j : ℕ) → j < i → poll_once (receipt j) ≡ none

  -- Either an answer came to some poll before `count`, and it is the first one, or none came.
  pub data Watched : Option (Result WatchError (Unit {0})) → Type 0 where
    answered :
        (k : ℕ) (r : Result WatchError (Unit {0}))
        → k < count
        → Unanswered k
        → poll_once (receipt k) ≡ some r
        → Watched (some r)
    timed_out : Unanswered count → Watched (some (err (WatchError.not_confirmed count)))

  Unanswered-next : (i : ℕ) → Unanswered i → poll_once (receipt i) ≡ none → Unanswered (i + 1)
  Unanswered-next i before h j lt = elim (dec_lt j i) [
    | yes p ↦ before j p
    | no n ↦ let e : j ≡ i = omega arith in rw (e, h)
  ]

  watch_loop-Watched :
      (n i : ℕ) → i + n ≡ count → Unanswered i → Watched (watch_loop receipt count (suc n) i)
  unfolding watch_loop
  watch_loop-Watched zero i e before =
      let le : leb count i ≡ true = ground arith in
      rw le (Watched.timed_out (subst Unanswered (omega arith) before))
  watch_loop-Watched (suc n) i e before =
      let more : leb count i ≡ false = ground arith in
      rw more (
        after (poll_once (receipt i)) refl
          (λ h. watch_loop-Watched n (i + 1) (omega arith) (Unanswered-next i before h)))
    where
      after :
          (o : Option (Result WatchError (Unit {0})))
          → poll_once (receipt i) ≡ o
          → (poll_once (receipt i) ≡ none → Watched (watch_loop receipt count (suc n) (i + 1)))
          → Watched (or_else receipt count o (watch_loop receipt count (suc n) (i + 1)))
      after (some r) h rest = Watched.answered i r (omega arith) before h
      after none h rest = rest h

  -- The polling of a transaction ends: with the first answer among the first `count` polls, if
  -- there is one, and else with the error that the transaction was not confirmed.
  pub watch_tx-Watched : Watched (watch_tx receipt count)
  unfolding watch_tx
  watch_tx-Watched =
      let same : suc count ≡ count + 1 = omega arith in
      subst (λ fuel. Watched (watch_loop receipt count fuel 0)) same
        (watch_loop-Watched count 0 (omega arith) (λ j lt. absurd (omega arith)))
