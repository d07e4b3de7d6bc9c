-- ===== src/Models/Balance.antt =====
-- Token balances (src/models/balance.rs).
use kakarot_rpc.Prelude.{ℕ, String, Option, none, some, List}
use kakarot_rpc.Prelude.Bytes.{Bytes}
use kakarot_rpc.Prelude.Result.{Result, ok, err, panic}
use kakarot_rpc.EthProvider.Error.{Messages, EthProviderError, error_message}

pub record TokenBalance : Type 0 where
  pub token_address : Bytes
  pub token_balance : Option ℕ
  pub error : Option String

pub record TokenBalances : Type 0 where
  pub address : Bytes
  pub token_balances : List TokenBalance

-- `Poll`
pub data Poll {ℓ} (A : Type ℓ) : Type ℓ where
  ready : A → Poll A
  pending : Poll A

module _ {ℓ} {Err : Type ℓ} (m : Messages) (token_address : Bytes) where
  -- The `match` on the output of the balance. A panic of the balance is a panic of the whole.
  unfoldable pub token_balance_of : Result EthProviderError ℕ → Result Err TokenBalance
  unfolding error_message
  token_balance_of (ok balance) =
      ok (record { token_address = token_address; token_balance = some balance; error = none })
  token_balance_of (err e) = ok (record {
    token_address = token_address;
    token_balance = none;
    error = some (error_message m e);
  })
  token_balance_of panic = panic

  abbrev as_ready : Result Err TokenBalance → Result Err (Poll TokenBalance)
  as_ready (ok b) = ok (ready b)
  as_ready (err e) = err e
  as_ready panic = panic

  -- `FutureTokenBalance::poll`, from what the poll of the balance gives
  unfoldable pub poll_token_balance :
      Poll (Result EthProviderError ℕ) → Result Err (Poll TokenBalance)
  unfolding token_balance_of
  poll_token_balance pending = ok pending
  poll_token_balance (ready output) = as_ready (token_balance_of output)
