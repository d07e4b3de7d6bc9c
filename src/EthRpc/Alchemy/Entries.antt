-- ===== src/EthRpc/Alchemy/Entries.antt =====
-- The entries of a reply to `alchemy_getTokenBalances` (src/eth_rpc/servers/alchemy_rpc.rs).
use kakarot_rpc.Prelude.{ℕ, none, some, List, [], ◌∷◌, map, ◌≡◌, refl, ◌⊎◌, inl, inr}
use kakarot_rpc.Prelude.Bytes.{Bytes}
use kakarot_rpc.Prelude.Result.{Result, ok, err, panic, ◌>>=◌, try_collect}
use kakarot_rpc.Models.Balance.{TokenBalance, TokenBalances, token_balance_of}
use kakarot_rpc.EthProvider.Database.{EthProviderResult}
use kakarot_rpc.EthProvider.Error.{Messages, ErrorObject, EthProviderError, error_message}
use kakarot_rpc.EthProvider.Interface.{EthereumProvider}
use kakarot_rpc.EthRpc.Erc20.{TokenAbi, balance_of}
use kakarot_rpc.EthRpc.Alchemy.{latest_block, token_balance, token_balances}

module _ (P : EthereumProvider) (m : Messages) (abi : TokenAbi) (s : P.State)
    (address : Bytes) where
  abbrev pub latest_balance : Bytes → EthProviderResult ℕ
  latest_balance token = balance_of P abi s token address latest_block

  -- The entry of one token.
  pub data Entry (token : Bytes) : TokenBalance → Type 0 where
    found :
        (b : ℕ)
        → latest_balance token ≡ ok b
        → Entry token (record { token_address = token; token_balance = some b; error = none })
    failed :
        (e : EthProviderError)
        → latest_balance token ≡ err e
        → Entry token (record {
          token_address = token;
          token_balance = none;
          error = some (error_message m e);
        })

  abbrev pub Entries : List Bytes → List TokenBalance → Type 0
  Entries [] [] = Unit
  Entries [] (_ ∷ _) = ⊥
  Entries (_ ∷ _) [] = ⊥
  Entries (t ∷ ts) (b ∷ bs) = Entry t b × Entries ts bs

  abbrev pub Panics : List Bytes → Type 0
  Panics [] = ⊥
  Panics (t ∷ ts) = (latest_balance t ≡ panic) ⊎ Panics ts

  data Collected (ts : List Bytes) : Result ErrorObject (List TokenBalance) → Type 0 where
    entries : (bs : List TokenBalance) → Entries ts bs → Collected ts (ok bs)
    panicked : Panics ts → Collected ts panic

  pub data Replied (ts : List Bytes) : Result ErrorObject TokenBalances → Type 0 where
    entries :
        (bs : List TokenBalance)
        → Entries ts bs
        → Replied ts (ok (record { address = address; token_balances = bs }))
    panicked : Panics ts → Replied ts panic

  one_more :
      (t : Bytes) (b : TokenBalance) (ts : List Bytes) (r : Result ErrorObject (List TokenBalance))
      → Entry t b
      → Collected ts r
      → Collected (t ∷ ts) (r >>= λ bs. ok (b ∷ bs))
  one_more t b ts _ e (Collected.entries bs es) = Collected.entries (b ∷ bs) (e, es)
  one_more t b ts _ e (Collected.panicked p) = Collected.panicked (inr p)

  first_one :
      (t : Bytes) (ts : List Bytes) (r : EthProviderResult ℕ)
      (rest : Result ErrorObject (List TokenBalance))
      → latest_balance t ≡ r
      → Collected ts rest
      → Collected (t ∷ ts) (token_balance_of m t r >>= λ b. rest >>= λ bs. ok (b ∷ bs))
  unfolding token_balance_of
  first_one t ts (ok b) rest h c = one_more t _ ts rest (Entry.found b h) c
  first_one t ts (err e) rest h c = one_more t _ ts rest (Entry.failed e h) c
  first_one t ts panic rest h c = Collected.panicked (inl h)

  collect :
      (ts : List Bytes) → Collected ts (try_collect (map (token_balance P m abi s address) ts))
  collect [] = Collected.entries [] tt
  collect (t ∷ ts) = first_one t ts (latest_balance t) _ refl (collect ts)

  reply :
      (ts : List Bytes) (r : Result ErrorObject (List TokenBalance))
      → Collected ts r
      → Replied ts (r >>= λ bs. ok (record { address = address; token_balances = bs }))
  reply ts _ (Collected.entries bs es) = Replied.entries bs es
  reply ts _ (Collected.panicked p) = Replied.panicked p

  -- The reply of `alchemy_getTokenBalances` is never an error: it has one entry for each token, in
  -- their order, with the balance at the latest block, or else with the text of the error of that
  -- balance alone. It panics only if the balance of some token does.
  pub token_balances-Replied : (ts : List Bytes) → Replied ts (token_balances P m abi s address ts)
  unfolding token_balances
  token_balances-Replied ts = reply ts _ (collect ts)
