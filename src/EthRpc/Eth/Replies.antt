-- ===== src/EthRpc/Eth/Replies.antt =====
-- What the server of `eth` replies without a provider, and what it leaves alone.
use text.Mathlib.Text.{◌==◌ as str_eq}
use kakarot_rpc.Prelude.{◌≡◌, ◌≢◌, refl, Bool, true, false, ◌||◌, String, ◌<>◌, List, [], ◌∷◌}
use kakarot_rpc.Prelude.Int.{negsuc}
use kakarot_rpc.Prelude.Result.{err}
use kakarot_rpc.EthProvider.Error.{Messages}
use kakarot_rpc.EthProvider.Interface.{EthereumProvider}
use kakarot_rpc.EthRpc.Eth.{handle}
use kakarot_rpc.EthRpc.Eth.Requests.{EthRequest, method_name}

abbrev listed : String → List String → Bool
listed name [] = false
listed name (n ∷ ns) = str_eq name n || listed name ns

-- The methods that Kakarot does not support.
abbrev pub unsupported : List String
unsupported =
    "eth_coinbase" ∷ "eth_createAccessList" ∷ "eth_blobBaseFee" ∷ "eth_submitHashrate"
    ∷ "eth_submitWork" ∷ "eth_sendTransaction" ∷ "eth_sign" ∷ "eth_signTransaction"
    ∷ "eth_signTypedData" ∷ "eth_getProof" ∷ "eth_newFilter" ∷ "eth_newBlockFilter"
    ∷ "eth_newPendingTransactionFilter" ∷ "eth_uninstallFilter" ∷ "eth_getFilterChanges"
    ∷ "eth_getFilterLogs" ∷ []

module _ (P : EthereumProvider) (m : Messages) {Value : Type 0} (s : P.State) where
  -- A request by a name on the list of unsupported methods is refused with the code -32004 and a
  -- message with that name, whatever its arguments and the state, and the state stays as it is.
  pub handle-unsupported :
      (r : EthRequest Value)
      → listed (method_name r) unsupported ≡ true
      → handle P m s r ≡ (
        err (record { code = negsuc 32003; message = "Method not supported: " <> method_name r }),
        s,
      )
  unfolding handle method_name
  handle-unsupported EthRequest.coinbase h = refl
  handle-unsupported (EthRequest.create_access_list _ _) h = refl
  handle-unsupported EthRequest.blob_base_fee h = refl
  handle-unsupported (EthRequest.submit_hashrate _ _) h = refl
  handle-unsupported (EthRequest.submit_work _ _ _) h = refl
  handle-unsupported (EthRequest.send_transaction _) h = refl
  handle-unsupported (EthRequest.sign _ _) h = refl
  handle-unsupported (EthRequest.sign_transaction _) h = refl
  handle-unsupported (EthRequest.sign_typed_data _ _) h = refl
  handle-unsupported (EthRequest.get_proof _ _ _) h = refl
  handle-unsupported (EthRequest.new_filter _) h = refl
  handle-unsupported EthRequest.new_block_filter h = refl
  handle-unsupported EthRequest.new_pending_transaction_filter h = refl
  handle-unsupported (EthRequest.uninstall_filter _) h = refl
  handle-unsupported (EthRequest.get_filter_changes _) h = refl
  handle-unsupported (EthRequest.get_filter_logs _) h = refl
  handle-unsupported _ h = cc

  -- Whatever the request and its outcome, only `eth_sendRawTransaction` changes the state.
  pub handle-reads :
      (r : EthRequest Value) → method_name r ≢ "eth_sendRawTransaction" → (handle P m s r).1 ≡ s
  unfolding handle method_name
  handle-reads (EthRequest.send_raw_transaction a) h = absurd (h refl)
  handle-reads _ h = refl
