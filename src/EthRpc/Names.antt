-- ===== src/EthRpc/Names.antt =====
-- The names under which the methods of the four namespaces are registered (src/eth_rpc/api).
use kakarot_rpc.Prelude.{String, List, [], ◌∷◌}

-- What is read of blocks, transactions, accounts, fees and calls.
abbrev pub eth_read_names : List String
eth_read_names =
    "eth_blockNumber" ∷ "eth_syncing" ∷ "eth_coinbase" ∷ "eth_accounts" ∷ "eth_chainId"
    ∷ "eth_getBlockByHash" ∷ "eth_getBlockByNumber" ∷ "eth_getBlockTransactionCountByHash"
    ∷ "eth_getBlockTransactionCountByNumber" ∷ "eth_getUncleCountByBlockHash"
    ∷ "eth_getUncleCountByBlockNumber" ∷ "eth_getUncleByBlockHashAndIndex"
    ∷ "eth_getUncleByBlockNumberAndIndex" ∷ "eth_getTransactionByHash"
    ∷ "eth_getTransactionByBlockHashAndIndex" ∷ "eth_getTransactionByBlockNumberAndIndex"
    ∷ "eth_getTransactionReceipt" ∷ "eth_getBalance" ∷ "eth_getStorageAt"
    ∷ "eth_getTransactionCount" ∷ "eth_getCode" ∷ "eth_getLogs" ∷ "eth_call"
    ∷ "eth_createAccessList" ∷ "eth_estimateGas" ∷ "eth_gasPrice" ∷ "eth_feeHistory"
    ∷ "eth_maxPriorityFeePerGas" ∷ "eth_blobBaseFee" ∷ []

-- Mining, sending, signing, proofs, filters and block receipts.
abbrev pub eth_other_names : List String
eth_other_names =
    "eth_mining" ∷ "eth_hashrate" ∷ "eth_getWork" ∷ "eth_submitHashrate" ∷ "eth_submitWork"
    ∷ "eth_sendTransaction" ∷ "eth_sendRawTransaction" ∷ "eth_sign" ∷ "eth_signTransaction"
    ∷ "eth_signTypedData" ∷ "eth_getProof" ∷ "eth_newFilter" ∷ "eth_newBlockFilter"
    ∷ "eth_newPendingTransactionFilter" ∷ "eth_uninstallFilter" ∷ "eth_getFilterChanges"
    ∷ "eth_getFilterLogs" ∷ "eth_getBlockReceipts" ∷ []

abbrev pub alchemy_names : List String
alchemy_names = "alchemy_getTokenBalances" ∷ []

abbrev pub net_names : List String
net_names = "net_version" ∷ "net_peerCount" ∷ "net_listening" ∷ "net_health" ∷ []

abbrev pub web3_names : List String
web3_names = "web3_clientVersion" ∷ "web3_sha3" ∷ []
