-- ===== src/Main/Serving.antt =====
-- What the program serves once `main` (src/main.rs) has started it.
use kakarot_rpc.Prelude.{String, Bool, true, false, Option, none, some, List, [], ◌∷◌, ◌≡◌}
use kakarot_rpc.Prelude.Result.{Result, ok}
use kakarot_rpc.Config.{
  Host, KakarotRpcConfig, StarknetClient, from_env, provider_url, starknet_client,
}
use kakarot_rpc.EthRpc.Module.{KakarotRpcModule, JsonRpc, new, rpc_module}
use kakarot_rpc.EthRpc.Server.{ServerCrates}
use kakarot_rpc.EthRpc.Server.Bound.{Bound}
use kakarot_rpc.Main.{MainCrates, Deployer, Running}

abbrev all_modules : List KakarotRpcModule
all_modules =
    KakarotRpcModule.eth ∷ KakarotRpcModule.alchemy ∷ KakarotRpcModule.web3 ∷ KakarotRpcModule.net
    ∷ []

module _ (H : Host) (J : JsonRpc) (S : ServerCrates J) (X : MainCrates H J) where
  -- With `hive`, the nonce of the deploy wallet at the start is that of the node at the URL of the
  -- network; without it there is none.
  pub SetFor : Bool → KakarotRpcConfig H → Option (Deployer H J S X) → Type 0
  SetFor false config d = d ≡ none
  SetFor true config d =
      (url : H.Url) × (chain_id nonce : H.Felt) × (provider_url H X.debug config.network ≡ ok url)
      × (X.chain_id url ≡ ok chain_id)
      × (X.deployer_nonce chain_id ≡ ok nonce)
      × (d ≡ some (record { chain_id = chain_id; nonce = nonce }))

  -- What a program that serves was started with.
  pub record Started (hive : Bool) (w : Running H J S X) : Type 0 where
    pub config : KakarotRpcConfig H
    pub text : String
    pub client : StarknetClient H.Url
    pub uri : String
    pub mongo : X.Client
    pub name : String
    pub methods : J.Methods
    pub configured : from_env H ≡ ok config
    pub at_text : H.var "KAKAROT_RPC_URL" ≡ some text
    pub over : starknet_client H X.debug config ≡ ok client
    pub at_uri : H.var "MONGO_CONNECTION_STRING" ≡ some uri
    pub connected : X.with_uri_str uri ≡ ok mongo
    pub named : H.var "MONGO_DATABASE_NAME" ≡ some name
    pub deployer : SetFor hive config w.deployer
    pub merged :
        rpc_module J (new J (X.servers (X.database_with_options mongo name) client)) ≡ ok methods
    pub serving : Bound H J S methods text w.server_addr w.server_handle
