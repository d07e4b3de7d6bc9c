-- ===== src/Main.antt =====
-- `main` of src/main.rs: the configuration, the database and the node, and the server over them.
pub mod Serving
use kakarot_rpc.Prelude.{String, Bool, true, false, Option, none, some, if◌then◌else◌}
use kakarot_rpc.Prelude.Result.{Result, ok, err, panic, ◌>>=◌, map_err, unwrap}
use kakarot_rpc.Config.{
  Host, Network, KakarotRpcConfig, StarknetClient, from_env, provider_url, starknet_client,
}
use kakarot_rpc.EthRpc.Module.{JsonRpc, Servers, new, rpc_module}
use kakarot_rpc.EthRpc.Server.{
  ServerCrates, RpcConfig, rpc_error_message, rpc_config_from_env, run_server,
}

-- What `main` calls of other crates, and the servers over a provider. Errors are texts.
module _ (H : Host) (J : JsonRpc) where
  pub record MainCrates : Type 1 where
    pub debug : Network H.Url → String
    pub Client : Type 0
    pub Database : Type 0
    pub init_tracing : Result String (Unit {0})
    pub with_uri_str : String → Result String Client
    -- `database_with_options`, with majority concerns
    pub database_with_options : Client → String → Database
    -- `into_rpc` of the servers over `EthDataProvider::new`
    pub servers : Database → StarknetClient H.Url → Servers J
    pub register_message : J.RegisterMethodError → String
    -- `hive`: the chain id of the node at a URL, and the nonce of `DEPLOY_WALLET`, which is made
    -- with that chain id
    pub chain_id : H.Url → Result String H.Felt
    pub deployer_nonce : H.Felt → Result String H.Felt

  module _ (S : ServerCrates J) (X : MainCrates) where
    -- `CHAIN_ID` and `DEPLOY_WALLET_NONCE`, as `hive` sets them.
    pub record Deployer : Type 0 where
      pub chain_id : H.Felt
      pub nonce : H.Felt

    -- The program when it serves.
    pub record Running : Type 0 where
      pub server_addr : S.SocketAddr
      pub server_handle : S.ServerHandle
      pub deployer : Option Deployer

    -- `var(…).expect(…)`
    abbrev pub expect_var : String → Result String String
    expect_var name = unwrap (H.var name)

    abbrev pub expect_url : Result String H.Url → Result String H.Url
    expect_url (ok url) = ok url
    expect_url _ = panic

    -- The block of the feature `hive`.
    unfoldable pub set_deployer : KakarotRpcConfig H → Result String Deployer
    set_deployer starknet_config = do
      url ← expect_url (provider_url H X.debug starknet_config.network)
      chain_id ← X.chain_id url
      deployer_nonce ← X.deployer_nonce chain_id
      ok (record { chain_id = chain_id; nonce = deployer_nonce })

    unfoldable pub deployer_of : Bool → KakarotRpcConfig H → Result String (Option Deployer)
    unfolding set_deployer
    deployer_of hive starknet_config =
        let set = set_deployer starknet_config >>= λ deployer. ok (some deployer) in
        if hive then set else ok none

    unfoldable pub main : Bool → Result String Running
    main hive = do
      _ ← X.init_tracing
      starknet_config ← from_env H
      rpc_config ← rpc_config_from_env H
      starknet_provider ← starknet_client H X.debug starknet_config
      uri ← expect_var "MONGO_CONNECTION_STRING"
      db_client ← X.with_uri_str uri
      name ← expect_var "MONGO_DATABASE_NAME"
      let db = X.database_with_options db_client name
      deployer ← deployer_of hive starknet_config
      kakarot_rpc_module ←
          map_err X.register_message (rpc_module J (new J (X.servers db starknet_provider)))
      started ← map_err rpc_error_message (run_server H J S kakarot_rpc_module rpc_config)
      ok (record { server_addr = started.0; server_handle = started.1; deployer = deployer })
