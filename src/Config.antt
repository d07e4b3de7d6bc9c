-- ===== src/Config.antt =====
-- The configuration (src/config.rs) and the choice of the Starknet provider at the start
-- (src/main.rs).
pub mod Networks
use text.Mathlib.Text.{◌==◌ as str_eq}
use kakarot_rpc.Prelude.{String, ◌<>◌, Option, none, some, if◌then◌else◌}
use kakarot_rpc.Prelude.Result.{Result, ok, err, panic, ◌>>=◌, unwrap, ok_or}

-- What the code takes from the process and from other crates. Errors are their texts.
pub record Host : Type 1 where
  pub Url : Type 0
  pub Felt : Type 0
  -- `std::env::var`; the text of its error
  pub var : String → Option String
  pub var_message : String
  pub to_lowercase : String → String
  pub parse_url : String → Result String Url
  pub from_hex_be : String → Result String Felt

pub data Network (Url : Type 0) : Type 0 where
  katana madara sharingan mainnet_gateway goerli1_gateway goerli2_gateway : Network Url
  json_rpc_provider : Url → Network Url

-- `SequencerGatewayProvider::starknet_alpha_…()`
pub data Gateway : Type 0 where
  alpha_mainnet alpha_goerli alpha_goerli_2 : Gateway

module _ (H : Host) (debug : Network H.Url → String) where
  -- `eyre!("Network {:?} is not supported for …")`
  abbrev not_supported : String → Network H.Url → String
  not_supported purpose network = "Network " <> debug network <> " is not supported for " <> purpose

  unfoldable pub gateway_url : Network H.Url → Result String H.Url
  gateway_url Network.mainnet_gateway =
      H.parse_url "https://alpha-mainnet.starknet.io/feeder_gateway/"
  gateway_url Network.goerli1_gateway = H.parse_url "https://alpha4.starknet.io/feeder_gateway/"
  gateway_url Network.goerli2_gateway = H.parse_url "https://alpha4-2.starknet.io/feeder_gateway/"
  gateway_url network = err (not_supported "gateway url" network)

  unfoldable pub provider_url : Network H.Url → Result String H.Url
  provider_url Network.katana = H.parse_url "http://0.0.0.0:5050"
  provider_url Network.madara = H.parse_url "http://127.0.0.1:9944"
  provider_url Network.sharingan = do
    text ← ok_or "Missing env var SHARINGAN_RPC_URL" (H.var "SHARINGAN_RPC_URL")
    H.parse_url text
  provider_url (Network.json_rpc_provider url) = ok url
  provider_url network = err (not_supported "provider url" network)

module _ (H : Host) where
  pub record KakarotRpcConfig : Type 0 where
    pub network : Network H.Url
    pub kakarot_address : H.Felt
    pub proxy_account_class_hash : H.Felt
    pub externally_owned_account_class_hash : H.Felt
    pub contract_account_class_hash : H.Felt

  -- `var(…)?`
  abbrev env_var : String → Result String String
  env_var name = ok_or H.var_message (H.var name)

  unfoldable pub env_var_to_field_element : String → Result String H.Felt
  env_var_to_field_element name = do text ← env_var name; H.from_hex_be text

  -- The `match` on the name of the network.
  unfoldable pub network_of : String → Result String (Network H.Url)
  network_of name =
      if str_eq name "katana"
      then ok Network.katana
      else if str_eq name "madara"
      then ok Network.madara
      else if str_eq name "sharingan"
      then ok Network.sharingan
      else if str_eq name "mainnet"
      then ok Network.mainnet_gateway
      else if str_eq name "goerli1"
      then ok Network.goerli1_gateway
      else if str_eq name "goerli2"
      then ok Network.goerli2_gateway
      else if str_eq name "testnet"
      then ok Network.goerli1_gateway
      else (H.parse_url name >>= λ url. ok (Network.json_rpc_provider url))

  unfoldable pub from_env : Result String KakarotRpcConfig
  unfolding network_of env_var_to_field_element
  from_env = do
    name ← env_var "STARKNET_NETWORK"
    network ← network_of (H.to_lowercase name)
    kakarot ← env_var_to_field_element "KAKAROT_ADDRESS"
    proxy ← env_var_to_field_element "PROXY_ACCOUNT_CLASS_HASH"
    eoa ← env_var_to_field_element "EXTERNALLY_OWNED_ACCOUNT_CLASS_HASH"
    contract ← env_var_to_field_element "CONTRACT_ACCOUNT_CLASS_HASH"
    ok (record {
      network = network;
      kakarot_address = kakarot;
      proxy_account_class_hash = proxy;
      externally_owned_account_class_hash = eoa;
      contract_account_class_hash = contract;
    })

-- `JsonRpcClientBuilder::with_http`: the client is the URL of its transport here.
module _ (H : Host) (debug : Network H.Url → String) where
  unfoldable pub with_http : KakarotRpcConfig H → Result String H.Url
  with_http config = provider_url H debug config.network

-- `SequencerGatewayProviderBuilder::new`
unfoldable pub gateway_builder {ℓ} : {Url : Type 0} {E : Type ℓ} → Network Url → Result E Gateway
gateway_builder Network.mainnet_gateway = ok Gateway.alpha_mainnet
gateway_builder Network.goerli1_gateway = ok Gateway.alpha_goerli
gateway_builder Network.goerli2_gateway = ok Gateway.alpha_goerli_2
gateway_builder _ = panic

-- `enum StarknetProvider` of `main.rs`
pub data StarknetClient (Url : Type 0) : Type 0 where
  json_rpc_client : Url → StarknetClient Url
  sequencer_gateway_provider : Gateway → StarknetClient Url

module _ (H : Host) (debug : Network H.Url → String) where
  -- `with_http(…).unwrap()`
  abbrev http_client :
      KakarotRpcConfig H → Result String H.Url → Result String (StarknetClient H.Url)
  http_client config (ok url) = ok (StarknetClient.json_rpc_client url)
  http_client config _ = panic

  abbrev client_of : KakarotRpcConfig H → Network H.Url → Result String (StarknetClient H.Url)
  client_of config Network.madara = http_client config (with_http H debug config)
  client_of config Network.katana = http_client config (with_http H debug config)
  client_of config Network.sharingan = http_client config (with_http H debug config)
  client_of config (Network.json_rpc_provider url) = ok (StarknetClient.json_rpc_client url)
  client_of config network = do
    gateway ← gateway_builder network
    ok (StarknetClient.sequencer_gateway_provider gateway)

  -- The choice of `main`.
  unfoldable pub starknet_client : KakarotRpcConfig H → Result String (StarknetClient H.Url)
  starknet_client config = client_of config config.network
