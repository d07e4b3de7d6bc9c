-- ===== src/Config/Networks.antt =====
-- Which networks have which URL, and which client it has.
use kakarot_rpc.Prelude.{String, ◌≡◌, ◌≢◌, refl, ap, ◌∙◌, Option, none, some}
use kakarot_rpc.Prelude.Result.{Result, ok, err, panic, ◌>>=◌, ok_or}
use kakarot_rpc.Config.{
  Host, Network, Gateway, KakarotRpcConfig, StarknetClient, gateway_url, provider_url, with_http,
  gateway_builder, starknet_client, client_of, http_client,
}

module _ (H : Host) (debug : Network H.Url → String) where
  -- No network has both a gateway URL and a provider URL.
  pub urls_exclusive :
      (network : Network H.Url) (gateway provider : H.Url)
      → gateway_url H debug network ≡ ok gateway
      → provider_url H debug network ≢ ok provider
  unfolding gateway_url provider_url
  urls_exclusive Network.katana g p h k = cc
  urls_exclusive Network.madara g p h k = cc
  urls_exclusive Network.sharingan g p h k = cc
  urls_exclusive Network.mainnet_gateway g p h k = cc
  urls_exclusive Network.goerli1_gateway g p h k = cc
  urls_exclusive Network.goerli2_gateway g p h k = cc
  urls_exclusive (Network.json_rpc_provider u) g p h k = cc

  -- The Starknet client of a configuration.
  pub data Started (config : KakarotRpcConfig H)
      : Result String (StarknetClient H.Url) → Type 0 where
    over_katana :
        (url : H.Url)
        → config.network ≡ Network.katana
        → H.parse_url "http://0.0.0.0:5050" ≡ ok url
        → Started config (ok (StarknetClient.json_rpc_client url))
    over_madara :
        (url : H.Url)
        → config.network ≡ Network.madara
        → H.parse_url "http://127.0.0.1:9944" ≡ ok url
        → Started config (ok (StarknetClient.json_rpc_client url))
    over_sharingan :
        (text : String) (url : H.Url)
        → config.network ≡ Network.sharingan
        → H.var "SHARINGAN_RPC_URL" ≡ some text
        → H.parse_url text ≡ ok url
        → Started config (ok (StarknetClient.json_rpc_client url))
    over_url :
        (url : H.Url)
        → config.network ≡ Network.json_rpc_provider url
        → Started config (ok (StarknetClient.json_rpc_client url))
    over_mainnet :
        config.network ≡ Network.mainnet_gateway
        → Started config (ok (StarknetClient.sequencer_gateway_provider Gateway.alpha_mainnet))
    over_goerli1 :
        config.network ≡ Network.goerli1_gateway
        → Started config (ok (StarknetClient.sequencer_gateway_provider Gateway.alpha_goerli))
    over_goerli2 :
        config.network ≡ Network.goerli2_gateway
        → Started config (ok (StarknetClient.sequencer_gateway_provider Gateway.alpha_goerli_2))
    no_variable :
        config.network ≡ Network.sharingan → H.var "SHARINGAN_RPC_URL" ≡ none → Started config panic
    no_url :
        (text : String)
        → config.network ≡ Network.sharingan
        → H.var "SHARINGAN_RPC_URL" ≡ some text
        → ((url : H.Url) → H.parse_url text ≢ ok url)
        → Started config panic

  http_client-Started :
      (config : KakarotRpcConfig H) (text : String) (r : Result String H.Url)
      → config.network ≡ Network.sharingan
      → H.var "SHARINGAN_RPC_URL" ≡ some text
      → H.parse_url text ≡ r
      → Started config (http_client H debug config r)
  http_client-Started config text (ok url) s t p = Started.over_sharingan text url s t p
  http_client-Started config text (err e) s t p = Started.no_url text s t (λ url k. cc)
  http_client-Started config text panic s t p = Started.no_url text s t (λ url k. cc)

  sharingan-Started :
      (config : KakarotRpcConfig H) (o : Option String)
      → config.network ≡ Network.sharingan
      → H.var "SHARINGAN_RPC_URL" ≡ o
      → Started config (
          http_client H debug config
            (ok_or "Missing env var SHARINGAN_RPC_URL" o >>= λ text. H.parse_url text))
  sharingan-Started config none s t = Started.no_variable s t
  sharingan-Started config (some text) s t =
      http_client-Started config text (H.parse_url text) s t refl

  katana_lem : provider_url H debug Network.katana ≡ H.parse_url "http://0.0.0.0:5050"
  unfolding provider_url
  katana_lem = refl

  madara_lem : provider_url H debug Network.madara ≡ H.parse_url "http://127.0.0.1:9944"
  unfolding provider_url
  madara_lem = refl

  sharingan_lem : provider_url H debug Network.sharingan ≡ (
      ok_or "Missing env var SHARINGAN_RPC_URL" (H.var "SHARINGAN_RPC_URL") >>= λ text.
      H.parse_url text)
  unfolding provider_url
  sharingan_lem = refl

  -- If the URLs of Katana and Madara in the code parse, the choice of the Starknet client succeeds
  -- for every network: it is a JSON-RPC client over the URL of Katana, of Madara, of the variable
  -- for Sharingan, or of the configuration, or the gateway of mainnet or of one of the two Goerli
  -- networks. Only for Sharingan it panics, if the variable is missing or is no URL.
  pub starknet_client-Started :
      (config : KakarotRpcConfig H) (katana_url madara_url : H.Url)
      → H.parse_url "http://0.0.0.0:5050" ≡ ok katana_url
      → H.parse_url "http://127.0.0.1:9944" ≡ ok madara_url
      → Started config (starknet_client H debug config)
  unfolding starknet_client gateway_builder with_http
  starknet_client-Started config katana_url madara_url hk hm = of_network config.network refl
    where
      of_network :
          (n : Network H.Url) → config.network ≡ n → Started config (client_of H debug config n)
      of_network Network.katana e =
          rw (ap (provider_url H debug) e ∙ katana_lem ∙ hk) (Started.over_katana katana_url e hk)
      of_network Network.madara e =
          rw (ap (provider_url H debug) e ∙ madara_lem ∙ hm) (Started.over_madara madara_url e hm)
      of_network Network.sharingan e =
          rw (ap (provider_url H debug) e ∙ sharingan_lem)
            (sharingan-Started config (H.var "SHARINGAN_RPC_URL") e refl)
      of_network Network.mainnet_gateway e = Started.over_mainnet e
      of_network Network.goerli1_gateway e = Started.over_goerli1 e
      of_network Network.goerli2_gateway e = Started.over_goerli2 e
      of_network (Network.json_rpc_provider url) e = Started.over_url url e
