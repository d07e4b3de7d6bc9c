-- ===== src/Tests/Start.antt =====
-- The program is started over Katana, with `hive`.
use text.Mathlib.Text.{◌==◌ as str_eq}
use kakarot_rpc.Prelude.{ℕ, ◌+◌, String, true, Option, some, ◌≡◌, refl, if◌then◌else◌, dec_lt}
use kakarot_rpc.Prelude.Result.{ok}
use kakarot_rpc.Config.{
  Host, from_env, network_of, provider_url, starknet_client, with_http, env_var_to_field_element,
}
use kakarot_rpc.EthRpc.Module.{new, rpc_module}
use kakarot_rpc.EthRpc.Server.{
  ServerCrates, rpc_config_from_env, max_connections, parse_u32, digits_u32, run_server,
}
use kakarot_rpc.Main.{MainCrates, Running, set_deployer, deployer_of, main}
use kakarot_rpc.Tests.Setup.{test_json_rpc, test_servers}

-- The name of the network is there, and any other variable is its own name.
abbrev katana_host : Host
katana_host = record {
  Url = String;
  Felt = ℕ;
  var = λ name.
      if str_eq name "STARKNET_NETWORK"
      then some "katana"
      else if str_eq name "RPC_MAX_CONNECTIONS"
      then some "250"
      else some name;
  var_message = "environment variable not found";
  to_lowercase = λ s. s;
  parse_url = λ s. ok s;
  from_hex_be = λ s. ok 0;
}

-- An address is its text; a server is its number of connections and its address.
abbrev server_crates : ServerCrates test_json_rpc
server_crates = record {
  SocketAddr = String;
  Middleware = Unit {0};
  Server = ℕ × String;
  ServerHandle = ℕ × (String → Option ℕ);
  proxy_get_request_layer = λ path method. ok tt;
  parse_socket_addr = λ text. ok text;
  build = λ connections middleware addr. ok (connections, addr);
  local_addr = λ server. ok server.1;
  start = λ server methods. (server.0, methods);
}

abbrev main_crates : MainCrates katana_host test_json_rpc
main_crates = record {
  debug = λ network. "network";
  Client = String;
  Database = String;
  init_tracing = ok tt;
  with_uri_str = λ uri. ok uri;
  database_with_options = λ client name. name;
  servers = λ db client. test_servers;
  register_message = λ e. "method registered twice";
  chain_id = λ url. ok 1;
  deployer_nonce = λ chain_id. ok (chain_id + 6);
}

running :
    (w : Running katana_host test_json_rpc server_crates main_crates) × (main katana_host
        test_json_rpc server_crates main_crates true
      ≡ ok w)
unfolding main from_env network_of env_var_to_field_element rpc_config_from_env starknet_client
    provider_url with_http set_deployer deployer_of rpc_module new run_server max_connections
    parse_u32 digits_u32 dec_lt
running = (_, refl)

-- The number of connections is read, and refused at 2^32.
parse_u32_read : parse_u32 "250" ≡ ok 250
unfolding parse_u32 digits_u32
parse_u32_read = refl

running_limited : running.0.server_handle.0 ≡ 250
unfolding running
running_limited = refl
