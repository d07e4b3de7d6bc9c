-- ===== src/EthRpc/Server.antt =====
-- The HTTP server (src/eth_rpc/mod.rs) and its configuration (src/eth_rpc/config.rs).
pub mod Bound
use Prim.Native.Char.{code}
use kakarot_rpc.Prelude.{
  ℕ, ◌+◌, ◌*◌, ◌-◌, ◌^◌, String, Option, none, some, ltb, leb, ◌&&◌, if◌then◌else◌,
}
use kakarot_rpc.Prelude.Result.{Result, ok, err, panic, ◌>>=◌, map_err, ok_or}
use kakarot_rpc.Config.{Host}
use kakarot_rpc.EthRpc.Module.{JsonRpc}

-- The crates of the server. Their errors are texts.
pub record ServerCrates (J : JsonRpc) : Type 1 where
  pub SocketAddr : Type 0
  pub Middleware : Type 0
  pub Server : Type 0
  pub ServerHandle : Type 0
  -- `ProxyGetRequestLayer::new`, of a path and a method, with the open `CorsLayer`
  pub proxy_get_request_layer : String → String → Result String Middleware
  pub parse_socket_addr : String → Result String SocketAddr
  -- `ServerBuilder` with its maximum of connections and its middleware, built at an address
  pub build : ℕ → Middleware → SocketAddr → Result String Server
  pub local_addr : Server → Result String SocketAddr
  pub start : Server → J.Methods → ServerHandle

pub data RpcError : Type 0 where
  io_error parse_error json_rpc_error : String → RpcError

-- The text of an error, which is that of the error that it wraps.
abbrev pub rpc_error_message : RpcError → String
rpc_error_message (RpcError.io_error e) = e
rpc_error_message (RpcError.parse_error e) = e
rpc_error_message (RpcError.json_rpc_error e) = e

-- `str::parse::<u32>`
pub data ParseIntError : Type 0 where
  empty invalid_digit pos_overflow : ParseIntError

abbrev digit_of : ℕ → Result ParseIntError ℕ
digit_of c = if leb 48 c && leb c 57 then ok (c - 48) else err ParseIntError.invalid_digit

abbrev checked_u32 : ℕ → Result ParseIntError ℕ
checked_u32 n = if ltb n (2 ^ 32) then ok n else err ParseIntError.pos_overflow

unfoldable pub digits_u32 : ℕ → String → Result ParseIntError ℕ
digits_u32 n String.[] = ok n
digits_u32 n (String.◌∷◌ c s) = do
  d ← digit_of (code c)
  next ← checked_u32 (n * 10 + d)
  digits_u32 next s

abbrev after_plus : String → Result ParseIntError ℕ
after_plus String.[] = err ParseIntError.invalid_digit
after_plus (String.◌∷◌ c s) = digits_u32 0 (String.◌∷◌ c s)

unfoldable pub parse_u32 : String → Result ParseIntError ℕ
parse_u32 String.[] = err ParseIntError.empty
parse_u32 (String.◌∷◌ c s) =
    let signed = after_plus s in
    let unsigned = digits_u32 0 (String.◌∷◌ c s) in
    if leb 43 (code c) && leb (code c) 43 then signed else unsigned

-- `RPCConfig`
pub record RpcConfig : Type 0 where
  pub socket_addr : String

module _ (H : Host) where
  unfoldable pub rpc_config_from_env : Result String RpcConfig
  rpc_config_from_env = do
    socket_addr ←
        ok_or "Missing mandatory environment variable: KAKAROT_RPC_URL" (H.var "KAKAROT_RPC_URL")
    ok (record { socket_addr = socket_addr })

  -- `parse().unwrap()` of the variable, or of "100" without it.
  abbrev connections_of : Option String → Result ParseIntError ℕ
  connections_of none = parse_u32 "100"
  connections_of (some text) = parse_u32 text

  abbrev unwrapped {ℓ} : {E : Type ℓ} → Result ParseIntError ℕ → Result E ℕ
  unwrapped (ok n) = ok n
  unwrapped _ = panic

  unfoldable pub max_connections : Result RpcError ℕ
  max_connections = unwrapped (connections_of (H.var "RPC_MAX_CONNECTIONS"))

  module _ (J : JsonRpc) (S : ServerCrates J) where
    unfoldable pub run_server :
        J.Methods → RpcConfig → Result RpcError (S.SocketAddr × S.ServerHandle)
    unfolding max_connections
    run_server kakarot_rpc_module rpc_config = do
      http_middleware ←
          map_err RpcError.json_rpc_error (S.proxy_get_request_layer "/health" "net_health")
      connections ← max_connections
      socket_addr ← map_err RpcError.parse_error (S.parse_socket_addr rpc_config.socket_addr)
      server ← map_err RpcError.io_error (S.build connections http_middleware socket_addr)
      addr ← map_err RpcError.io_error (S.local_addr server)
      ok (addr, S.start server kakarot_rpc_module)
