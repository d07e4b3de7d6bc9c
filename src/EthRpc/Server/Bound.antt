-- ===== src/EthRpc/Server/Bound.antt =====
-- What a server that `run_server` (src/eth_rpc/mod.rs) started is bound to.
use kakarot_rpc.Prelude.{ℕ, String, ◌≡◌, refl, subst}
use kakarot_rpc.Prelude.Result.{ok, map_err}
use kakarot_rpc.EthProvider.Database.Reads.{>>=-eq-ok, ok_injective, map_err-eq-ok}
use kakarot_rpc.Config.{Host}
use kakarot_rpc.EthRpc.Module.{JsonRpc}
use kakarot_rpc.EthRpc.Server.{ServerCrates, RpcConfig, RpcError, max_connections, run_server}

module _ (H : Host) (J : JsonRpc) (S : ServerCrates J) where
  -- The server is bound to the address of a text, and serves methods.
  pub record Bound (methods : J.Methods) (text : String) (addr : S.SocketAddr)
      (handle : S.ServerHandle) : Type 0 where
    pub middleware : S.Middleware
    pub connections : ℕ
    pub socket_addr : S.SocketAddr
    pub server : S.Server
    pub health : S.proxy_get_request_layer "/health" "net_health" ≡ ok middleware
    pub limited : max_connections H ≡ ok connections
    pub parsed : S.parse_socket_addr text ≡ ok socket_addr
    pub built : S.build connections middleware socket_addr ≡ ok server
    pub bound : S.local_addr server ≡ ok addr
    pub started : S.start server methods ≡ handle

  pub run_server-Bound :
      (methods : J.Methods) (config : RpcConfig) (p : S.SocketAddr × S.ServerHandle)
      → run_server H J S methods config ≡ ok p
      → Bound methods config.socket_addr p.0 p.1
  unfolding run_server
  run_server-Bound methods config p h =
      let (l, e1, h1) =
        >>=-eq-ok
          (map_err RpcError.json_rpc_error (S.proxy_get_request_layer "/health" "net_health")) _ p
          h in
      let (n, e2, h2) = >>=-eq-ok (max_connections H) _ p h1 in
      let (at, e3, h3) =
        >>=-eq-ok (map_err RpcError.parse_error (S.parse_socket_addr config.socket_addr)) _ p h2 in
      let (server, e4, h4) = >>=-eq-ok (map_err RpcError.io_error (S.build n l at)) _ p h3 in
      let (addr, e5, h5) = >>=-eq-ok (map_err RpcError.io_error (S.local_addr server)) _ p h4 in
      subst (λ (q : S.SocketAddr × S.ServerHandle). Bound methods config.socket_addr q.0 q.1)
        (ok_injective (addr, S.start server methods) p h5)
        (record {
          middleware = l;
          connections = n;
          socket_addr = at;
          server = server;
          health = map_err-eq-ok RpcError.json_rpc_error _ l e1;
          limited = e2;
          parsed = map_err-eq-ok RpcError.parse_error _ at e3;
          built = map_err-eq-ok RpcError.io_error _ server e4;
          bound = map_err-eq-ok RpcError.io_error _ addr e5;
          started = refl;
        })
