-- ===== src/EthRpc/Module.antt =====
-- `KakarotRpcModuleBuilder` (src/eth_rpc/rpc.rs): the methods of the four servers in one module.
pub mod Apart
pub mod Merged
use text.Mathlib.Text.{◌==◌ as str_eq}
use kakarot_rpc.Prelude.{
  String, Bool, true, false, ◌||◌, Option, none, some, List, [], ◌∷◌, ◌++◌, map, any, ◌≡◌, ◌⊎◌,
}
use kakarot_rpc.Prelude.Map.{Map, put, overlay}
use kakarot_rpc.Prelude.Result.{Result, ok, err, ◌>>=◌}
use kakarot_rpc.EthRpc.Names.{eth_read_names, eth_other_names, alchemy_names, net_names, web3_names}

pub data KakarotRpcModule : Type 0 where
  eth alchemy web3 net : KakarotRpcModule

pub module_discrete : Discrete KakarotRpcModule
module_discrete = hlevel

abbrev pub names_of : KakarotRpcModule → List String
names_of KakarotRpcModule.eth = eth_read_names ++ eth_other_names
names_of KakarotRpcModule.alchemy = alchemy_names
names_of KakarotRpcModule.web3 = web3_names
names_of KakarotRpcModule.net = net_names

abbrev pub has_name : List String → String → Bool
has_name names name = any (str_eq name) names

-- `Methods` and `RpcModule` of `jsonrpsee`.
pub record JsonRpc : Type 1 where
  pub Methods : Type 0
  pub Callback : Type 0
  pub RegisterMethodError : Type 0
  pub method : String → Methods → Option Callback
  -- `RpcModule::new(())`
  pub new_module : Methods
  pub merge : Methods → Methods → Result RegisterMethodError Methods

-- What `jsonrpsee` documents: two sets of methods are merged if no name is in both, and the result
-- has the methods of both.
pub record MergesApart (J : JsonRpc) : Type 0 where
  pub method-new_module : (name : String) → J.method name J.new_module ≡ none
  pub merge-apart :
      (a b : J.Methods)
      → ((name : String) → (J.method name a ≡ none) ⊎ (J.method name b ≡ none))
      → (m : J.Methods) × (J.merge a b ≡ ok m)
        × ((name : String) → J.method name m ≡ overlay (J.method name b) (J.method name a))

module _ (J : JsonRpc) where
  -- The servers over one provider, as `into_rpc` makes methods of them.
  pub record Servers : Type 0 where
    pub methods : KakarotRpcModule → J.Methods

  -- `KakarotRpcModuleBuilder::new`
  unfoldable pub new : Servers → Map KakarotRpcModule J.Methods
  unfolding module_discrete
  new s = put module_discrete KakarotRpcModule.net (s.methods KakarotRpcModule.net) (
      put module_discrete KakarotRpcModule.web3 (s.methods KakarotRpcModule.web3) (
        put module_discrete KakarotRpcModule.alchemy (s.methods KakarotRpcModule.alchemy)
          (put module_discrete KakarotRpcModule.eth (s.methods KakarotRpcModule.eth) [])))

  abbrev pub merge_all : List J.Methods → J.Methods → Result J.RegisterMethodError J.Methods
  merge_all [] rpc_module = ok rpc_module
  merge_all (methods ∷ rest) rpc_module = do
    merged ← J.merge rpc_module methods
    merge_all rest merged

  -- `self.modules.values()`, in the order in which the hash map gives its entries.
  unfoldable pub rpc_module :
      Map KakarotRpcModule J.Methods → Result J.RegisterMethodError J.Methods
  rpc_module modules =
      merge_all (map (λ (e : KakarotRpcModule × J.Methods). e.1) modules) J.new_module
