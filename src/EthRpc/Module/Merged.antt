-- ===== src/EthRpc/Module/Merged.antt =====
-- The module of all methods (src/eth_rpc/rpc.rs).
use kakarot_rpc.Prelude.{
  String, true, false, Option, none, some, List, [], ◌∷◌, map, All, ◌≡◌, ◌≢◌, ◌⊎◌, inl, inr, refl,
  sym, ap, ◌∙◌, subst, Bool-cases, arith,
}
use kakarot_rpc.Prelude.Map.{overlay}
use kakarot_rpc.Prelude.Result.{ok}
use kakarot_rpc.EthRpc.Module.Apart.{names_apart}
use kakarot_rpc.EthRpc.Module.{
  KakarotRpcModule, module_discrete, names_of, has_name, JsonRpc, MergesApart, Servers, new,
  merge_all, rpc_module,
}

-- The modules of a list differ, and a module is one of a list.
abbrev pub Distinct : List KakarotRpcModule → Type 0
Distinct [] = Unit
Distinct (k ∷ ks) = All (λ j. k ≢ j) ks × Distinct ks

abbrev pub AmongModules : KakarotRpcModule → List KakarotRpcModule → Type 0
AmongModules k [] = ⊥
AmongModules k (j ∷ js) = (k ≡ j) ⊎ AmongModules k js

module _ (J : JsonRpc) (s : Servers J) where
  abbrev pub entry_of : KakarotRpcModule → KakarotRpcModule × J.Methods
  entry_of k = (k, s.methods k)

  -- What `new` puts into the hash map, in one order.
  pub new-entries :
      new J s
      ≡ map entry_of (
          KakarotRpcModule.eth ∷ KakarotRpcModule.alchemy ∷ KakarotRpcModule.web3
          ∷ KakarotRpcModule.net ∷ [])
  unfolding new module_discrete
  new-entries = refl

  -- The method of a name, after the modules of a list have been added to `o`.
  abbrev method_after : String → List KakarotRpcModule → Option J.Callback → Option J.Callback
  method_after name [] o = o
  method_after name (k ∷ ks) o = method_after name ks (overlay (J.method name (s.methods k)) o)

  abbrev Apart : J.Methods → J.Methods → Type 0
  Apart a b = (name : String) → (J.method name a ≡ none) ⊎ (J.method name b ≡ none)

  overlay-none :
      (o p q : Option J.Callback)
      → (o ≡ none) ⊎ (q ≡ none)
      → (p ≡ none) ⊎ (q ≡ none)
      → (overlay p o ≡ none) ⊎ (q ≡ none)
  overlay-none o p q h k = ground arith

  module _ (M : MergesApart J)
      (registered : (k : KakarotRpcModule) (name : String)
        → has_name (names_of k) name ≡ false
        → J.method name (s.methods k) ≡ none) where
    methods-Apart : (k j : KakarotRpcModule) → k ≢ j → Apart (s.methods k) (s.methods j)
    methods-Apart k j n name = elim (Bool-cases (has_name (names_of k) name)) [
      | inl t ↦ inr (registered j name (names_apart k j name n t))
      | inr f ↦ inl (registered k name f)
    ]

    All-Apart :
        (m : J.Methods) (a : J.Methods) (k : KakarotRpcModule) (ks : List KakarotRpcModule)
        → ((name : String)
            → J.method name m ≡ overlay (J.method name (s.methods k)) (J.method name a))
        → All (λ j. k ≢ j) ks
        → All (λ j. Apart a (s.methods j)) ks
        → All (λ j. Apart m (s.methods j)) ks
    All-Apart m a k [] e d h = tt
    All-Apart m a k (j ∷ js) e d h = (
      λ name. rw (e name) (
          overlay-none (J.method name a) (J.method name (s.methods k)) (J.method name (s.methods j))
            (h.0 name) (methods-Apart k j d.0 name)),
      All-Apart m a k js e d.1 h.1,
    )

    merge_all_total :
        (order : List KakarotRpcModule) (a : J.Methods)
        → Distinct order
        → All (λ j. Apart a (s.methods j)) order
        → (m : J.Methods) × (merge_all J (map s.methods order) a ≡ ok m)
          × ((name : String) → J.method name m ≡ method_after name order (J.method name a))
    merge_all_total [] a d h = (a, refl, λ name. refl)
    merge_all_total (k ∷ ks) a d h =
        let (m, e, found) = M.merge-apart a (s.methods k) h.0 in
        let (m', e', found') = merge_all_total ks m d.1 (All-Apart m a k ks found d.0 h.1) in
        (m', rw (e, e'), λ name. found' name ∙ ap (method_after name ks) (found name))

    -- Behind the module that has a name, no other module changes what was found.
    method_after-kept :
        (name : String) (k : KakarotRpcModule) (ks : List KakarotRpcModule) (o : Option J.Callback)
        → has_name (names_of k) name ≡ true
        → All (λ j. k ≢ j) ks
        → method_after name ks o ≡ o
    method_after-kept name k [] o h d = refl
    method_after-kept name k (j ∷ js) o h d =
        ap (λ c. method_after name js (overlay c o))
          (registered j name (names_apart k j name d.0 h))
        ∙ method_after-kept name k js o h d.1

    overlay-none_right : (o : Option J.Callback) → overlay o none ≡ o
    overlay-none_right none = refl
    overlay-none_right (some c) = refl

    method_after-found :
        (name : String) (k : KakarotRpcModule) (order : List KakarotRpcModule)
        → has_name (names_of k) name ≡ true
        → Distinct order
        → AmongModules k order
        → method_after name order none ≡ J.method name (s.methods k)
    method_after-found name k [] h d i = absurd i
    method_after-found name k (j ∷ js) h d (inl e) =
        method_after-kept name k js (overlay (J.method name (s.methods j)) none) h
          (subst (λ x. All (λ y. x ≢ y) js) (sym e) d.0)
        ∙ overlay-none_right (J.method name (s.methods j))
        ∙ ap (λ x. J.method name (s.methods x)) (sym e)
    method_after-found name k (j ∷ js) h d (inr i) =
        ap (λ c. method_after name js (overlay c none))
          (registered j name (names_apart k j name (differ k j js d.0 i) h))
        ∙ method_after-found name k js h d.1 i
      where
        differ :
            (x y : KakarotRpcModule) (ys : List KakarotRpcModule)
            → All (λ z. y ≢ z) ys
            → AmongModules x ys
            → x ≢ y
        differ x y [] a b = absurd b
        differ x y (z ∷ zs) a (inl e) = λ q. a.0 (sym q ∙ e)
        differ x y (z ∷ zs) a (inr b) = differ x y zs a.1 b

    -- In whatever order the hash map gives its modules, all of them are merged without an error, if
    -- each registers methods under its own names only and `jsonrpsee` merges sets of methods that
    -- share no name; then every name is answered by the server of its namespace.
    pub rpc_module-answers :
        (order : List KakarotRpcModule) (k : KakarotRpcModule) (name : String)
        → Distinct order
        → AmongModules k order
        → has_name (names_of k) name ≡ true
        → (m : J.Methods) × (rpc_module J (map entry_of order) ≡ ok m)
          × (J.method name m ≡ J.method name (s.methods k))
    unfolding rpc_module
    rpc_module-answers order k name d i h =
        let (m, e, found) = merge_all_total order J.new_module d (at_start order) in
        (
          m,
          ap (λ l. merge_all J l J.new_module) (values order) ∙ e,
          found name
              ∙ ap (method_after name order) (M.method-new_module name)
              ∙ method_after-found name k order h d i,
        )
      where
        at_start : (ks : List KakarotRpcModule) → All (λ j. Apart J.new_module (s.methods j)) ks
        at_start [] = tt
        at_start (j ∷ js) = (λ n. inl (M.method-new_module n), at_start js)

        values :
            (ks : List KakarotRpcModule)
            → map (λ (e : KakarotRpcModule × J.Methods). e.1) (map entry_of ks) ≡ map s.methods ks
        values [] = refl
        values (j ∷ js) = ap (λ l. s.methods j ∷ l) (values js)
