-- ===== src/EthRpc/Module/Apart.antt =====
-- The names of the four namespaces (src/eth_rpc/api) are different.
use text.Mathlib.Text.{◌==◌ as str_eq}
use text.Mathlib.TextEquality.{eq_iff}
use kakarot_rpc.Prelude.{
  String, Bool, true, false, ◌&&◌, ◌||◌, not, List, [], ◌∷◌, ◌≡◌, ◌≢◌, refl, arith,
}
use kakarot_rpc.EthRpc.Module.{KakarotRpcModule, names_of, has_name}

abbrev none_of : List String → List String → Bool
none_of ys [] = true
none_of ys (x ∷ xs) = not (has_name ys x) && none_of ys xs

not-true : (b : Bool) → not b ≡ true → b ≡ false
not-true b h = ground arith

and_parts : (a b : Bool) → (a && b) ≡ true → (a ≡ true) × (b ≡ true)
and_parts a b h = ground arith

none_of-apart :
    (xs ys : List String) (name : String)
    → none_of ys xs ≡ true
    → has_name xs name ≡ true
    → has_name ys name ≡ false
none_of-apart [] ys name h k = cc
none_of-apart (x ∷ xs) ys name h k =
    let (at_x, at_xs) = and_parts (not (has_name ys x)) (none_of ys xs) h in
    of (str_eq name x) refl k at_x (none_of-apart xs ys name at_xs)
  where
    of :
        (b : Bool)
        → str_eq name x ≡ b
        → (b || has_name xs name) ≡ true
        → not (has_name ys x) ≡ true
        → (has_name xs name ≡ true → has_name ys name ≡ false)
        → has_name ys name ≡ false
    of true e k' at_x rest = rw ((eq_iff name x).0 e) (not-true (has_name ys x) at_x)
    of false e k' at_x rest = rest k'

-- No name stands in two of the namespaces.
pub names_apart :
    (k j : KakarotRpcModule) (name : String)
    → k ≢ j
    → has_name (names_of k) name ≡ true
    → has_name (names_of j) name ≡ false
names_apart KakarotRpcModule.eth KakarotRpcModule.eth name n h = absurd (n refl)
names_apart KakarotRpcModule.alchemy KakarotRpcModule.alchemy name n h = absurd (n refl)
names_apart KakarotRpcModule.web3 KakarotRpcModule.web3 name n h = absurd (n refl)
names_apart KakarotRpcModule.net KakarotRpcModule.net name n h = absurd (n refl)
names_apart KakarotRpcModule.eth KakarotRpcModule.alchemy name n h =
    none_of-apart (names_of KakarotRpcModule.eth) (names_of KakarotRpcModule.alchemy) name refl h
names_apart KakarotRpcModule.eth KakarotRpcModule.web3 name n h =
    none_of-apart (names_of KakarotRpcModule.eth) (names_of KakarotRpcModule.web3) name refl h
names_apart KakarotRpcModule.eth KakarotRpcModule.net name n h =
    none_of-apart (names_of KakarotRpcModule.eth) (names_of KakarotRpcModule.net) name refl h
names_apart KakarotRpcModule.alchemy KakarotRpcModule.eth name n h =
    none_of-apart (names_of KakarotRpcModule.alchemy) (names_of KakarotRpcModule.eth) name refl h
names_apart KakarotRpcModule.alchemy KakarotRpcModule.web3 name n h =
    none_of-apart (names_of KakarotRpcModule.alchemy) (names_of KakarotRpcModule.web3) name refl h
names_apart KakarotRpcModule.alchemy KakarotRpcModule.net name n h =
    none_of-apart (names_of KakarotRpcModule.alchemy) (names_of KakarotRpcModule.net) name refl h
names_apart KakarotRpcModule.web3 KakarotRpcModule.eth name n h =
    none_of-apart (names_of KakarotRpcModule.web3) (names_of KakarotRpcModule.eth) name refl h
names_apart KakarotRpcModule.web3 KakarotRpcModule.alchemy name n h =
    none_of-apart (names_of KakarotRpcModule.web3) (names_of KakarotRpcModule.alchemy) name refl h
names_apart KakarotRpcModule.web3 KakarotRpcModule.net name n h =
    none_of-apart (names_of KakarotRpcModule.web3) (names_of KakarotRpcModule.net) name refl h
names_apart KakarotRpcModule.net KakarotRpcModule.eth name n h =
    none_of-apart (names_of KakarotRpcModule.net) (names_of KakarotRpcModule.eth) name refl h
names_apart KakarotRpcModule.net KakarotRpcModule.alchemy name n h =
    none_of-apart (names_of KakarotRpcModule.net) (names_of KakarotRpcModule.alchemy) name refl h
names_apart KakarotRpcModule.net KakarotRpcModule.web3 name n h =
    none_of-apart (names_of KakarotRpcModule.net) (names_of KakarotRpcModule.web3) name refl h
