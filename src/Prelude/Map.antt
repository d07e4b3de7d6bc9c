-- ===== src/Prelude/Map.antt =====
-- `HashMap` as an association list with one entry for each key.
use text.Mathlib.Text.{◌==◌ as str_eq}
use text.Mathlib.TextEquality.{eq_iff}
use mathlib.Core.Path.{◌≡◌, refl, ap, ◌∙◌}
use mathlib.Core.Logic.{◌≢◌}
use mathlib.Core.Bool.{Bool, true, false}
use mathlib.Core.Option.{Option, none, some}
use mathlib.Core.List.{List, [], ◌∷◌}
use Prim.Native.String.{String}
use native.Mathlib.Omega.{arith}

pub str_eq-same : (s t : String) → s ≡ t → str_eq s t ≢ false
str_eq-same s t p e = ground (arith, eq_iff s t)

abbrev pub decided : (s t : String) (b : Bool) → str_eq s t ≡ b → Dec (s ≡ t)
decided s t true e = yes ((eq_iff s t).0 e)
decided s t false e = no (λ p. str_eq-same s t p e)

abbrev pub string_dec : Discrete String
string_dec s t = decided s t (str_eq s t) refl

abbrev pub Map {ℓ κ} : Type ℓ → Type κ → Type (ℓ ⊔ κ)
Map K V = List (K × V)

module _ {ℓ κ} {K : Type ℓ} {V : Type κ} (dec : Discrete K) where
  abbrev pub get : K → Map K V → Option V
  get k [] = none
  get k (e ∷ m) = elim (dec k e.0) [ yes _ ↦ some e.1 | no _ ↦ get k m ]

  -- `insert`: the value of a key that is there is replaced.
  abbrev pub put : K → V → Map K V → Map K V
  put k v [] = (k, v) ∷ []
  put k v (e ∷ m) = elim (dec k e.0) [ yes _ ↦ (e.0, v) ∷ m | no _ ↦ e ∷ put k v m ]

  -- `extend`, and `collect` from the empty map
  abbrev pub extend : List (K × V) → Map K V → Map K V
  extend [] m = m
  extend (e ∷ es) m = extend es (put e.0 e.1 m)

  abbrev pub Has : K → Map K V → Type κ
  Has k m = (v : V) × (get k m ≡ some v)

  pub get-put : (k : K) (v : V) (m : Map K V) → get k (put k v m) ≡ some v
  get-put k v [] = ground arith
  get-put k v (e ∷ m) = ground (arith, get-put k v m)

  pub get-put_other : (k j : K) (v : V) (m : Map K V) → j ≢ k → get j (put k v m) ≡ get j m
  get-put_other k j v [] h = ground arith
  get-put_other k j v (e ∷ m) h = ground (arith, get-put_other k j v m h)

  pub put-Has : (k j : K) (v : V) (m : Map K V) → Has j m → Has j (put k v m)
  put-Has k j v m h = elim (dec j k) [
    | yes e ↦ (v, ap (λ i. get i (put k v m)) e ∙ get-put k v m)
    | no n ↦ (h.0, get-put_other k j v m n ∙ h.1)
  ]

-- The value of the first map, if it has one.
abbrev pub overlay {ℓ} : {V : Type ℓ} → Option V → Option V → Option V
overlay none o = o
overlay (some v) o = some v

module _ {ℓ κ} {K : Type ℓ} {V : Type κ} (dec : Discrete K) where
  -- No key comes twice.
  abbrev pub IsMap : Map K V → Type κ
  IsMap [] = Unit
  IsMap (e ∷ m) = (get dec e.0 m ≡ none) × IsMap m

  pub put-IsMap : (k : K) (v : V) (m : Map K V) → IsMap m → IsMap (put dec k v m)
  put-IsMap k v [] h = (refl, tt)
  put-IsMap k v (e ∷ m) h = ground (arith, put-IsMap k v m h.1, get-put_other dec k e.0 v m)

  -- `extend` by a map overlays it.
  pub get-extend :
      (k : K) (es m : Map K V)
      → IsMap es
      → get dec k (extend dec es m) ≡ overlay (get dec k es) (get dec k m)
  get-extend k [] m h = refl
  get-extend k (e ∷ es) m h = ground (
    arith,
    get-extend k es (put dec e.0 e.1 m) h.1,
    get-put dec e.0 e.1 m,
    get-put_other dec e.0 k e.1 m,
    h.0,
  )
