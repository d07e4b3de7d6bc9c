-- ===== src/Prelude/Result.antt =====
-- `Result` with a third outcome for a panic (`unwrap`, `expect`, an index out of range).
use mathlib.Core.Option.{Option, none, some}
use mathlib.Core.List.{List, [], ◌∷◌}

pub data Result {ℓ κ} (E : Type ℓ) (A : Type κ) : Type (ℓ ⊔ κ) where
  ok : A → Result E A
  err : E → Result E A
  panic : Result E A

-- The `?` operator where the error type stays.
infixl 5 ◌>>=◌
abbrev pub ◌>>=◌ {ℓ κ ι} :
    {E : Type ℓ} {A : Type κ} {B : Type ι} → Result E A → (A → Result E B) → Result E B
ok a >>= f = f a
err e >>= f = err e
panic >>= f = panic

module _ {ℓ κ ι} {E : Type ℓ} {F : Type κ} {A : Type ι} where
  -- `map_err`, and the `From` conversion that `?` makes.
  abbrev pub map_err : (E → F) → Result E A → Result F A
  map_err f (ok a) = ok a
  map_err f (err e) = err (f e)
  map_err f panic = panic

module _ {ℓ κ} {E : Type ℓ} {A : Type κ} where
  -- `Option::ok_or`
  abbrev pub ok_or : E → Option A → Result E A
  ok_or e none = err e
  ok_or e (some a) = ok a

  -- `Option::unwrap`, `Result::unwrap` of a conversion that is an `Option` here
  abbrev pub unwrap : Option A → Result E A
  unwrap none = panic
  unwrap (some a) = ok a

  -- `try_collect` and `collect::<Result<Vec<_>, _>>`: the first failure ends the walk.
  abbrev pub try_collect : List (Result E A) → Result E (List A)
  try_collect [] = ok []
  try_collect (r ∷ rs) = do a ← r; as' ← try_collect rs; ok (a ∷ as')
