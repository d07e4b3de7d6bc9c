-- ===== src/EthProvider/Database/Reads.antt =====
-- What a successful read says of the documents of the driver.
use kakarot_rpc.Prelude.{
  suc, String, ◌≡◌, refl, ap, ◌∙◌, sym, subst, Option, none, some, List, [], ◌∷◌, map, length,
  length-map,
}
use kakarot_rpc.Prelude.Result.{Result, ok, err, panic, ◌>>=◌, map_err, ok_or, try_collect}
use kakarot_rpc.EthProvider.Document.{Document}
use kakarot_rpc.EthProvider.Database.{
  MongoDatabase, StoredHeader, StoredLog, deserialize_intermediate, deserialize_header,
  deserialize_log, get,
}

pub ok_injective {ℓ κ} :
    {Err : Type ℓ} {A : Type κ} (a b : A) → ◌≡◌ {A = Result Err A} (ok a) (ok b) → a ≡ b
ok_injective a b h = cc

pub >>=-eq-ok {ℓ κ ι} :
    {Err : Type ℓ} {A : Type κ} {B : Type ι} (m : Result Err A) (f : A → Result Err B) (b : B)
    → (m >>= f) ≡ ok b
    → (a : A) × (m ≡ ok a) × (f a ≡ ok b)
>>=-eq-ok (ok a) f b h = (a, refl, h)
>>=-eq-ok (err e) f b h = cc
>>=-eq-ok panic f b h = cc

pub map_err-eq-ok {ℓ κ ι} :
    {Err : Type ℓ} {F : Type κ} {A : Type ι} (g : Err → F) (m : Result Err A) (a : A)
    → map_err g m ≡ ok a
    → m ≡ ok a
map_err-eq-ok g (ok b) a h = cc
map_err-eq-ok g (err e) a h = cc
map_err-eq-ok g panic a h = cc

pub ok_or-eq-ok {ℓ κ} :
    {Err : Type ℓ} {A : Type κ} (e : Err) (o : Option A) (a : A) → ok_or e o ≡ ok a → o ≡ some a
ok_or-eq-ok e none a h = cc
ok_or-eq-ok e (some x) a h = cc

length-try_collect {ℓ κ} :
    {Err : Type ℓ} {A : Type κ} (rs : List (Result Err A)) (as' : List A)
    → try_collect rs ≡ ok as'
    → length as' ≡ length rs
length-try_collect [] as' h = ap length (sym (ok_injective [] as' h))
length-try_collect (ok a ∷ rs) as' h =
    let (bs, e, k) = >>=-eq-ok (try_collect rs) (λ r. ok (a ∷ r)) as' h in
    ap length (sym (ok_injective (a ∷ bs) as' k)) ∙ ap suc (length-try_collect rs bs e)
length-try_collect (err e ∷ rs) as' h = cc
length-try_collect (panic ∷ rs) as' h = cc

-- A read that succeeds returns one value for each document that the driver found, since `get` fails
-- on the first document that does not deserialize.
pub get-length :
    (D : MongoDatabase) {T : Type 0} (deserialize : D.Raw → Result String T) (collection : String)
    (filter project : Option Document) (ts : List T)
    → get D deserialize collection filter project ≡ ok ts
    → (raws : List D.Raw) × (D.find collection filter project ≡ ok raws) × (length ts ≡ length raws)
unfolding get
get-length D deserialize collection filter project ts h =
    let (raws, found, rest) =
      >>=-eq-ok (D.find collection filter project) _ ts (map_err-eq-ok _ _ ts h) in
    (raws, found, length-try_collect (map deserialize raws) ts rest ∙ length-map deserialize raws)

-- Two lists have the same length, and their elements are related in their order.
abbrev pub Pairwise {ℓ κ} : {A : Type ℓ} {B : Type κ} → (A → B → Type 0) → List A → List B → Type 0
Pairwise R [] [] = Unit
Pairwise R [] (y ∷ ys) = ⊥
Pairwise R (x ∷ xs) [] = ⊥
Pairwise R (x ∷ xs) (y ∷ ys) = R x y × Pairwise R xs ys

pub Pairwise-map {ℓ κ ι} :
    {A : Type ℓ} {B : Type κ} {C : Type ι} (R : A → B → Type 0) (S : A → C → Type 0) (f : B → C)
    → ((a : A) (b : B) → R a b → S a (f b))
    → (xs : List A) (ys : List B) → Pairwise R xs ys
    → Pairwise S xs (map f ys)
Pairwise-map R S f g [] [] h = tt
Pairwise-map R S f g [] (y ∷ ys) h = absurd h
Pairwise-map R S f g (x ∷ xs) [] h = absurd h
Pairwise-map R S f g (x ∷ xs) (y ∷ ys) h = (g x y h.0, Pairwise-map R S f g xs ys h.1)

try_collect-Pairwise :
    {Err B : Type 0} {A : Type 0} (f : A → Result Err B) (xs : List A) (ys : List B)
    → try_collect (map f xs) ≡ ok ys
    → Pairwise (λ x y. f x ≡ ok y) xs ys
try_collect-Pairwise f [] [] h = tt
try_collect-Pairwise f [] (y ∷ ys) h = cc
try_collect-Pairwise f (x ∷ xs) ys h =
    let (b, e, h1) = >>=-eq-ok (f x) _ ys h in
    let (bs, k, h2) = >>=-eq-ok (try_collect (map f xs)) _ ys h1 in
    subst (Pairwise (λ x y. f x ≡ ok y) (x ∷ xs)) (ok_injective (b ∷ bs) ys h2)
      (e, try_collect-Pairwise f xs bs k)

-- A read that succeeds returns what the documents that the driver found deserialize to.
pub get-Pairwise :
    (D : MongoDatabase) {T : Type 0} (deserialize : D.Raw → Result String T) (collection : String)
    (filter project : Option Document) (ts : List T)
    → get D deserialize collection filter project ≡ ok ts
    → (raws : List D.Raw) × (D.find collection filter project ≡ ok raws)
      × Pairwise (λ raw t. deserialize raw ≡ ok t) raws ts
unfolding get
get-Pairwise D deserialize collection filter project ts h =
    let (raws, found, rest) =
      >>=-eq-ok (D.find collection filter project) _ ts (map_err-eq-ok _ _ ts h) in
    (raws, found, try_collect-Pairwise deserialize raws ts rest)

module _ (D : MongoDatabase) where
  -- A document has a value at a key, which makes a value of a map of its fields.
  abbrev pub StoredAt : {T : Type 0} → String → (D.Fields → Result String T) → D.Raw → T → Type 0
  StoredAt key of_map raw t =
      (at_key : D.Raw) × (fields : D.Fields) × (D.struct_field key raw ≡ ok at_key)
      × (D.as_map at_key ≡ ok fields)
      × (of_map fields ≡ ok t)

  deserialize_intermediate-eq-ok :
      {T : Type 0} (of_map : D.Fields → Result String T) (raw : D.Raw) (t : T)
      → deserialize_intermediate D of_map raw ≡ ok t
      → (fields : D.Fields) × (D.as_map raw ≡ ok fields) × (of_map fields ≡ ok t)
  unfolding deserialize_intermediate
  deserialize_intermediate-eq-ok of_map raw t h =
      let (fields, e, k) = >>=-eq-ok (D.as_map raw) _ t h in
      (fields, e, map_err-eq-ok D.custom (of_map fields) t k)

  pub deserialize_log-StoredAt :
      (raw : D.Raw) (l : StoredLog D)
      → deserialize_log D raw ≡ ok l
      → StoredAt "log" D.log_of_map raw l.log
  unfolding deserialize_log
  deserialize_log-StoredAt raw l h =
      let (at_key, e, h1) = >>=-eq-ok (D.struct_field "log" raw) _ l h in
      let (log, e', h2) = >>=-eq-ok (deserialize_intermediate D D.log_of_map at_key) _ l h1 in
      let (fields, k, k') = deserialize_intermediate-eq-ok D.log_of_map at_key log e' in
      subst (λ (x : StoredLog D). StoredAt "log" D.log_of_map raw x.log)
        (ok_injective (record { log = log }) l h2) (at_key, fields, e, k, k')

  pub deserialize_header-StoredAt :
      (raw : D.Raw) (stored : StoredHeader)
      → deserialize_header D raw ≡ ok stored
      → StoredAt "header" D.header_of_map raw stored.header
  unfolding deserialize_header
  deserialize_header-StoredAt raw stored h =
      let (at_key, e, h1) = >>=-eq-ok (D.struct_field "header" raw) _ stored h in
      let (header, e', h2) =
        >>=-eq-ok (deserialize_intermediate D D.header_of_map at_key) _ stored h1 in
      let (fields, k, k') = deserialize_intermediate-eq-ok D.header_of_map at_key header e' in
      subst (λ (x : StoredHeader). StoredAt "header" D.header_of_map raw x.header)
        (ok_injective (record { header = header }) stored h2) (at_key, fields, e, k, k')
