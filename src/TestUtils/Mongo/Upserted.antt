-- ===== src/TestUtils/Mongo/Upserted.antt =====
-- What a collection has after `update_many` (src/test_utils/mongo/mod.rs).
use kakarot_rpc.Prelude.{
  ◌≤◌, String, ◌<>◌, some, List, [], ◌∷◌, length, ◌≡◌, ◌≢◌, refl, ap, ◌∙◌, ℕ_discrete, arith,
}
use kakarot_rpc.Prelude.Hex.{Text}
use kakarot_rpc.Prelude.Result.{ok}
use kakarot_rpc.EthProvider.Document.{Document}
use kakarot_rpc.TestUtils.Mongo.{Driver, update_many, get_document, get_str}

pub text_discrete : Discrete Text
text_discrete = hlevel ℕ_discrete

-- What the driver documents of an upsert. `matching` is what the documents whose string at the
-- path `doc.value` is the text have at `doc`.
pub record Upserts (D : Driver) : Type 0 where
  pub matching : D.Collection → String → String → Text → List Document
  pub upsert :
      (c : D.Collection) (doc value : String) (text : Text) (u inner : Document)
      → get_document doc u ≡ some inner
      → get_str value inner ≡ some text
      → length (matching c doc value text) ≤ 1
      → (c' : D.Collection) × (D.update_one c (doc <> ("." <> value)) text u ≡ ok c')
        × (matching c' doc value text ≡ inner ∷ [])
        × ((other : Text) → other ≢ text → matching c' doc value other ≡ matching c doc value other)

-- The last entry of a text, or else what was there.
abbrev pub replay : Text → List (Text × Document) → List Document → List Document
replay t [] o = o
replay t (e ∷ es) o = replay t es (elim (text_discrete t e.0) [ yes _ ↦ e.1 ∷ [] | no _ ↦ o ])

-- A list of updates says these entries.
abbrev pub Says : String → String → List Document → List (Text × Document) → Type 0
Says doc value [] [] = Unit
Says doc value [] (e ∷ es) = ⊥
Says doc value (u ∷ us) [] = ⊥
Says doc value (u ∷ us) (e ∷ es) =
    (get_document doc u ≡ some e.1) × (get_str value e.1 ≡ some e.0) × Says doc value us es

module _ (D : Driver) (L : Upserts D) (doc value : String) where
  -- No two documents of the collection have the same string at the path.
  abbrev pub Unique : D.Collection → Type 0
  Unique c = (t : Text) → length (L.matching c doc value t) ≤ 1

  update-matching :
      (c c' : D.Collection) (t text : Text) (inner : Document)
      → L.matching c' doc value text ≡ inner ∷ []
      → ((other : Text)
          → other ≢ text
          → L.matching c' doc value other ≡ L.matching c doc value other)
      → L.matching c' doc value t
        ≡ elim (text_discrete t text) [ yes _ ↦ inner ∷ [] | no _ ↦ L.matching c doc value t ]
  update-matching c c' t text inner here elsewhere = of (text_discrete t text)
    where
      of :
          (d : Dec (t ≡ text))
          → L.matching c' doc value t
            ≡ elim d [ yes _ ↦ inner ∷ [] | no _ ↦ L.matching c doc value t ]
      of (yes e) = ap (L.matching c' doc value) e ∙ here
      of (no n) = elsewhere t n

  update-Unique :
      (c c' : D.Collection) (text : Text) (inner : Document)
      → Unique c
      → L.matching c' doc value text ≡ inner ∷ []
      → ((other : Text)
          → other ≢ text
          → L.matching c' doc value other ≡ L.matching c doc value other)
      → Unique c'
  update-Unique c c' text inner u here elsewhere t = elim (text_discrete t text) [
    | yes e ↦
        let one : length (L.matching c' doc value t) ≡ 1 =
          ap (λ s. length (L.matching c' doc value s)) e ∙ ap length here in
        omega (arith, one)
    | no n ↦
        let same : length (L.matching c' doc value t) ≡ length (L.matching c doc value t) =
          ap length (elsewhere t n) in
        omega (arith, same, u t)
  ]

  -- If the driver upserts as documented, then updates that have their strings succeed on every
  -- collection in which no string comes twice, and the collection then has under each string the
  -- last update that says it, and what it had before if none does; no string comes twice in it.
  pub update_many_refines :
      (updates : List Document) (entries : List (Text × Document)) (c : D.Collection)
      → Says doc value updates entries
      → Unique c
      → (c' : D.Collection) × (update_many D doc value c updates ≡ ok c')
        × Unique c'
        × ((t : Text) → L.matching c' doc value t ≡ replay t entries (L.matching c doc value t))
  unfolding update_many
  update_many_refines [] [] c s u = (c, refl, u, λ t. refl)
  update_many_refines [] (e ∷ es) c s u = absurd s
  update_many_refines (x ∷ xs) [] c s u = absurd s
  update_many_refines (x ∷ xs) (e ∷ es) c s u =
      let (c', at_c', here, elsewhere) = L.upsert c doc value e.0 x e.1 s.0 s.1 (u e.0) in
      let (c'', at_c'', unique, found) =
        update_many_refines xs es c' s.2 (update-Unique c c' e.0 e.1 u here elsewhere) in
      (
        c'',
        rw (s.0, s.1, at_c') at_c'',
        unique,
        λ t. found t ∙ ap (replay t es) (update-matching c c' t e.0 e.1 here elsewhere),
      )
