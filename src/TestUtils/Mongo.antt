-- ===== src/TestUtils/Mongo.antt =====
-- `update_many` (src/test_utils/mongo/mod.rs): documents are put into a collection, each under one
-- of its strings.
pub mod Documents
pub mod Upserted
use text.Mathlib.Text.{◌==◌ as str_eq}
use kakarot_rpc.Prelude.{String, ◌<>◌, Option, none, some, List, [], ◌∷◌, if◌then◌else◌}
use kakarot_rpc.Prelude.Hex.{Text}
use kakarot_rpc.Prelude.Result.{Result, ok, err, panic, ◌>>=◌, unwrap}
use kakarot_rpc.EthProvider.Document.{Bson, Document, string, document, empty, field}

-- `Document::get_document` and `Document::get_str`, of a key of any other kind too: no value.
abbrev as_document : Bson → Option Document
as_document (document d) = some d
as_document other = none

abbrev as_str : Bson → Option Text
as_str (string t) = some t
as_str other = none

unfoldable pub get_value : String → Document → Option Bson
get_value key empty = none
get_value key (field k v rest) = if str_eq k key then some v else get_value key rest

abbrev pub get_document : String → Document → Option Document
get_document key d = elim (get_value key d) [ none ↦ none | some v ↦ as_document v ]

abbrev pub get_str : String → Document → Option Text
get_str key d = elim (get_value key d) [ none ↦ none | some v ↦ as_str v ]

-- A collection of the driver.
pub record Driver : Type 1 where
  pub Collection : Type 0
  -- `update_one` with `$set` and `upsert`: a path with the string that it has, and the document
  pub update_one : Collection → String → Text → Document → Result String Collection

-- `Result::expect`
abbrev pub expected {ℓ} : {A : Type ℓ} → Result String A → Result String A
expected (ok a) = ok a
expected (err e) = panic
expected panic = panic

module _ (D : Driver) where
  -- `[doc, value].join(".")`
  abbrev pub path_of : String → String → String
  path_of doc value = doc <> ("." <> value)

  unfoldable pub update_many :
      String → String → D.Collection → List Document → Result String D.Collection
  update_many doc value collection [] = ok collection
  update_many doc value collection (u ∷ updates) = do
    inner ← unwrap (get_document doc u)
    text ← unwrap (get_str value inner)
    collection' ← expected (D.update_one collection (path_of doc value) text u)
    update_many doc value collection' updates
