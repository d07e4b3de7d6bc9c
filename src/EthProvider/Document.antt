-- ===== src/EthProvider/Document.antt =====
-- Documents and filters as the MongoDB driver takes them (`bson::Document`, `doc!`).
use text.Mathlib.Text.{◌==◌ as str_eq}
use kakarot_rpc.Prelude.{String, List, [], ◌∷◌, if◌then◌else◌}
use kakarot_rpc.Prelude.Int.{ℤ}
use kakarot_rpc.Prelude.Hex.{Text}

mutual
  pub data Bson : Type 0 where
    string : Text → Bson
    path : String → Bson
    int : ℤ → Bson
    null : Bson
    array : Items → Bson
    document : Document → Bson

  pub data Items : Type 0 where
    nil : Items
    cons : Bson → Items → Items

  -- Keys in the order of their insertion.
  pub data Document : Type 0 where
    empty : Document
    field : String → Bson → Document → Document

-- `doc! { key: value }`
abbrev pub doc : String → Bson → Document
doc key value = field key value empty

abbrev pub items : List Bson → Items
items [] = nil
items (b ∷ bs) = cons b (items bs)

-- `Document::insert`: a key that is there keeps its place.
unfoldable pub insert : String → Bson → Document → Document
insert key value empty = field key value empty
insert key value (field k v rest) =
    if str_eq k key then field k value rest else field k v (insert key value rest)
