-- ===== src/EthProvider/Database/Ranges.antt =====
-- Range queries on the numbers of blocks, which are stored as texts.
use Prim.Native.Nat.{compare, Ordering}
use kakarot_rpc.Prelude.{
  ℕ, String, ◌≤◌, ◌<◌, ◌^◌, ◌≡◌, ◌≢◌, Option, some, List, [], ◌∷◌, arith, All, subst,
}
use kakarot_rpc.Prelude.Hex.{Text}
use kakarot_rpc.Prelude.Result.{ok}
use kakarot_rpc.EthProvider.Document.{Document, field, document, string}
use kakarot_rpc.EthProvider.Utils.{primitive_hex, format_hex}
use kakarot_rpc.EthProvider.Utils.HexOrder.{text_compare, format_hex_order}
use kakarot_rpc.EthProvider.Database.{MongoDatabase}

-- The range of texts of a filter.
abbrev pub between : Text → Text → Document
between lo hi = field "$gte" (string lo) (field "$lte" (string hi) Document.empty)

-- A document of the collection has its number at the key as the text that `format_hex` writes at 64
-- digits, and a filter with a range on that key finds documents whose text is in it, character by
-- character.
pub record RangeQueries (D : MongoDatabase) (collection key : String) : Type 0 where
  pub number_of : D.Raw → ℕ
  pub number_of-lt : (raw : D.Raw) → number_of raw < 2 ^ 64
  pub in_range :
      (lo hi : Text) (project : Option Document) (more : Document) (raws : List D.Raw)
      → D.find collection (some (field key (document (between lo hi)) more)) project ≡ ok raws
      → All
          (λ raw.
            (text_compare lo (format_hex primitive_hex (number_of raw) 64) ≢ Ordering.gt)
            × (text_compare (format_hex primitive_hex (number_of raw) 64) hi ≢ Ordering.gt))
          raws

pub All-map {ℓ κ ι} :
    {A : Type ℓ} {P : A → Type κ} {Q : A → Type ι} (f : (a : A) → P a → Q a) (xs : List A)
    → All P xs
    → All Q xs
All-map f [] h = tt
All-map f (x ∷ xs) h = (f x h.0, All-map f xs h.1)

compare-le : (a b : ℕ) → compare a b ≢ Ordering.gt → a ≤ b
compare-le a b h = ground arith

module _ (D : MongoDatabase) (collection key : String) (M : RangeQueries D collection key) where
  open M use {number_of, number_of-lt, in_range}

  abbrev pub Within : ℕ → ℕ → D.Raw → Type 0
  Within from to raw = (from ≤ number_of raw) × (number_of raw ≤ to)

  within :
      (from to : ℕ) (raw : D.Raw)
      → from < 2 ^ 64
      → to < 2 ^ 64
      → (text_compare
            (format_hex primitive_hex from 64)
            (format_hex primitive_hex (number_of raw) 64)
          ≢ Ordering.gt)
        × (text_compare
              (format_hex primitive_hex (number_of raw) 64)
              (format_hex primitive_hex to 64)
            ≢ Ordering.gt)
      → Within from to raw
  within from to raw hf ht h =
      let n = number_of-lt raw in
      (
        compare-le from (number_of raw) (
            subst (λ o. o ≢ Ordering.gt)
              (format_hex_order from (number_of raw) 64 hf n (omega arith)) h.0),
        compare-le (number_of raw) to (
            subst (λ o. o ≢ Ordering.gt) (format_hex_order (number_of raw) to 64 n ht (omega arith))
              h.1),
      )

  -- What a filter with a range of numbers finds.
  pub find-Within :
      (from to : ℕ) (project : Option Document) (more : Document) (raws : List D.Raw)
      → from < 2 ^ 64
      → to < 2 ^ 64
      → D.find collection
          (some (
            field key
              (document
                (between (format_hex primitive_hex from 64) (format_hex primitive_hex to 64)))
              more))
          project
        ≡ ok raws
      → All (Within from to) raws
  find-Within from to project more raws hf ht h =
      All-map (λ raw p. within from to raw hf ht p) raws
        (in_range (format_hex primitive_hex from 64) (format_hex primitive_hex to 64) project more
          raws h)
