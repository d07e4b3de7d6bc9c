-- ===== src/TestUtils/Genesis/Classes.antt =====
-- The classes and the accounts that a builder starts with.
use kakarot_rpc.Prelude.{ℕ, String, Option, none, some, List, [], ◌∷◌, map}
use kakarot_rpc.Prelude.Map.{Map, extend, string_dec}
use kakarot_rpc.Prelude.Result.{Result, ok, err, panic, ◌>>=◌, ok_or, unwrap}
use kakarot_rpc.Felt.{FieldElement}
use kakarot_rpc.TestUtils.Genesis.Seed.{parse_seed}
use kakarot_rpc.TestUtils.Genesis.{GenesisCrates, KatanaGenesisBuilder, Status, update_state}

module _ (F : FieldElement) (C : GenesisCrates F) where
  -- `with_seed(parse_seed("0"))`. The fields of an account are copied.
  unfoldable pub with_dev_allocation :
      {T : Status} → ℕ → KatanaGenesisBuilder F C T → KatanaGenesisBuilder F C T
  with_dev_allocation amount b = record b {
    accounts = extend F.felt_eq (C.dev_allocations amount (parse_seed (48 ∷ []))) b.accounts;
  }

  -- A Cairo 1 class that does not compile, and a class that is of neither kind, are panics.
  abbrev hash_of_kind : C.Artifact → Option C.Artifact → Result String F.Felt
  hash_of_kind class (some sierra) = do
    bytes ← unwrap (C.compiled_class_hash sierra)
    ok_or C.bytes_message (F.from_bytes_be bytes)
  hash_of_kind class none = do legacy ← unwrap (C.parse_legacy class); C.legacy_class_hash legacy

  unfoldable pub compute_class_hash : C.Artifact → Result String F.Felt
  compute_class_hash class = hash_of_kind class (C.as_contract_class class)

  -- `filter_map` with `.ok()?`: a class without a hash is left out, and a panic stays one.
  abbrev keep_hash :
      String
      → Result String F.Felt
      → Result String (Map String F.Felt)
      → Result String (Map String F.Felt)
  keep_hash stem (ok h) rest = do hashes ← rest; ok ((stem, h) ∷ hashes)
  keep_hash stem (err e) rest = rest
  keep_hash stem panic rest = panic

  abbrev hashes_of : List (String × C.Artifact) → Result String (Map String F.Felt)
  hashes_of [] = ok []
  hashes_of (f ∷ files) = keep_hash f.0 (compute_class_hash f.1) (hashes_of files)

  abbrev artifact_of : String × C.Artifact → C.Artifact
  artifact_of f = f.1

  -- The files under the path, as stems with parsed artifacts, in the order in which they come.
  unfoldable pub load_classes :
      List (String × C.Artifact)
      → KatanaGenesisBuilder F C Status.uninitialized
      → Result String (KatanaGenesisBuilder F C Status.loaded)
  unfolding update_state
  load_classes files b = do
    hashes ← hashes_of files
    ok (
        update_state F C Status.loaded (record b {
          class_hashes = extend string_dec hashes [];
          classes = map artifact_of files;
        }))
