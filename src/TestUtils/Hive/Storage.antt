-- ===== src/TestUtils/Hive/Storage.antt =====
-- The storage of the contract of an account (src/test_utils/hive/mod.rs).
use kakarot_rpc.Prelude.{
  String, Option, none, some, unwrap_or, List, [], ◌∷◌, ◌++◌, ◌≡◌, ◌≢◌, refl, sym, ap, ◌∙◌, subst,
}
use kakarot_rpc.Prelude.Bytes.{Bytes}
use kakarot_rpc.Prelude.Map.{Map, get, put, extend, get-put, get-put_other}
use kakarot_rpc.Prelude.Result.{Result, ok, ◌>>=◌}
use kakarot_rpc.EthProvider.Database.Reads.{ok_injective}
use kakarot_rpc.Felt.{FieldElement}
use kakarot_rpc.TestUtils.Genesis.{GenesisCrates}
use kakarot_rpc.TestUtils.Hive.{
  AccountInfo, AccountMaker, AccountType, KakarotAccount, ClassHashes, implementation_cells,
  account_cells,
}

module _ (F : FieldElement) where
  extend-append :
      (xs ys m : Map F.Felt F.Felt)
      → extend F.felt_eq (xs ++ ys) m ≡ extend F.felt_eq ys (extend F.felt_eq xs m)
  extend-append [] ys m = refl
  extend-append (x ∷ xs) ys m = extend-append xs ys (put F.felt_eq x.0 x.1 m)

  -- The class of an account of a kind that the code names, of those of a contract and of an
  -- externally owned account.
  abbrev pub class_of_kind : F.Felt → F.Felt → AccountType → Option F.Felt
  class_of_kind contract_account eoa AccountType.contract = some contract_account
  class_of_kind contract_account eoa AccountType.eoa = some eoa
  class_of_kind contract_account eoa AccountType.other = none

  -- What the storage of an account's contract says: Kakarot's address, the class of the account's
  -- kind, and under any other key what the account itself stores.
  pub record Stored (address contract_account eoa : F.Felt) (account : KakarotAccount F)
      (implementation kakarot key : F.Felt) (storage : Map F.Felt F.Felt) : Type 0 where
    pub kakarot_cell : get F.felt_eq kakarot storage ≡ some address
    pub class_cell :
        get F.felt_eq implementation storage
        ≡ class_of_kind contract_account eoa account.account_type
    pub own_cell :
        get F.felt_eq key storage ≡ get F.felt_eq key (extend F.felt_eq account.storage [])

  module _ (C : GenesisCrates F) (new_account : AccountMaker F)
      (c : ClassHashes F C new_account) where
    abbrev StoredFor : KakarotAccount F → F.Felt → F.Felt → F.Felt → Map F.Felt F.Felt → Type 0
    StoredFor = Stored c.kakarot_address c.contract_account c.eoa

    module _ (account : KakarotAccount F) (implementation owner kakarot key : F.Felt)
        (from_owner : implementation ≢ owner) (from_kakarot : implementation ≢ kakarot)
        (own : key ≢ implementation) (own_owner : key ≢ owner) (own_kakarot : key ≢ kakarot) where
      -- The account's own storage, under what the code adds for an externally owned account.
      eoa_storage : Map F.Felt F.Felt
      eoa_storage =
          put F.felt_eq kakarot c.kakarot_address
            (put F.felt_eq implementation c.eoa (extend F.felt_eq account.storage []))

      contract_storage : Map F.Felt F.Felt
      contract_storage = put F.felt_eq kakarot c.kakarot_address (
          put F.felt_eq owner c.kakarot_address
            (put F.felt_eq implementation c.contract_account (extend F.felt_eq account.storage [])))

      eoa_storage-Stored :
          account.account_type ≡ AccountType.eoa
          → StoredFor account implementation kakarot key eoa_storage
      unfolding eoa_storage
      eoa_storage-Stored e = record {
        kakarot_cell = get-put F.felt_eq kakarot _ _;
        class_cell =
            get-put_other F.felt_eq kakarot implementation _ _ from_kakarot
            ∙ get-put F.felt_eq implementation c.eoa _
            ∙ ap (class_of_kind c.contract_account c.eoa) (sym e);
        own_cell =
            get-put_other F.felt_eq kakarot key _ _ own_kakarot
            ∙ get-put_other F.felt_eq implementation key _ _ own;
      }

      contract_storage-Stored :
          account.account_type ≡ AccountType.contract
          → StoredFor account implementation kakarot key contract_storage
      unfolding contract_storage
      contract_storage-Stored e = record {
        kakarot_cell = get-put F.felt_eq kakarot _ _;
        class_cell =
            get-put_other F.felt_eq kakarot implementation _ _ from_kakarot
            ∙ get-put_other F.felt_eq owner implementation _ _ from_owner
            ∙ get-put F.felt_eq implementation c.contract_account _
            ∙ ap (class_of_kind c.contract_account c.eoa) (sym e);
        own_cell =
            get-put_other F.felt_eq kakarot key _ _ own_kakarot
            ∙ get-put_other F.felt_eq owner key _ _ own_owner
            ∙ get-put_other F.felt_eq implementation key _ _ own;
      }

      abbrev cells_with : AccountType → Result String (List (F.Felt × F.Felt))
      cells_with t = do
        cells ← implementation_cells F C new_account c t implementation
        ok (account.storage ++ (cells ++ (kakarot, c.kakarot_address) ∷ []))

      cells_with-Stored :
          (t : AccountType) (cells : List (F.Felt × F.Felt))
          → account.account_type ≡ t
          → C.get_storage_var_address "Ownable_owner" [] ≡ ok owner
          → cells_with t ≡ ok cells
          → StoredFor account implementation kakarot key (extend F.felt_eq cells [])
      unfolding implementation_cells eoa_storage contract_storage
      cells_with-Stored AccountType.contract cells e at_owner h =
          subst (λ l. StoredFor account implementation kakarot key (extend F.felt_eq l []))
            (ok_injective _ cells (rw at_owner at h))
            (rw (extend-append account.storage) (contract_storage-Stored e))
      cells_with-Stored AccountType.eoa cells e at_owner h =
          subst (λ l. StoredFor account implementation kakarot key (extend F.felt_eq l []))
            (ok_injective _ cells h) (rw (extend-append account.storage) (eoa_storage-Stored e))
      cells_with-Stored AccountType.other cells e at_owner h = cc

      -- The storage of an account that is made, of whatever kind: the contract finds Kakarot in it
      -- and the class of the account's kind, and any other key has what the account stores. The
      -- keys of the three cells that the code adds are told apart.
      pub account_cells-Stored :
          (address : Bytes) (info : AccountInfo) (cells : List (F.Felt × F.Felt))
          → new_account address (unwrap_or info.code []) 0 (unwrap_or info.storage []) ≡ ok account
          → C.get_storage_var_address "_implementation" [] ≡ ok implementation
          → C.get_storage_var_address "Ownable_owner" [] ≡ ok owner
          → C.get_storage_var_address "kakarot_address" [] ≡ ok kakarot
          → account_cells F C new_account c address info ≡ ok cells
          → Stored c.kakarot_address c.contract_account c.eoa account implementation kakarot key
              (extend F.felt_eq cells [])
      unfolding account_cells
      account_cells-Stored address info cells made at_implementation at_owner at_kakarot h =
          let with_kakarot : cells_with account.account_type ≡ ok cells =
            rw (made, at_implementation, at_kakarot) at h in
          cells_with-Stored account.account_type cells refl at_owner with_kakarot
