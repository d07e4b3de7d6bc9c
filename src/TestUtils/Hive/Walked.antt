-- ===== src/TestUtils/Hive/Walked.antt =====
-- The walk over the accounts of a Hive genesis, one step at a time.
use kakarot_rpc.Prelude.{some, List, [], ◌∷◌, ◌++◌, All, ◌≡◌, refl, ap, ◌∙◌, subst}
use kakarot_rpc.Prelude.Bytes.{Bytes}
use kakarot_rpc.Prelude.Map.{IsMap, put-IsMap}
use kakarot_rpc.Prelude.Result.{ok, ok_or, ◌>>=◌}
use kakarot_rpc.Felt.{FieldElement}
use kakarot_rpc.EthProvider.Database.Reads.{>>=-eq-ok, ok_injective, ok_or-eq-ok}
use kakarot_rpc.TestUtils.Genesis.{GenesisCrates, compute_starknet_address}
use kakarot_rpc.TestUtils.Genesis.Initialized.{Initialized}
use kakarot_rpc.TestUtils.Hive.{
  AccountInfo, AccountMaker, Gathered, ClassHashes, account_cells, account_contract, gathered,
  convert_account, convert_accounts,
}

module _ (F : FieldElement) (C : GenesisCrates F) (new_account : AccountMaker F)
    (b : Initialized F C) (c : ClassHashes F C new_account) where
  abbrev pub Walk : Type 0
  Walk = Gathered F C new_account

  abbrev pub Entry : Type 0
  Entry = Bytes × AccountInfo

  -- One account, converted.
  pub record Converted (entry : Entry) (w w' : Walk) : Type 0 where
    pub evm : F.Felt
    pub account : F.Felt
    pub mapping : F.Felt
    pub cells : List (F.Felt × F.Felt)
    pub key : F.Felt
    pub evm_known : F.from_byte_slice_be entry.0 ≡ some evm
    pub account_known : compute_starknet_address F C b evm ≡ ok account
    pub mapping_known : C.get_storage_var_address "evm_to_starknet_address" (evm ∷ []) ≡ ok mapping
    pub cells_known : account_cells F C new_account c entry.0 entry.1 ≡ ok cells
    pub key_known :
        C.get_storage_var_address "ERC20_allowances" (account ∷ c.kakarot_address ∷ []) ≡ ok key
    pub result :
        gathered F C new_account w mapping account key
          (account_contract F C new_account c entry.1 cells)
        ≡ w'

  abbrev pub Step : Entry → Walk → Walk → Type 0
  Step entry w w' = convert_account F C new_account b c entry w ≡ ok w'

  abbrev pub Steps : List Entry → Walk → Walk → Type 0
  Steps entries w w' = convert_accounts F C new_account b c entries w ≡ ok w'

  pub convert_account-Converted :
      (entry : Entry) (w w' : Walk) → Step entry w w' → Converted entry w w'
  unfolding convert_account
  convert_account-Converted entry w w' h =
      let (evm, e1, h1) = >>=-eq-ok (ok_or C.bytes_message (F.from_byte_slice_be entry.0)) _ w' h in
      let (account, e2, h2) = >>=-eq-ok (compute_starknet_address F C b evm) _ w' h1 in
      let (mapping, e3, h3) =
        >>=-eq-ok (C.get_storage_var_address "evm_to_starknet_address" (evm ∷ [])) _ w' h2 in
      let (cells, e4, h4) = >>=-eq-ok (account_cells F C new_account c entry.0 entry.1) _ w' h3 in
      let (key, e5, h5) =
        >>=-eq-ok (C.get_storage_var_address "ERC20_allowances" (account ∷ c.kakarot_address ∷ []))
          _ w' h4 in
      record {
        evm = evm;
        account = account;
        mapping = mapping;
        cells = cells;
        key = key;
        evm_known = ok_or-eq-ok C.bytes_message _ evm e1;
        account_known = e2;
        mapping_known = e3;
        cells_known = e4;
        key_known = e5;
        result =
            ok_injective
              (gathered F C new_account w mapping account key
                (account_contract F C new_account c entry.1 cells))
              w' h5;
      }

  -- What each step keeps, the walk keeps.
  pub walk_keeps :
      (P : Walk → Type 0) (Q : Entry → Type 0)
      → ((entry : Entry) (w w' : Walk) → Q entry → Converted entry w w' → P w → P w')
      → (entries : List Entry) (w w' : Walk) → All Q entries
      → Steps entries w w'
      → P w
      → P w'
  unfolding convert_accounts
  walk_keeps P Q keep [] w w' q h p = subst P (ok_injective w w' h) p
  walk_keeps P Q keep (entry ∷ entries) w w' q h p =
      let (v, e, k) = >>=-eq-ok (convert_account F C new_account b c entry w) _ w' h in
      walk_keeps P Q keep entries v w' q.1 k
        (keep entry w v q.0 (convert_account-Converted entry w v e) p)

  -- A walk is one up to an entry, the step at it, and one from there on.
  pub record Parted (before : List Entry) (entry : Entry) (after : List Entry) (w w' : Walk)
      : Type 0 where
    pub from : Walk
    pub to : Walk
    pub reached : Steps before w from
    pub step : Converted entry from to
    pub rest : Steps after to w'

  pub walk-Parted :
      (before : List Entry) (entry : Entry) (after : List Entry) (w w' : Walk)
      → Steps (before ++ entry ∷ after) w w'
      → Parted before entry after w w'
  unfolding convert_accounts
  walk-Parted [] entry after w w' h =
      let (v, e, k) = >>=-eq-ok (convert_account F C new_account b c entry w) _ w' h in
      record {
        from = w;
        to = v;
        reached = refl;
        step = convert_account-Converted entry w v e;
        rest = k;
      }
  walk-Parted (first ∷ before) entry after w w' h =
      let (v, e, k) = >>=-eq-ok (convert_account F C new_account b c first w) _ w' h in
      let p = walk-Parted before entry after v w' k in
      record {
        from = p.from;
        to = p.to;
        reached = ap (λ r. r >>= convert_accounts F C new_account b c before) e ∙ p.reached;
        step = p.step;
        rest = p.rest;
      }

  -- No key comes twice in what is gathered.
  pub record AreMaps (w : Walk) : Type 0 where
    pub kakarot_map : IsMap F.felt_eq w.kakarot_storage
    pub fee_token_map : IsMap F.felt_eq w.fee_token_storage
    pub contracts_map : IsMap F.felt_eq w.contracts

  pub step-AreMaps : (entry : Entry) (w w' : Walk) → Converted entry w w' → AreMaps w → AreMaps w'
  step-AreMaps entry w w' s m = subst AreMaps s.result (record {
    kakarot_map = put-IsMap F.felt_eq _ _ w.kakarot_storage m.kakarot_map;
    fee_token_map =
        put-IsMap F.felt_eq _ _ _ (put-IsMap F.felt_eq _ _ w.fee_token_storage m.fee_token_map);
    contracts_map = put-IsMap F.felt_eq _ _ w.contracts m.contracts_map;
  })
