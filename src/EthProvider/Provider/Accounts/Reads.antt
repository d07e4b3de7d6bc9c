-- ===== src/EthProvider/Provider/Accounts/Reads.antt =====
-- What the reads of accounts return, by the numbers that field elements stand for.
use kakarot_rpc.Prelude.{
  ℕ, String, sym, ◌^◌, ◌<◌, ◌≡◌, ◌≢◌, refl, ap, ◌∙◌, Bool, true, false, ◌||◌, Option, some, List,
  [], ◌∷◌, map, All, filter_map-All, arith, ◌⊎◌, inl, inr, fun_ext, Bool-cases, if◌then◌else◌,
}
use kakarot_rpc.Prelude.Bytes.{Bytes}
use kakarot_rpc.Prelude.Result.{Result, ok, err, panic, ◌>>=◌}
use kakarot_rpc.Felt.{IsField}
use kakarot_rpc.Models.Felt.{u256_from_felt}
use kakarot_rpc.Models.Felt.Words.{u256_from_felt_lem}
use kakarot_rpc.Models.Block.{BlockId, StarknetBlockId}
use kakarot_rpc.EthProvider.Error.{
  EthProviderError, CallError, ProviderError, StarknetError, contract_call_error,
}
use kakarot_rpc.EthProvider.Utils.{
  contract_not_found, entrypoint_not_found, try_from_u8_iterator, contains,
}
use kakarot_rpc.EthProvider.Starknet.{starknet_address}
use kakarot_rpc.EthProvider.Database.{EthProviderResult}
use kakarot_rpc.EthProvider.Provider.{Environment, or_provider_error, or_call_error}
use kakarot_rpc.EthProvider.Provider.Blocks.{State, to_starknet_block_id}
use kakarot_rpc.EthProvider.Provider.Accounts.{transaction_count, get_code, nonce_of_class}

abbrev pub missing_contract : CallError
missing_contract =
    CallError.provider (ProviderError.starknet_error StarknetError.contract_not_found)

-- `contract_not_found` tells the missing contract from every other error.
missing-or-other :
    (T : Type 0) (e : CallError)
    → (e ≡ missing_contract)
      ⊎ ((contract_not_found {T = T} (err e) ≡ false) × (e ≢ missing_contract))
unfolding contract_not_found
missing-or-other T (CallError.other x) = inr (refl, λ h. cc)
missing-or-other T (CallError.provider (ProviderError.other x)) = inr (refl, λ h. cc)
missing-or-other T
      (CallError.provider (ProviderError.starknet_error StarknetError.contract_not_found)) =
    inl refl
missing-or-other T
      (CallError.provider (ProviderError.starknet_error StarknetError.transaction_hash_not_found)) =
    inr (refl, λ h. cc)
missing-or-other T
      (CallError.provider (ProviderError.starknet_error (StarknetError.contract_error x))) =
    inr (refl, λ h. cc)
missing-or-other T (CallError.provider (ProviderError.starknet_error (StarknetError.other x))) =
    inr (refl, λ h. cc)

-- A contract that has not the entry point, by what the node says.
abbrev entry_error : String → CallError
entry_error reason =
    CallError.provider (ProviderError.starknet_error (StarknetError.contract_error reason))

abbrev pub IsMissingEntry : CallError → Type 0
IsMissingEntry e =
    (reason : String) × (e ≡ entry_error reason)
    × (contains reason "Entry point" ≡ true)
    × (contains reason "not found in contract" ≡ true)

reason_injective : (r s : String) → entry_error r ≡ entry_error s → r ≡ s
reason_injective r s h = cc

-- `entrypoint_not_found` tells that error from every other.
entry-or-other :
    (T : Type 0) (e : CallError)
    → ((entrypoint_not_found {T = T} (err e) ≡ true) × IsMissingEntry e)
      ⊎ ((entrypoint_not_found {T = T} (err e) ≡ false) × ¬ IsMissingEntry e)
unfolding entrypoint_not_found
entry-or-other T (CallError.other x) = inr (refl, λ h. let k = h.1 in cc)
entry-or-other T (CallError.provider (ProviderError.other x)) = inr (refl, λ h. let k = h.1 in cc)
entry-or-other T
      (CallError.provider (ProviderError.starknet_error StarknetError.contract_not_found)) =
    inr (refl, λ h. let k = h.1 in cc)
entry-or-other T
      (CallError.provider (ProviderError.starknet_error StarknetError.transaction_hash_not_found)) =
    inr (refl, λ h. let k = h.1 in cc)
entry-or-other T (CallError.provider (ProviderError.starknet_error (StarknetError.other x))) =
    inr (refl, λ h. let k = h.1 in cc)
entry-or-other T
      (CallError.provider (ProviderError.starknet_error (StarknetError.contract_error x))) =
    elim (Bool-cases (contains x "Entry point")) [
      | inl a ↦ elim (Bool-cases (contains x "not found in contract")) [
        | inl b ↦ inl (rw (a, b) refl, (x, refl, a, b))
        | inr b ↦ inr (
          rw (a, b) refl,
          λ h.
              let k : true ≡ false =
                sym h.3
                ∙ ap (λ r. contains r "not found in contract") (sym (reason_injective x h.0 h.1))
                ∙ b in
              cc,
        )
      ]
      | inr a ↦ inr (
        rw a refl,
        λ h.
            let k : true ≡ false =
              sym h.2 ∙ ap (λ r. contains r "Entry point") (sym (reason_injective x h.0 h.1)) ∙ a in
            cc,
      )
    ]

contract_not_found-missing : (T : Type 0) → contract_not_found {T = T} (err missing_contract) ≡ true
unfolding contract_not_found
contract_not_found-missing T = refl

or_true : (b : Bool) → (b || true) ≡ true
or_true true = refl
or_true false = refl

module _ (E : Environment) (L : IsField E.field) where
  open E use {field as F, node as N, deployment as K}
  open L use {value}

  module _ (s : State E) (account : F.Felt) (id : StarknetBlockId F) where
    nonce_of_class-eoa :
        nonce_of_class E s account id K.externally_owned_account_class_hash
        ≡ or_provider_error (N.get_nonce s id account)
    nonce_of_class-eoa = ground arith

    nonce_of_class-contract :
        K.contract_account_class_hash ≢ K.externally_owned_account_class_hash
        → nonce_of_class E s account id K.contract_account_class_hash
          ≡ or_call_error (N.contract_nonce s account id)
    nonce_of_class-contract d = ground arith

    nonce_of_class-unknown :
        (c : F.Felt)
        → c ≢ K.externally_owned_account_class_hash
        → c ≢ K.contract_account_class_hash
        → nonce_of_class E s account id c ≡ ok F.zero_felt
    nonce_of_class-unknown c d d' = ground arith

  bytes_fit :
      (code : List F.Felt)
      → All (λ f. value f < 2 ^ 8) code
      → All (λ f. F.try_uint 8 f ≡ some (value f)) code
  bytes_fit [] h = tt
  bytes_fit (f ∷ code) h = (L.try_uint-fits 8 f h.0, bytes_fit code h.1)

  module _ (s : State E) (account : F.Felt) (id : StarknetBlockId F) where
    -- The nonce of an account by what its `get_implementation` gives.
    pub data NonceRead : EthProviderResult ℕ → Type 0 where
      no_account : N.get_implementation s account id ≡ err missing_contract → NonceRead (ok 0)
      of_node :
          N.get_implementation s account id ≡ ok K.externally_owned_account_class_hash
          → NonceRead (or_provider_error (N.get_nonce s id account) >>= λ n. ok (value n))
      of_contract :
          N.get_implementation s account id ≡ ok K.contract_account_class_hash
          → NonceRead (or_call_error (N.contract_nonce s account id) >>= λ n. ok (value n))
      other_class :
          (c : F.Felt)
          → N.get_implementation s account id ≡ ok c
          → c ≢ K.externally_owned_account_class_hash
          → c ≢ K.contract_account_class_hash
          → NonceRead (ok 0)
      failed :
          (e : CallError)
          → N.get_implementation s account id ≡ err e
          → e ≢ missing_contract
          → NonceRead (err (contract_call_error e))
      panicked : N.get_implementation s account id ≡ panic → NonceRead panic

    -- The code of an account by what its `bytecode` gives.
    pub data CodeRead : EthProviderResult Bytes → Type 0 where
      no_account : N.bytecode s account id ≡ err missing_contract → CodeRead (ok [])
      no_entrypoint :
          (e : CallError) → N.bytecode s account id ≡ err e → IsMissingEntry e → CodeRead (ok [])
      code : (fs : List F.Felt) → N.bytecode s account id ≡ ok fs → CodeRead (ok (map value fs))
      failed :
          (e : CallError)
          → N.bytecode s account id ≡ err e
          → e ≢ missing_contract
          → ¬ IsMissingEntry e
          → CodeRead (err (contract_call_error e))
      panicked : N.bytecode s account id ≡ panic → CodeRead panic

  module _ (s : State E) (account : F.Felt) (id : StarknetBlockId F) where
    nonce_of_class-NonceRead :
        (c : F.Felt)
        → N.get_implementation s account id ≡ ok c
        → NonceRead s account id (nonce_of_class E s account id c >>= λ n. ok (u256_from_felt F n))
    nonce_of_class-NonceRead c h = elim (F.felt_eq c K.externally_owned_account_class_hash) [
      | yes e ↦
          rw (e, nonce_of_class-eoa s account id, fun_ext as_number)
            (NonceRead.of_node (h ∙ ap ok e))
      | no d ↦ elim (F.felt_eq c K.contract_account_class_hash) [
        | yes e ↦
            let d' : K.contract_account_class_hash ≢ K.externally_owned_account_class_hash =
              λ k. d (e ∙ k) in
            rw (e, nonce_of_class-contract s account id d', fun_ext as_number)
              (NonceRead.of_contract (h ∙ ap ok e))
        | no d' ↦
            rw
              (
                nonce_of_class-unknown s account id c d d',
                u256_from_felt_lem F L F.zero_felt,
                L.value-zero_felt,
              )
              (NonceRead.other_class c h d d')
      ]
    ]
      where
        as_number :
            (n : F.Felt)
            → ◌≡◌ {A = Result EthProviderError ℕ} (ok (u256_from_felt F n)) (ok (value n))
        as_number n = ap ok (u256_from_felt_lem F L n)

    read-NonceRead :
        (r : Result CallError F.Felt)
        → N.get_implementation s account id ≡ r
        → NonceRead s account id (
            if contract_not_found r
            then ok 0
            else (or_call_error r >>= λ c.
                nonce_of_class E s account id c >>= λ n. ok (u256_from_felt F n)))
    read-NonceRead (ok c) h = unfold contract_not_found in nonce_of_class-NonceRead c h
    read-NonceRead (err e) h = elim (missing-or-other F.Felt e) [
      | inl k ↦ rw (k, contract_not_found-missing F.Felt) (NonceRead.no_account (h ∙ ap err k))
      | inr k ↦ rw k.0 (NonceRead.failed e h k.1)
    ]
    read-NonceRead panic h = unfold contract_not_found in NonceRead.panicked h

    read-CodeRead :
        (r : Result CallError (List F.Felt))
        → N.bytecode s account id ≡ r
        → ((fs : List F.Felt) → r ≡ ok fs → All (λ f. value f < 2 ^ 8) fs)
        → CodeRead s account id (
            if contract_not_found r || entrypoint_not_found r
            then ok []
            else (or_call_error r >>= λ fs. ok (try_from_u8_iterator (F.try_uint 8) fs)))
    read-CodeRead (ok fs) h are_bytes =
        unfold contract_not_found entrypoint_not_found in
        rw (filter_map-All (F.try_uint 8) value fs (bytes_fit fs (are_bytes fs refl)))
          (CodeRead.code fs h)
    read-CodeRead (err e) h are_bytes = elim (missing-or-other (List F.Felt) e) [
      | inl k ↦
          rw (k, contract_not_found-missing (List F.Felt)) (CodeRead.no_account (h ∙ ap err k))
      | inr k ↦ elim (entry-or-other (List F.Felt) e) [
        | inl t ↦ rw (k.0, t.0) (CodeRead.no_entrypoint e h t.1)
        | inr f ↦ rw (k.0, f.0) (CodeRead.failed e h k.1 f.1)
      ]
    ]
    read-CodeRead panic h are_bytes =
        unfold contract_not_found entrypoint_not_found in CodeRead.panicked h

  module _ (s : State E) (address : Bytes) (block_id : Option BlockId) (id : StarknetBlockId F)
      (account : F.Felt) (known : to_starknet_block_id E block_id ≡ ok id)
      (derived : starknet_address F K address ≡ ok account) where
    -- The nonce of an address whose block and account are known, whatever the contracts return:
    -- zero if it has no account; the node's nonce for an externally owned account; the contract's
    -- own for a contract account; zero for any other class. A failed read is passed on.
    pub transaction_count_lem : NonceRead s account id (transaction_count E s address block_id)
    unfolding transaction_count
    transaction_count_lem =
        rw (known, derived) (read-NonceRead s account id (N.get_implementation s account id) refl)

    -- The code of an address whose block and account are known: empty if it has no account, or one
    -- without the entry point; else the code of the account byte for byte, if its elements are
    -- bytes. A failed read is passed on.
    pub get_code_lem :
        ((fs : List F.Felt) → N.bytecode s account id ≡ ok fs → All (λ f. value f < 2 ^ 8) fs)
        → CodeRead s account id (get_code E s address block_id)
    unfolding get_code
    get_code_lem are_bytes =
        rw (known, derived) (read-CodeRead s account id (N.bytecode s account id) refl are_bytes)
