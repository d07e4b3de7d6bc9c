-- ===== src/Bin/HiveChain/Sent.antt =====
-- What the node has been sent when the import of src/bin/hive_chain.rs ends.
use kakarot_rpc.Prelude.{
  ℕ, zero, suc, Bool, true, false, ltb, if◌then◌else◌, ◌+◌, some, List, [], ◌∷◌, ◌++◌, flat_map,
  ◌≡◌, ap, subst,
}
use kakarot_rpc.Prelude.Bytes.{Bytes}
use kakarot_rpc.Prelude.Result.{Result, ok, panic, map_err, ok_or}
use kakarot_rpc.Felt.{FieldElement}
use kakarot_rpc.EthProvider.Database.Reads.{>>=-eq-ok, ok_injective, ok_or-eq-ok, map_err-eq-ok}
use kakarot_rpc.EthProvider.Starknet.{
  StarknetProvider, Deployment, EthPrimitives, InvokeTransaction, to_starknet_transaction,
}
use kakarot_rpc.EthProvider.Provider.Fees.{u64_max}
use kakarot_rpc.Bin.HiveChain.{
  ImportError, Outside, Import, wait_for, assert_nonce, took, send_transaction, send_body,
  send_bodies, import_bodies,
}

module _ (F : FieldElement) (N : StarknetProvider F) (K : Deployment F) (X : EthPrimitives)
    (O : Outside F N K X) where
  -- A Starknet transaction carries an Ethereum one, with the greatest fee, at a nonce.
  pub record Carries (transaction : X.TransactionSigned) (nonce : F.Felt)
      (invoke : InvokeTransaction F) : Type 0 where
    pub signer : Bytes
    pub chain_id : ℕ
    pub signed_by : X.recover_signer transaction ≡ some signer
    pub on_chain : O.chain_id transaction ≡ some chain_id
    pub made : to_starknet_transaction F K X transaction chain_id signer u64_max ≡ ok invoke
    pub at_nonce : invoke.nonce ≡ nonce

  -- The node, with the next nonce, between two states of it: it sleeps, or takes the Starknet
  -- transaction of the next Ethereum one, and nothing else becomes of it.
  pub data Sent : N.State → F.Felt → List X.TransactionSigned → N.State → F.Felt → Type 0 where
    nothing : (s : N.State) (nonce : F.Felt) → Sent s nonce [] s nonce
    slept :
        (s : N.State) (nonce : F.Felt) (ts : List X.TransactionSigned) (s' : N.State)
        (nonce' : F.Felt)
        → Sent (O.slept s) nonce ts s' nonce'
        → Sent s nonce ts s' nonce'
    took_next :
        (s : N.State) (nonce : F.Felt) (t : X.TransactionSigned) (invoke : InvokeTransaction F)
        (hash : F.Felt) (next : N.State) (ts : List X.TransactionSigned) (s' : N.State)
        (nonce' : F.Felt)
        → Carries t nonce invoke
        → N.add_invoke_transaction s invoke ≡ (ok hash, next)
        → Sent next (F.add nonce F.one_felt) ts s' nonce'
        → Sent s nonce (t ∷ ts) s' nonce'

  Sent-append :
      (ts us : List X.TransactionSigned) (s s' s'' : N.State) (k l m : F.Felt)
      → Sent s k ts s' l
      → Sent s' l us s'' m
      → Sent s k (ts ++ us) s'' m
  Sent-append _ us _ _ s'' _ _ m (Sent.nothing s k) h = h
  Sent-append _ us _ _ s'' _ _ m (Sent.slept s k ts s' l g) h =
      Sent.slept s k (ts ++ us) s'' m (Sent-append ts us (O.slept s) s' s'' k l m g h)
  Sent-append _ us _ _ s'' _ _ m (Sent.took_next s k t invoke hash next ts s' l c e g) h =
      Sent.took_next s k t invoke hash next (ts ++ us) s'' m c e
        (Sent-append ts us next s' s'' (F.add k F.one_felt) l m g h)

  abbrev Sends : List X.TransactionSigned → Import F N K X → Import F N K X → Type 0
  Sends ts i i' = Sent i.node i.current_nonce ts i'.node i'.current_nonce

  assert_nonce-eq : (a b : F.Felt) → assert_nonce F N K X O a b ≡ ok tt → a ≡ b
  assert_nonce-eq a b h = of (F.felt_eq a b) h
    where
      of :
          (d : Dec (a ≡ b))
          → ◌≡◌ {A = Result ImportError (Unit {0})}
              (elim d [ yes _ ↦ ok tt | no _ ↦ panic ])
              (ok tt)
          → a ≡ b
      of (yes e) h' = e
      of (no n) h' = cc

  send_transaction-Sends :
      (t : X.TransactionSigned) (i i' : Import F N K X)
      → send_transaction F N K X O t i ≡ ok i'
      → Sends (t ∷ []) i i'
  unfolding send_transaction
  send_transaction-Sends t i i' h =
      let (signer, e1, h1) =
        >>=-eq-ok (ok_or (ImportError.message "Failed to recover signer") (X.recover_signer t)) _ i'
          h in
      let (id, e2, h2) =
        >>=-eq-ok (ok_or (ImportError.message "Failed to recover chain id") (O.chain_id t)) _ i'
          h1 in
      let (invoke, e3, h3) =
        >>=-eq-ok
          (map_err ImportError.eth_provider (to_starknet_transaction F K X t id signer u64_max)) _
          i' h2 in
      let (_, e4, h4) = >>=-eq-ok (assert_nonce F N K X O invoke.nonce i.current_nonce) _ i' h3 in
      let answer = N.add_invoke_transaction i.node invoke in
      let (hash, e5, h5) = >>=-eq-ok (map_err ImportError.provider answer.0) _ i' h4 in
      let accepted : answer.0 ≡ ok hash = map_err-eq-ok ImportError.provider answer.0 hash e5 in
      let carries : Carries t i.current_nonce invoke = record {
        signer = signer;
        chain_id = id;
        signed_by = ok_or-eq-ok _ _ signer e1;
        on_chain = ok_or-eq-ok _ _ id e2;
        made =
            map_err-eq-ok ImportError.eth_provider
              (to_starknet_transaction F K X t id signer u64_max) invoke e3;
        at_nonce = assert_nonce-eq invoke.nonce i.current_nonce e4;
      } in
      let next = F.add i.current_nonce F.one_felt in
      subst (Sends (t ∷ []) i) (ok_injective (took F N K X O i answer.1) i' h5) (
        Sent.took_next i.node i.current_nonce t invoke hash answer.1 [] (O.slept answer.1) next
          carries (ap (λ r. (r, answer.1)) accepted)
          (Sent.slept answer.1 next [] (O.slept answer.1) next
            (Sent.nothing (O.slept answer.1) next)))

  send_body-Sends :
      (ts : List X.TransactionSigned) (i i' : Import F N K X)
      → send_body F N K X O ts i ≡ ok i'
      → Sends ts i i'
  unfolding send_body
  send_body-Sends [] i i' h =
      subst (Sends [] i) (ok_injective i i' h) (Sent.nothing i.node i.current_nonce)
  send_body-Sends (t ∷ ts) i i' h =
      let (j, e, k) = >>=-eq-ok (send_transaction F N K X O t i) _ i' h in
      Sent-append (t ∷ []) ts i.node j.node i'.node i.current_nonce j.current_nonce i'.current_nonce
        (send_transaction-Sends t i j e) (send_body-Sends ts j i' k)

  abbrev pub transactions_of : List (List X.TransactionSigned) → List X.TransactionSigned
  transactions_of = flat_map (λ body. body)

  -- Waiting is sleeping.
  wait_for-Sent :
      (turns n : ℕ) (s s' : N.State) (nonce : F.Felt)
      → wait_for F N K X O turns n s ≡ ok s'
      → Sent s nonce [] s' nonce
  unfolding wait_for
  wait_for-Sent zero n s s' nonce h = cc
  wait_for-Sent (suc turns) n s s' nonce h =
      let (current, e, k) = >>=-eq-ok (map_err ImportError.provider (N.block_number s)) _ s' h in
      of (ltb current n) k (λ k'. wait_for-Sent turns n (O.slept s) s' nonce k')
    where
      of :
          (b : Bool)
          → (if b then wait_for F N K X O turns n (O.slept s) else ok s) ≡ ok s'
          → (wait_for F N K X O turns n (O.slept s) ≡ ok s' → Sent (O.slept s) nonce [] s' nonce)
          → Sent s nonce [] s' nonce
      of true k' rest = Sent.slept s nonce [] s' nonce (rest k')
      of false k' rest =
          subst (λ x. Sent s nonce [] x nonce) (ok_injective s s' k') (Sent.nothing s nonce)

  send_bodies-Sends :
      (turns n : ℕ) (bodies : List (List X.TransactionSigned)) (i i' : Import F N K X)
      → send_bodies F N K X O turns n bodies i ≡ ok i'
      → Sends (transactions_of bodies) i i'
  unfolding send_bodies
  send_bodies-Sends turns n [] i i' h =
      subst (Sends [] i) (ok_injective i i' h) (Sent.nothing i.node i.current_nonce)
  send_bodies-Sends turns n (body ∷ bodies) i i' h =
      let (s, e, h1) = >>=-eq-ok (wait_for F N K X O turns n i.node) _ i' h in
      let (j, e2, h2) = >>=-eq-ok (send_body F N K X O body (record i { node = s })) _ i' h1 in
      let nonce = i.current_nonce in
      let rest = transactions_of bodies in
      Sent-append [] (body ++ rest) i.node s i'.node nonce nonce i'.current_nonce
        (wait_for-Sent turns n i.node s nonce e)
        (Sent-append body rest s j.node i'.node nonce j.current_nonce i'.current_nonce
          (send_body-Sends body (record i { node = s }) j e2)
          (send_bodies-Sends turns (n + 1) bodies j i' h2))

  -- When the import ends without a failure, the node has come from its first to its last state by
  -- sleeping and by taking one Starknet transaction for each transaction of the bodies, in their
  -- order, and nothing else; each carries its transaction with the greatest fee, and their nonces
  -- count up by one from zero.
  pub import_bodies-Sent :
      (turns : ℕ) (bodies : List (List X.TransactionSigned)) (s : N.State) (i : Import F N K X)
      → import_bodies F N K X O turns bodies s ≡ ok i
      → Sent s F.zero_felt (transactions_of bodies) i.node i.current_nonce
  unfolding import_bodies
  import_bodies-Sent turns bodies s i h =
      send_bodies-Sends turns 0 bodies (record { node = s; current_nonce = F.zero_felt }) i h
