-- ===== src/Models/Block.antt =====
-- Block identifiers (src/models/block.rs): those of Ethereum and those of Starknet.
use kakarot_rpc.Prelude.{ℕ, Bool, Option}
use kakarot_rpc.Prelude.Bytes.{Bytes}
use kakarot_rpc.Prelude.Result.{Result, ok, ◌>>=◌}
use kakarot_rpc.Felt.{FieldElement}
use kakarot_rpc.Models.Errors.{ConversionError}
use kakarot_rpc.Models.Felt.{felt_from_b256}

pub data BlockNumberOrTag : Type 0 where
  latest finalized safe earliest pending : BlockNumberOrTag
  number : ℕ → BlockNumberOrTag

pub record RpcBlockHash : Type 0 where
  pub block_hash : Bytes
  pub require_canonical : Option Bool

-- `reth_primitives::BlockId`
pub data BlockId : Type 0 where
  hash : RpcBlockHash → BlockId
  number : BlockNumberOrTag → BlockId

pub data BlockTag : Type 0 where
  latest pending : BlockTag

-- `EthBlockId` and `EthBlockNumberOrTag` wrap one value each, and are that value here.
abbrev pub EthBlockId : Type 0
EthBlockId = BlockId

abbrev pub EthBlockNumberOrTag : Type 0
EthBlockNumberOrTag = BlockNumberOrTag

-- `starknet::core::types::BlockId`
pub data StarknetBlockId (F : FieldElement) : Type 0 where
  hash : F.Felt → StarknetBlockId F
  number : ℕ → StarknetBlockId F
  tag : BlockTag → StarknetBlockId F

module _ (F : FieldElement) where
  -- A sequencer fills one pending block, which is the latest that a client can see.
  unfoldable pub starknet_id_of_tag : EthBlockNumberOrTag → StarknetBlockId F
  starknet_id_of_tag BlockNumberOrTag.latest = StarknetBlockId.tag BlockTag.pending
  starknet_id_of_tag BlockNumberOrTag.pending = StarknetBlockId.tag BlockTag.pending
  starknet_id_of_tag BlockNumberOrTag.safe = StarknetBlockId.tag BlockTag.latest
  starknet_id_of_tag BlockNumberOrTag.finalized = StarknetBlockId.tag BlockTag.latest
  starknet_id_of_tag BlockNumberOrTag.earliest = StarknetBlockId.number 0
  starknet_id_of_tag (BlockNumberOrTag.number n) = StarknetBlockId.number n

  unfoldable pub starknet_id_of_block : EthBlockId → Result ConversionError (StarknetBlockId F)
  unfolding starknet_id_of_tag
  starknet_id_of_block (BlockId.hash h) = do
    felt ← felt_from_b256 F h.block_hash
    ok (StarknetBlockId.hash felt)
  starknet_id_of_block (BlockId.number n) = ok (starknet_id_of_tag n)
