-- ===== src/Lib.antt =====
-- Kakarot RPC, a JSON-RPC server that presents a Starknet node as an Ethereum node. A request of a
-- client comes to a server (src/eth_rpc/servers), which calls the trait `EthereumProvider`. Its
-- implementation `EthDataProvider` (src/eth_provider/provider.rs) reads blocks, transactions, receipts
-- and logs from a MongoDB database, reads accounts and runs calls through the contracts of a Starknet
-- node, and sends Ethereum transactions to the node inside Starknet ones.
--
-- Parts and files:
--   Prelude      numbers, bytes, hexadecimal texts, lists, and `Result` with a third outcome `panic`
--   Felt         `FieldElement` of the `starknet` crates, a parameter, with its documented laws
--                (`IsField`); Felt/Modular meets them with the numbers below the prime
--   Models       src/models: conversions of field elements, addresses and words (felt.rs), block
--                identifiers (block.rs), token balances (balance.rs), conversion errors (errors.rs)
--   EthProvider  src/eth_provider: Error (error.rs), Utils (utils.rs), Document (the documents of the
--                driver), Database (database/), Starknet (starknet/kakarot_core.rs), Provider and its
--                child modules (provider.rs: one function for each method), Interface (the trait, and
--                the provider as its instance)
--   EthRpc       src/eth_rpc: Eth (servers/eth_rpc.rs, with api/eth_api.rs as the data type of requests
--                in Eth/Requests), Alchemy, Net (net_rpc.rs and web3_rpc.rs), Erc20
--                (src/eth_provider/contracts/erc20.rs), Names (the registered names of api/),
--                Module (rpc.rs, the methods of all servers in one module) and Server (mod.rs and
--                config.rs, the start of the HTTP server)
--   Config       src/config.rs, and the choice of the Starknet client in src/main.rs
--   Main         `main` of src/main.rs, over Config, EthRpc/Module and EthRpc/Server
--   TestUtils    src/test_utils: TxWaiter (tx_waiter.rs), Genesis (katana/genesis.rs), Hive
--                (hive/mod.rs, which fills the builder of Genesis), EvmContract (evm_contract.rs), Eoa
--                (eoa.rs, which sends through the provider and polls with TxWaiter), Mongo
--                (mongo/mod.rs: `update_many`, and in Mongo/Documents the documents)
--   Bin          src/bin: Genesis (hive_genesis.rs and katana_genesis.rs), HiveChain (hive_chain.rs:
--                waiting and sending) and HiveChain/Read (its codec)
--   Tests        a small world, and each theorem with hypotheses applied in it
-- The child modules of a part hold its proofs and are named for what they prove.
--
-- How the code is read:
--   - A method of the provider is a function of the state of the node. Only `send_raw_transaction`
--     returns a new state. All reads of one request are answered by one state of the database and of
--     the node: what other clients do in between is not modelled.
--   - `?`, `ok_or` and `map_err` are the steps of the monad of `Result`; `unwrap`, `expect` and an
--     overflow of a subtraction are the outcome `panic`.
--   - `U256`, `U64` and the primitive integers are numbers; where the code can wrap, saturate or cut,
--     the model writes it out. `B256`, `Address` and `Bytes` are lists of bytes. `x & (2^k - 1)` is
--     `x % 2 ^ k`, and shifts are products and quotients.
--   - The crates are parameters: `FieldElement`, the MongoDB driver with `serde` (`MongoDatabase`),
--     the node with the generated contract readers (`StarknetProvider`), the addresses and selectors
--     (`Deployment`), the types of `reth` (`EthPrimitives`), the process with its environment
--     (`Host`), the classes and hashes of a genesis (`GenesisCrates`), `KakarotAccount::new` of
--     `ef_testing` (`AccountMaker`), signing (`Signing`), compiled contracts and their ABI
--     (`ContractCrates`), what the node says after a transaction was sent (`Later`), the method sets
--     and the server of `jsonrpsee` (`JsonRpc`, `ServerCrates`), and the database client and the
--     deploy wallet at the start (`MainCrates`). Records of laws are named hypotheses about them
--     (`IsField`, `CountsFound`, `RangeQueries`, `SigningLaws`, `MergesApart`, `Upserts`).
--   - The build features `hive` and `testing` are a record of two Booleans. Only a build with `testing`
--     has src/test_utils.
--   - A hash map is the list of its entries in the order in which it is walked; an entry that is put
--     under a key that is there takes its place.
--   - `watch_tx` runs on fuel. Each turn of its loop counts up to `count`, so `count + 1` turns are
--     enough. So does the stream of blocks of a file: a block takes a byte at least, and the bytes of
--     the file and one are enough. The waiting of hive_chain.rs has no bound in the code; the model
--     takes its turns as an argument, and says `still_waiting` when they are used up.
--
-- Not modelled: tracing, the waiting of `main` for the server to stop, the arguments, files and logs of
-- the binaries, the contract bindings that a macro generates, and the test fixtures that start
-- containers and sequencers: all of it is input and output or calls of other crates.
pub mod Prelude
pub mod Felt
pub mod Models
pub mod EthProvider
pub mod EthRpc
pub mod Main
pub mod Config
pub mod TestUtils
pub mod Bin
pub mod Tests
