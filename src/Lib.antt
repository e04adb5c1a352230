-- ===== src/Lib.antt =====
-- Verification of shardmatrix, a chain of one shard whose blocks are produced every two seconds by
-- a rotating set of at most 21 delegated validators.
--
-- The parts and how they interact. Clients sign transactions (pkg/crypto). The time controller
-- (pkg/consensus/time_controller.go) announces a block number every two seconds; the consensus
-- (pkg/consensus/dpos.go) says whose turn it is and checks a received block; the chain manager
-- (pkg/blockchain/manager.go) executes the transactions of a block on its map of accounts and stores blocks
-- and accounts (pkg/storage); after a restart it executes the stored blocks again. All of them
-- work on the structures and hash inputs of pkg/types. The transaction pool
-- (pkg/blockchain/transaction_pool.go) keeps what waits for a block; the block producer
-- (pkg/blockchain/block_producer.go) takes from it, makes the block that is due, saves it and puts it in a
-- channel. The three-layer validator (pkg/blockchain/three_layer_validator.go) checks a block from
-- outside, and the synchronizer (pkg/blockchain/synchronizer.go) asks for blocks up to the height of its
-- peers. These three know the chain, the consensus and the pool through interfaces only. The network (pkg/network/network.go) sends
-- messages by their priority and passes on what it has not seen. The node (pkg/node/node.go)
-- starts and stops the chain, the pool, the network and the time controller, and at each call of the last
-- adds an empty block to the chain.
--
-- The files.
--   Prelude      helpers: Booleans, lists, results, association lists, 64-bit words, bytes
--   Primitives   SHA-256 and Ed25519 as a parameter, with a small instance that runs
--   Types        pkg/types/types.go. BlockHeader.Hash is `hash_header` of `header_preimage`,
--                Transaction.Hash `hash_tx` of `tx_preimage`, CalculateTxRoot `calculate_tx_root`
--   Crypto       pkg/crypto/crypto.go: SignTransaction `sign_transaction`, VerifyTransaction
--                `verify_transaction`, SignBlock and VerifyBlock, the hexadecimal forms
--   Storage      pkg/storage: the interface Storage (mock_storage.go) as a record of operations, and
--                its LevelDB implementation over a key-value store (leveldb_storage.go)
--   Chain        pkg/blockchain/manager.go: Manager, processTransaction `process_transaction`,
--                ProcessTransactions `process_transactions`; Chain/Blocks has AddBlock `add_block`,
--                Initialize `initialize`, rebuildState `rebuild_state`
--   TimeControl  pkg/consensus/time_controller.go: TimeController, the loop `time_control_loop`,
--                StrictTimeValidator `validate_block` and `validate_sequence`
--   Dpos         pkg/consensus/dpos.go: DPoSConsensus, Delegate, Undelegate, SlashValidator,
--                AddValidator, RemoveValidator, GetCurrentValidator `current_validator`,
--                ValidateBlock `validate_block`; Dpos/Watch has the health check
--   Pool         pkg/blockchain/transaction_pool.go: TransactionPool, AddTransaction `add_transaction`,
--                removeTransaction `remove_transaction`; Pool/Queue has container/heap on the queue
--   Interfaces   the interfaces that block_producer.go and three_layer_validator.go declare, as records,
--                with the chain manager, the consensus and the pool as their instances
--   ThreeLayer   pkg/blockchain/three_layer_validator.go: ValidateBlock `validate_block`, its three
--                layers, ValidateSequence `validate_sequence`
--   Producer     pkg/blockchain/block_producer.go: ProduceBlock `produce_block`, ProcessNewBlock
--                `process_new_block`, filterValidTransactions `filter_valid_transactions`
--   Synchronizer pkg/blockchain/synchronizer.go: performSync `perform_sync` and the loop around it, with
--                the mutex
--   Network      pkg/network/network.go: broadcast `broadcast`, messageLoop `loop_step`, isDuplicateMessage
--                `is_duplicate_message`, checkBandwidth `check_bandwidth`
--   Node         pkg/node/node.go: Start `start`, Stop `stop`, onBlockTime `on_block_time`
-- Each part has its properties in child modules, and its runs in a child Tests.
--
-- The model. A pointer to a structure that a method changes is the state that the function takes and
-- returns beside its result; an error is a constructor. A method that holds its mutex is one step.
-- Integers of Go are words of 64 bits, signed ones in two's complement, with wrap-around written out.
-- Byte arrays are numbers, written with the lowest byte first, where only equality, the bytes hashed
-- and the hexadecimal text matter. A map is an association list; what depends on Go's iteration
-- order is stated for every order. The clock is an argument, and in the loop a list of the times that
-- the ticks see. A slice has no bound on its length.
--
-- Parameters. SHA-256 has 32 bytes and Ed25519 verifies what it signed (`Primitives`); goleveldb
-- reads what it wrote (`KeyValue`); sort.Slice returns a permutation in the wanted order (`Sorter`); float64
-- arithmetic is rounded correctly (`Float64`).
-- Every loop is a structural recursion, and rebuildState counts down the heights that are left, but
-- for these with fuel: up and down of the heap have as much as they have slots to visit, and more of it
-- changes nothing (Pool/Queue); the producer's loop has one step for each transaction and one more,
-- which is enough (Producer/Blocks); the synchronizer's loop has one for each batch, and one is
-- enough, since no run gets past its first batch (Synchronizer/Completion).
--
-- Not modelled: the network's sockets and table of connections, the configuration, the HTTP interface and
-- monitoring, which are input and output around the parts above; the node's health reports; the batch
-- channel of the storage; reports and printing.
pub mod Prelude
pub mod Primitives
pub mod Types
pub mod Crypto
pub mod Storage
pub mod Chain
pub mod TimeControl
pub mod Dpos
pub mod Pool
pub mod Interfaces
pub mod ThreeLayer
pub mod Producer
pub mod Synchronizer
pub mod Network
pub mod Node
