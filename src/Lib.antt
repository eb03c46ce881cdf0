-- ===== src/Lib.antt =====
-- Verification of the Zelana sequencer: the state of the rollup and how transactions change it.
--
-- The sequencer executes batches of transactions over two kinds of state. Transparent accounts
-- (balance, nonce) live in a database with a cache, and their states are the leaves of a sparse
-- Merkle tree. Shielded notes are commitments in a second Merkle tree, spent by nullifiers. A
-- batch yields a diff that is committed at once; withdrawals in it join a queue that settlement
-- works through, and liquidity providers may pay them out early.
--
-- The parts and their files:
--
--   Base         types, tests and lemmas that the parts share: maps and sets as lists, bytes, text.
--   Merkle       the loops over the 32 levels that the two trees have in common
--                (core/src/sequencer/storage/account_tree.rs, sdk/privacy/src/merkle.rs), over any
--                hash; Settled and Paths relate the stored nodes to the root of all leaves.
--   Account      sdk/account: identifiers and account states.
--   AccountTree  core/src/sequencer/storage/account_tree.rs. Mimc is the hash, Codec the encoding
--                of field elements, BatchHash the hashes of a batch without transactions;
--                insert_account is `insert`. Insert, Proof and Collision hold the theorems.
--   Shielded     sdk/privacy/src/merkle.rs and core/src/sequencer/storage/shielded_state.rs:
--                insert_next is `MerkleTree::insert`, load_state is `ShieldedState::load`.
--   Router       core/src/sequencer/execution/tx_router.rs. Types has the data of
--                sdk/transaction, Signature the signed messages, Commit the commit of a diff with
--                `apply_batch` of core/src/sequencer/storage/db.rs, Load the start. A handler is
--                an Action: it takes the router and the diff and returns a result or an error with
--                the new state, so what a failing handler has already written is kept in view.
--   FastWithdraw core/src/sequencer/bridge/fast_withdrawals.rs.
--   Withdrawals  core/src/sequencer/bridge/withdrawals.rs.
--                Root is the Merkle root of a batch's withdrawals, RootShape its theorem.
--   Batch        core/src/sequencer/execution/batch.rs: a batch; Witness holds the records of
--                core/src/sequencer/settlement/prover.rs.
--   Prover       core/src/sequencer/settlement/prover.rs: what the prover is given for a batch.
--   BatchManager core/src/sequencer/execution/batch.rs: Summaries is `store_tx_summaries`, Circuit
--                the simulated root, Calls a call as a step. Weights, Shape and Flow say what each
--                operation does to the batches, Conservation, Valid, Accepts and Preserved what holds.
--   Pipeline     core/src/sequencer/pipeline.rs: Settle is `try_settle`, Service the loop of the
--                service, with a tick or a command at a time, as its `select!` takes them. Ready and
--                Runs are about whole runs, Stalled, Retries, Stuck and Unproved about
--                failures.
--   Bridge       onchain-programs/bridge: Wire is the instruction data of a batch, as the program
--                reads it and as core/src/sequencer/settlement/settler.rs writes it, Submit
--                `process_submit_batch`, Vault the other instructions, Entry the dispatch.
--   Threshold    sdk/threshold and core/src/sequencer/mempool/threshold_mempool.rs. Gf256 is the
--                arithmetic of bytes, Shares the secret sharing, Committee and Transactions the
--                encryption, Mempool the pool with the coordinator. Field, Polynomial and Interpolate
--                are the mathematics, over any field of characteristic two, that Gf256/Byte fills in.
--                Delivery goes from the encryption to the decryption.
--   Ingest       core/src/sequencer/bridge/ingest.rs, the deposit indexer. Text and Keys are about the
--                log lines, Marks, Once and Trace about deposits that come again.
--   Executor     core/src/sequencer/execution/executor.rs, the executor before the router.
--   Dispatcher   forge/crates/prover-coordinator/src/dispatcher.rs: chunks of a batch, their workers
--                and the proofs that come back.
--   ProofApi     forge/crates/prover-coordinator/src/core_api.rs: the cache of proofs and the jobs, whose
--                tasks run without interruption; Keeps and Served follow a proof in the cache.
--   Samples      concrete parameters and values, for the Tests modules.
--
-- Integers are natural numbers; a `u64` or `u32` addition that the source leaves unchecked is
-- taken modulo its word, as in a release build, and the saturating ones stop at the largest value.
-- A hash map is a list of entries and a hash set a list of members. The loops over the levels run
-- on the number of levels left, 32 at the start, and the loops over rounds on the 91 rounds, so
-- none needs more fuel; decimal numerals have fuel for the 20 digits of a `u64`.
--
-- Parameters: BigBytes is the byte conversion of the big-integer library with three documented
-- laws; Poseidon is the sponge of the proof library, any function; Crypto is signatures, text
-- encodings, the binary form of a transfer and the transaction hash, any functions. The clock and
-- the identifiers hashed from it are arguments. The database neither fails nor loses a write.
-- Runtime is the chain under the bridge program, any functions; World is what the prover and the
-- settlement service answer at one tick. The Merkle root of withdrawals runs on the number of
-- leaves, which is more than the height of the tree, and the padding on the number of withdrawals.
-- Sealing is the key exchange, the cipher and the hashes under the threshold encryption, with
-- SealingLaws; Draws is what its random numbers and its clock give. The multiplication of bytes
-- runs on eight rounds, one for each bit; the chunks run on the number of transactions.
--
-- Not modelled: the provers and the calls of the settlement service, the network side of the
-- bridge (subscription, reconnecting), the verifier program, the proving network apart from its
-- dispatcher and jobs, and the note encryption of the privacy library; logging and serialization
-- for display. Of the accounts on L1 the owner is left out, which the bridge program does not
-- read.
pub mod Base
pub mod Merkle
pub mod Account
pub mod AccountTree
pub mod Shielded
pub mod Router
pub mod Dispatcher
pub mod Executor
pub mod FastWithdraw
pub mod Threshold
pub mod Withdrawals
pub mod Batch
pub mod Prover
pub mod BatchManager
pub mod Ingest
pub mod ProofApi
pub mod Pipeline
pub mod Bridge
pub mod Samples
