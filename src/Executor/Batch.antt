-- ===== src/Executor/Batch.antt =====
-- The batch loop of crates/arbor-executor/src/lib.rs, over the record `TransactionCalls` of what it
-- calls of other crates for one transaction.
use arbor.Base.{
  ℕ, suc, ◌-◌, ◌^◌, String, Bool, Option, none, some, List, [], ◌∷◌, ◌++◌, map, Result, ok, length,
  ltb, ◌==◌, ◌||◌, not, if◌then◌else◌,
}
use arbor.Base.Checked.{checked_add}
use arbor.Base.Ord.{nat_ord}
use arbor.Base.BTreeMap.{get}
use arbor.Base.Outcome.{◌>>=◌, ◌>>◌, fail_if, ok_or, map_err}
use arbor.Primitives.{
  B256, Address, Bytes, NetworkId, DomainDescriptor, Eip1559Transaction, Log, Receipt,
}
use arbor.Codec.Limits.{max_transactions_per_batch}
use arbor.System.{CreateChainRequest, PreparedChainCreation, ChainRegistryRuntime}
use arbor.System.Slots.{chain_registry_address}
use arbor.Evm.{EvmError, EvmExecution, DomainEnv, ProtocolSpec}
use arbor.Executor.{
  ExecutionCalls, ChainRegistryExecutionContext, CreatedDomain, ExecutedTransaction,
  DomainExecutionResult, ExecutorError, too_many_transactions, invalid_envelope, wrong_chain_id,
  transaction, block_gas_overflow, receipt_encoding, system_preparation,
}

-- `decode_eip1559`, `recover_eip1559_sender`, `eip1559_transaction_hash` and `encode_eip1559_receipt`,
-- failing with the text of their errors; `decode_create_chain_call` and `prepare_chain_creation`, with
-- `none` for an error; `ExecutionState::from_genesis` of one funded account, `state_root`, and
-- `execute_transaction_with_system`, with the state that it leaves; the bloom filter of one log more,
-- and of two; and the ordered trie root.
pub record TransactionCalls (S : Type 0) : Type 0 where
  pub decode_eip1559 : Bytes → Result String Eip1559Transaction
  pub recover_sender : Eip1559Transaction → Result String Address
  pub transaction_hash : Eip1559Transaction → Result String B256
  pub encode_receipt : Receipt → Result String Bytes
  pub decode_create_chain_call : Bytes → Option CreateChainRequest
  pub prepare_chain_creation :
      CreateChainRequest → NetworkId → B256 → B256 → B256 → ℕ → ℕ → Option PreparedChainCreation
  pub from_genesis : Address → ℕ → Result String S
  pub state_root : S → B256
  pub execute_transaction :
      S
      → ProtocolSpec
      → DomainEnv
      → Eip1559Transaction
      → Address
      → Option ChainRegistryRuntime
      → Result EvmError (S × EvmExecution)
  pub accrue_raw_log : ℕ → Log → ℕ
  pub accrue_bloom : ℕ → ℕ → ℕ
  pub ordered_trie_root : List Bytes → B256

unfoldable pub checked_cumulative_gas : ℕ → ℕ → ℕ → ℕ → Result ExecutorError ℕ
checked_cumulative_gas index current gas limit = do
  used ← ok_or (checked_add 64 current gas) (block_gas_overflow index (2 ^ 64 - 1) limit)
  fail_if (ltb limit used) (block_gas_overflow index used limit)
  ok used

unfoldable pub registry_runtime :
    Option ChainRegistryExecutionContext
    → Option PreparedChainCreation
    → Option ChainRegistryRuntime
registry_runtime none prepared = none
registry_runtime (some context) prepared = some (record {
  root_domain_id = context.root_domain_id;
  executing_domain_id = context.executing_domain_id;
  consensus_height = context.creation_height;
  governance_address = context.governance_address;
  prepared_creation = prepared;
})

-- `transaction.to != Some(CHAIN_REGISTRY_ADDRESS)`
abbrev pub calls_registry : Option Address → Bool
calls_registry none = Bool.false
calls_registry (some to) = to == chain_registry_address

module _ {S : Type 0} (calls : TransactionCalls S) where
  unfoldable pub logs_bloom : ℕ → List Log → ℕ
  logs_bloom bloom [] = bloom
  logs_bloom bloom (log ∷ logs) = logs_bloom (calls.accrue_raw_log bloom log) logs

  unfoldable pub prepare_registry_creation :
      ℕ
      → Option ChainRegistryExecutionContext
      → Eip1559Transaction
      → B256
      → Result ExecutorError (Option PreparedChainCreation × Option S)
  prepare_registry_creation index none tx hash = ok (none, none)
  prepare_registry_creation index (some registry) tx hash =
      if not (registry.executing_domain_id == registry.root_domain_id) || not (calls_registry tx.to)
      then ok (none, none)
      else elim (calls.decode_create_chain_call tx.input) [
        | none ↦ ok (none, none)
        | some request ↦ elim (get request.parent_domain_id registry.finalized_heads) [
          | none ↦ ok (none, none)
          | some joint ↦ do
            genesis ←
                map_err (system_preparation index)
                  (calls.from_genesis request.owner request.initial_supply)
            elim (calls.prepare_chain_creation request registry.network_id hash joint
                (calls.state_root genesis) tx.value registry.creation_height) [
                  | none ↦ ok (none, none)
                  | some prepared ↦ ok (some prepared, some genesis)
                ]
        ]
      ]

  -- The domain that a transaction created, with its prepared state.
  unfoldable pub created_by :
      ℕ → Option DomainDescriptor → Option S → Result ExecutorError (List (CreatedDomain S))
  created_by index none genesis = ok []
  created_by index (some descriptor) genesis = do
    state ←
        ok_or genesis
          (system_preparation index "successful registry call has no prepared genesis state")
    ok (record { descriptor = descriptor; genesis_state = state } ∷ [])

  -- What one round of the loop adds: the state and the gas after it, its receipt with its encoding, the
  -- executed transaction, and the domain that it created.
  pub record ExecutedEnvelope : Type 0 where
    pub state : S
    pub gas : ℕ
    pub receipt : Receipt
    pub encoded : Bytes
    pub executed : ExecutedTransaction
    pub created : List (CreatedDomain S)

  unfoldable pub execute_envelope :
      ProtocolSpec
      → DomainEnv
      → Option ChainRegistryExecutionContext
      → ℕ
      → Bytes
      → S
      → ℕ
      → Result ExecutorError ExecutedEnvelope
  execute_envelope spec env registry index envelope state gas = do
    tx ← map_err (invalid_envelope index) (calls.decode_eip1559 envelope)
    fail_if (not (tx.chain_id == env.chain_id)) (wrong_chain_id index env.chain_id tx.chain_id)
    sender ← map_err (invalid_envelope index) (calls.recover_sender tx)
    hash ← map_err (invalid_envelope index) (calls.transaction_hash tx)
    (prepared, genesis) ← prepare_registry_creation index registry tx hash
    (next, result) ←
        map_err (transaction index)
          (calls.execute_transaction state spec env tx sender (registry_runtime registry prepared))
    used ← checked_cumulative_gas index gas result.gas_used env.gas_limit
    let receipt : Receipt = record {
      status = result.success;
      cumulative_gas_used = used;
      logs_bloom = logs_bloom 0 result.logs;
      logs = result.logs;
    } in
        do
          encoded ← map_err (receipt_encoding index) (calls.encode_receipt receipt)
          created ← created_by index result.created_domain genesis
          ok (record {
            state = next;
            gas = used;
            receipt = receipt;
            encoded = encoded;
            executed = record {
              transaction_hash = hash;
              sender = sender;
              success = result.success;
              gas_used = result.gas_used;
              contract_address = result.created_address;
              output = result.output;
            };
            created = created;
          })

  -- The loop from a position, a state, the gas and the bloom filter before it; the lists are those of the
  -- rounds from there on.
  unfoldable pub execute_envelopes :
      ProtocolSpec
      → DomainEnv
      → Option ChainRegistryExecutionContext
      → ℕ
      → List Bytes
      → S
      → ℕ
      → ℕ
      → Result ExecutorError (S × ℕ × ℕ × List ExecutedEnvelope)
  execute_envelopes spec env registry index [] state gas bloom = ok (state, gas, bloom, [])
  execute_envelopes spec env registry index (envelope ∷ envelopes) state gas bloom = do
    round ← execute_envelope spec env registry index envelope state gas
    (end, used, filter, rounds) ←
        execute_envelopes spec env registry (suc index) envelopes round.state round.gas
          (calls.accrue_bloom bloom round.receipt.logs_bloom)
    ok (end, used, filter, round ∷ rounds)

  unfoldable pub all_created : List ExecutedEnvelope → List (CreatedDomain S)
  all_created [] = []
  all_created (round ∷ rounds) = round.created ++ all_created rounds

  unfoldable pub execute_batch_with_registry :
      ProtocolSpec
      → DomainEnv
      → S
      → List Bytes
      → Option ChainRegistryExecutionContext
      → Result ExecutorError (DomainExecutionResult S)
  execute_batch_with_registry spec env parent envelopes registry = do
    fail_if (ltb max_transactions_per_batch (length envelopes))
        (too_many_transactions max_transactions_per_batch (length envelopes))
    (state, used, bloom, rounds) ← execute_envelopes spec env registry 0 envelopes parent 0 0
    ok (record {
      state = state;
      transactions_root = calls.ordered_trie_root envelopes;
      receipts_root = calls.ordered_trie_root (map (λ round. round.encoded) rounds);
      logs_bloom = bloom;
      gas_used = used;
      receipts = map (λ round. round.receipt) rounds;
      encoded_receipts = map (λ round. round.encoded) rounds;
      transactions = map (λ round. round.executed) rounds;
      created_domains = all_created rounds;
    })

  -- What the chain calls, with the account balances and the storage of `ExecutionState`.
  unfoldable pub execution_calls :
      (S → Address → Result EvmError (Option ℕ))
      → (S → Address → ℕ → Result EvmError ℕ)
      → ExecutionCalls S
  execution_calls balance_of storage = record {
    state_root = calls.state_root;
    balance_of = balance_of;
    storage = storage;
    execute_batch_with_registry = λ spec env state envelopes context.
        execute_batch_with_registry spec env state envelopes (some context);
    transactions_root = calls.ordered_trie_root;
  }
