-- ===== src/Transaction.antt =====
-- Transactions and their manager, src/transaction.rs. A transaction is shared by `Arc`: the store of
-- the manager maps its id to the one atomic state that every holder of the transaction reads.
pub mod States
pub mod Managed
pub mod Terminal
mod Tests
use velocidb.Prelude.{
  ℕ, ◌+◌, Bool, true, false, List, [], ◌∷◌, Option, none, some, nat_beq, nat_eq, if◌then◌else◌,
  length, Result, ok, err, panic, transaction_error,
}
use velocidb.Prelude.Words.{add_u64}
use velocidb.Prelude.Map.{lookup, insert, remove}

pub data TransactionState : Type 0 where
  active committed aborted : TransactionState

-- `From<u8>` and the cast back to `u8`.
unfoldable pub from_u8 : ℕ → TransactionState
from_u8 n = if nat_beq n 0 then active else if nat_beq n 1 then committed else aborted

unfoldable pub to_u8 : TransactionState → ℕ
to_u8 active = 0
to_u8 committed = 1
to_u8 aborted = 2

pub record Transaction : Type 0 where
  pub id : ℕ
  pub state : ℕ

unfoldable pub new_transaction : ℕ → Transaction
unfolding to_u8
new_transaction id = record { id = id; state = to_u8 active }

unfoldable pub state_of : Transaction → TransactionState
unfolding from_u8
state_of t = from_u8 t.state

-- `compare_exchange` of the atomic state: the error carries the state found.
unfoldable pub compare_exchange : Transaction → ℕ → ℕ → Bool × Transaction
compare_exchange t current new =
    if nat_beq t.state current then (true, record t { state = new }) else (false, t)

unfoldable pub commit : Transaction → Result (Unit {0}) × Transaction
unfolding compare_exchange to_u8
commit t =
    let (exchanged, u) = compare_exchange t (to_u8 active) (to_u8 committed) in
    (if exchanged then ok tt else err transaction_error, u)

unfoldable pub abort : Transaction → Result (Unit {0}) × Transaction
unfolding compare_exchange to_u8
abort t =
    let (exchanged, u) = compare_exchange t (to_u8 active) (to_u8 aborted) in
    (if exchanged then ok tt else err transaction_error, u)

-- `active_transactions` holds the ids of the map; `store` is the heap of the transactions that the
-- map and the callers share.
pub record TransactionManager : Type 0 where
  pub next_txn_id : ℕ
  pub active_transactions : List (ℕ × Unit {0})
  pub store : List (ℕ × Transaction)

unfoldable pub new_manager : TransactionManager
new_manager = record { next_txn_id = 1; active_transactions = []; store = [] }

-- `begin` returns the id of the shared transaction.
unfoldable pub begin : TransactionManager → ℕ × TransactionManager
unfolding new_transaction
begin m =
    let id = m.next_txn_id in
    (
      id,
      record m {
        next_txn_id = add_u64 id 1;
        active_transactions = insert id tt m.active_transactions;
        store = insert id (new_transaction id) m.store;
      },
    )

-- A transaction of the caller is one that `begin` returned; the model answers another id by `panic`.
unfoldable pub finish :
    (Transaction → Result (Unit {0}) × Transaction)
    → TransactionManager
    → ℕ
    → Result (Unit {0}) × TransactionManager
finish change m id = elim (lookup id m.store) [
  | none ↦ (panic, m)
  | some t ↦
      let (r, u) = change t in
      let changed = record m { store = insert id u m.store } in
      elim r [
        | ok _ ↦ (ok tt, record changed { active_transactions = remove u.id m.active_transactions })
        | err e ↦ (err e, changed)
        | panic ↦ (panic, changed)
      ]
]

unfoldable pub commit_transaction : TransactionManager → ℕ → Result (Unit {0}) × TransactionManager
commit_transaction m id = finish commit m id

unfoldable pub abort_transaction : TransactionManager → ℕ → Result (Unit {0}) × TransactionManager
abort_transaction m id = finish abort m id

unfoldable pub get_transaction : TransactionManager → ℕ → Option ℕ
get_transaction m id = elim (lookup id m.active_transactions) [ none ↦ none | some _ ↦ some id ]

abbrev pub active_count : TransactionManager → ℕ
active_count m = length m.active_transactions
