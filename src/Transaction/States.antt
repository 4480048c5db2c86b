-- ===== src/Transaction/States.antt =====
-- The state machine of a transaction and the set of the active ones, src/transaction.rs.
use velocidb.Prelude.{
  ℕ, ◌<◌, false, some, nat_beq, nat_beq_iff, nat_eq, ◌≡◌, ◌≢◌, refl, ◌⊎◌, ◌↔◌, inl, inr, arith,
  Result, ok, err, transaction_error, Bool-cases,
}
use velocidb.Prelude.Map.{lookup}
use velocidb.Transaction.{
  TransactionState, active, committed, aborted, from_u8, to_u8, Transaction, state_of,
  compare_exchange, commit, abort, TransactionManager,
}

-- The `u8` of a state is read back as that state.
from_u8-to_u8 : (s : TransactionState) → from_u8 (to_u8 s) ≡ s
unfolding from_u8 to_u8
from_u8-to_u8 active = refl
from_u8-to_u8 committed = refl
from_u8-to_u8 aborted = refl

-- What finishing a transaction as `target` does: from the active state it succeeds and reaches the
-- target, from another it fails and changes nothing.
abbrev pub Finishes : TransactionState → Transaction → Result (Unit {0}) × Transaction → Type 0
Finishes target t (r, u) =
    ((t.state ≡ 0) × (r ≡ ok tt) × (state_of u ≡ target) × (u.id ≡ t.id))
    ⊎ ((t.state ≢ 0) × (r ≡ err transaction_error) × (u ≡ t))

state-zero : (t : Transaction) → nat_beq t.state 0 ≡ false → t.state ≢ 0
state-zero t h e = absurd (ground (arith, h, e))

-- A commit of an active transaction succeeds and leaves it committed; of another one it fails with a
-- transaction error and leaves it as it is.
pub commit-Finishes : (t : Transaction) → Finishes committed t (commit t)
unfolding commit compare_exchange to_u8 state_of from_u8
commit-Finishes t = elim (Bool-cases (nat_beq t.state 0)) [
  | inl h ↦ inl (
    (nat_beq_iff t.state 0).0 h,
    rw (h, commit, compare_exchange) refl,
    rw (h, commit, compare_exchange) refl,
    rw (h, commit, compare_exchange) refl,
  )
  | inr h ↦
      inr (
        state-zero t h,
        rw (h, commit, compare_exchange) refl,
        rw (h, commit, compare_exchange) refl,
      )
]

pub abort-Finishes : (t : Transaction) → Finishes aborted t (abort t)
unfolding abort compare_exchange to_u8 state_of from_u8
abort-Finishes t = elim (Bool-cases (nat_beq t.state 0)) [
  | inl h ↦ inl (
    (nat_beq_iff t.state 0).0 h,
    rw (h, abort, compare_exchange) refl,
    rw (h, abort, compare_exchange) refl,
    rw (h, abort, compare_exchange) refl,
  )
  | inr h ↦
      inr
        (state-zero t h, rw (h, abort, compare_exchange) refl, rw (h, abort, compare_exchange) refl)
]

-- Each stored transaction has its id, below the next one; the active ids are those whose state is active.
pub record IsManaged (m : TransactionManager) : Type 0 where
  pub ids :
      (id : ℕ) (t : Transaction) → lookup id m.store ≡ some t → (t.id ≡ id) × (id < m.next_txn_id)
  pub actives :
      (id : ℕ)
      → (lookup id m.active_transactions ≡ some tt)
        ↔ ((t : Transaction) × (lookup id m.store ≡ some t) × (t.state ≡ 0))
