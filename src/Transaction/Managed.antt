-- ===== src/Transaction/Managed.antt =====
-- The manager's active set is the set of the transactions whose state is active, src/transaction.rs.
use velocidb.Prelude.{
  ℕ, ◌+◌, ◌<◌, ◌^◌, true, none, some, nat_beq, nat_beq_iff, nat_eq, ◌≡◌, ◌≢◌, refl, sym, ap, subst,
  ◌∙◌, ◌↔◌, inl, inr, arith, Result, Bool-cases, Option-cases,
}
use velocidb.Prelude.Words.{add_u64}
use velocidb.Prelude.Map.{lookup, insert, remove, lookup-insert, lookup-remove, lookup-inserted}
use velocidb.Transaction.{
  TransactionState, active, committed, aborted, from_u8, to_u8, Transaction, state_of, commit,
  abort, TransactionManager, begin, finish, commit_transaction, abort_transaction, get_transaction,
  new_transaction,
}
use velocidb.Transaction.States.{IsManaged, Finishes, commit-Finishes, abort-Finishes}

-- No stored transaction has the next id.
pub next-absent : (m : TransactionManager) → IsManaged m → lookup m.next_txn_id m.store ≡ none
next-absent m w = elim (Option-cases (lookup m.next_txn_id m.store)) [
  | inl n ↦ n
  | inr (t, e) ↦ absurd (omega (arith, (w.ids m.next_txn_id t e).1))
]

pub add-next : (a : ℕ) → a + 1 < 2 ^ 64 → add_u64 a 1 ≡ a + 1
add-next a h = omega arith

-- While the counter of ids does not wrap and the set of active transactions is exact, `begin`
-- gives an id that no stored transaction has, the new transaction is among the active ones, and
-- the set of active transactions stays exact.
pub begin-IsManaged :
    (m : TransactionManager)
    → m.next_txn_id + 1 < 2 ^ 64
    → IsManaged m
    → (lookup (begin m).0 m.store ≡ none)
      × (get_transaction (begin m).1 (begin m).0 ≡ some (begin m).0)
      × IsManaged (begin m).1
unfolding begin new_transaction get_transaction to_u8
begin-IsManaged m h w = (
  next-absent m w,
  rw (lookup-insert n n tt m.active_transactions, same, get_transaction) refl,
  record { ids = ids; actives = actives },
)
  where
    n : ℕ
    n = m.next_txn_id

    same : nat_beq n n ≡ true
    same = (nat_beq_iff n n).1 refl

    ids :
        (id : ℕ) (t : Transaction)
        → lookup id (insert n (new_transaction n) m.store) ≡ some t
        → (t.id ≡ id) × (id < add_u64 n 1)
    ids id t e = elim (lookup-inserted n id (new_transaction n) t m.store e) [
      | inl (i, r) ↦ (ap (λ x. x.id) (sym r) ∙ i, omega (arith, add-next n h, i, h))
      | inr (_, r) ↦ ((w.ids id t r).0, omega (arith, (w.ids id t r).1, add-next n h))
    ]

    actives :
        (id : ℕ)
        → (lookup id (insert n tt m.active_transactions) ≡ some tt) ↔ (
            (t : Transaction) × (lookup id (insert n (new_transaction n) m.store) ≡ some t)
            × (t.state ≡ 0))
    actives id = elim (Bool-cases (nat_beq n id)) [
      | inl b ↦
          rw
            (
              lookup-insert n id tt m.active_transactions,
              lookup-insert n id (new_transaction n) m.store,
              b,
            )
            (λ _. (new_transaction n, refl, refl), λ _. refl)
      | inr b ↦
          rw
            (
              lookup-insert n id tt m.active_transactions,
              lookup-insert n id (new_transaction n) m.store,
              b,
            )
            (w.actives id)
    ]

pub some-injective : {a b : Transaction} → some a ≡ some b → a ≡ b
some-injective e = cc e

pub zero-active : (t : Transaction) → t.state ≡ 0 → state_of t ≡ active
unfolding state_of from_u8
zero-active t z = rw (z, state_of, from_u8) refl

-- A finished transaction leaves the active set.
retired-IsManaged :
    (m : TransactionManager) (id : ℕ) (u : Transaction)
    → IsManaged m
    → u.id ≡ id
    → u.state ≢ 0
    → id < m.next_txn_id
    → IsManaged (record m {
      store = insert id u m.store;
      active_transactions = remove id m.active_transactions;
    })
retired-IsManaged m id u w i z l = record { ids = ids; actives = actives }
  where
    ids :
        (j : ℕ) (t : Transaction)
        → lookup j (insert id u m.store) ≡ some t
        → (t.id ≡ j) × (j < m.next_txn_id)
    ids j t e = elim (lookup-inserted id j u t m.store e) [
      | inl (k, r) ↦ (ap (λ x. x.id) (sym r) ∙ i ∙ k, subst (λ x. x < m.next_txn_id) k l)
      | inr (_, r) ↦ w.ids j t r
    ]

    not_zero : (t : Transaction) → some u ≡ some t → t.state ≢ 0
    not_zero t e z0 = z (ap (λ x. x.state) (some-injective e) ∙ z0)

    actives :
        (j : ℕ)
        → (lookup j (remove id m.active_transactions) ≡ some tt)
          ↔ ((t : Transaction) × (lookup j (insert id u m.store) ≡ some t) × (t.state ≡ 0))
    actives j = elim (Bool-cases (nat_beq id j)) [
      | inl b ↦
          rw (lookup-remove id j m.active_transactions, lookup-insert id j u m.store, b)
            (λ e. absurd (cc e), λ x. absurd (not_zero x.0 x.1 x.2))
      | inr b ↦
          rw (lookup-remove id j m.active_transactions, lookup-insert id j u m.store, b)
            (w.actives j)
    ]

-- Storing a transaction again changes no lookup.
restored-IsManaged :
    (m : TransactionManager) (id : ℕ) (t u : Transaction)
    → IsManaged m
    → lookup id m.store ≡ some t
    → u ≡ t
    → IsManaged (record m { store = insert id u m.store })
restored-IsManaged m id t u w e h = record {
  ids = λ j x f. w.ids j x (sym (same j) ∙ f);
  actives = λ j. (
    λ f. (let (x, g, z) = (w.actives j).0 f in (x, same j ∙ g, z)),
    λ y. (w.actives j).1 (y.0, sym (same j) ∙ y.1, y.2),
  );
}
  where
    same : (j : ℕ) → lookup j (insert id u m.store) ≡ lookup j m.store
    same j = elim (Bool-cases (nat_beq id j)) [
      | inl b ↦
          rw (lookup-insert id j u m.store, b)
            (ap some h ∙ sym e ∙ ap (λ k. lookup k m.store) ((nat_beq_iff id j).0 b))
      | inr b ↦ rw (lookup-insert id j u m.store, b) refl
    ]

finish-IsManaged :
    (target : TransactionState) (change : Transaction → Result (Unit {0}) × Transaction)
    → ((t : Transaction) → Finishes target t (change t))
    → target ≢ active
    → (m : TransactionManager) (id : ℕ) → IsManaged m
    → IsManaged (finish change m id).1
unfolding finish
finish-IsManaged target change h late m id w = elim (Option-cases (lookup id m.store)) [
  | inl n ↦ rw (n, finish) w
  | inr (t, e) ↦ elim (h t) [
    | inl (z, r, s, i) ↦
        rw (e, r, finish)
          (subst
            (λ k. IsManaged (record m {
              store = insert id (change t).1 m.store;
              active_transactions = remove k m.active_transactions;
            }))
            (sym (i ∙ (w.ids id t e).0))
            (retired-IsManaged m id (change t).1 w (i ∙ (w.ids id t e).0) (left (change t).1 s)
              (w.ids id t e).1))
    | inr (z, r, s) ↦ rw (e, r, finish) (restored-IsManaged m id t (change t).1 w e s)
  ]
]
  where
    left : (u : Transaction) → state_of u ≡ target → u.state ≢ 0
    left u s z = late (sym s ∙ zero-active u z)

-- A commit, also one that fails, keeps the set of active transactions exact: the ids in it are
-- those of the stored transactions whose state is active.
pub commit_transaction-IsManaged :
    (m : TransactionManager) (id : ℕ) → IsManaged m → IsManaged (commit_transaction m id).1
unfolding commit_transaction
commit_transaction-IsManaged =
    finish-IsManaged committed commit commit-Finishes (λ e. absurd (cc e))

-- An abort, also one that fails, keeps the set of active transactions exact: the ids in it are
-- those of the stored transactions whose state is active.
pub abort_transaction-IsManaged :
    (m : TransactionManager) (id : ℕ) → IsManaged m → IsManaged (abort_transaction m id).1
unfolding abort_transaction
abort_transaction-IsManaged = finish-IsManaged aborted abort abort-Finishes (λ e. absurd (cc e))
