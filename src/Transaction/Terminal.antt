-- ===== src/Transaction/Terminal.antt =====
-- A transaction is committed or aborted once, whatever calls follow, src/transaction.rs.
use velocidb.Prelude.{
  ℕ, ◌+◌, ◌<◌, ◌^◌, true, List, [], ◌∷◌, Option, none, some, nat_beq, nat_beq_iff, nat_eq, ◌≡◌, ◌≢◌,
  refl, sym, ap, subst, ◌∙◌, inl, inr, arith, Result, ok, err, Result-cases, transaction_error,
  Bool-cases, Option-cases, length,
}
use velocidb.Prelude.Map.{lookup, insert, lookup-insert}
use velocidb.Transaction.{
  TransactionState, active, committed, aborted, Transaction, state_of, commit, abort,
  TransactionManager, begin, finish, commit_transaction, abort_transaction, get_transaction,
  new_transaction,
}
use velocidb.Transaction.States.{IsManaged, Finishes, commit-Finishes, abort-Finishes}
use velocidb.Transaction.Managed.{
  begin-IsManaged, commit_transaction-IsManaged, abort_transaction-IsManaged, add-next,
  some-injective, zero-active,
}

pub data Call : Type 0 where
  begin_call : Call
  commit_call abort_call : ℕ → Call

unfoldable pub step : Call → TransactionManager → TransactionManager
step begin_call m = (begin m).1
step (commit_call id) m = (commit_transaction m id).1
step (abort_call id) m = (abort_transaction m id).1

unfoldable pub run : List Call → TransactionManager → TransactionManager
run [] m = m
run (c ∷ cs) m = run cs (step c m)

-- A stored transaction that is no longer active.
abbrev pub IsOver : TransactionManager → ℕ → Transaction → Type 0
IsOver m id t = (lookup id m.store ≡ some t) × (t.state ≢ 0)

begin-next :
    (m : TransactionManager)
    → m.next_txn_id + 1 < 2 ^ 64
    → (begin m).1.next_txn_id ≡ m.next_txn_id + 1
unfolding begin
begin-next m h = add-next m.next_txn_id h

finish-next :
    (change : Transaction → Result (Unit {0}) × Transaction) (m : TransactionManager) (id : ℕ)
    → (finish change m id).1.next_txn_id ≡ m.next_txn_id
unfolding finish
finish-next change m id = elim (Option-cases (lookup id m.store)) [
  | inl n ↦ rw (n, finish) refl
  | inr (t, e) ↦ elim (Result-cases (change t).0) [
    | inl (x, r) ↦ rw (e, r, finish) refl
    | inr (inl (x, r)) ↦ rw (e, r, finish) refl
    | inr (inr r) ↦ rw (e, r, finish) refl
  ]
]

-- Finishing some transaction leaves one that is over as it is.
finish-IsOver :
    (target : TransactionState) (change : Transaction → Result (Unit {0}) × Transaction)
    → ((t : Transaction) → Finishes target t (change t))
    → (m : TransactionManager) (id other : ℕ) (t : Transaction) → IsOver m id t
    → IsOver (finish change m other).1 id t
unfolding finish
finish-IsOver target change h m id other t o = elim (Option-cases (lookup other m.store)) [
  | inl n ↦ rw (n, finish) o
  | inr (x, e) ↦ elim (h x) [
    | inl (z, r, s, i) ↦ rw (e, r, finish) (apart x e z, o.1)
    | inr (z, r, s) ↦ rw (e, r, finish) (same x e s, o.1)
  ]
]
  where
    meet : (x : Transaction) → lookup other m.store ≡ some x → nat_beq other id ≡ true → x ≡ t
    meet x e b =
        some-injective (sym e ∙ ap (λ k. lookup k m.store) ((nat_beq_iff other id).0 b) ∙ o.0)

    apart :
        (x : Transaction)
        → lookup other m.store ≡ some x
        → x.state ≡ 0
        → lookup id (insert other (change x).1 m.store) ≡ some t
    apart x e z = elim (Bool-cases (nat_beq other id)) [
      | inl b ↦ absurd (o.1 (ap (λ y. y.state) (sym (meet x e b)) ∙ z))
      | inr b ↦ rw (lookup-insert other id (change x).1 m.store, b) o.0
    ]

    same :
        (x : Transaction)
        → lookup other m.store ≡ some x
        → (change x).1 ≡ x
        → lookup id (insert other (change x).1 m.store) ≡ some t
    same x e s = elim (Bool-cases (nat_beq other id)) [
      | inl b ↦ rw (lookup-insert other id (change x).1 m.store, b) (ap some (s ∙ meet x e b))
      | inr b ↦ rw (lookup-insert other id (change x).1 m.store, b) o.0
    ]

begin-IsOver :
    (m : TransactionManager) (id : ℕ) (t : Transaction)
    → IsManaged m
    → IsOver m id t
    → IsOver (begin m).1 id t
unfolding begin
begin-IsOver m id t w o = (
  elim (Bool-cases (nat_beq m.next_txn_id id)) [
    | inl b ↦ absurd (omega (arith, (w.ids id t o.0).1, (nat_beq_iff m.next_txn_id id).0 b))
    | inr b ↦ rw (lookup-insert m.next_txn_id id (new_transaction m.next_txn_id) m.store, b) o.0
  ],
  o.1,
)

run-IsOver :
    (calls : List Call) (m : TransactionManager) (id : ℕ) (t : Transaction)
    → IsManaged m
    → m.next_txn_id + length calls < 2 ^ 64
    → IsOver m id t
    → IsOver (run calls m) id t × IsManaged (run calls m)
unfolding run step commit_transaction abort_transaction
run-IsOver [] m id t w h o = (o, w)
run-IsOver (begin_call ∷ cs) m id t w h o =
    run-IsOver cs (begin m).1 id t (begin-IsManaged m (omega arith) w).2
      (omega (arith, begin-next m (omega arith))) (begin-IsOver m id t w o)
run-IsOver (commit_call other ∷ cs) m id t w h o =
    run-IsOver cs (finish commit m other).1 id t (commit_transaction-IsManaged m other w)
      (omega (arith, finish-next commit m other))
      (finish-IsOver committed commit commit-Finishes m id other t o)
run-IsOver (abort_call other ∷ cs) m id t w h o =
    run-IsOver cs (finish abort m other).1 id t (abort_transaction-IsManaged m other w)
      (omega (arith, finish-next abort m other))
      (finish-IsOver aborted abort abort-Finishes m id other t o)

-- Neither a commit nor an abort succeeds, the transaction is not among the active ones, and its state
-- is `target`.
unfoldable pub IsClosed : TransactionState → TransactionManager → ℕ → Type 0
IsClosed target m id =
    ((commit_transaction m id).0 ≡ err transaction_error)
    × ((abort_transaction m id).0 ≡ err transaction_error)
    × (get_transaction m id ≡ none)
    × ((t : Transaction) × (lookup id m.store ≡ some t) × (state_of t ≡ target))

finish-refused :
    (target : TransactionState) (change : Transaction → Result (Unit {0}) × Transaction)
    → ((t : Transaction) → Finishes target t (change t))
    → (m : TransactionManager) (id : ℕ) (t : Transaction) → IsOver m id t
    → (finish change m id).0 ≡ err transaction_error
unfolding finish
finish-refused target change h m id t o = elim (h t) [
  | inl (z, r, s, i) ↦ absurd (o.1 z)
  | inr (z, r, s) ↦ rw (o.0, r, finish) refl
]

over-IsClosed :
    (m : TransactionManager) (id : ℕ) (t : Transaction)
    → IsManaged m
    → IsOver m id t
    → IsClosed (state_of t) m id
unfolding IsClosed commit_transaction abort_transaction get_transaction
over-IsClosed m id t w o = (
  finish-refused committed commit commit-Finishes m id t o,
  finish-refused aborted abort abort-Finishes m id t o,
  elim (Option-cases (lookup id m.active_transactions)) [
    | inl n ↦ rw (n, get_transaction) refl
    | inr (x, e) ↦ absurd (unfinished ((w.actives id).0 e))
  ],
  (t, o.0, refl),
)
  where
    unfinished : ((u : Transaction) × (lookup id m.store ≡ some u) × (u.state ≡ 0)) → ⊥
    unfinished (u, e, z) = o.1 (ap (λ y. y.state) (some-injective (sym o.0 ∙ e)) ∙ z)

-- Finishing an active transaction succeeds and leaves it over, in the target state.
finish-done :
    (target : TransactionState) (change : Transaction → Result (Unit {0}) × Transaction)
    → ((t : Transaction) → Finishes target t (change t))
    → target ≢ active
    → (m : TransactionManager) (id : ℕ) (x : Transaction) → lookup id m.store ≡ some x
    → x.state ≡ 0
    → ((finish change m id).0 ≡ ok tt)
      × IsOver (finish change m id).1 id (change x).1
      × (state_of (change x).1 ≡ target)
unfolding finish
finish-done target change h late m id x e z = elim (h x) [
  | inl (_, r, s, i) ↦
      rw (e, r, finish) (refl, (inserted, λ zero. late (sym s ∙ zero-active (change x).1 zero)), s)
  | inr (n, r, s) ↦ absurd (n z)
]
  where
    inserted : lookup id (insert id (change x).1 m.store) ≡ some (change x).1
    inserted = rw (lookup-insert id id (change x).1 m.store, (nat_beq_iff id id).1 refl) refl

finish-IsClosed :
    (target : TransactionState) (change : Transaction → Result (Unit {0}) × Transaction)
    → ((t : Transaction) → Finishes target t (change t))
    → target ≢ active
    → (m : TransactionManager) (id : ℕ) (calls : List Call) → IsManaged m
    → IsManaged (finish change m id).1
    → m.next_txn_id + length calls < 2 ^ 64
    → get_transaction m id ≡ some id
    → ((finish change m id).0 ≡ ok tt) × IsClosed target (run calls (finish change m id).1) id
unfolding get_transaction
finish-IsClosed target change h late m id calls w v room g =
    let (x, e, z) = (w.actives id).0 (listed (lookup id m.active_transactions) refl) in
    let (done, over, s) = finish-done target change h late m id x e z in
    let (o, r) =
      run-IsOver calls (finish change m id).1 id (change x).1 v
        (omega (arith, finish-next change m id, room)) over in
    (
      done,
      subst (λ y. IsClosed y (run calls (finish change m id).1) id) s
          (over-IsClosed (run calls (finish change m id).1) id (change x).1 r o),
    )
  where
    listed :
        (o : Option (Unit {0}))
        → lookup id m.active_transactions ≡ o
        → lookup id m.active_transactions ≡ some tt
    listed (some _) f = f
    listed none f = absurd (cc (rw (f, get_transaction) at g))

-- With an exact set of active transactions, the commit of an active transaction succeeds.
-- Whatever begins, commits and aborts follow it, as long as the counter of ids does not wrap,
-- the transaction is stored as committed, it can be neither committed nor aborted again, and it
-- is not among the active ones.
pub commit_transaction-IsClosed :
    (m : TransactionManager) (id : ℕ) (calls : List Call)
    → IsManaged m
    → m.next_txn_id + length calls < 2 ^ 64
    → get_transaction m id ≡ some id
    → ((commit_transaction m id).0 ≡ ok tt)
      × IsClosed committed (run calls (commit_transaction m id).1) id
unfolding commit_transaction
commit_transaction-IsClosed m id calls w =
    finish-IsClosed committed commit commit-Finishes (λ e. absurd (cc e)) m id calls w
      (commit_transaction-IsManaged m id w)

-- With an exact set of active transactions, the abort of an active transaction succeeds.
-- Whatever begins, commits and aborts follow it, as long as the counter of ids does not wrap,
-- the transaction is stored as aborted, it can be neither committed nor aborted again, and it
-- is not among the active ones.
pub abort_transaction-IsClosed :
    (m : TransactionManager) (id : ℕ) (calls : List Call)
    → IsManaged m
    → m.next_txn_id + length calls < 2 ^ 64
    → get_transaction m id ≡ some id
    → ((abort_transaction m id).0 ≡ ok tt)
      × IsClosed aborted (run calls (abort_transaction m id).1) id
unfolding abort_transaction
abort_transaction-IsClosed m id calls w =
    finish-IsClosed aborted abort abort-Finishes (λ e. absurd (cc e)) m id calls w
      (abort_transaction-IsManaged m id w)
