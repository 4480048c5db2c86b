-- ===== src/Transaction/Tests.antt =====
-- The transaction theorems at concrete transactions and locks.
use velocidb.Prelude.{nat_eq, [], ◌∷◌, none, some, ok, ◌≡◌, refl, arith}
use velocidb.Prelude.Map.{lookup, insert}
use velocidb.Transaction.{
  TransactionManager, new_manager, begin, commit_transaction, get_transaction, committed,
}
use velocidb.Transaction.States.{IsManaged}
use velocidb.Transaction.Managed.{begin-IsManaged, commit_transaction-IsManaged}
use velocidb.Transaction.Terminal.{
  begin_call, commit_call, abort_call, run, IsClosed, commit_transaction-IsClosed,
}

new-IsManaged : IsManaged new_manager
unfolding new_manager lookup
new-IsManaged = record {
  ids = λ id t e. absurd (cc e);
  actives = λ id. (λ e. absurd (cc e), λ x. absurd (cc x.1));
}

abbrev two : TransactionManager
two = (begin (begin new_manager).1).1

two-IsManaged : IsManaged two
unfolding begin new_manager
two-IsManaged =
    (begin-IsManaged (begin new_manager).1 (omega arith)
      (begin-IsManaged new_manager (omega arith) new-IsManaged).2).2

begin-IsManaged_example :
    (lookup (begin two).0 two.store ≡ none)
    × (get_transaction (begin two).1 (begin two).0 ≡ some (begin two).0)
    × IsManaged (begin two).1
unfolding begin new_manager
begin-IsManaged_example = begin-IsManaged two (omega arith) two-IsManaged

commit_transaction-IsManaged_example : IsManaged (commit_transaction two 1).1
commit_transaction-IsManaged_example = commit_transaction-IsManaged two 1 two-IsManaged

commit_transaction-IsClosed_example :
    ((commit_transaction two 1).0 ≡ ok tt)
    × IsClosed committed
        (run (begin_call ∷ abort_call 1 ∷ commit_call 2 ∷ []) (commit_transaction two 1).1)
        1
unfolding begin new_manager get_transaction lookup insert
commit_transaction-IsClosed_example =
    commit_transaction-IsClosed two 1 (begin_call ∷ abort_call 1 ∷ commit_call 2 ∷ []) two-IsManaged
      (omega arith) refl
