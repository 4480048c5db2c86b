-- ===== src/Mvcc/Tests.antt =====
-- The snapshot theorems at a table with one row.
use velocidb.Prelude.{ℕ, none, List, [], ◌∷◌, some, ok, ◌≡◌, refl, arith, pos, int_beq, any}
use velocidb.Prelude.Map.{lookup, insert}
use velocidb.Types.{Value, integer}
use velocidb.Mvcc.{
  MvccManager, Snapshot, RecordVersion, VersionedRecord, Table, begin_transaction, read_version,
  delete_version, is_transaction_visible, is_visible, min_timestamp, vacuum,
}
use velocidb.Mvcc.Stable.{run, commit_call, insert_call, read_record, begin_transaction-reads}
use velocidb.Prelude.{nat_eq}
use velocidb.Mvcc.{table_of}
use velocidb.Mvcc.Stable.{begin_call, step}
use velocidb.Mvcc.Vacuum.{vacuum-loses}
use velocidb.Mvcc.Deleters.{Op, perform, perform_all, row_versions, AllEnded}
use velocidb.Mvcc.Deleters.{call, delete_call}
use velocidb.Mvcc.Collection.{read_version-vacuum}
use velocidb.Mvcc.Deletes.{delete_version-hidden, delete_version-revives}

abbrev one : List Value
one = integer (pos 1) ∷ []

abbrev two : List Value
two = integer (pos 2) ∷ []

-- Transaction 1 wrote the row; transaction 2 may have deleted it.
abbrev version : ℕ → ℕ → RecordVersion
version xmax deleted_at = record {
  version_info = record { xmin = 1; xmax = xmax; created_at = 2; deleted_at = deleted_at };
  values = one;
}

abbrev row : ℕ → ℕ → VersionedRecord
row xmax deleted_at = record { key = pos 1; versions = version xmax deleted_at ∷ [] }

abbrev rows : ℕ → ℕ → Table
rows xmax deleted_at = (pos 1, row xmax deleted_at) ∷ []

abbrev database : ℕ → ℕ → MvccManager
database xmax deleted_at = record {
  global_txn_id = 5;
  current_timestamp = 9;
  active_snapshots = [];
  version_store = ("t", rows xmax deleted_at) ∷ [];
  committed_transactions = [];
}

-- The snapshot of transaction 3, and that of transaction 4, which deletes.
abbrev reader : Snapshot
reader = record { timestamp = 6; active_transactions = []; txn_id = 3 }

abbrev deleter : Snapshot
deleter = record { timestamp = 7; active_transactions = 3 ∷ []; txn_id = 4 }

begin_transaction-reads_example :
    read_version
      (run
        (insert_call deleter "t" (pos 1) two ∷ commit_call deleter ∷ [])
        (begin_transaction (database 0 0)).1)
      "t"
      (pos 1)
      (begin_transaction (database 0 0)).0
    ≡ read_version (database 0 0) "t" (pos 1) (begin_transaction (database 0 0)).0
begin_transaction-reads_example =
    begin_transaction-reads (database 0 0)
      (insert_call deleter "t" (pos 1) two ∷ commit_call deleter ∷ []) "t" (pos 1) (omega arith)

delete_version-hidden_example :
    read_version (delete_version (database 0 0) "t" (pos 1) deleter).1 "t" (pos 1) reader
    ≡ read_version (database 0 0) "t" (pos 1) reader
unfolding lookup is_transaction_visible int_beq any
delete_version-hidden_example =
    delete_version-hidden (database 0 0) "t" (pos 1) deleter (rows 0 0) (row 0 0) [] (version 0 0)
      refl refl refl reader "t" (pos 1) refl refl

delete_version-revives_example :
    (read_version (database 2 5) "t" (pos 1) reader
      ≡ ok (read_record (some (record (row 2 5) { versions = [] })) reader))
    × (read_version (delete_version (database 2 5) "t" (pos 1) deleter).1 "t" (pos 1) reader
        ≡ ok (some one))
unfolding lookup is_transaction_visible int_beq any
delete_version-revives_example =
    delete_version-revives (database 2 5) "t" (pos 1) deleter (rows 2 5) (row 2 5) [] (version 2 5)
      refl refl refl reader (omega arith) refl (omega arith) refl refl

-- A snapshot taken while transaction 2, which deleted the row, was active; 2 has committed since.
abbrev earlier : Snapshot
earlier = record { timestamp = 6; active_transactions = 2 ∷ []; txn_id = 3 }

abbrev in_use : ℕ → ℕ → MvccManager
in_use xmax deleted_at = record (database xmax deleted_at) { active_snapshots = (3, earlier) ∷ [] }

-- A row whose first version transaction 2 deleted, and to which transaction 3 then gave another.
abbrev second : RecordVersion
second = record {
  version_info = record { xmin = 3; xmax = 0; created_at = 7; deleted_at = 0 };
  values = two;
}

abbrev updated : MvccManager
updated = record (database 0 0) {
  version_store =
      ("t", (pos 1, record { key = pos 1; versions = version 2 5 ∷ (second ∷ []) }) ∷ []) ∷ [];
}

-- Once transaction 5 has begun, transaction 6 begins and deletes the row.
abbrev later : Snapshot
later = record { timestamp = 10; active_transactions = 5 ∷ []; txn_id = 6 }

abbrev calls : List Op
calls = call begin_call ∷ (delete_call later "t" (pos 1) ∷ [])

deleters-ended : AllEnded updated (row_versions updated "t" (pos 1))
unfolding row_versions table_of lookup int_beq any
deleters-ended = ((λ e. (omega arith, omega arith, refl)), ((λ e. absurd (e refl)), tt))

still-active :
    lookup 5 (perform_all calls (begin_transaction updated).1).active_snapshots
    ≡ some (begin_transaction updated).0
unfolding perform_all perform step begin_transaction delete_version lookup insert int_beq
still-active = refl

read_version-vacuum_example :
    read_version
      (vacuum (perform_all calls (begin_transaction updated).1))
      "t"
      (pos 1)
      (begin_transaction updated).0
    ≡ read_version
        (perform_all calls (begin_transaction updated).1)
        "t"
        (pos 1)
        (begin_transaction updated).0
unfolding begin_transaction
read_version-vacuum_example =
    read_version-vacuum updated calls "t" (pos 1) (omega arith) deleters-ended still-active

vacuum-loses_example :
    (read_version (in_use 2 5) "t" (pos 1) earlier ≡ ok (some one))
    × (read_version (vacuum (in_use 2 5)) "t" (pos 1) earlier ≡ ok none)
unfolding lookup int_beq is_visible is_transaction_visible any min_timestamp
vacuum-loses_example =
    vacuum-loses (in_use 2 5) "t" (pos 1) (rows 2 5) (row 2 5) (version 2 5) earlier refl refl refl
      refl (λ e. absurd (omega (arith, e))) (omega arith)
