-- ===== src/Mvcc/Stable.antt =====
-- A snapshot reads the same rows while transactions begin, commit, abort and insert, src/mvcc.rs.
use mathlib.Core.List.{reverse-append}
use velocidb.Prelude.{
  ℕ, suc, ◌+◌, ◌<◌, ◌^◌, false, List, [], ◌∷◌, ◌++◌, Option, none, some, lt→ltb, nat_eq, string_eq,
  int_eq, ℤ, ◌==◌, if◌then◌else◌, ◌≡◌, refl, sym, ap, ◌∙◌, inl, inr, arith, find, length, String,
  ok, Bool-cases, Option-cases, ==_iff,
}
use velocidb.Prelude.Words.{add_u64}
use velocidb.Prelude.Map.{lookup, insert, lookup-insert}
use velocidb.Types.{Value}
use velocidb.Mvcc.{
  Snapshot, RecordVersion, VersionedRecord, new_version, is_visible, get_visible_version, Table,
  insert_ordered, MvccManager, begin_transaction, commit_transaction, abort_transaction, table_of,
  record_of, insert_version, read_version,
}

pub lookup-insert_ordered :
    (k j : ℤ) (r : VersionedRecord) (t : Table)
    → lookup j (insert_ordered k r t) ≡ (if k == j then some r else lookup j t)
unfolding lookup insert_ordered
lookup-insert_ordered k j r [] = refl
lookup-insert_ordered k j r ((i, s) ∷ t) =
    ground (arith, ==_iff k j, ==_iff i k, ==_iff i j, lookup-insert_ordered k j r t)

-- The read of a version, from the tables and from a table.
unfoldable pub read_record : Option VersionedRecord → Snapshot → Option (List Value)
read_record none s = none
read_record (some r) s = elim (get_visible_version r.versions s) [
  | none ↦ none
  | some v ↦ some v.values
]

pub read_version-table_of :
    (m : MvccManager) (table : String) (key : ℤ) (s : Snapshot)
    → read_version m table key s ≡ ok (read_record (lookup key (table_of m table)) s)
unfolding read_version table_of read_record lookup
read_version-table_of m table key s = elim (Option-cases (lookup table m.version_store)) [
  | inl n ↦ rw (n, read_version, table_of) refl
  | inr (t, e) ↦ elim (Option-cases (lookup key t)) [
    | inl n ↦ rw (e, n, read_version, table_of, read_record) refl
    | inr (r, f) ↦ elim (Option-cases (get_visible_version r.versions s)) [
      | inl n ↦ rw (e, f, n, read_version, table_of, read_record) refl
      | inr (v, g) ↦ rw (e, f, g, read_version, table_of, read_record) refl
    ]
  ]
]

pub table_of-stored :
    (m : MvccManager) (table other : String) (t : Table)
    → table_of (record m { version_store = insert table t m.version_store }) other
      ≡ (if table == other then t else table_of m other)
unfolding table_of
table_of-stored m table other t = elim (Bool-cases (table == other)) [
  | inl b ↦ rw (lookup-insert table other t m.version_store, b, table_of) refl
  | inr b ↦ rw (lookup-insert table other t m.version_store, b, table_of) refl
]

-- A version written after the snapshot was taken is not visible to it, whoever wrote it.
pub get_visible_version-append :
    (vs : List RecordVersion) (v : RecordVersion) (s : Snapshot)
    → is_visible v.version_info s ≡ false
    → get_visible_version (vs ++ (v ∷ [])) s ≡ get_visible_version vs s
unfolding get_visible_version find
get_visible_version-append vs v s h =
    ap (λ ws. find (λ (w : RecordVersion). is_visible w.version_info s) ws)
      (reverse-append vs (v ∷ []))
    ∙ rw (h, find) refl

new-invisible :
    (w created_at : ℕ) (values : List Value) (s : Snapshot)
    → s.timestamp < created_at
    → is_visible (new_version w created_at values).version_info s ≡ false
unfolding is_visible new_version
new-invisible w created_at values s h = rw (lt→ltb s.timestamp created_at h, is_visible) refl

read_record-added :
    (r : VersionedRecord) (v : RecordVersion) (s : Snapshot)
    → is_visible v.version_info s ≡ false
    → read_record (some (record r { versions = r.versions ++ (v ∷ []) })) s ≡ read_record (some r) s
unfolding read_record
read_record-added r v s h = rw (get_visible_version-append r.versions v s h, read_record) refl

pub read_record-of :
    (t : Table) (key : ℤ) (s : Snapshot)
    → read_record (some (record_of t key)) s ≡ read_record (lookup key t) s
unfolding read_record record_of get_visible_version find
read_record-of t key s = elim (Option-cases (lookup key t)) [
  | inl n ↦ rw (n, record_of, read_record) refl
  | inr (r, e) ↦ rw (e, record_of, read_record) refl
]

-- An insert by any transaction, the snapshot's own one included, changes no read of a snapshot that
-- was taken at an earlier timestamp.
pub read_version-insert_version :
    (m : MvccManager) (table other : String) (key k : ℤ) (values : List Value) (w s : Snapshot)
    → s.timestamp < m.current_timestamp
    → read_version (insert_version m table key values w).1 other k s ≡ read_version m other k s
unfolding insert_version
read_version-insert_version m table other key k values w s h =
    read_version-table_of (insert_version m table key values w).1 other k s
    ∙ ap ok inner
    ∙ sym (read_version-table_of m other k s)
  where
    new : RecordVersion
    new = new_version w.txn_id m.current_timestamp values

    old : VersionedRecord
    old = record_of (table_of m table) key

    added : VersionedRecord
    added = record old { versions = old.versions ++ (new ∷ []) }

    row :
        read_record (lookup k (insert_ordered key added (table_of m table))) s
        ≡ read_record (lookup k (table_of m table)) s
    row = elim (Bool-cases (key == k)) [
      | inl b ↦
          rw (lookup-insert_ordered key k added (table_of m table), b)
            (read_record-added old new s (new-invisible w.txn_id m.current_timestamp values s h)
              ∙ read_record-of (table_of m table) key s
              ∙ ap (λ j. read_record (lookup j (table_of m table)) s) ((==_iff key k).0 b))
      | inr b ↦ rw (lookup-insert_ordered key k added (table_of m table), b) refl
    ]

    inner :
        read_record (lookup k (table_of (insert_version m table key values w).1 other)) s
        ≡ read_record (lookup k (table_of m other)) s
    inner = elim (Bool-cases (table == other)) [
      | inl b ↦
          rw (table_of-stored m table other (insert_ordered key added (table_of m table)), b)
            (row ∙ ap (λ t. read_record (lookup k (table_of m t)) s) ((==_iff table other).0 b))
      | inr b ↦
          rw (table_of-stored m table other (insert_ordered key added (table_of m table)), b) refl
    ]

-- The calls that other transactions, and the snapshot's own, make meanwhile.
pub data Call : Type 0 where
  begin_call : Call
  commit_call abort_call : Snapshot → Call
  insert_call : Snapshot → String → ℤ → List Value → Call

unfoldable pub step : Call → MvccManager → MvccManager
step begin_call m = (begin_transaction m).1
step (commit_call w) m = (commit_transaction m w).1
step (abort_call w) m = (abort_transaction m w).1
step (insert_call w table key values) m = (insert_version m table key values w).1

unfoldable pub run : List Call → MvccManager → MvccManager
run [] m = m
run (c ∷ cs) m = run cs (step c m)

pub tick :
    (now n bound : ℕ)
    → now + suc n < 2 ^ 64
    → bound < now
    → (add_u64 now 1 + n < 2 ^ 64) × (bound < add_u64 now 1)
tick now n bound h l = (omega arith, omega arith)

run-read_version :
    (calls : List Call) (m : MvccManager) (s : Snapshot) (table : String) (key : ℤ)
    → m.current_timestamp + length calls < 2 ^ 64
    → s.timestamp < m.current_timestamp
    → read_version (run calls m) table key s ≡ read_version m table key s
unfolding run step begin_transaction commit_transaction abort_transaction insert_version
    read_version
run-read_version [] m s table key h l = refl
run-read_version (begin_call ∷ cs) m s table key h l =
    let (room, later) = tick m.current_timestamp (length cs) s.timestamp h l in
    run-read_version cs (begin_transaction m).1 s table key room later
run-read_version (commit_call w ∷ cs) m s table key h l =
    let (room, later) = tick m.current_timestamp (length cs) s.timestamp h l in
    run-read_version cs (commit_transaction m w).1 s table key room later
run-read_version (abort_call w ∷ cs) m s table key h l =
    run-read_version cs (abort_transaction m w).1 s table key (omega arith) l
run-read_version (insert_call w t k values ∷ cs) m s table key h l =
    run-read_version cs (insert_version m t k values w).1 s table key (omega arith) l
    ∙ read_version-insert_version m t table k key values w s l

-- Whatever transactions begin, commit, abort and insert after a transaction has begun, as long
-- as the counter of timestamps does not wrap, every read of its snapshot gives what it gave
-- when the transaction began; an insert of its own is not read by it either.
pub begin_transaction-reads :
    (m : MvccManager) (calls : List Call) (table : String) (key : ℤ)
    → m.current_timestamp + suc (length calls) < 2 ^ 64
    → let (s, n) = begin_transaction m in
      read_version (run calls n) table key s ≡ read_version m table key s
unfolding begin_transaction read_version
begin_transaction-reads m calls table key h =
    let (s, n) = begin_transaction m in
    let (room, later) = begun m.current_timestamp (length calls) h in
    run-read_version calls n s table key room later
  where
    begun :
        (now k : ℕ) → now + suc k < 2 ^ 64 → (add_u64 now 1 + k < 2 ^ 64) × (now < add_u64 now 1)
    begun now k h = (omega arith, omega arith)
