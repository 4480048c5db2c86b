-- ===== src/Mvcc.antt =====
-- Multi-version concurrency control with snapshots, src/mvcc.rs. The field `data` of a version is
-- `values` here. The tables are a `DashMap` and the
-- records of a table a `BTreeMap`, so that a scan meets the keys in their order; an atomic counter
-- wraps at 64 bits. A call is one step: no other thread runs inside it.
pub mod Stable
pub mod Deletes
pub mod Vacuum
pub mod Deleters
pub mod Collection
mod Tests
use velocidb.Prelude.{
  ℕ, ◌+◌, Bool, true, false, not, ◌&&◌, ◌||◌, List, [], ◌∷◌, ◌++◌, Option, none, some, nat_beq, ltb,
  leb, min, nat_eq, string_eq, int_eq, int_ltb, ℤ, ◌==◌, if◌then◌else◌, length, filter, any, find,
  map, reverse, String, Result, ok, err, not_found, zero, suc,
}
use velocidb.Prelude.Words.{add_u64}
use velocidb.Prelude.Map.{lookup, insert, remove}
use velocidb.Types.{Value}

pub record VersionInfo : Type 0 where
  pub xmin : ℕ
  pub xmax : ℕ
  pub created_at : ℕ
  pub deleted_at : ℕ

pub record Snapshot : Type 0 where
  pub timestamp : ℕ
  pub active_transactions : List ℕ
  pub txn_id : ℕ

pub record RecordVersion : Type 0 where
  pub version_info : VersionInfo
  pub values : List Value

pub record VersionedRecord : Type 0 where
  pub key : ℤ
  pub versions : List RecordVersion

unfoldable pub new_version : ℕ → ℕ → List Value → RecordVersion
new_version xmin created_at values = record {
  version_info = record { xmin = xmin; xmax = 0; created_at = created_at; deleted_at = 0 };
  values = values;
}

unfoldable pub is_transaction_visible : Snapshot → ℕ → Bool
is_transaction_visible s txn_id =
    if nat_beq txn_id s.txn_id
    then true
    else if leb s.txn_id txn_id
    then false
    else not (any (λ t. nat_beq t txn_id) s.active_transactions)

unfoldable pub is_visible : VersionInfo → Snapshot → Bool
is_visible v s =
    if ltb s.timestamp v.created_at
    then false
    else if not (is_transaction_visible s v.xmin)
    then false
    else if ltb 0 v.xmax && is_transaction_visible s v.xmax
    then false
    else true

unfoldable pub get_visible_version : List RecordVersion → Snapshot → Option RecordVersion
get_visible_version versions s = find (λ v. is_visible v.version_info s) (reverse versions)

-- `last_mut` and the mark; `none` when there is no version.
unfoldable pub mark_last : ℕ → ℕ → List RecordVersion → Option (List RecordVersion)
mark_last xmax deleted_at [] = none
mark_last xmax deleted_at (v ∷ []) = some (
    record v { version_info = record v.version_info { xmax = xmax; deleted_at = deleted_at } } ∷ [])
mark_last xmax deleted_at (v ∷ (w ∷ vs)) = elim (mark_last xmax deleted_at (w ∷ vs)) [
  | none ↦ none
  | some ws ↦ some (v ∷ ws)
]

unfoldable pub mark_deleted : VersionedRecord → ℕ → ℕ → Result (Unit {0}) × VersionedRecord
mark_deleted r xmax deleted_at = elim (mark_last xmax deleted_at r.versions) [
  | none ↦ (err not_found, r)
  | some versions ↦ (ok tt, record r { versions = versions })
]

unfoldable pub vacuum_record : ℕ → VersionedRecord → VersionedRecord
vacuum_record min_active r = record r {
  versions =
      filter (λ v. nat_beq v.version_info.deleted_at 0 || leb min_active v.version_info.deleted_at)
        r.versions;
}

abbrev pub Table : Type 0
Table = List (ℤ × VersionedRecord)

-- `BTreeMap::insert`: the key takes its place in the order.
unfoldable pub insert_ordered : ℤ → VersionedRecord → Table → Table
insert_ordered k r [] = (k, r) ∷ []
insert_ordered k r ((j, s) ∷ m) =
    let rest = insert_ordered k r m in
    if j == k then (k, r) ∷ m else if int_ltb k j then (k, r) ∷ ((j, s) ∷ m) else (j, s) ∷ rest

pub record MvccManager : Type 0 where
  pub global_txn_id : ℕ
  pub current_timestamp : ℕ
  pub active_snapshots : List (ℕ × Snapshot)
  pub version_store : List (String × Table)
  pub committed_transactions : List (ℕ × ℕ)

-- `GLOBAL_TXN_ID` is shared by the managers of a process: `next` is its value.
unfoldable pub new_mvcc : ℕ → MvccManager
new_mvcc next = record {
  global_txn_id = next;
  current_timestamp = 1;
  active_snapshots = [];
  version_store = [];
  committed_transactions = [];
}

unfoldable pub begin_transaction : MvccManager → Snapshot × MvccManager
begin_transaction m =
    let snapshot : Snapshot = record {
      timestamp = m.current_timestamp;
      active_transactions = map (λ s. s.0) m.active_snapshots;
      txn_id = m.global_txn_id;
    } in
    (
      snapshot,
      record m {
        global_txn_id = add_u64 m.global_txn_id 1;
        current_timestamp = add_u64 m.current_timestamp 1;
        active_snapshots = insert m.global_txn_id snapshot m.active_snapshots;
      },
    )

unfoldable pub commit_transaction : MvccManager → Snapshot → Result (Unit {0}) × MvccManager
commit_transaction m s = (
  ok tt,
  record m {
    current_timestamp = add_u64 m.current_timestamp 1;
    committed_transactions = insert s.txn_id m.current_timestamp m.committed_transactions;
    active_snapshots = remove s.txn_id m.active_snapshots;
  },
)

unfoldable pub abort_transaction : MvccManager → Snapshot → Result (Unit {0}) × MvccManager
abort_transaction m s = (ok tt, record m { active_snapshots = remove s.txn_id m.active_snapshots })

-- `entry(table).or_insert_with(..)` and `entry(key).or_insert_with(..)`.
unfoldable pub table_of : MvccManager → String → Table
table_of m table = elim (lookup table m.version_store) [ none ↦ [] | some t ↦ t ]

unfoldable pub record_of : Table → ℤ → VersionedRecord
record_of t key = elim (lookup key t) [ none ↦ record { key = key; versions = [] } | some r ↦ r ]

unfoldable pub insert_version :
    MvccManager → String → ℤ → List Value → Snapshot → Result (Unit {0}) × MvccManager
unfolding new_version
insert_version m table key values s =
    let r = record_of (table_of m table) key in
    let added = record r {
      versions = r.versions ++ (new_version s.txn_id m.current_timestamp values ∷ []);
    } in
    (
      ok tt,
      record m {
        version_store = insert table (insert_ordered key added (table_of m table)) m.version_store;
      },
    )

unfoldable pub read_version : MvccManager → String → ℤ → Snapshot → Result (Option (List Value))
read_version m table key s = elim (lookup table m.version_store) [
  | none ↦ ok none
  | some t ↦ elim (lookup key t) [
    | none ↦ ok none
    | some r ↦ elim (get_visible_version r.versions s) [
      | none ↦ ok none
      | some v ↦ ok (some v.values)
    ]
  ]
]

unfoldable pub delete_version :
    MvccManager → String → ℤ → Snapshot → Result (Unit {0}) × MvccManager
delete_version m table key s =
    let ticked = record m { current_timestamp = add_u64 m.current_timestamp 1 } in
    elim (lookup table m.version_store) [
      | none ↦ (err not_found, ticked)
      | some t ↦ elim (lookup key t) [
        | none ↦ (err not_found, ticked)
        | some r ↦
            let (result, marked) = mark_deleted r s.txn_id m.current_timestamp in
            (
              result,
              record ticked {
                version_store = insert table (insert_ordered key marked t) m.version_store;
              },
            )
      ]
    ]

unfoldable pub scan_records : Table → Snapshot → List (ℤ × List Value)
scan_records [] s = []
scan_records ((key, r) ∷ t) s =
    let rest = scan_records t s in
    elim (get_visible_version r.versions s) [ none ↦ rest | some v ↦ (key, v.values) ∷ rest ]

unfoldable pub scan_table : MvccManager → String → Snapshot → Result (List (ℤ × List Value))
scan_table m table s = elim (lookup table m.version_store) [
  | none ↦ ok []
  | some t ↦ ok (scan_records t s)
]

-- The least timestamp of the active snapshots, or the current one.
unfoldable pub min_timestamp : ℕ → List (ℕ × Snapshot) → ℕ
min_timestamp current [] = current
min_timestamp current ((t, s) ∷ []) = s.timestamp
min_timestamp current ((t, s) ∷ (x ∷ xs)) = min s.timestamp (min_timestamp current (x ∷ xs))

unfoldable pub vacuum : MvccManager → MvccManager
unfolding vacuum_record
vacuum m =
    let min_active = min_timestamp m.current_timestamp m.active_snapshots in
    record m {
      committed_transactions = filter (λ c. leb min_active c.1) m.committed_transactions;
      version_store =
          map (λ t. (t.0, map (λ r. (r.0, vacuum_record min_active r.1)) t.1)) m.version_store;
    }
