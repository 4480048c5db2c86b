-- ===== src/Mvcc/Deleters.antt =====
-- The versions of a row of src/mvcc.rs that were deleted before a snapshot was taken, and who deleted
-- them, while transactions begin, commit, abort, insert and delete.
use velocidb.Prelude.{
  ℕ, suc, ◌+◌, ◌<◌, ◌≢◌, ◌^◌, true, false, List, [], ◌∷◌, ◌++◌, Option, none, some, nat_beq, nat_eq,
  string_eq, int_eq, ℤ, ◌==◌, ==_iff, if◌then◌else◌, ◌≡◌, refl, sym, ap, ◌∙◌, subst, inl, inr,
  arith, any, map, length, String, ok, err, not_found, Result, Bool-cases, Option-cases,
}
use velocidb.Prelude.Words.{add_u64}
use velocidb.Prelude.Map.{lookup, insert}
use velocidb.Types.{Value}
use velocidb.Mvcc.{
  Snapshot, RecordVersion, VersionedRecord, new_version, is_transaction_visible, mark_last,
  mark_deleted, Table, insert_ordered, MvccManager, begin_transaction, commit_transaction,
  abort_transaction, table_of, record_of, insert_version, delete_version,
}
use velocidb.Mvcc.Stable.{
  Call, begin_call, commit_call, abort_call, insert_call, step, table_of-stored,
  lookup-insert_ordered, tick,
}

-- The calls of Stable.antt and deletions.
pub data Op : Type 0 where
  call : Call → Op
  delete_call : Snapshot → String → ℤ → Op

unfoldable pub perform : Op → MvccManager → MvccManager
perform (call c) m = step c m
perform (delete_call w table key) m = (delete_version m table key w).1

unfoldable pub perform_all : List Op → MvccManager → MvccManager
perform_all [] m = m
perform_all (o ∷ os) m = perform_all os (perform o m)

abbrev versions_of : Option VersionedRecord → List RecordVersion
versions_of none = []
versions_of (some r) = r.versions

-- The versions of a row; of a row that there is not, none.
unfoldable pub row_versions : MvccManager → String → ℤ → List RecordVersion
row_versions m table key = versions_of (lookup key (table_of m table))

record_of-versions : (t : Table) (key : ℤ) → (record_of t key).versions ≡ versions_of (lookup key t)
unfolding record_of
record_of-versions t key = elim (Option-cases (lookup key t)) [
  | inl n ↦ rw (n, record_of) refl
  | inr (r, e) ↦ rw (e, record_of) refl
]

-- Whoever has deleted one of these versions has begun, and is not active any more.
abbrev pub AllEnded : MvccManager → List RecordVersion → Type 0
AllEnded m [] = Unit {0}
AllEnded m (v ∷ vs) =
    (v.version_info.deleted_at ≢ 0
      → (0 < v.version_info.xmax)
        × (v.version_info.xmax < m.global_txn_id)
        × (any (λ t. nat_beq t v.version_info.xmax)
              (map (λ (s : ℕ × Snapshot). s.0) m.active_snapshots)
            ≡ false))
    × AllEnded m vs

-- Whoever deleted one of these versions before the snapshot was taken is seen by it.
abbrev pub AllSeen : Snapshot → List RecordVersion → Type 0
AllSeen s [] = Unit {0}
AllSeen s (v ∷ vs) =
    (v.version_info.deleted_at ≢ 0
      → v.version_info.deleted_at < s.timestamp
      → (0 < v.version_info.xmax) × (is_transaction_visible s v.version_info.xmax ≡ true))
    × AllSeen s vs

pub begun-AllSeen :
    (m : MvccManager) (vs : List RecordVersion) → AllEnded m vs → AllSeen (begin_transaction m).0 vs
unfolding begin_transaction is_transaction_visible
begun-AllSeen m [] e = tt
begun-AllSeen m (v ∷ vs) e =
    (λ d l. ((e.0 d).0, ground (arith, (e.0 d).1, (e.0 d).2)), begun-AllSeen m vs e.1)

AllSeen-append :
    (s : Snapshot) (vs : List RecordVersion) (v : RecordVersion)
    → AllSeen s vs
    → v.version_info.deleted_at ≡ 0
    → AllSeen s (vs ++ v ∷ [])
AllSeen-append s [] v a z = (λ d l. absurd (d z), tt)
AllSeen-append s (w ∷ vs) v a z = (a.0, AllSeen-append s vs v a.1 z)

abbrev AllSeenIn : Snapshot → Option (List RecordVersion) → Type 0
AllSeenIn s none = Unit {0}
AllSeenIn s (some vs) = AllSeen s vs

AllSeenIn-behind :
    (s : Snapshot) (v : RecordVersion) (o : Option (List RecordVersion))
    → AllSeen s (v ∷ [])
    → AllSeenIn s o
    → AllSeenIn s (elim o [ none ↦ none | some ws ↦ some (v ∷ ws) ])
AllSeenIn-behind s v none a h = tt
AllSeenIn-behind s v (some ws) a h = (a.0, h)

-- A mark at a later time.
mark_last-AllSeen :
    (s : Snapshot) (xmax now : ℕ) (vs : List RecordVersion)
    → s.timestamp < now
    → AllSeen s vs
    → AllSeenIn s (mark_last xmax now vs)
unfolding mark_last
mark_last-AllSeen s xmax now [] l a = tt
mark_last-AllSeen s xmax now (v ∷ []) l a = (λ d e. absurd (omega (arith, l, e)), tt)
mark_last-AllSeen s xmax now (v ∷ (w ∷ vs)) l a =
    AllSeenIn-behind s v (mark_last xmax now (w ∷ vs)) (a.0, tt)
      (mark_last-AllSeen s xmax now (w ∷ vs) l a.1)

marked :
    (s : Snapshot) (r : VersionedRecord) (o : Option (List RecordVersion))
    → AllSeen s r.versions
    → AllSeenIn s o
    → AllSeen s
        (elim o as (λ _. Result (Unit {0}) × VersionedRecord) [
          | none ↦ (err not_found, r)
          | some versions ↦ (ok tt, record r { versions = versions })
        ]).1.versions
marked s r none a h = a
marked s r (some vs) a h = h

mark_deleted-AllSeen :
    (s : Snapshot) (r : VersionedRecord) (xmax now : ℕ)
    → s.timestamp < now
    → AllSeen s r.versions
    → AllSeen s (mark_deleted r xmax now).1.versions
unfolding mark_deleted
mark_deleted-AllSeen s r xmax now l a =
    marked s r (mark_last xmax now r.versions) a (mark_last-AllSeen s xmax now r.versions l a)

-- A row once another one, or the same one, has been stored.
row_versions-stored :
    (m : MvccManager) (table other : String) (key k : ℤ) (t : Table) (r : VersionedRecord)
    → table_of m table ≡ t
    → row_versions
        (record m { version_store = insert table (insert_ordered key r t) m.version_store })
        other
        k
      ≡ (if table == other
          then (if key == k then r.versions else row_versions m other k)
          else row_versions m other k)
unfolding row_versions
row_versions-stored m table other key k t r q =
    ap (λ u. versions_of (lookup k u)) (table_of-stored m table other (insert_ordered key r t))
    ∙ elim (Bool-cases (table == other)) [
      | inr b ↦ rw b refl
      | inl b ↦ rw b (
          ap versions_of (lookup-insert_ordered key k r t) ∙ elim (Bool-cases (key == k)) [
            | inl e ↦ rw e refl
            | inr e ↦ rw e (
                ap (λ u. versions_of (lookup k u)) (sym q)
                ∙ ap (λ n. versions_of (lookup k (table_of m n))) ((==_iff table other).0 b))
          ])
    ]

-- Storing a row whose earlier deletions the snapshot sees.
stored-AllSeen :
    (s : Snapshot) (m : MvccManager) (table other : String) (key k : ℤ) (t : Table)
    (r : VersionedRecord)
    → table_of m table ≡ t
    → (AllSeen s (row_versions m table key) → AllSeen s r.versions)
    → AllSeen s (row_versions m other k)
    → AllSeen s (
        row_versions
          (record m { version_store = insert table (insert_ordered key r t) m.version_store })
          other
          k)
stored-AllSeen s m table other key k t r q h a =
    subst (AllSeen s) (sym (row_versions-stored m table other key k t r q))
      (elim (Bool-cases (table == other)) [
        | inr b ↦ rw b a
        | inl b ↦ elim (Bool-cases (key == k)) [
          | inr e ↦ rw (b, e) a
          | inl e ↦
              rw (b, e)
                (h (
                  subst (λ n. AllSeen s (row_versions m n key)) (sym ((==_iff table other).0 b))
                    (subst (λ j. AllSeen s (row_versions m other j)) (sym ((==_iff key k).0 e)) a)))
        ]
      ])

insert_version-AllSeen :
    (s : Snapshot) (m : MvccManager) (table other : String) (key k : ℤ) (values : List Value)
    (w : Snapshot)
    → AllSeen s (row_versions m other k)
    → AllSeen s (row_versions (insert_version m table key values w).1 other k)
unfolding insert_version new_version row_versions
insert_version-AllSeen s m table other key k values w a =
    stored-AllSeen s m table other key k (table_of m table)
      (record (record_of (table_of m table) key) {
        versions =
            (record_of (table_of m table) key).versions
            ++ (new_version w.txn_id m.current_timestamp values ∷ []);
      })
      refl
      (λ b.
        AllSeen-append s (record_of (table_of m table) key).versions
          (new_version w.txn_id m.current_timestamp values)
          (subst (AllSeen s) (sym (record_of-versions (table_of m table) key)) b) refl)
      a

stored-row :
    (m : MvccManager) (table : String) (key : ℤ) (t : Table) (r : VersionedRecord)
    → lookup table m.version_store ≡ some t
    → lookup key t ≡ some r
    → row_versions m table key ≡ r.versions
unfolding row_versions table_of
stored-row m table key t r f g = rw (f, table_of) (ap versions_of g)

delete_version-AllSeen :
    (s : Snapshot) (m : MvccManager) (table other : String) (key k : ℤ) (w : Snapshot)
    → s.timestamp < m.current_timestamp
    → AllSeen s (row_versions m other k)
    → AllSeen s (row_versions (delete_version m table key w).1 other k)
unfolding delete_version row_versions table_of
delete_version-AllSeen s m table other key k w l a =
    elim (Option-cases (lookup table m.version_store)) [
      | inl n ↦ rw (n, delete_version) a
      | inr (t, f) ↦ elim (Option-cases (lookup key t)) [
        | inl n ↦ rw (f, n, delete_version) a
        | inr (r, g) ↦
            rw (f, g, delete_version)
              (stored-AllSeen s (record m { current_timestamp = add_u64 m.current_timestamp 1 })
                table other key k t (mark_deleted r w.txn_id m.current_timestamp).1
                (rw (f, table_of) refl)
                (λ b.
                  mark_deleted-AllSeen s r w.txn_id m.current_timestamp l
                    (subst (AllSeen s) (stored-row m table key t r f g) b))
                a)
      ]
    ]

step-AllSeen :
    (s : Snapshot) (m : MvccManager) (c : Call) (table : String) (key : ℤ)
    → AllSeen s (row_versions m table key)
    → AllSeen s (row_versions (step c m) table key)
unfolding step begin_transaction commit_transaction abort_transaction row_versions table_of
step-AllSeen s m begin_call table key a = a
step-AllSeen s m (commit_call w) table key a = a
step-AllSeen s m (abort_call w) table key a = a
step-AllSeen s m (insert_call w t k values) table key a =
    insert_version-AllSeen s m t table k key values w a

-- The clock after a call, when it has room for that call and `n` more.
perform-later :
    (o : Op) (m : MvccManager) (n bound : ℕ)
    → m.current_timestamp + suc n < 2 ^ 64
    → bound < m.current_timestamp
    → ((perform o m).current_timestamp + n < 2 ^ 64) × (bound < (perform o m).current_timestamp)
unfolding perform step begin_transaction commit_transaction abort_transaction insert_version
    delete_version
perform-later (call begin_call) m n bound h l = tick m.current_timestamp n bound h l
perform-later (call (commit_call w)) m n bound h l = tick m.current_timestamp n bound h l
perform-later (call (abort_call w)) m n bound h l = (omega (arith, h), l)
perform-later (call (insert_call w t k values)) m n bound h l = (omega (arith, h), l)
perform-later (delete_call w t k) m n bound h l = elim (Option-cases (lookup t m.version_store)) [
  | inl e ↦ rw (e, perform, delete_version) (tick m.current_timestamp n bound h l)
  | inr (u, e) ↦ elim (Option-cases (lookup k u)) [
    | inl f ↦ rw (e, f, perform, delete_version) (tick m.current_timestamp n bound h l)
    | inr (r, f) ↦ rw (e, f, perform, delete_version) (tick m.current_timestamp n bound h l)
  ]
]

pub perform_all-AllSeen :
    (os : List Op) (s : Snapshot) (m : MvccManager) (table : String) (key : ℤ)
    → m.current_timestamp + length os < 2 ^ 64
    → s.timestamp < m.current_timestamp
    → AllSeen s (row_versions m table key)
    → AllSeen s (row_versions (perform_all os m) table key)
unfolding perform_all perform
perform_all-AllSeen [] s m table key h l a = a
perform_all-AllSeen (call c ∷ os) s m table key h l a =
    let (room, later) = perform-later (call c) m (length os) s.timestamp (omega (arith, h)) l in
    perform_all-AllSeen os s (step c m) table key room later (step-AllSeen s m c table key a)
perform_all-AllSeen (delete_call w t k ∷ os) s m table key h l a =
    let (room, later) =
      perform-later (delete_call w t k) m (length os) s.timestamp (omega (arith, h)) l in
    perform_all-AllSeen os s (delete_version m t k w).1 table key room later
      (delete_version-AllSeen s m t table k key w l a)
