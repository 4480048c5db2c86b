-- ===== src/Mvcc/Deletes.antt =====
-- What a deletion changes for a snapshot that does not see the deleting transaction, src/mvcc.rs.
use mathlib.Core.List.{reverse-append}
use velocidb.Prelude.{
  ℕ, ◌<◌, ◌≤◌, Bool, true, false, ◌&&◌, List, [], ◌∷◌, ◌++◌, some, ltb, lt→ltb, le→ltb-false,
  nat_eq, string_eq, int_eq, ℤ, ◌==◌, if◌then◌else◌, ◌≡◌, refl, sym, ap, ◌∙◌, inl, inr, find,
  String, ok, Bool-cases, ==_iff, ==_refl,
}
use velocidb.Prelude.Words.{add_u64}
use velocidb.Prelude.Map.{lookup, insert}
use velocidb.Mvcc.{
  VersionInfo, Snapshot, RecordVersion, VersionedRecord, is_transaction_visible, is_visible,
  get_visible_version, mark_last, mark_deleted, Table, insert_ordered, MvccManager, table_of,
  delete_version, read_version,
}
use velocidb.Mvcc.Stable.{
  lookup-insert_ordered, read_record, read_version-table_of, table_of-stored,
}

-- A version marked as deleted by `w` at the time `at`.
abbrev marked : RecordVersion → ℕ → ℕ → RecordVersion
marked v w at = record v { version_info = record v.version_info { xmax = w; deleted_at = at } }

mark_last-append :
    (w at : ℕ) (vs : List RecordVersion) (v : RecordVersion)
    → mark_last w at (vs ++ (v ∷ [])) ≡ some (vs ++ (marked v w at ∷ []))
unfolding mark_last
mark_last-append w at [] v = refl
mark_last-append w at (x ∷ []) v = refl
mark_last-append w at (x ∷ (y ∷ vs)) v = rw (mark_last-append w at (y ∷ vs) v, mark_last) refl

visible-last :
    (vs : List RecordVersion) (v : RecordVersion) (s : Snapshot)
    → get_visible_version (vs ++ (v ∷ [])) s
      ≡ (if is_visible v.version_info s then some v else get_visible_version vs s)
unfolding get_visible_version find
visible-last vs v s =
    ap (λ ws. find (λ (x : RecordVersion). is_visible x.version_info s) ws)
      (reverse-append vs (v ∷ []))

abbrev deleted_by : VersionInfo → ℕ → ℕ → VersionInfo
deleted_by i w at = record i { xmax = w; deleted_at = at }

and-false : (a : Bool) → (a && false) ≡ false
and-false true = refl
and-false false = refl

marked-unseen :
    (i : VersionInfo) (w at : ℕ) (s : Snapshot)
    → i.xmax ≡ 0
    → is_transaction_visible s w ≡ false
    → is_visible (deleted_by i w at) s ≡ is_visible i s
unfolding is_visible
marked-unseen i w at s z h = rw (h, and-false (ltb 0 w), z, is_visible) refl

marked-seen :
    (i : VersionInfo) (w at : ℕ) (s : Snapshot)
    → i.created_at ≤ s.timestamp
    → is_transaction_visible s i.xmin ≡ true
    → is_transaction_visible s w ≡ false
    → is_visible (deleted_by i w at) s ≡ true
unfolding is_visible
marked-seen i w at s c x h =
    rw (h, and-false (ltb 0 w), x, le→ltb-false s.timestamp i.created_at c, is_visible) refl

deleted-unseen :
    (i : VersionInfo) (s : Snapshot)
    → 0 < i.xmax
    → is_transaction_visible s i.xmax ≡ true
    → is_visible i s ≡ false
unfolding is_visible
deleted-unseen i s p d = elim (Bool-cases (ltb s.timestamp i.created_at)) [
  | inl a ↦ rw (a, is_visible) refl
  | inr a ↦ elim (Bool-cases (is_transaction_visible s i.xmin)) [
    | inl b ↦ rw (a, b, d, lt→ltb 0 i.xmax p, is_visible) refl
    | inr b ↦ rw (a, b, is_visible) refl
  ]
]

-- The read of a row and its newest version.
read-last :
    (r : VersionedRecord) (vs : List RecordVersion) (v : RecordVersion) (s : Snapshot)
    → r.versions ≡ vs ++ (v ∷ [])
    → read_record (some r) s ≡ (
        if is_visible v.version_info s
        then some v.values
        else read_record (some (record r { versions = vs })) s)
unfolding read_record
read-last r vs v s h = elim (Bool-cases (is_visible v.version_info s)) [
  | inl b ↦ rw (h, visible-last vs v s, b, read_record) refl
  | inr b ↦ rw (h, visible-last vs v s, b, read_record) refl
]

module _ (m : MvccManager) (table : String) (key : ℤ) (w : Snapshot) (t : Table)
    (r : VersionedRecord) (vs : List RecordVersion) (v : RecordVersion)
    (has_table : lookup table m.version_store ≡ some t) (has_row : lookup key t ≡ some r)
    (newest : r.versions ≡ vs ++ (v ∷ [])) where
  left : VersionedRecord
  left = record r { versions = vs ++ (marked v w.txn_id m.current_timestamp ∷ []) }

  mark_deleted-left : mark_deleted r w.txn_id m.current_timestamp ≡ (ok tt, left)
  unfolding mark_deleted left
  mark_deleted-left =
      rw (newest, mark_last-append w.txn_id m.current_timestamp vs v, mark_deleted) refl

  delete-left : delete_version m table key w ≡ (
    ok tt,
    record m {
      current_timestamp = add_u64 m.current_timestamp 1;
      version_store = insert table (insert_ordered key left t) m.version_store;
    },
  )
  unfolding delete_version
  delete-left = rw (has_table, has_row, mark_deleted-left, delete_version) refl

  table-left : table_of m table ≡ t
  unfolding table_of
  table-left = rw (has_table, table_of) refl

  -- The row that a deletion leaves; it leaves every other row.
  delete-row :
      (other : String) (k : ℤ)
      → lookup k (table_of (delete_version m table key w).1 other)
        ≡ (if (table == other) && (key == k) then some left else lookup k (table_of m other))
  unfolding table_of
  delete-row other k =
      ap (λ d. lookup k (table_of d.1 other)) delete-left
      ∙ ap (λ u. lookup k u) (table_of-stored m table other (insert_ordered key left t))
      ∙ elim (Bool-cases (table == other)) [
        | inl b ↦ rw b (
            lookup-insert_ordered key k left t
            ∙ ap (λ o. if key == k then some left else o)
                (ap (λ u. lookup k u)
                  (sym table-left ∙ ap (λ x. table_of m x) ((==_iff table other).0 b))))
        | inr b ↦ rw b refl
      ]

  old-row :
      (other : String) (k : ℤ)
      → (table == other) ≡ true
      → (key == k) ≡ true
      → lookup k (table_of m other) ≡ some r
  old-row other k b c =
      ap (λ x. lookup k (table_of m x)) (sym ((==_iff table other).0 b))
      ∙ ap (λ u. lookup k u) table-left
      ∙ ap (λ j. lookup j t) (sym ((==_iff key k).0 c))
      ∙ has_row

  -- When the newest version of a row is not marked as deleted, its deletion by a transaction
  -- that a snapshot does not see changes no read of the snapshot, of this or of any other
  -- row.
  pub delete_version-hidden :
      (s : Snapshot) (other : String) (k : ℤ)
      → v.version_info.xmax ≡ 0
      → is_transaction_visible s w.txn_id ≡ false
      → read_version (delete_version m table key w).1 other k s ≡ read_version m other k s
  unfolding left
  delete_version-hidden s other k z hidden =
      read_version-table_of (delete_version m table key w).1 other k s
      ∙ ap ok (ap (λ o. read_record o s) (delete-row other k) ∙ rows)
      ∙ sym (read_version-table_of m other k s)
    where
      same : read_record (some left) s ≡ read_record (some r) s
      same =
          read-last left vs (marked v w.txn_id m.current_timestamp) s refl
          ∙ ap (λ b. if b then some v.values else read_record (some (record r { versions = vs })) s)
              (marked-unseen v.version_info w.txn_id m.current_timestamp s z hidden)
          ∙ sym (read-last r vs v s newest)

      rows :
          read_record
            (if (table == other) && (key == k) then some left else lookup k (table_of m other))
            s
          ≡ read_record (lookup k (table_of m other)) s
      rows = elim (Bool-cases (table == other)) [
        | inl b ↦ elim (Bool-cases (key == k)) [
          | inl c ↦ rw (b, c) (same ∙ ap (λ o. read_record o s) (sym (old-row other k b c)))
          | inr c ↦ rw (b, c) refl
        ]
        | inr b ↦ rw b refl
      ]

  -- When the newest version of a row was created in a snapshot's past by a transaction that
  -- it sees and deleted by another that it sees, the snapshot reads an older version or none.
  -- A second deletion, by a transaction that it does not see, makes it read the deleted
  -- version.
  pub delete_version-revives :
      (s : Snapshot)
      → v.version_info.created_at ≤ s.timestamp
      → is_transaction_visible s v.version_info.xmin ≡ true
      → 0 < v.version_info.xmax
      → is_transaction_visible s v.version_info.xmax ≡ true
      → is_transaction_visible s w.txn_id ≡ false
      → (read_version m table key s ≡ ok (read_record (some (record r { versions = vs })) s))
        × (read_version (delete_version m table key w).1 table key s ≡ ok (some v.values))
  unfolding left
  delete_version-revives s c x p d hidden = (
    read_version-table_of m table key s
        ∙ ap ok (
            ap (λ o. read_record o s) (old-row table key (==_refl table) (==_refl key))
            ∙ read-last r vs v s newest
            ∙ rw (deleted-unseen v.version_info s p d) refl),
    read_version-table_of (delete_version m table key w).1 table key s
        ∙ ap ok (
            ap (λ o. read_record o s) (delete-row table key)
            ∙ rw (==_refl table, ==_refl key)
                (read-last left vs (marked v w.txn_id m.current_timestamp) s refl
                  ∙ rw (marked-seen v.version_info w.txn_id m.current_timestamp s c x hidden)
                      refl)),
  )
