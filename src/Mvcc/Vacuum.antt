-- ===== src/Mvcc/Vacuum.antt =====
-- What `vacuum` changes for the snapshots that are still read, src/mvcc.rs.
use mathlib.Core.List.{reverse-cons}
use velocidb.Prelude.{
  ℕ, ◌<◌, ◌≢◌, Bool, true, false, ◌||◌, List, [], ◌∷◌, ◌++◌, Option, none, some, nat_beq, leb, Key,
  nat_eq, string_eq, int_eq, ℤ, ◌==◌, if◌then◌else◌, ◌≡◌, refl, sym, ap, ◌∙◌, inl, inr, arith, find,
  filter, map, reverse, String, ok, Bool-cases,
}
use velocidb.Prelude.Map.{lookup}
use velocidb.Mvcc.{
  Snapshot, RecordVersion, VersionedRecord, is_visible, get_visible_version, vacuum_record, Table,
  MvccManager, table_of, min_timestamp, vacuum, read_version,
}
use velocidb.Mvcc.Stable.{read_record, read_version-table_of}

find-append :
    (p : RecordVersion → Bool) (xs ys : List RecordVersion)
    → find p (xs ++ ys) ≡ elim (find p xs) [ none ↦ find p ys | some v ↦ some v ]
unfolding find
find-append p [] ys = refl
find-append p (x ∷ xs) ys = elim (Bool-cases (p x)) [
  | inl h ↦ rw (h, find) refl
  | inr h ↦ rw (h, find) (find-append p xs ys)
]

-- The newest visible version, from the oldest version on.
visible-first :
    (v : RecordVersion) (vs : List RecordVersion) (s : Snapshot)
    → get_visible_version (v ∷ vs) s ≡ elim (get_visible_version vs s) [
      | none ↦ if is_visible v.version_info s then some v else none
      | some w ↦ some w
    ]
unfolding get_visible_version find
visible-first v vs s =
    ap (λ ws. find (λ (w : RecordVersion). is_visible w.version_info s) ws) (reverse-cons v vs)
    ∙ find-append (λ w. is_visible w.version_info s) (reverse vs) (v ∷ [])

visible-unseen :
    (v : RecordVersion) (vs : List RecordVersion) (s : Snapshot)
    → is_visible v.version_info s ≡ false
    → get_visible_version (v ∷ vs) s ≡ get_visible_version vs s
visible-unseen v vs s h =
    visible-first v vs s ∙ same (is_visible v.version_info s) h (get_visible_version vs s)
  where
    same :
        (b : Bool)
        → b ≡ false
        → (o : Option RecordVersion)
        → (elim o [ none ↦ if b then some v else none | some w ↦ some w ]) ≡ o
    same b e none = rw e refl
    same b e (some w) = refl

abbrev pub kept : ℕ → RecordVersion → Bool
kept min_active v = nat_beq v.version_info.deleted_at 0 || leb min_active v.version_info.deleted_at

-- Every version that is dropped is invisible to the snapshot.
unfoldable pub DropsUnseen : Snapshot → ℕ → List RecordVersion → Type 0
DropsUnseen s min_active [] = Unit {0}
DropsUnseen s min_active (v ∷ vs) =
    (kept min_active v ≡ false → is_visible v.version_info s ≡ false) × DropsUnseen s min_active vs

pub visible-kept :
    (s : Snapshot) (min_active : ℕ) (vs : List RecordVersion)
    → DropsUnseen s min_active vs
    → get_visible_version (filter (kept min_active) vs) s ≡ get_visible_version vs s
unfolding DropsUnseen filter
visible-kept s min_active [] d = refl
visible-kept s min_active (v ∷ vs) d = elim (Bool-cases (kept min_active v)) [
  | inl h ↦
      rw (h, filter)
        (visible-first v (filter (kept min_active) vs) s
          ∙ ap
              (λ (o : Option RecordVersion). elim o as (λ _. Option RecordVersion) [
                | none ↦ if is_visible v.version_info s then some v else none
                | some w ↦ some w
              ])
              (visible-kept s min_active vs d.1)
          ∙ sym (visible-first v vs s))
  | inr h ↦ rw (h, filter) (visible-kept s min_active vs d.1 ∙ sym (visible-unseen v vs s (d.0 h)))
]

pub lookup-map {ℓ κ} :
    {K : Type ℓ} {V : Type κ} ⦃keys : Key K⦄ (f : V → V) (key : K) (t : List (K × V)) (v : V)
    → lookup key t ≡ some v
    → lookup key (map (λ (r : K × V). (r.0, f r.1)) t) ≡ some (f v)
unfolding lookup
lookup-map f key [] v h = absurd (cc h)
lookup-map f key ((j, w) ∷ t) v h = elim (Bool-cases (j == key)) [
  | inl b ↦ rw (b, lookup) (ap (λ x. some (f x)) (first b))
  | inr b ↦ rw (b, lookup) (lookup-map f key t v (rest b))
]
  where
    first : (j == key) ≡ true → w ≡ v
    first b = cc (rw (b, lookup) at h)

    rest : (j == key) ≡ false → lookup key t ≡ some v
    rest b = rw (b, lookup) at h

-- The row that `vacuum` leaves.
vacuum-row :
    (m : MvccManager) (table : String) (key : ℤ) (t : Table) (r : VersionedRecord) (s : Snapshot)
    → lookup table m.version_store ≡ some t
    → lookup key t ≡ some r
    → read_version (vacuum m) table key s
      ≡ ok (
          read_record
            (some (vacuum_record (min_timestamp m.current_timestamp m.active_snapshots) r))
            s)
unfolding vacuum table_of
vacuum-row m table key t r s has_table has_row =
    read_version-table_of (vacuum m) table key s
    ∙ ap (λ o. ok (read_record o s))
        (ap (λ u. lookup key u) left ∙ lookup-map clean key t r has_row)
  where
    clean : VersionedRecord → VersionedRecord
    clean = vacuum_record (min_timestamp m.current_timestamp m.active_snapshots)

    clean_table : Table → Table
    clean_table u = map (λ (x : ℤ × VersionedRecord). (x.0, clean x.1)) u

    left : table_of (vacuum m) table ≡ clean_table t
    left = rw (lookup-map clean_table table m.version_store t has_table, table_of) refl

old-row :
    (m : MvccManager) (table : String) (key : ℤ) (t : Table) (r : VersionedRecord) (s : Snapshot)
    → lookup table m.version_store ≡ some t
    → lookup key t ≡ some r
    → read_version m table key s ≡ ok (read_record (some r) s)
unfolding table_of
old-row m table key t r s has_table has_row =
    read_version-table_of m table key s
    ∙ ap (λ o. ok (read_record o s)) (rw (has_table, table_of) has_row)

-- When the only version of a row is visible to a snapshot, but was marked as deleted before the
-- oldest active snapshot, the snapshot reads it before `vacuum` and nothing after it.
pub vacuum-loses :
    (m : MvccManager) (table : String) (key : ℤ) (t : Table) (r : VersionedRecord)
    (v : RecordVersion) (s : Snapshot)
    → lookup table m.version_store ≡ some t
    → lookup key t ≡ some r
    → r.versions ≡ v ∷ []
    → is_visible v.version_info s ≡ true
    → v.version_info.deleted_at ≢ 0
    → v.version_info.deleted_at < min_timestamp m.current_timestamp m.active_snapshots
    → (read_version m table key s ≡ ok (some v.values))
      × (read_version (vacuum m) table key s ≡ ok none)
unfolding read_record vacuum_record get_visible_version find filter
vacuum-loses m table key t r v s has_table has_row only seen deleted early = (
  old-row m table key t r s has_table has_row
      ∙ rw (only, seen, read_record, get_visible_version, find) refl,
  vacuum-row m table key t r s has_table has_row
      ∙ rw (only, gone, read_record, vacuum_record, filter) refl,
)
  where
    gone : kept (min_timestamp m.current_timestamp m.active_snapshots) v ≡ false
    gone = ground (arith, deleted, early)
