-- ===== src/Mvcc/Collection.antt =====
-- `vacuum` of src/mvcc.rs while transactions begin, commit, abort, insert and delete.
use velocidb.Prelude.{
  ℕ, suc, ◌+◌, ◌<◌, ◌≤◌, ◌≢◌, ◌^◌, Bool, true, false, List, [], ◌∷◌, Option, none, some, nat_beq,
  Key, nat_eq, string_eq, int_eq, ℤ, ◌==◌, if◌then◌else◌, ◌≡◌, refl, sym, ap, ◌∙◌, inl, inr, ◌⊎◌,
  find, arith, map, filter, length, String, ok, Bool-cases, Option-cases,
}
use velocidb.Prelude.Words.{add_u64}
use velocidb.Prelude.Map.{lookup}
use velocidb.Types.{Value}
use velocidb.Mvcc.{
  VersionInfo, Snapshot, RecordVersion, VersionedRecord, is_transaction_visible, is_visible,
  get_visible_version, Table, MvccManager, begin_transaction, table_of, read_version, vacuum_record,
  min_timestamp, vacuum,
}
use velocidb.Mvcc.Stable.{read_record, read_version-table_of}
use velocidb.Mvcc.Vacuum.{kept, DropsUnseen, visible-kept, lookup-map}
use velocidb.Mvcc.Deleters.{
  Op, perform_all, row_versions, AllEnded, AllSeen, begun-AllSeen, perform_all-AllSeen,
}

first-or-rest :
    (here : Bool) (u s : Snapshot) (rest : Option Snapshot)
    → (if here then some u else rest) ≡ some s
    → (u ≡ s) ⊎ (rest ≡ some s)
first-or-rest true u s rest e = inl (cc)
first-or-rest false u s rest e = inr e

-- No active snapshot is older than the oldest one.
min_timestamp-le :
    (now txn_id : ℕ) (active : List (ℕ × Snapshot)) (s : Snapshot)
    → lookup txn_id active ≡ some s
    → min_timestamp now active ≤ s.timestamp
unfolding min_timestamp lookup
min_timestamp-le now txn_id [] s e = absurd (cc e)
min_timestamp-le now txn_id ((t, u) ∷ []) s e = elim (first-or-rest (nat_beq t txn_id) u s none e) [
  | inl q ↦ omega (arith, ap (λ (x : Snapshot). x.timestamp) q)
  | inr n ↦ absurd (cc n)
]
min_timestamp-le now txn_id ((t, u) ∷ ((j, x) ∷ xs)) s e =
    elim (first-or-rest (nat_beq t txn_id) u s (lookup txn_id ((j, x) ∷ xs)) e) [
      | inl q ↦ ground (arith, ap (λ (x : Snapshot). x.timestamp) q)
      | inr n ↦ ground (arith, min_timestamp-le now txn_id ((j, x) ∷ xs) s n)
    ]

seen-hidden :
    (v : VersionInfo) (s : Snapshot)
    → 0 < v.xmax
    → is_transaction_visible s v.xmax ≡ true
    → is_visible v s ≡ false
unfolding is_visible
seen-hidden v s l t = ground (arith, l, t)

AllSeen-DropsUnseen :
    (s : Snapshot) (oldest : ℕ) (vs : List RecordVersion)
    → oldest ≤ s.timestamp
    → AllSeen s vs
    → DropsUnseen s oldest vs
unfolding DropsUnseen
AllSeen-DropsUnseen s oldest [] l a = tt
AllSeen-DropsUnseen s oldest (v ∷ vs) l a = (
  λ k.
      let early : (v.version_info.deleted_at ≢ 0) × (v.version_info.deleted_at < s.timestamp) =
        (λ z. absurd (ground (arith, k, z)), ground (arith, k)) in
      seen-hidden v.version_info s (a.0 early.0 early.1).0 (a.0 early.0 early.1).1,
  AllSeen-DropsUnseen s oldest vs l a.1,
)

lookup-map-none {ℓ κ} :
    {K : Type ℓ} {V : Type κ} ⦃keys : Key K⦄ (f : V → V) (key : K) (t : List (K × V))
    → lookup key t ≡ none
    → lookup key (map (λ (r : K × V). (r.0, f r.1)) t) ≡ none
unfolding lookup
lookup-map-none f key [] h = refl
lookup-map-none f key ((j, w) ∷ t) h = elim (Bool-cases (j == key)) [
  | inl b ↦ absurd (cc (rw (b, lookup) at h))
  | inr b ↦ rw (b, lookup) (lookup-map-none f key t (rw (b, lookup) at h))
]

vacuum-row_versions :
    (m : MvccManager) (table : String) (key : ℤ)
    → row_versions (vacuum m) table key
      ≡ filter
          (kept (min_timestamp m.current_timestamp m.active_snapshots))
          (row_versions m table key)
unfolding vacuum row_versions table_of lookup filter vacuum_record
vacuum-row_versions m table key = elim (Option-cases (lookup table m.version_store)) [
  | inl n ↦ rw (n, lookup-map-none clean_table table m.version_store n, table_of) refl
  | inr (t, e) ↦ elim (Option-cases (lookup key t)) [
    | inl n ↦
        rw (e, lookup-map clean_table table m.version_store t e, table_of)
          (rw (n, lookup-map-none clean key t n) refl)
    | inr (r, f) ↦
        rw (e, lookup-map clean_table table m.version_store t e, table_of)
          (rw (f, lookup-map clean key t r f) refl)
  ]
]
  where
    clean : VersionedRecord → VersionedRecord
    clean = vacuum_record (min_timestamp m.current_timestamp m.active_snapshots)

    clean_table : Table → Table
    clean_table u = map (λ (x : ℤ × VersionedRecord). (x.0, clean x.1)) u

value_of : Option RecordVersion → Option (List Value)
value_of none = none
value_of (some v) = some v.values

read_version-row_versions :
    (m : MvccManager) (table : String) (key : ℤ) (s : Snapshot)
    → read_version m table key s ≡ ok (value_of (get_visible_version (row_versions m table key) s))
unfolding row_versions read_record value_of get_visible_version find
read_version-row_versions m table key s =
    read_version-table_of m table key s ∙ elim (Option-cases (lookup key (table_of m table))) [
      | inl n ↦ rw n refl
      | inr (r, e) ↦ rw e refl
    ]

-- When a transaction begins after every transaction that had deleted a version of a row had
-- ended, and as long as it is active and the counter of timestamps does not wrap, `vacuum`
-- changes nothing that its snapshot reads of the row, whatever transactions begin, commit,
-- abort, insert and delete in between.
pub read_version-vacuum :
    (m : MvccManager) (os : List Op) (table : String) (key : ℤ)
    → m.current_timestamp + suc (length os) < 2 ^ 64
    → AllEnded m (row_versions m table key)
    → lookup m.global_txn_id (perform_all os (begin_transaction m).1).active_snapshots
      ≡ some (begin_transaction m).0
    → let (s, n) = begin_transaction m in
      read_version (vacuum (perform_all os n)) table key s
      ≡ read_version (perform_all os n) table key s
unfolding begin_transaction row_versions table_of
read_version-vacuum m os table key h ended active =
    let (s, n) = begin_transaction m in
    let q = perform_all os n in
    let clock = begun m.current_timestamp (length os) h in
    let oldest = min_timestamp q.current_timestamp q.active_snapshots in
    let seen : AllSeen s (row_versions q table key) =
      perform_all-AllSeen os s n table key clock.0 clock.1 start in
    read_version-row_versions (vacuum q) table key s
    ∙ (ap (λ vs. ok (value_of (get_visible_version vs s))) (vacuum-row_versions q table key)
        ∙ (ap (λ o. ok (value_of o))
              (visible-kept s oldest (row_versions q table key) (
                AllSeen-DropsUnseen s oldest (row_versions q table key)
                  (min_timestamp-le q.current_timestamp s.txn_id q.active_snapshots s active) seen))
            ∙ sym (read_version-row_versions q table key s)))
  where
    begun :
        (now k : ℕ) → now + suc k < 2 ^ 64 → (add_u64 now 1 + k < 2 ^ 64) × (now < add_u64 now 1)
    begun now k h = (omega arith, omega arith)

    start : AllSeen (begin_transaction m).0 (row_versions m table key)
    start = begun-AllSeen m (row_versions m table key) ended
