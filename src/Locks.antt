-- ===== src/Locks.antt =====
-- The lock manager of src/transaction.rs: shared and exclusive locks of transactions on resources.
pub mod Compatible
pub mod Manager
mod Tests
use velocidb.Prelude.{
  ℕ, ◌+◌, Bool, true, false, not, List, [], ◌∷◌, ◌++◌, Option, none, some, nat_beq, string_eq,
  if◌then◌else◌, length, filter, any, map, String, Result, ok, err, panic, busy, transaction_error,
  ltb, VelociError,
}
use velocidb.Prelude.Map.{lookup, insert, remove}

pub data LockType : Type 0 where
  shared exclusive : LockType

pub record LockEntry : Type 0 where
  pub txn_id : ℕ
  pub lock_type : LockType

abbrev pub LockManager : Type 0
LockManager = List (String × List LockEntry)

-- What the loop over the existing locks finds: an early return, or that the lock is added.
pub data Scan : Type 0 where
  returned : Result (Unit {0}) → Scan
  upgrade add : Scan

abbrev pub others : ℕ → List LockEntry → Bool
others txn_id entries = any (λ e. not (nat_beq e.txn_id txn_id)) entries

abbrev pub without : ℕ → List LockEntry → List LockEntry
without txn_id entries = filter (λ e. not (nat_beq e.txn_id txn_id)) entries

-- The loop over `rest`, the locks that are not yet checked of `entries`.
unfoldable pub scan : ℕ → LockType → List LockEntry → List LockEntry → Scan
scan txn_id lock_type entries [] = add
scan txn_id lock_type entries (existing ∷ rest) =
    let next = scan txn_id lock_type entries rest in
    if nat_beq existing.txn_id txn_id
    then (elim existing.lock_type [
      | shared ↦ elim lock_type [
        | exclusive ↦ (if others txn_id entries then returned (err busy) else upgrade)
        | shared ↦ returned (ok tt)
      ]
      | exclusive ↦ returned (ok tt)
    ])
    else (elim lock_type [
      | shared ↦ elim existing.lock_type [ shared ↦ next | exclusive ↦ returned (err busy) ]
      | exclusive ↦ returned (err busy)
    ])

-- `try_acquire_lock_once` on the entries of the resource.
unfoldable pub try_acquire : List LockEntry → ℕ → LockType → Result (Unit {0}) × List LockEntry
unfolding scan
try_acquire entries txn_id lock_type =
    let new : LockEntry = record { txn_id = txn_id; lock_type = lock_type } in
    elim (scan txn_id lock_type entries entries) [
      | returned r ↦ (r, entries)
      | upgrade ↦ (ok tt, without txn_id entries ++ (new ∷ []))
      | add ↦ (ok tt, entries ++ (new ∷ []))
    ]

-- `entry(..).or_default()`.
unfoldable pub entries_of : LockManager → String → List LockEntry
entries_of m resource = elim (lookup resource m) [ none ↦ [] | some entries ↦ entries ]

unfoldable pub try_acquire_lock_once :
    LockManager → String → ℕ → LockType → Result (Unit {0}) × LockManager
unfolding try_acquire entries_of
try_acquire_lock_once m resource txn_id lock_type =
    let (r, entries) = try_acquire (entries_of m resource) txn_id lock_type in
    (r, insert resource entries m)

unfoldable pub release_lock : LockManager → String → ℕ → LockManager
release_lock m resource txn_id = elim (lookup resource m) [
  | none ↦ m
  | some entries ↦ elim (without txn_id entries) [
    | [] ↦ remove resource m
    | (e ∷ es) ↦ insert resource (e ∷ es) m
  ]
]

unfoldable pub release_each : LockManager → List String → ℕ → LockManager
release_each m [] txn_id = m
release_each m (key ∷ keys) txn_id = release_each (release_lock m key txn_id) keys txn_id

unfoldable pub release_all_locks : LockManager → ℕ → LockManager
release_all_locks m txn_id = release_each m (map (λ r. r.0) m) txn_id

unfoldable pub has_locks : LockManager → ℕ → Bool
has_locks m txn_id = any (λ r. any (λ e. nat_beq e.txn_id txn_id) r.1) m

-- The loop of `try_acquire_lock_with_timeout`: each round meets the locks as the other threads left
-- them (`others`) and finds whether the timeout has passed. `none` is a list of rounds that ran out
-- before the loop ended.
unfoldable pub try_acquire_lock_with_timeout :
    List ((LockManager → LockManager) × Bool)
    → LockManager
    → String
    → ℕ
    → LockType
    → Option (Result (Unit {0})) × LockManager
try_acquire_lock_with_timeout [] m resource txn_id lock_type = (none, m)
try_acquire_lock_with_timeout ((meanwhile, timed_out) ∷ rounds) m resource txn_id lock_type =
    let (r, n) = try_acquire_lock_once (meanwhile m) resource txn_id lock_type in
    let next = try_acquire_lock_with_timeout rounds n resource txn_id lock_type in
    elim r [
      | ok _ ↦ (some (ok tt), n)
      | err e ↦ elim e [
        | busy ↦ (if timed_out then (some (err transaction_error), n) else next)
        | other ↦ (some (err other), n)
      ]
      | panic ↦ (some panic, n)
    ]
