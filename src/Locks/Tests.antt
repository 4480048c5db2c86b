-- ===== src/Locks/Tests.antt =====
-- The lock theorems at two readers of a table.
use velocidb.Prelude.{Bool, List, [], ◌∷◌, String, ◌≡◌, refl, inl, ◌==◌, string_eq}
use velocidb.Prelude.Map.{lookup}
use velocidb.Locks.{
  LockEntry, LockManager, shared, exclusive, try_acquire, entries_of, try_acquire_lock_once,
  release_all_locks, without,
}
use velocidb.Locks.Compatible.{IsCompatible, AllShared, IsGranted, try_acquire-IsGranted}
use velocidb.Locks.Manager.{
  AllCompatible, try_acquire_lock_once-AllCompatible, release_all_locks-entries_of,
}

abbrev readers : List LockEntry
readers = record { txn_id = 1; lock_type = shared } ∷ record { txn_id = 2; lock_type = shared } ∷ []

readers-IsCompatible : IsCompatible readers
unfolding IsCompatible AllShared
readers-IsCompatible = inl (refl, (refl, tt))

abbrev no_locks : LockManager
no_locks = []

abbrev same : Bool
same = ◌==◌ {K = String} "users" "users"

no_locks-AllCompatible : AllCompatible no_locks
unfolding IsCompatible AllShared entries_of lookup
no_locks-AllCompatible resource = inl tt

abbrev locked : LockManager
locked = (try_acquire_lock_once no_locks "users" 1 shared).1

try_acquire-IsGranted_example : IsGranted 1 exclusive readers (try_acquire readers 1 exclusive)
try_acquire-IsGranted_example = try_acquire-IsGranted readers 1 exclusive readers-IsCompatible

try_acquire_lock_once-AllCompatible_example :
    AllCompatible (try_acquire_lock_once no_locks "users" 1 shared).1
try_acquire_lock_once-AllCompatible_example =
    try_acquire_lock_once-AllCompatible no_locks "users" 1 shared no_locks-AllCompatible

release_all_locks-entries_of_example :
    entries_of (release_all_locks locked 1) "users" ≡ without 1 (entries_of locked "users")
release_all_locks-entries_of_example = release_all_locks-entries_of locked 1 "users"
