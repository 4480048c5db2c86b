-- ===== src/Locks/Manager.antt =====
-- The locks of all resources, src/transaction.rs: attempts and releases, one resource at a time.
use velocidb.Prelude.{
  ℕ, Bool, true, false, List, [], ◌∷◌, none, some, nat_beq, string_eq, ◌==◌, if◌then◌else◌, ◌≡◌,
  refl, sym, ap, ◌∙◌, ◌⊎◌, inl, inr, filter, any, map, String, Result, ok, err, panic, Bool-cases,
  Option-cases, ==_iff, subst,
}
use velocidb.Prelude.Map.{lookup, insert, remove, lookup-insert, lookup-remove}
use velocidb.Locks.{
  LockType, LockEntry, LockManager, without, try_acquire, entries_of, try_acquire_lock_once,
  release_lock, release_each, release_all_locks,
}
use velocidb.Locks.Compatible.{
  IsCompatible, IsGranted, or-false, try_acquire-IsGranted, without-IsCompatible,
}

-- The locks of every resource are compatible.
abbrev pub AllCompatible : LockManager → Type 0
AllCompatible m = (resource : String) → IsCompatible (entries_of m resource)

entries_of-insert :
    (resource other : String) (es : List LockEntry) (m : LockManager)
    → entries_of (insert resource es m) other
      ≡ (if resource == other then es else entries_of m other)
unfolding entries_of
entries_of-insert resource other es m = elim (Bool-cases (resource == other)) [
  | inl h ↦ rw (lookup-insert resource other es m, h, entries_of) refl
  | inr h ↦ rw (lookup-insert resource other es m, h, entries_of) refl
]

entries_of-remove :
    (resource other : String) (m : LockManager)
    → entries_of (remove resource m) other ≡ (if resource == other then [] else entries_of m other)
unfolding entries_of
entries_of-remove resource other m = elim (Bool-cases (resource == other)) [
  | inl h ↦ rw (lookup-remove resource other m, h, entries_of) refl
  | inr h ↦ rw (lookup-remove resource other m, h, entries_of) refl
]

IsCompatible-if :
    (b : Bool) (es fs : List LockEntry)
    → IsCompatible es
    → IsCompatible fs
    → IsCompatible (if b then es else fs)
IsCompatible-if true es fs c d = c
IsCompatible-if false es fs c d = d

granted-IsCompatible :
    (t : ℕ) (l : LockType) (es : List LockEntry) (r : Result (Unit {0}) × List LockEntry)
    → IsCompatible es
    → IsGranted t l es r
    → IsCompatible r.1
unfolding IsGranted
granted-IsCompatible t l es (ok _, fs) c g = g.0
granted-IsCompatible t l es (err _, fs) c g = subst IsCompatible (sym g.1) c
granted-IsCompatible t l es (panic, fs) c g = absurd g

-- An attempt to lock a resource, granted or not, keeps the locks of every resource compatible.
pub try_acquire_lock_once-AllCompatible :
    (m : LockManager) (resource : String) (t : ℕ) (l : LockType)
    → AllCompatible m
    → AllCompatible (try_acquire_lock_once m resource t l).1
unfolding try_acquire_lock_once
try_acquire_lock_once-AllCompatible m resource t l c other =
    let es = entries_of m resource in
    subst IsCompatible (sym (entries_of-insert resource other (try_acquire es t l).1 m)) (
      IsCompatible-if (resource == other) _ _
        (granted-IsCompatible t l es (try_acquire es t l) (c resource)
          (try_acquire-IsGranted es t l (c resource)))
        (c other))

entries_of-none : (key : String) (m : LockManager) → lookup key m ≡ none → entries_of m key ≡ []
unfolding entries_of
entries_of-none key m h = rw (h, entries_of) refl

entries_of-some :
    (key : String) (es : List LockEntry) (m : LockManager)
    → lookup key m ≡ some es
    → entries_of m key ≡ es
unfolding entries_of
entries_of-some key es m h = rw (h, entries_of) refl

List-cases : {A : Type 0} (xs : List A) → (xs ≡ []) ⊎ ((x : A) × (ys : List A) × (xs ≡ x ∷ ys))
List-cases [] = inl refl
List-cases (x ∷ xs) = inr (x, xs, refl)

-- A release takes every lock of the transaction off the resource and no other lock off any
-- resource, also when it removes the resource because no lock is left.
pub entries_of-release_lock :
    (m : LockManager) (resource other : String) (t : ℕ)
    → entries_of (release_lock m resource t) other
      ≡ (if resource == other then without t (entries_of m other) else entries_of m other)
unfolding release_lock filter
entries_of-release_lock m resource other t = elim (Option-cases (lookup resource m)) [
  | inl n ↦ rw (n, release_lock) (unheld n)
  | inr (es, e) ↦ elim (List-cases (without t es)) [
    | inl w ↦
        rw (e, w, release_lock) (entries_of-remove resource other m ∙ if-eq (held es [] e (sym w)))
    | inr (x, xs, w) ↦
        rw (e, w, release_lock)
          (entries_of-insert resource other (x ∷ xs) m ∙ if-eq (held es (x ∷ xs) e (sym w)))
  ]
]
  where
    if-eq :
        {u v : List LockEntry}
        → ((resource == other) ≡ true → u ≡ v)
        → (if resource == other then u else entries_of m other)
          ≡ (if resource == other then v else entries_of m other)
    if-eq {u = u} {v = v} f = elim (Bool-cases (resource == other)) [
      | inl h ↦ rw h (f h)
      | inr h ↦ rw h refl
    ]

    held :
        (es kept : List LockEntry)
        → lookup resource m ≡ some es
        → kept ≡ without t es
        → (resource == other) ≡ true
        → kept ≡ without t (entries_of m other)
    held es kept e w h =
        w
        ∙ ap (λ xs. without t xs)
            (sym (entries_of-some resource es m e)
              ∙ ap (λ k. entries_of m k) ((==_iff resource other).0 h))

    gone : entries_of m other ≡ [] → entries_of m other ≡ without t (entries_of m other)
    gone h = rw (h, filter) refl

    unheld :
        lookup resource m ≡ none
        → entries_of m other
          ≡ (if resource == other then without t (entries_of m other) else entries_of m other)
    unheld n = elim (Bool-cases (resource == other)) [
      | inl h ↦ rw h (
          gone (
            ap (λ k. entries_of m k) (sym ((==_iff resource other).0 h))
            ∙ entries_of-none resource m n))
      | inr h ↦ rw h refl
    ]

pub release_lock-AllCompatible :
    (m : LockManager) (resource : String) (t : ℕ)
    → AllCompatible m
    → AllCompatible (release_lock m resource t)
release_lock-AllCompatible m resource t c other =
    subst IsCompatible (sym (entries_of-release_lock m resource other t))
      (IsCompatible-if (resource == other) _ _ (without-IsCompatible t _ (c other)) (c other))

without-idempotent : (t : ℕ) (es : List LockEntry) → without t (without t es) ≡ without t es
unfolding filter
without-idempotent t [] = refl
without-idempotent t (e ∷ es) = elim (Bool-cases (nat_beq e.txn_id t)) [
  | inl b ↦ rw (b, filter) (without-idempotent t es)
  | inr b ↦ rw (b, filter) (rw (b, filter) (ap (λ xs. e ∷ xs) (without-idempotent t es)))
]

entries_of-release_each :
    (keys : List String) (m : LockManager) (other : String) (t : ℕ)
    → entries_of (release_each m keys t) other
      ≡ (if any (λ k. k == other) keys then without t (entries_of m other) else entries_of m other)
unfolding release_each any
entries_of-release_each [] m other t = refl
entries_of-release_each (key ∷ keys) m other t =
    entries_of-release_each keys (release_lock m key t) other t ∙ elim (Bool-cases (key == other)) [
      | inl h ↦ elim (Bool-cases (any (λ k. k == other) keys)) [
        | inl g ↦
            rw (g, entries_of-release_lock m key other t, h)
              (without-idempotent t (entries_of m other))
        | inr g ↦ rw (g, entries_of-release_lock m key other t, h) refl
      ]
      | inr h ↦ rw (entries_of-release_lock m key other t, h) refl
    ]

-- A resource that is not among the keys has no locks.
entries_of-absent :
    (m : LockManager) (other : String)
    → any (λ k. k == other) (map (λ r. r.0) m) ≡ false
    → entries_of m other ≡ []
unfolding any entries_of lookup
entries_of-absent [] other h = refl
entries_of-absent ((k, es) ∷ m) other h =
    let (here, there) = or-false (k == other) (any (λ j. j == other) (map (λ r. r.0) m)) h in
    rw (here, lookup, entries_of) (entries_of-absent m other there)

-- `release_all_locks` takes every lock of the transaction off every resource and leaves all
-- other locks as they are.
pub release_all_locks-entries_of :
    (m : LockManager) (t : ℕ) (other : String)
    → entries_of (release_all_locks m t) other ≡ without t (entries_of m other)
unfolding release_all_locks filter
release_all_locks-entries_of m t other =
    entries_of-release_each (map (λ r. r.0) m) m other t
    ∙ elim (Bool-cases (any (λ k. k == other) (map (λ r. r.0) m))) [
      | inl h ↦ rw h refl
      | inr h ↦ rw h (rw (entries_of-absent m other h, filter) refl)
    ]
