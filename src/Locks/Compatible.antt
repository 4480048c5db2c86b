-- ===== src/Locks/Compatible.antt =====
-- The locks on a resource stay compatible, src/transaction.rs: an exclusive lock is the only lock.
use velocidb.Prelude.{
  ℕ, Bool, true, false, not, List, [], ◌∷◌, ◌++◌, nat_beq, nat_beq_iff, string_eq, ◌≡◌, refl, sym,
  ap, ◌∙◌, ◌⊎◌, inl, inr, arith, filter, any, Result, ok, err, panic, busy, Bool-cases, ◌||◌, subst,
}
use velocidb.Locks.{
  LockType, shared, exclusive, LockEntry, Scan, returned, upgrade, add, others, without, scan,
  try_acquire,
}

unfoldable pub AllShared : List LockEntry → Type 0
AllShared [] = Unit {0}
AllShared (e ∷ es) = (e.lock_type ≡ shared) × AllShared es

-- Every lock is shared, or there is just one lock.
unfoldable pub IsCompatible : List LockEntry → Type 0
IsCompatible entries = AllShared entries ⊎ ((e : LockEntry) × (entries ≡ e ∷ []))

-- Some lock of the transaction covers the type of lock.
unfoldable pub Covers : ℕ → LockType → List LockEntry → Type 0
Covers txn_id lock_type [] = ⊥
Covers txn_id lock_type (e ∷ es) =
    ((e.txn_id ≡ txn_id) × ((e.lock_type ≡ lock_type) ⊎ (e.lock_type ≡ exclusive)))
    ⊎ Covers txn_id lock_type es

without-AllShared : (t : ℕ) (es : List LockEntry) → AllShared es → AllShared (without t es)
unfolding AllShared filter
without-AllShared t [] a = tt
without-AllShared t (e ∷ es) a = elim (Bool-cases (nat_beq e.txn_id t)) [
  | inl h ↦ rw (h, filter) (without-AllShared t es a.1)
  | inr h ↦ rw (h, filter) (a.0, without-AllShared t es a.1)
]

pub without-IsCompatible :
    (t : ℕ) (es : List LockEntry) → IsCompatible es → IsCompatible (without t es)
unfolding IsCompatible AllShared filter
without-IsCompatible t es (inl a) = inl (without-AllShared t es a)
without-IsCompatible t es (inr (e, h)) = elim (Bool-cases (nat_beq e.txn_id t)) [
  | inl b ↦ rw (h, b, filter) (inl tt)
  | inr b ↦ rw (h, b, filter) (inr (e, refl))
]

pub or-false : (a b : Bool) → (a || b) ≡ false → (a ≡ false) × (b ≡ false)
or-false true b h = absurd (ground (arith, h))
or-false false b h = (refl, h)

without-none : (t : ℕ) (es : List LockEntry) → others t es ≡ false → without t es ≡ []
unfolding filter any
without-none t [] h = refl
without-none t (e ∷ es) h = elim (Bool-cases (nat_beq e.txn_id t)) [
  | inl b ↦
      rw (b, filter) (without-none t es (or-false (not (nat_beq e.txn_id t)) (others t es) h).1)
  | inr b ↦ absurd (ground (arith, b, (or-false (not (nat_beq e.txn_id t)) (others t es) h).0))
]

append-AllShared :
    (es : List LockEntry) (e : LockEntry)
    → AllShared es
    → e.lock_type ≡ shared
    → AllShared (es ++ (e ∷ []))
unfolding AllShared
append-AllShared [] e a h = (h, tt)
append-AllShared (x ∷ es) e a h = (a.0, append-AllShared es e a.1 h)

-- What each answer of the scan says of the locks scanned.
unfoldable Found : ℕ → LockType → List LockEntry → List LockEntry → Scan → Type 0
Found t l all es (returned (ok _)) = Covers t l es
Found t l all es (returned (err e)) = e ≡ busy
Found t l all es (returned panic) = ⊥
Found t l all es upgrade = others t all ≡ false
Found t l all es add = (es ≡ []) ⊎ ((l ≡ shared) × AllShared es)

LockType-cases : (l : LockType) → (l ≡ shared) ⊎ (l ≡ exclusive)
LockType-cases shared = inl refl
LockType-cases exclusive = inr refl

-- A shared lock of another transaction leaves the answer of the rest of the scan.
Found-next :
    (t : ℕ) (all es : List LockEntry) (e : LockEntry) (s : Scan)
    → e.lock_type ≡ shared
    → Found t shared all es s
    → Found t shared all (e ∷ es) s
unfolding Found Covers AllShared
Found-next t all es e (returned (ok _)) h f = inr f
Found-next t all es e (returned (err _)) h f = f
Found-next t all es e (returned panic) h f = f
Found-next t all es e upgrade h f = f
Found-next t all es e add h (inl n) = inr (refl, (h, subst AllShared (sym n) tt))
Found-next t all es e add h (inr (r, a)) = inr (r, (h, a))

scan-Found : (t : ℕ) (l : LockType) (all es : List LockEntry) → Found t l all es (scan t l all es)
unfolding scan Found Covers AllShared
scan-Found t l all [] = inl refl
scan-Found t shared all (e ∷ es) = elim (Bool-cases (nat_beq e.txn_id t)) [
  | inl b ↦ elim (LockType-cases e.lock_type) [
    | inl h ↦ rw (b, h, scan) (inl ((nat_beq_iff e.txn_id t).0 b, inl refl))
    | inr h ↦ rw (b, h, scan) (inl ((nat_beq_iff e.txn_id t).0 b, inr refl))
  ]
  | inr b ↦ elim (LockType-cases e.lock_type) [
    | inl h ↦
        rw (b, h, scan)
          (Found-next t all es _ (scan t shared all es) refl (scan-Found t shared all es))
    | inr h ↦ rw (b, h, scan) refl
  ]
]
scan-Found t exclusive all (e ∷ es) = elim (Bool-cases (nat_beq e.txn_id t)) [
  | inl b ↦ elim (LockType-cases e.lock_type) [
    | inl h ↦ elim (Bool-cases (others t all)) [
      | inl o ↦ rw (b, h, o, scan) refl
      | inr o ↦ rw (b, h, o, scan) o
    ]
    | inr h ↦ rw (b, h, scan) (inl ((nat_beq_iff e.txn_id t).0 b, inr refl))
  ]
  | inr b ↦ rw (b, scan) refl
]

append-Covers : (es : List LockEntry) (e : LockEntry) → Covers e.txn_id e.lock_type (es ++ (e ∷ []))
unfolding Covers
append-Covers [] e = inl (refl, inl refl)
append-Covers (x ∷ es) e = inr (append-Covers es e)

-- What an attempt answers and leaves: granted, the locks are compatible and cover the request;
-- refused, it is `busy` and nothing changes.
unfoldable pub IsGranted :
    ℕ → LockType → List LockEntry → Result (Unit {0}) × List LockEntry → Type 0
IsGranted t l es (ok _, fs) = IsCompatible fs × Covers t l fs
IsGranted t l es (err e, fs) = (e ≡ busy) × (fs ≡ es)
IsGranted t l es (panic, fs) = ⊥

IsCompatible-add :
    (l : LockType) (es : List LockEntry) (new : LockEntry)
    → new.lock_type ≡ l
    → (es ≡ []) ⊎ ((l ≡ shared) × AllShared es)
    → IsCompatible (es ++ (new ∷ []))
unfolding IsCompatible
IsCompatible-add l es new h (inl n) = inr (new, ap (λ xs. xs ++ (new ∷ [])) n)
IsCompatible-add l es new h (inr (s, a)) = inl (append-AllShared es new a (h ∙ s))

-- On compatible locks, all shared or a single one, an attempt either answers `busy` and changes
-- nothing, or it is granted: then the locks are compatible and one of the transaction's locks
-- is of the type asked for or exclusive.
pub try_acquire-IsGranted :
    (es : List LockEntry) (t : ℕ) (l : LockType)
    → IsCompatible es
    → IsGranted t l es (try_acquire es t l)
unfolding try_acquire Found IsGranted IsCompatible
try_acquire-IsGranted es t l c = by_scan (scan t l es es) (scan-Found t l es es)
  where
    by_scan :
        (s : Scan)
        → Found t l es es s
        → IsGranted t l es (elim s [
          | returned r ↦ (r, es)
          | upgrade ↦ (ok tt, without t es ++ (record { txn_id = t; lock_type = l } ∷ []))
          | add ↦ (ok tt, es ++ (record { txn_id = t; lock_type = l } ∷ []))
        ])
    by_scan (returned (ok _)) f = (c, f)
    by_scan (returned (err e)) f = (f, refl)
    by_scan (returned panic) f = f
    by_scan upgrade f = (
      rw (without-none t es f) (inr (_, refl)),
      append-Covers (without t es) (record { txn_id = t; lock_type = l }),
    )
    by_scan add f =
        (IsCompatible-add l es _ refl f, append-Covers es (record { txn_id = t; lock_type = l }))
