-- ===== src/Disk.antt =====
-- Files of `std::fs` as the bytes that a reader of the file sees, positions from 0.
use velocidb.Prelude.{
  ℕ, ◌+◌, ◌-◌, ◌≤◌, ◌<◌, ◌≡◌, refl, ap, sym, ◌∙◌, List, [], ◌∷◌, ◌++◌, Option, none, some, arith,
  ltb, if◌then◌else◌, length, take, drop, replicate, length-append, length-take, length-drop,
  length-replicate, take-all, drop-all, append_nil, take-append, drop-append, append_assoc, false,
  ◌⊎◌, inl, inr, le→ltb-false, slice-append, drop-drop, take-append-drop, drop-append_ge,
}

-- `set_len`: cuts the file, or fills it up with zeros.
unfoldable pub set_len : ℕ → List ℕ → List ℕ
set_len n file = take n file ++ replicate (n - length file) 0

-- A write of at least one byte: bytes between the end of the file and the write are zeros.
unfoldable pub write_some : List ℕ → ℕ → List ℕ → List ℕ
write_some file start bytes = set_len start file ++ (bytes ++ drop (start + length bytes) file)

-- `seek` and `write_all`. A write of nothing does not change the length.
unfoldable pub write_at : List ℕ → ℕ → List ℕ → List ℕ
unfolding write_some
write_at file start [] = file
write_at file start (b ∷ bs) = write_some file start (b ∷ bs)

-- `seek` and `read_exact`.
unfoldable pub read_exact_at : List ℕ → ℕ → ℕ → Option (List ℕ)
read_exact_at file start n =
    if ltb (length file) (start + n) then none else some (take n (drop start file))

pub length-set_len : (n : ℕ) (file : List ℕ) → length (set_len n file) ≡ n
unfolding set_len
length-set_len n file = omega (
  arith,
  length-append (take n file) (replicate (n - length file) 0),
  length-take n file,
  length-replicate {A = ℕ} (n - length file) 0,
)

pub set_len_self : (n : ℕ) (file : List ℕ) → n ≡ length file → set_len n file ≡ file
unfolding set_len replicate
set_len_self n file h =
    ap (λ k. take n file ++ replicate k 0) {x = n - length file} {y = 0} (omega arith)
    ∙ (append_nil (take n file) ∙ take-all file n (omega arith))

pub set_len-zero : (file : List ℕ) → set_len 0 file ≡ []
unfolding set_len replicate take
set_len-zero file = ap (λ k. replicate k 0) {x = 0 - length file} {y = 0} (omega arith)

-- Cutting a file back undoes whatever was written past that length.
pub set_len-append :
    (n : ℕ) (file tail : List ℕ) → n ≡ length file → set_len n (file ++ tail) ≡ file
unfolding set_len replicate
set_len-append n file tail h =
    ap (λ k. take n (file ++ tail) ++ replicate k 0) {x = n - length (file ++ tail)} {y = 0}
      (omega (arith, length-append file tail))
    ∙ (append_nil (take n (file ++ tail)) ∙ take-append file tail n h)

-- A write at the end of the file appends.
write_some-end :
    (file bytes : List ℕ) (n : ℕ) → n ≡ length file → write_some file n bytes ≡ file ++ bytes
unfolding write_some
write_some-end file bytes n h =
    ap (λ l. l ++ (bytes ++ drop (n + length bytes) file)) (set_len_self n file h)
    ∙ ap (λ l. file ++ l)
        (ap (λ l. bytes ++ l) (drop-all file (n + length bytes) (omega arith)) ∙ append_nil bytes)

length-write_some :
    (file bytes : List ℕ) (n : ℕ)
    → length (write_some file n bytes) ≡ n + length bytes + (length file - (n + length bytes))
unfolding write_some
length-write_some file bytes n = omega (
  arith,
  length-append (set_len n file) (bytes ++ drop (n + length bytes) file),
  length-append bytes (drop (n + length bytes) file),
  length-drop (n + length bytes) file,
  length-set_len n file,
)

-- What was written is read back.
read-write_some_self :
    (file bytes : List ℕ) (n k : ℕ)
    → k ≡ length bytes
    → read_exact_at (write_some file n bytes) n k ≡ some bytes
unfolding read_exact_at write_some
read-write_some_self file bytes n k h =
    rw
      (
        short,
        drop-append (set_len n file) rest n (omega (arith, length-set_len n file)),
        take-append bytes (drop (n + length bytes) file) k h,
      )
      refl
  where
    rest : List ℕ
    rest = bytes ++ drop (n + length bytes) file

    short : ltb (length (set_len n file ++ rest)) (n + k) ≡ false
    short = le→ltb-false _ _ (omega (arith, length-write_some file bytes n))

-- What a successful read says.
pub read-some :
    (file v : List ℕ) (m k : ℕ)
    → read_exact_at file m k ≡ some v
    → (m + k ≤ length file) × (take k (drop m file) ≡ v)
unfolding read_exact_at
read-some file v m k e = ground arith

pub read_within :
    (file : List ℕ) (m k : ℕ)
    → m + k ≤ length file
    → read_exact_at file m k ≡ some (take k (drop m file))
unfolding read_exact_at
read_within file m k h = rw (le→ltb-false (length file) (m + k) h)

slice-set_len :
    (file : List ℕ) (n m k : ℕ)
    → m + k ≤ n
    → m + k ≤ length file
    → take k (drop m (set_len n file)) ≡ take k (drop m file)
unfolding set_len
slice-set_len file n m k h l =
    slice-append (take n file) (replicate (n - length file) 0) m k fits
    ∙ (sym (slice-append (take n file) (drop n file) m k fits)
        ∙ ap (λ f. take k (drop m f)) (take-append-drop n file))
  where
    fits : m + k ≤ length (take n file)
    fits = omega (arith, length-take n file)

slice-write_some :
    (file bytes : List ℕ) (n m k : ℕ)
    → (m + k ≤ n) ⊎ (n + length bytes ≤ m)
    → m + k ≤ length file
    → take k (drop m (write_some file n bytes)) ≡ take k (drop m file)
unfolding write_some
slice-write_some file bytes n m k (inl h) l =
    slice-append (set_len n file) (bytes ++ drop (n + length bytes) file) m k
      (omega (arith, length-set_len n file))
    ∙ slice-set_len file n m k h l
slice-write_some file bytes n m k (inr h) l =
    ap (λ f. take k (drop m f)) (sym (append_assoc (set_len n file) bytes rest))
    ∙ ap (take k) (
        drop-append_ge (set_len n file ++ bytes) rest m
          (omega (arith, length-append (set_len n file) bytes, length-set_len n file))
        ∙ (drop-drop (m - length (set_len n file ++ bytes)) (n + length bytes) file
            ∙ ap (λ j. drop j file)
                (omega (arith, length-append (set_len n file) bytes, length-set_len n file))))
  where
    rest : List ℕ
    rest = drop (n + length bytes) file

read-write_some_ne :
    (file bytes : List ℕ) (n m k : ℕ) (v : List ℕ)
    → (m + k ≤ n) ⊎ (n + length bytes ≤ m)
    → read_exact_at file m k ≡ some v
    → read_exact_at (write_some file n bytes) m k ≡ some v
read-write_some_ne file bytes n m k v h e =
    let (l, p) = read-some file v m k e in
    read_within (write_some file n bytes) m k (omega (arith, length-write_some file bytes n))
    ∙ ap some (slice-write_some file bytes n m k h l ∙ p)

-- A write at the end of the file appends.
pub write_at-end :
    (file bytes : List ℕ) (n : ℕ) → n ≡ length file → write_at file n bytes ≡ file ++ bytes
unfolding write_at
write_at-end file [] n h = sym (append_nil file)
write_at-end file (b ∷ bs) n h = write_some-end file (b ∷ bs) n h

-- What was written is read back.
pub read-write_self :
    (file bytes : List ℕ) (n k : ℕ)
    → k ≡ length bytes
    → 0 < k
    → read_exact_at (write_at file n bytes) n k ≡ some bytes
unfolding write_at
read-write_self file [] n k h l = absurd (omega arith)
read-write_self file (b ∷ bs) n k h l = read-write_some_self file (b ∷ bs) n k h

-- A read of a range that the write does not touch is unchanged.
pub read-write_ne :
    (file bytes : List ℕ) (n m k : ℕ) (v : List ℕ)
    → (m + k ≤ n) ⊎ (n + length bytes ≤ m)
    → read_exact_at file m k ≡ some v
    → read_exact_at (write_at file n bytes) m k ≡ some v
unfolding write_at
read-write_ne file [] n m k v h e = e
read-write_ne file (b ∷ bs) n m k v h e = read-write_some_ne file (b ∷ bs) n m k v h e

-- A write never shortens the file, and reaches to its own end.
pub length-write_at :
    (file bytes : List ℕ) (n : ℕ)
    → (length file ≤ length (write_at file n bytes))
      × (0 < length bytes → n + length bytes ≤ length (write_at file n bytes))
unfolding write_at
length-write_at file [] n = omega arith
length-write_at file (b ∷ bs) n = omega (arith, length-write_some file (b ∷ bs) n)
