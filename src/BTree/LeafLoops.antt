-- ===== src/BTree/LeafLoops.antt =====
-- What the loops of src/btree.rs over a leaf compute, on a page that holds a list of entries.
use velocidb.Prelude.{
  ℕ, ◌+◌, ◌^◌, ◌≤◌, ◌<◌, ◌≡◌, refl, ap, sym, subst, ◌∙◌, List, [], ◌∷◌, ◌++◌, Option, none, some,
  arith, if◌then◌else◌, length, take, drop, ok, ℤ, int_beq, int_ltb, length-append, Bool-cases, inl,
  inr, le→ltb-false,
}
use velocidb.Prelude.Words.{
  to_le_bytes, from_le_bytes, length-to_le_bytes, from_le_bytes-to_le_bytes,
}
use velocidb.Wal.{page_size}
use velocidb.BTree.Nodes.{key_bytes, IsKey, length-key_bytes, bytes_at}
use velocidb.BTree.Leaves.{
  Entries, entry_bytes, entry_at, leaf_entries, find_entry, insert_offset, delete_offset,
  find_data_end,
}
use velocidb.BTree.Layout.{At, At-left, At-right, bytes_at-At}
use velocidb.BTree.Fields.{key_at-At, u32_at-At}

abbrev pub entries_bytes : Entries → List ℕ
entries_bytes [] = []
entries_bytes ((key, bytes) ∷ es) = entry_bytes key bytes ++ entries_bytes es

-- Keys of 64 bits and sizes of 32.
abbrev pub AllEntries : Entries → Type 0
AllEntries [] = Unit {0}
AllEntries ((key, bytes) ∷ es) = IsKey key × (length bytes < 2 ^ 32) × AllEntries es

-- The first entry with a key.
unfoldable pub lookup_entry : ℤ → Entries → Option (List ℕ)
lookup_entry key [] = none
lookup_entry key ((k, bytes) ∷ es) = if int_beq k key then some bytes else lookup_entry key es

-- The entries before the place of a new key, and those behind it.
unfoldable pub not_above : ℤ → Entries → Entries
not_above key [] = []
not_above key ((k, bytes) ∷ es) =
    let rest = not_above key es in if int_ltb key k then [] else (k, bytes) ∷ rest

unfoldable pub above : ℤ → Entries → Entries
above key [] = []
above key ((k, bytes) ∷ es) =
    let rest = above key es in if int_ltb key k then (k, bytes) ∷ es else rest

pub length-entry_bytes :
    (key : ℤ) (bytes : List ℕ) → length (entry_bytes key bytes) ≡ 12 + length bytes
length-entry_bytes key bytes = omega (
  arith,
  length-append (key_bytes key) (to_le_bytes 4 (length bytes) ++ bytes),
  length-append (to_le_bytes 4 (length bytes)) bytes,
  length-key_bytes key,
  length-to_le_bytes 4 (length bytes),
)

-- One entry at an offset, with the entries behind it.
record HasEntry (page : List ℕ) (a : ℕ) (key : ℤ) (bytes : List ℕ) (es : Entries) : Type 0 where
  found : entry_at page a ≡ ok (key, length bytes)
  read : bytes_at page (a + 12) (length bytes) ≡ ok bytes
  sized : At page (a + 8) (to_le_bytes 4 (length bytes))
  behind : At page (a + (12 + length bytes)) (entries_bytes es)
  ends : a + (12 + length bytes) ≤ length page

stored-HasEntry :
    (page : List ℕ) (a : ℕ) (key : ℤ) (bytes : List ℕ) (es : Entries)
    → AllEntries ((key, bytes) ∷ es)
    → At page a (entries_bytes ((key, bytes) ∷ es))
    → HasEntry page a key bytes es
unfolding entry_at
stored-HasEntry page a key bytes es s h = record {
  found =
      rw (key_at-At page a key s.0 (At-left page (key_bytes key) (size ++ bytes) a here))
        (rw (u32_at-At page (a + 8) (length bytes) s.1 sized) refl);
  read = bytes_at-At page bytes (a + 12) (length bytes) stored refl;
  sized = sized;
  behind =
      subst (λ b. At page b (entries_bytes es)) (omega (arith, length-entry_bytes key bytes))
        (At-right page (entry_bytes key bytes) (entries_bytes es) a h);
  ends = omega (arith, here.fits, length-entry_bytes key bytes);
}
  where
    size : List ℕ
    size = to_le_bytes 4 (length bytes)

    here : At page a (entry_bytes key bytes)
    here = At-left page (entry_bytes key bytes) (entries_bytes es) a h

    tail : At page (a + 8) (size ++ bytes)
    tail =
        subst (λ b. At page b (size ++ bytes)) (omega (arith, length-key_bytes key))
          (At-right page (key_bytes key) (size ++ bytes) a here)

    sized : At page (a + 8) size
    sized = At-left page size bytes (a + 8) tail

    stored : At page (a + 12) bytes
    stored =
        subst (λ b. At page b bytes) (omega (arith, length-to_le_bytes 4 (length bytes)))
          (At-right page size bytes (a + 8) tail)

pub leaf_entries-At :
    (page : List ℕ) (a : ℕ) (es : Entries)
    → AllEntries es
    → At page a (entries_bytes es)
    → leaf_entries (length es) page a ≡ ok es
unfolding leaf_entries
leaf_entries-At page a [] s h = refl
leaf_entries-At page a ((key, bytes) ∷ es) s h =
    let e = stored-HasEntry page a key bytes es s h in
    rw (e.found, e.read, leaf_entries-At page (a + (12 + length bytes)) es s.2 e.behind) refl

pub find_entry-At :
    (page : List ℕ) (a : ℕ) (es : Entries) (key : ℤ)
    → AllEntries es
    → At page a (entries_bytes es)
    → find_entry (length es) page key a ≡ ok (lookup_entry key es)
unfolding find_entry lookup_entry
find_entry-At page a [] key s h = refl
find_entry-At page a ((k, bytes) ∷ es) key s h =
    let e = stored-HasEntry page a k bytes es s h in
    elim (Bool-cases (int_beq k key)) [
      | inl t ↦ rw (e.found, t, e.read, find_entry, lookup_entry) refl
      | inr t ↦
          rw (e.found, t, find_entry, lookup_entry)
            (find_entry-At page (a + (12 + length bytes)) es key s.2 e.behind)
    ]

pub insert_offset-At :
    (page : List ℕ) (a : ℕ) (es : Entries) (key : ℤ)
    → AllEntries es
    → At page a (entries_bytes es)
    → insert_offset (length es) page key a ≡ ok (a + length (entries_bytes (not_above key es)))
unfolding insert_offset not_above
insert_offset-At page a [] key s h = ap ok (omega arith)
insert_offset-At page a ((k, bytes) ∷ es) key s h =
    let e = stored-HasEntry page a k bytes es s h in
    elim (Bool-cases (int_ltb key k)) [
      | inl t ↦ rw (e.found, t, insert_offset, not_above) (ap ok (omega arith))
      | inr t ↦
          rw (e.found, t, insert_offset, not_above)
            (insert_offset-At page (a + (12 + length bytes)) es key s.2 e.behind
              ∙ ap ok (
                  omega (
                    arith,
                    length-entry_bytes k bytes,
                    length-append (entry_bytes k bytes) (entries_bytes (not_above key es)),
                  )))
    ]

pub find_data_end-At :
    (page : List ℕ) (a : ℕ) (es : Entries)
    → AllEntries es
    → length page ≡ page_size
    → At page a (entries_bytes es)
    → find_data_end (length es) page a ≡ ok (a + length (entries_bytes es))
unfolding find_data_end
find_data_end-At page a [] s l h = ap ok (omega arith)
find_data_end-At page a ((k, bytes) ∷ es) s l h =
    let e = stored-HasEntry page a k bytes es s h in
    let size : from_le_bytes (take 4 (drop (a + 8) page)) ≡ length bytes =
      ap from_le_bytes (
        ap (λ n. take n (drop (a + 8) page)) (sym (length-to_le_bytes 4 (length bytes)))
        ∙ e.sized.found)
      ∙ from_le_bytes-to_le_bytes 4 (length bytes) s.1 in
    rw
      (
        size,
        le→ltb-false page_size (a + 12) (omega (arith, e.ends)),
        le→ltb-false (length page) (a + 12) (omega (arith, e.ends)),
        le→ltb-false page_size (a + (12 + length bytes)) (omega (arith, e.ends)),
      )
      (find_data_end-At page (a + (12 + length bytes)) es s.2 l e.behind
        ∙ ap ok (
            omega (
              arith,
              length-entry_bytes k bytes,
              length-append (entry_bytes k bytes) (entries_bytes es),
            )))

-- What `delete_offset` finds: where the entries before the key end, and the size of its entry.
unfoldable pub before : ℤ → Entries → Entries
before key [] = []
before key ((k, bytes) ∷ es) =
    let rest = before key es in if int_beq k key then [] else (k, bytes) ∷ rest

unfoldable pub behind : ℤ → Entries → Entries
behind key [] = []
behind key ((k, bytes) ∷ es) = let rest = behind key es in if int_beq k key then es else rest

unfoldable pub entry_place : ℕ → Option (List ℕ) → Option (ℕ × ℕ)
entry_place start none = none
entry_place start (some bytes) = some (start, 12 + length bytes)

pub delete_offset-At :
    (page : List ℕ) (a : ℕ) (es : Entries) (key : ℤ)
    → AllEntries es
    → At page a (entries_bytes es)
    → delete_offset (length es) page key a
      ≡ ok (entry_place (a + length (entries_bytes (before key es))) (lookup_entry key es))
unfolding delete_offset before lookup_entry entry_place
delete_offset-At page a [] key s h = refl
delete_offset-At page a ((k, bytes) ∷ es) key s h =
    let e = stored-HasEntry page a k bytes es s h in
    elim (Bool-cases (int_beq k key)) [
      | inl t ↦
          rw (e.found, t, delete_offset, lookup_entry)
            (ap (λ n. ok (some (n, 12 + length bytes))) (omega arith))
      | inr t ↦
          rw (e.found, t, delete_offset, lookup_entry)
            (delete_offset-At page (a + (12 + length bytes)) es key s.2 e.behind
              ∙ ap (λ n. ok (entry_place n (lookup_entry key es)))
                  (omega (
                    arith,
                    length-entry_bytes k bytes,
                    length-append (entry_bytes k bytes) (entries_bytes (before key es)),
                  )))
    ]
