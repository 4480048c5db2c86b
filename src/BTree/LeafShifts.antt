-- ===== src/BTree/LeafShifts.antt =====
-- Leaves of src/btree.rs as lists of entries, and the `copy_within` that makes room in one.
use velocidb.Prelude.{
  ℕ, ◌+◌, ◌-◌, ◌*◌, ◌≤◌, ◌≡◌, refl, ap, sym, subst, ◌∙◌, List, [], ◌∷◌, ◌++◌, arith, ltb,
  if◌then◌else◌, length, take, drop, slice, ok, ℤ, int_ltb, length-append, Bool-cases, inl, inr,
  le→ltb-false, append_assoc,
}
use velocidb.Wal.{page_size}
use velocidb.BTree.Nodes.{NodeHeader, FitsHeader, header_size, put_bytes, copy_within}
use velocidb.BTree.Leaves.{Entries, entry_bytes}
use velocidb.BTree.Layout.{At, At-left, At-right, put_page, put_bytes-IsOverwritten}
use velocidb.BTree.Fields.{header_bytes}
use velocidb.BTree.LeafLoops.{entries_bytes, AllEntries, not_above, above, length-entry_bytes}

-- The page of a leaf with this header, but for the count, and these entries.
pub record IsLeaf (h : NodeHeader) (es : Entries) (page : List ℕ) : Type 0 where
  pub whole : length page ≡ page_size
  pub fits : FitsHeader h
  pub counted : h.num_keys ≡ length es
  pub header : At page 0 (header_bytes h)
  pub stored : At page header_size (entries_bytes es)
  pub sized : AllEntries es

unfoldable pub insert_sorted_entry : ℤ → List ℕ → Entries → Entries
insert_sorted_entry key bytes es = not_above key es ++ ((key, bytes) ∷ above key es)

pub split-above : (key : ℤ) (es : Entries) → not_above key es ++ above key es ≡ es
unfolding not_above above
split-above key [] = refl
split-above key ((k, bytes) ∷ es) = elim (Bool-cases (int_ltb key k)) [
  | inl t ↦ rw (t, not_above, above) refl
  | inr t ↦ rw (t, not_above, above) (ap (λ l. (k, bytes) ∷ l) (split-above key es))
]

pub entries_bytes-append :
    (xs ys : Entries) → entries_bytes (xs ++ ys) ≡ entries_bytes xs ++ entries_bytes ys
entries_bytes-append [] ys = refl
entries_bytes-append ((k, bytes) ∷ xs) ys =
    ap (λ l. entry_bytes k bytes ++ l) (entries_bytes-append xs ys)
    ∙ sym (append_assoc (entry_bytes k bytes) (entries_bytes xs) (entries_bytes ys))

pub AllEntries-append : (xs ys : Entries) → AllEntries xs → AllEntries ys → AllEntries (xs ++ ys)
AllEntries-append [] ys a b = b
AllEntries-append ((k, bytes) ∷ xs) ys a b = (a.0, a.1, AllEntries-append xs ys a.2 b)

pub AllEntries-left : (xs ys : Entries) → AllEntries (xs ++ ys) → AllEntries xs × AllEntries ys
AllEntries-left [] ys a = (tt, a)
AllEntries-left ((k, bytes) ∷ xs) ys a = let r = AllEntries-left xs ys a.2 in ((a.0, a.1, r.0), r.1)

pub length-le-entries_bytes : (es : Entries) → 12 * length es ≤ length (entries_bytes es)
length-le-entries_bytes [] = omega arith
length-le-entries_bytes ((k, bytes) ∷ es) = omega (
  arith,
  length-le-entries_bytes es,
  length-append (entry_bytes k bytes) (entries_bytes es),
  length-entry_bytes k bytes,
)

-- The bytes of a page between two offsets, where they are known.
slice-At :
    (page bytes : List ℕ) (a b : ℕ)
    → At page a bytes
    → b ≡ a + length bytes
    → slice a b page ≡ bytes
slice-At page bytes a b h e = ap (λ n. take n (drop a page)) {x = b - a} (omega arith) ∙ h.found

-- A `copy_within` of known bytes writes them.
pub copy_within-At :
    (page bytes : List ℕ) (a b dest : ℕ)
    → At page a bytes
    → b ≡ a + length bytes
    → copy_within page a b dest ≡ put_bytes page dest bytes
unfolding copy_within
copy_within-At page bytes a b dest h e =
    rw
      (
        le→ltb-false b a (omega arith),
        le→ltb-false (length page) b (omega (arith, h.fits)),
        slice-At page bytes a b h e,
      )
      refl

-- A page on which the bytes behind `low` have moved up, if there are any.
pub record IsShifted (page low high : List ℕ) (start space : ℕ) (next : List ℕ) : Type 0 where
  pub result :
      (if ltb start (start + length high)
        then copy_within page start (start + length high) (start + space)
        else ok page)
      ≡ ok next
  pub same_length : length next ≡ length page
  pub front : (x : List ℕ) → length x ≤ header_size → At page 0 x → At next 0 x
  pub lower : At next header_size low
  pub higher : At next (start + space) high

pub no-bytes : (high : List ℕ) → length high ≡ 0 → high ≡ []
no-bytes [] h = refl
no-bytes (b ∷ high) h = absurd (omega arith)

pub shift-IsShifted :
    (page low high : List ℕ) (start space : ℕ)
    → start ≡ header_size + length low
    → At page header_size (low ++ high)
    → start + space + length high ≤ length page
    → (next : List ℕ) × IsShifted page low high start space next
unfolding take
shift-IsShifted page low high start space e h l =
    elim (Bool-cases (ltb start (start + length high))) [
      | inl t ↦
          let p = put_bytes-IsOverwritten page high (start + space) (omega arith) in
          (
            put_page page (start + space) high,
            record {
              result = rw t (
                  copy_within-At page high start (start + length high) (start + space) stored_high
                    refl
                  ∙ p.result);
              same_length = p.same_length;
              front = λ x k at. p.before 0 x (omega arith) at;
              lower = p.before header_size low (omega arith) (At-left page low high header_size h);
              higher = p.self;
            },
          )
      | inr t ↦ (
        page,
        record {
          result = rw t refl;
          same_length = refl;
          front = λ x k at. at;
          lower = At-left page low high header_size h;
          higher =
              subst (At page (start + space)) (sym (no-bytes high (ground arith)))
                (record { fits = omega arith; found = refl });
        },
      )
    ]
  where
    stored_high : At page start high
    stored_high = subst (λ a. At page a high) (sym e) (At-right page low high header_size h)
