-- ===== src/BTree/LeafChanges.antt =====
-- What an insertion of src/btree.rs makes of a leaf, as a list of entries.
use velocidb.Prelude.{
  ℕ, ◌+◌, ◌%◌, ◌≤◌, ◌≡◌, refl, ap, sym, subst, ◌∙◌, List, ◌∷◌, ◌++◌, some, arith, length, ok, ℤ,
  length-append, le→ltb-false,
}
use velocidb.Wal.{page_size}
use velocidb.BTree.Nodes.{NodeHeader, header_size, u16_mod, IsKey, serialize_header}
use velocidb.BTree.Leaves.{Entries, entry_bytes, insert_offset, find_data_end, insert_entry}
use velocidb.BTree.Layout.{At, At-join, IsOverwritten, put_page, put_bytes-IsOverwritten}
use velocidb.BTree.Fields.{header_bytes, length-header_bytes, deserialize_header-At}
use velocidb.BTree.LeafLoops.{
  entries_bytes, AllEntries, not_above, above, length-entry_bytes, insert_offset-At,
  find_data_end-At,
}
use velocidb.BTree.LeafShifts.{
  IsLeaf, insert_sorted_entry, split-above, entries_bytes-append, AllEntries-append,
  AllEntries-left, length-le-entries_bytes, IsShifted, shift-IsShifted,
}

abbrev pub one_more : NodeHeader → NodeHeader
one_more h = record h { num_keys = (h.num_keys + 1) % u16_mod }

-- A leaf with room for an entry gets it behind the entries whose keys are not above its own:
-- the others stay as they are, in their order, and the header counts one more.
pub insert_entry-IsLeaf :
    (h : NodeHeader) (es : Entries) (page : List ℕ) (key : ℤ) (bytes : List ℕ)
    → IsLeaf h es page
    → IsKey key
    → header_size + (length (entries_bytes es) + (12 + length bytes)) ≤ page_size
    → (next : List ℕ) × (insert_entry page key bytes ≡ ok (some next))
      × IsLeaf (one_more h) (insert_sorted_entry key bytes es) next
unfolding insert_entry insert_sorted_entry serialize_header
insert_entry-IsLeaf h es page key bytes leaf k room = (
  put_page written 0 (header_bytes (one_more h)),
  rw
      (
        deserialize_header-At page h leaf.fits (omega (arith, leaf.whole)) leaf.header,
        ap (λ n. insert_offset n page key header_size) leaf.counted
            ∙ insert_offset-At page header_size es key leaf.sized leaf.stored,
        ap (λ n. find_data_end n page header_size) leaf.counted
            ∙ (find_data_end-At page header_size es leaf.sized leaf.whole leaf.stored ∙ ap ok ends),
        le→ltb-false page_size (start + length high + (12 + length bytes))
            (omega (arith, room, ends)),
        shift.1.result,
        put.result,
        head.result,
      )
      refl,
  record {
    whole = omega (arith, head.same_length, put.same_length, shift.1.same_length, leaf.whole);
    fits = record {
      type_fits = leaf.fits.type_fits;
      keys_fit = omega arith;
      parent_fits = leaf.fits.parent_fits;
    };
    counted = omega (arith, leaf.counted, room, length-le-entries_bytes es, grown);
    header = head.self;
    stored = stored;
    sized = sized;
  },
)
  where
    low : List ℕ
    low = entries_bytes (not_above key es)

    high : List ℕ
    high = entries_bytes (above key es)

    start : ℕ
    start = header_size + length low

    parts : entries_bytes es ≡ low ++ high
    parts =
        ap entries_bytes (sym (split-above key es))
        ∙ entries_bytes-append (not_above key es) (above key es)

    ends : header_size + length (entries_bytes es) ≡ start + length high
    ends = omega (arith, ap length parts, length-append low high)

    shift : (next : List ℕ) × IsShifted page low high start (12 + length bytes) next
    shift =
        shift-IsShifted page low high start (12 + length bytes) refl
          (subst (At page header_size) parts leaf.stored) (omega (arith, room, ends, leaf.whole))

    written : List ℕ
    written = put_page shift.0 start (entry_bytes key bytes)

    put : IsOverwritten shift.0 start (entry_bytes key bytes) written
    put =
        put_bytes-IsOverwritten shift.0 (entry_bytes key bytes) start
          (omega (arith, room, ends, leaf.whole, shift.1.same_length, length-entry_bytes key bytes))

    head :
        IsOverwritten written 0
          (header_bytes (one_more h))
          (put_page written 0 (header_bytes (one_more h)))
    head = put_bytes-IsOverwritten written (header_bytes (one_more h)) 0 (
        omega (
          arith,
          put.same_length,
          leaf.whole,
          shift.1.same_length,
          length-header_bytes (one_more h),
        ))

    grown : length (not_above key es ++ ((key, bytes) ∷ above key es)) ≡ length es + 1
    grown = omega (
      arith,
      length-append (not_above key es) ((key, bytes) ∷ above key es),
      ap length (split-above key es),
      length-append (not_above key es) (above key es),
    )

    after_head :
        (c : ℕ) (x : List ℕ)
        → header_size ≤ c
        → At written c x
        → At (put_page written 0 (header_bytes (one_more h))) c x
    after_head c x l at = head.after c x (omega (arith, length-header_bytes (one_more h))) at

    higher : At written (start + length (entry_bytes key bytes)) high
    higher =
        subst (λ a. At written a high) {x = start + (12 + length bytes)}
          (omega (arith, length-entry_bytes key bytes))
          (put.after (start + (12 + length bytes)) high
            (omega (arith, length-entry_bytes key bytes)) shift.1.higher)

    stored :
        At
          (put_page written 0 (header_bytes (one_more h)))
          header_size
          (entries_bytes (not_above key es ++ ((key, bytes) ∷ above key es)))
    stored =
        subst (At (put_page written 0 (header_bytes (one_more h))) header_size)
          (sym (entries_bytes-append (not_above key es) ((key, bytes) ∷ above key es)))
          (after_head header_size (low ++ (entry_bytes key bytes ++ high)) (omega arith) (
            At-join written low (entry_bytes key bytes ++ high) header_size
              (put.before header_size low (omega arith) shift.1.lower)
              (At-join written (entry_bytes key bytes) high start put.self higher)))

    sized : AllEntries (not_above key es ++ ((key, bytes) ∷ above key es))
    sized =
        let s =
          AllEntries-left (not_above key es) (above key es)
            (subst AllEntries (sym (split-above key es)) leaf.sized) in
        AllEntries-append (not_above key es) ((key, bytes) ∷ above key es) s.0
          (k, omega (arith, room), s.1)
