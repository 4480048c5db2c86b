-- ===== src/BTree/LeafDeletes.antt =====
-- What a deletion of src/btree.rs makes of a leaf, as a list of entries.
use velocidb.Prelude.{
  ℕ, ◌+◌, ◌-◌, ◌%◌, ◌≤◌, ◌≡◌, refl, ap, sym, subst, ◌∙◌, List, [], ◌∷◌, ◌++◌, some, arith, ltb,
  if◌then◌else◌, length, ok, ℤ, int_beq, int_beq_iff, length-append, Bool-cases, inl, inr,
  append_nil,
}
use velocidb.BTree.Nodes.{NodeHeader, header_size, u16_mod, copy_within, serialize_header}
use velocidb.BTree.Leaves.{
  Entries, entry_bytes, delete_offset, find_data_end, remove_entry, delete_entry,
}
use velocidb.BTree.Layout.{
  At, At-left, At-right, At-join, IsOverwritten, put_page, put_bytes-IsOverwritten,
}
use velocidb.BTree.Fields.{header_bytes, length-header_bytes, deserialize_header-At}
use velocidb.BTree.LeafLoops.{
  entries_bytes, AllEntries, lookup_entry, before, behind, entry_place, length-entry_bytes,
  find_data_end-At, delete_offset-At,
}
use velocidb.BTree.LeafShifts.{
  IsLeaf, entries_bytes-append, AllEntries-append, AllEntries-left, copy_within-At, no-bytes,
}

abbrev pub one_less : NodeHeader → NodeHeader
one_less h = record h { num_keys = (h.num_keys + (u16_mod - 1)) % u16_mod }

split-behind :
    (key : ℤ) (bytes : List ℕ) (es : Entries)
    → lookup_entry key es ≡ some bytes
    → es ≡ before key es ++ ((key, bytes) ∷ behind key es)
unfolding lookup_entry before behind
split-behind key bytes [] e = absurd (cc)
split-behind key bytes ((k, b) ∷ es) e = elim (Bool-cases (int_beq k key)) [
  | inl t ↦
      rw (t, before, behind)
        (ap (λ x. (x, b) ∷ es) ((int_beq_iff k key).0 t) ∙ ap (λ x. (key, x) ∷ es) (ground arith))
  | inr t ↦ rw (t, before, behind) (ap (λ l. (k, b) ∷ l) (split-behind key bytes es (ground arith)))
]

-- A page on which the bytes behind a gap have moved down over it, if there are any.
record IsClosed (page low high : List ℕ) (start gap : ℕ) (next : List ℕ) : Type 0 where
  result :
      (if ltb (start + gap) (start + gap + length high)
        then copy_within page (start + gap) (start + gap + length high) start
        else ok page)
      ≡ ok next
  same_length : length next ≡ length page
  joined : At next header_size (low ++ high)
  front : (x : List ℕ) → length x ≤ header_size → At page 0 x → At next 0 x

close-IsClosed :
    (page low gap high : List ℕ) (start size : ℕ)
    → size ≡ length gap
    → start ≡ header_size + length low
    → At page header_size (low ++ (gap ++ high))
    → (next : List ℕ) × IsClosed page low high start size next
close-IsClosed page low gap high start size g e h =
    elim (Bool-cases (ltb (start + size) (start + size + length high))) [
      | inl t ↦
          let p = put_bytes-IsOverwritten page high start (omega (arith, stored_high.fits)) in
          (
            put_page page start high,
            record {
              result = rw t (
                  copy_within-At page high (start + size) (start + size + length high) start
                    stored_high refl
                  ∙ p.result);
              same_length = p.same_length;
              joined =
                  At-join (put_page page start high) low high header_size
                    (p.before header_size low (omega arith) stored_low)
                    (subst (λ a. At (put_page page start high) a high) e p.self);
              front = λ x k at. p.before 0 x (omega arith) at;
            },
          )
      | inr t ↦ (
        page,
        record {
          result = rw t refl;
          same_length = refl;
          joined =
              subst (At page header_size)
                (sym (ap (λ l. low ++ l) (no-bytes high (ground arith)) ∙ append_nil low))
                stored_low;
          front = λ x k at. at;
        },
      )
    ]
  where
    stored_low : At page header_size low
    stored_low = At-left page low (gap ++ high) header_size h

    stored_high : At page (start + size) high
    stored_high =
        subst (λ n. At page (start + n) high) (sym g)
          (At-right page gap high start (
            subst (λ a. At page a (gap ++ high)) (sym e)
              (At-right page low (gap ++ high) header_size h)))

-- The entry of a leaf with the key, the first one, is taken out: the others stay as they are,
-- in their order, and the header counts one less.
pub delete_entry-IsLeaf :
    (h : NodeHeader) (es : Entries) (page : List ℕ) (key : ℤ) (bytes : List ℕ)
    → IsLeaf h es page
    → lookup_entry key es ≡ some bytes
    → (next : List ℕ) × (delete_entry page key ≡ ok (some (one_less h, next)))
      × IsLeaf (one_less h) (before key es ++ behind key es) next
unfolding delete_entry remove_entry serialize_header entry_place
delete_entry-IsLeaf h es page key bytes leaf e = (
  put_page closed.0 0 (header_bytes (one_less h)),
  rw
      (
        deserialize_header-At page h leaf.fits (omega (arith, leaf.whole)) leaf.header,
        ap (λ n. delete_offset n page key header_size) leaf.counted
            ∙ delete_offset-At page header_size es key leaf.sized leaf.stored,
        e,
        ap (λ n. find_data_end n page header_size) leaf.counted
            ∙ (find_data_end-At page header_size es leaf.sized leaf.whole leaf.stored ∙ ap ok ends),
        closed.1.result,
        head.result,
      )
      refl,
  record {
    whole = omega (arith, head.same_length, closed.1.same_length, leaf.whole);
    fits = record {
      type_fits = leaf.fits.type_fits;
      keys_fit = omega arith;
      parent_fits = leaf.fits.parent_fits;
    };
    counted = omega (
      arith,
      leaf.counted,
      leaf.fits.keys_fit,
      ap length split,
      length-append (before key es) ((key, bytes) ∷ behind key es),
      length-append (before key es) (behind key es),
    );
    header = head.self;
    stored =
        subst (At (put_page closed.0 0 (header_bytes (one_less h))) header_size)
          (sym (entries_bytes-append (before key es) (behind key es)))
          (head.after header_size (low ++ high) (omega (arith, length-header_bytes (one_less h)))
            closed.1.joined);
    sized =
        let s =
          AllEntries-left (before key es) ((key, bytes) ∷ behind key es)
            (subst AllEntries split leaf.sized) in
        AllEntries-append (before key es) (behind key es) s.0 s.1.2;
  },
)
  where
    split : es ≡ before key es ++ ((key, bytes) ∷ behind key es)
    split = split-behind key bytes es e

    low : List ℕ
    low = entries_bytes (before key es)

    high : List ℕ
    high = entries_bytes (behind key es)

    start : ℕ
    start = header_size + length low

    parts : entries_bytes es ≡ low ++ (entry_bytes key bytes ++ high)
    parts =
        ap entries_bytes split ∙ entries_bytes-append (before key es) ((key, bytes) ∷ behind key es)

    ends : header_size + length (entries_bytes es) ≡ start + (12 + length bytes) + length high
    ends = omega (
      arith,
      length-entry_bytes key bytes,
      ap length parts,
      length-append low (entry_bytes key bytes ++ high),
      length-append (entry_bytes key bytes) high,
    )

    closed : (next : List ℕ) × IsClosed page low high start (12 + length bytes) next
    closed =
        close-IsClosed page low (entry_bytes key bytes) high start (12 + length bytes)
          (sym (length-entry_bytes key bytes)) refl (subst (At page header_size) parts leaf.stored)

    head :
        IsOverwritten closed.0 0
          (header_bytes (one_less h))
          (put_page closed.0 0 (header_bytes (one_less h)))
    head =
        put_bytes-IsOverwritten closed.0 (header_bytes (one_less h)) 0
          (omega (arith, leaf.whole, closed.1.same_length, length-header_bytes (one_less h)))
