-- ===== src/BTree/Borrowing.antt =====
-- What redistribution and merging in src/btree.rs do within a page.
use velocidb.Prelude.{
  ℕ, ◌+◌, ◌%◌, Bool, true, false, List, [], ◌∷◌, ◌++◌, ltb, if◌then◌else◌, ℤ, Result, ok, err,
  panic, corruption, storage_error, length, reverse,
}
use velocidb.Prelude.Actions.{then_result}
use velocidb.Wal.{page_size}
use velocidb.Pager.State.{Page}
use velocidb.BTree.Nodes.{
  NodeHeader, header_size, u16_mod, copy_within, put_bytes, serialize_header, deserialize_header,
}
use velocidb.BTree.Leaves.{Entries, entry_bytes, find_data_end}
use velocidb.BTree.Internals.{write_internal_body}
use velocidb.BTree.Inserting.{build_page}

abbrev more_keys : NodeHeader → NodeHeader
more_keys header = record header { num_keys = (header.num_keys + 1) % u16_mod }

-- Of `redistribute_from_sibling`: the page with the stolen entry in front or behind.
unfoldable pub add_entry : Bool → List ℕ → ℤ → List ℕ → Result (List ℕ)
add_entry in_front page key bytes = then_result (deserialize_header page) λ header.
    then_result (find_data_end header.num_keys page header_size) λ end_offset.
      let size = 12 + length bytes in
      if ltb page_size (end_offset + size)
      then err storage_error
      else then_result
          (if in_front
            then then_result (copy_within page header_size end_offset (header_size + size))
                (λ moved. put_bytes moved header_size (entry_bytes key bytes))
            else put_bytes page end_offset (entry_bytes key bytes))
          λ page. serialize_header (more_keys header) page

-- The loop of `merge_leaves` over the right page's entries.
unfoldable pub append_entries : NodeHeader → List ℕ → Entries → Result (NodeHeader × List ℕ)
append_entries header page [] = ok (header, page)
append_entries header page ((key, bytes) ∷ entries) =
    then_result (find_data_end header.num_keys page header_size) λ end_offset.
      if ltb page_size (end_offset + (12 + length bytes))
      then err storage_error
      else then_result (put_bytes page end_offset (entry_bytes key bytes))
          λ page. append_entries (more_keys header) page entries

-- A page of an internal node, through `write_internal_body`.
unfoldable pub internal_page : NodeHeader → List ℤ → List ℕ → Result Page
internal_page header keys children =
    build_page (record header { num_keys = length keys % u16_mod })
      λ page. write_internal_body page keys children

-- `Vec::pop`, with its error.
abbrev pub pop {ℓ} : {A : Type ℓ} → List A → Result (List A × A)
pop xs = elim (reverse xs) [ [] ↦ err corruption | x ∷ rest ↦ ok (reverse rest, x) ]

-- `Vec::remove(0)`.
abbrev pub pop_front {ℓ} : {A : Type ℓ} → List A → Result (List A × A)
pop_front [] = panic
pop_front (x ∷ xs) = ok (xs, x)

-- Keys and children of the sibling and of the node after a redistribution, the key that goes up and
-- the child that moves.
pub record Moved : Type 0 where
  pub sibling_keys : List ℤ
  pub sibling_children : List ℕ
  pub node_keys : List ℤ
  pub node_children : List ℕ
  pub separator : ℤ
  pub child : ℕ

unfoldable pub move_child : Bool → List ℤ × List ℕ → List ℤ × List ℕ → ℤ → Result Moved
move_child true (sibling_keys, sibling_children) (keys, children) separator =
    then_result (pop sibling_children) λ (sibling_children, child).
      then_result (pop sibling_keys) λ (sibling_keys, key). ok (record {
        sibling_keys = sibling_keys;
        sibling_children = sibling_children;
        node_keys = separator ∷ keys;
        node_children = child ∷ children;
        separator = key;
        child = child;
      })
move_child false (sibling_keys, sibling_children) (keys, children) separator =
    then_result (pop_front sibling_children) λ (sibling_children, child).
      then_result (pop_front sibling_keys) λ (sibling_keys, key). ok (record {
        sibling_keys = sibling_keys;
        sibling_children = sibling_children;
        node_keys = keys ++ (separator ∷ []);
        node_children = children ++ (child ∷ []);
        separator = key;
        child = child;
      })
