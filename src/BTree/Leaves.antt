-- ===== src/BTree/Leaves.antt =====
-- The loops of src/btree.rs over the entries of a leaf, and the changes to its page.
use velocidb.Prelude.{
  ℕ, zero, suc, ◌+◌, ◌-◌, ◌%◌, Bool, true, false, List, [], ◌∷◌, ◌++◌, Option, none, some, ltb,
  if◌then◌else◌, length, take, drop, Result, ok, err, corruption, ℤ, int_beq, int_ltb,
}
use velocidb.Prelude.Words.{to_le_bytes, from_le_bytes}
use velocidb.Prelude.Actions.{then_result}
use velocidb.Wal.{page_size}
use velocidb.BTree.Nodes.{
  NodeHeader, header_size, u16_mod, bytes_at, put_bytes, copy_within, key_bytes, key_at, u32_at,
  serialize_header, deserialize_header,
}

abbrev pub Entries : Type 0
Entries = List (ℤ × List ℕ)

-- `[key 8][size 4][data]`.
abbrev pub entry_bytes : ℤ → List ℕ → List ℕ
entry_bytes key bytes = key_bytes key ++ (to_le_bytes 4 (length bytes) ++ bytes)

-- The key of the entry at an offset and the size of its data.
unfoldable pub entry_at : List ℕ → ℕ → Result (ℤ × ℕ)
entry_at page offset =
    then_result (key_at page offset)
      λ key. then_result (u32_at page (offset + 8)) λ size. ok (key, size)

-- The loop that collects entries, in `split_leaf_node` and `merge_leaves`.
unfoldable pub leaf_entries : ℕ → List ℕ → ℕ → Result Entries
leaf_entries zero page offset = ok []
leaf_entries (suc count) page offset = then_result (entry_at page offset) λ (key, size).
    then_result (bytes_at page (offset + 12) size) λ bytes.
      then_result (leaf_entries count page (offset + (12 + size))) λ rest. ok ((key, bytes) ∷ rest)

-- The loop of `search`: the data of the first entry with the key.
unfoldable pub find_entry : ℕ → List ℕ → ℤ → ℕ → Result (Option (List ℕ))
find_entry zero page key offset = ok none
find_entry (suc count) page key offset = then_result (entry_at page offset) λ (stored_key, size).
    if int_beq stored_key key
    then then_result (bytes_at page (offset + 12) size) (λ bytes. ok (some bytes))
    else find_entry count page key (offset + (12 + size))

-- The loop of `insert_into_leaf`.
unfoldable pub insert_offset : ℕ → List ℕ → ℤ → ℕ → Result ℕ
insert_offset zero page key offset = ok offset
insert_offset (suc count) page key offset = then_result (entry_at page offset) λ (stored_key, size).
    if int_ltb key stored_key
    then ok offset
    else insert_offset count page key (offset + (12 + size))

-- The loop of `delete`: where the first entry with the key starts, and its size.
unfoldable pub delete_offset : ℕ → List ℕ → ℤ → ℕ → Result (Option (ℕ × ℕ))
delete_offset zero page key offset = ok none
delete_offset (suc count) page key offset = then_result (entry_at page offset) λ (stored_key, size).
    if int_beq stored_key key
    then ok (some (offset, 12 + size))
    else delete_offset count page key (offset + (12 + size))

-- `data.get(..)` gives no panic.
unfoldable pub find_data_end : ℕ → List ℕ → ℕ → Result ℕ
find_data_end zero page offset = ok offset
find_data_end (suc count) page offset =
    let size = from_le_bytes (take 4 (drop (offset + 8) page)) in
    let rest = find_data_end count page (offset + (12 + size)) in
    if ltb page_size (offset + 12)
    then err corruption
    else if ltb (length page) (offset + 12)
    then err corruption
    else if ltb page_size (offset + (12 + size))
    then err corruption
    else rest

-- Of `insert_into_leaf`: the page with the entry, or `none` when the leaf must be split.
unfoldable pub insert_entry : List ℕ → ℤ → List ℕ → Result (Option (List ℕ))
insert_entry page key bytes = then_result (deserialize_header page) λ header.
    then_result (insert_offset header.num_keys page key header_size) λ start.
      then_result (find_data_end header.num_keys page header_size) λ end_offset.
        if ltb page_size (end_offset + (12 + length bytes))
        then ok none
        else then_result
            (if ltb start end_offset
              then copy_within page start end_offset (start + (12 + length bytes))
              else ok page)
            λ moved. then_result (put_bytes moved start (entry_bytes key bytes)) λ written.
              then_result
                (serialize_header (record header { num_keys = (header.num_keys + 1) % u16_mod })
                  written)
                λ page. ok (some page)

-- Takes the entry at `start` out of a leaf, as `delete` and the theft of an entry do; `always` says
-- whether the bytes behind it are moved also when there are none.
unfoldable pub remove_entry : Bool → List ℕ → NodeHeader → ℕ → ℕ → Result (NodeHeader × List ℕ)
remove_entry always page header start size =
    then_result (find_data_end header.num_keys page header_size) λ end_offset.
      let fewer = record header { num_keys = (header.num_keys + (u16_mod - 1)) % u16_mod } in
      then_result
        (if (if always then true else ltb (start + size) end_offset)
          then copy_within page (start + size) end_offset start
          else ok page)
        λ moved. then_result (serialize_header fewer moved) λ page. ok (fewer, page)

-- Of `delete`: the header and the page without the key's first entry.
unfoldable pub delete_entry : List ℕ → ℤ → Result (Option (NodeHeader × List ℕ))
delete_entry page key = then_result (deserialize_header page) λ header.
    then_result (delete_offset header.num_keys page key header_size) λ found. elim found [
      | none ↦ ok none
      | some (start, size) ↦
          then_result (remove_entry false page header start size) λ r. ok (some r)
    ]

-- `read_entry_at_index`: the key, the data and the offset of an entry.
unfoldable pub read_entry_at_index : ℕ → List ℕ → ℕ → Result (ℤ × List ℕ × ℕ)
read_entry_at_index zero page offset =
    then_result (entry_at page offset)
      λ (key, size). then_result (bytes_at page (offset + 12) size) λ bytes. ok (key, bytes, offset)
read_entry_at_index (suc index) page offset =
    then_result (entry_at page offset)
      λ (key, size). read_entry_at_index index page (offset + (12 + size))

-- The loop that writes entries one behind the other, in `split_leaf_node`.
unfoldable pub put_entries : List ℕ → ℕ → Entries → Result (List ℕ)
put_entries page offset [] = ok page
put_entries page offset ((key, bytes) ∷ entries) =
    then_result (put_bytes page offset (entry_bytes key bytes))
      λ page. put_entries page (offset + (12 + length bytes)) entries
