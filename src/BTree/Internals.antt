-- ===== src/BTree/Internals.antt =====
-- The loops of src/btree.rs over the keys and children of an internal node, and the changes to its
-- page: `[child 8]`, then `[key 8][child 8]` for each key.
use velocidb.Prelude.{
  ℕ, zero, suc, ◌+◌, ◌-◌, ◌*◌, ◌%◌, Bool, true, false, List, [], ◌∷◌, ◌++◌, Option, none, some, ltb,
  nat_beq, if◌then◌else◌, length, Result, ok, err, panic, corruption, storage_error, ℤ, pos,
  int_beq, int_ltb,
}
use velocidb.Prelude.Words.{to_le_bytes}
use velocidb.Prelude.Actions.{then_result}
use velocidb.Wal.{page_size}
use velocidb.BTree.Nodes.{
  NodeHeader, header_size, u16_mod, put_bytes, copy_within, key_bytes, key_at, u64_at,
  serialize_header,
}

-- A key and the child behind it.
unfoldable pub pair_at : List ℕ → ℕ → Result (ℤ × ℕ)
pair_at page offset =
    then_result (key_at page offset)
      λ key. then_result (u64_at page (offset + 8)) λ child. ok (key, child)

-- The loop of `find_leaf` in a node, with the child that it has reached.
unfoldable pub find_child : ℕ → List ℕ → ℤ → ℕ → ℕ → Result ℕ
find_child zero page key offset child = ok child
find_child (suc count) page key offset child =
    then_result (pair_at page offset) λ (stored_key, next_child).
      if int_ltb key stored_key
      then ok child
      else find_child count page key (offset + 16) next_child

-- The keys and the children behind them.
unfoldable pub parse_pairs : ℕ → List ℕ → ℕ → Result (List ℤ × List ℕ)
parse_pairs zero page offset = ok ([], [])
parse_pairs (suc count) page offset = then_result (pair_at page offset) λ (key, child).
    then_result (parse_pairs count page (offset + 16))
      λ (keys, children). ok (key ∷ keys, child ∷ children)

unfoldable pub parse_internal_node : List ℕ → NodeHeader → Result (List ℤ × List ℕ)
parse_internal_node page header = then_result (u64_at page header_size) λ first_child.
    then_result (parse_pairs header.num_keys page (header_size + 8))
      λ (keys, children). ok (keys, first_child ∷ children)

-- The loop over the zipped keys and children.
unfoldable pub put_pairs : List ℕ → ℕ → List ℤ → List ℕ → Result (List ℕ)
put_pairs page offset [] children = ok page
put_pairs page offset (key ∷ keys) [] = ok page
put_pairs page offset (key ∷ keys) (child ∷ children) =
    then_result (put_bytes page offset (key_bytes key ++ to_le_bytes 8 child))
      λ page. put_pairs page (offset + 16) keys children

unfoldable pub put_node : List ℕ → List ℤ → List ℕ → Result (List ℕ)
put_node page keys [] = panic
put_node page keys (first_child ∷ children) =
    then_result (put_bytes page header_size (to_le_bytes 8 first_child))
      λ page. put_pairs page (header_size + 8) keys children

unfoldable pub write_internal_body : List ℕ → List ℤ → List ℕ → Result (List ℕ)
write_internal_body page keys children =
    if nat_beq (length children) (length keys + 1)
    then (if ltb page_size (header_size + (8 + length keys * 16))
        then err storage_error
        else put_node page keys children)
    else err corruption

-- The loop of `find_sibling_info`, with the child to the left.
unfoldable pub find_sibling : ℕ → List ℕ → ℕ → ℕ → ℕ → Result (ℕ × ℤ × Bool)
find_sibling zero page child_id offset prev_child = ok (0, pos 0, false)
find_sibling (suc count) page child_id offset prev_child =
    then_result (pair_at page offset) λ (key, next_child).
      if nat_beq next_child child_id
      then ok (prev_child, key, true)
      else find_sibling count page child_id (offset + 16) next_child

-- The sibling, the key between, and whether the sibling is to the left.
unfoldable pub find_sibling_info : List ℕ → NodeHeader → ℕ → Result (ℕ × ℤ × Bool)
find_sibling_info page header child_id = then_result (u64_at page header_size) λ first_child.
    if nat_beq first_child child_id
    then then_result (pair_at page (header_size + 8)) (λ (key, child). ok (child, key, false))
    else find_sibling header.num_keys page child_id (header_size + 8) first_child

-- The loop of `update_parent_key`.
unfoldable pub replace_key : ℕ → List ℕ → ℕ → ℤ → ℤ → Result (List ℕ)
replace_key zero page offset old_key new_key = ok page
replace_key (suc count) page offset old_key new_key = then_result (key_at page offset) λ current.
    if int_beq current old_key
    then put_bytes page offset (key_bytes new_key)
    else replace_key count page (offset + 16) old_key new_key

-- The loop of `insert_into_internal`: how many keys are not above the new one.
unfoldable pub insert_index : ℕ → List ℕ → ℤ → ℕ → Result ℕ
insert_index zero page key offset = ok 0
insert_index (suc count) page key offset = then_result (key_at page offset) λ stored_key.
    if int_ltb key stored_key
    then ok 0
    else then_result (insert_index count page key (offset + 16)) (λ i. ok (suc i))

-- The end of `insert_into_internal`, when the node has room.
unfoldable pub insert_pair : List ℕ → NodeHeader → ℕ → ℤ → ℕ → Result (List ℕ)
insert_pair page header index key right_page =
    let start = header_size + (8 + index * 16) in
    let end_offset = header_size + (8 + header.num_keys * 16) in
    then_result
      (if ltb start end_offset then copy_within page start end_offset (start + 16) else ok page)
      λ moved.
        then_result (put_bytes moved start (key_bytes key ++ to_le_bytes 8 right_page)) λ written.
          serialize_header (record header { num_keys = (header.num_keys + 1) % u16_mod }) written

-- The loop of `remove_child_from_parent`: the offset of the key before the child.
unfoldable pub child_offset : ℕ → List ℕ → ℕ → ℕ → Result (Option ℕ)
child_offset zero page child_id offset = ok none
child_offset (suc count) page child_id offset = then_result (u64_at page (offset + 8)) λ next_child.
    if nat_beq next_child child_id
    then ok (some offset)
    else child_offset count page child_id (offset + 16)

-- Moves what follows 16 bytes at `start` over them, and counts a key less.
unfoldable pub remove_pair : List ℕ → NodeHeader → ℕ → Result (NodeHeader × List ℕ)
remove_pair page header start =
    let end_offset = header_size + (8 + header.num_keys * 16) in
    let fewer = record header { num_keys = (header.num_keys + (u16_mod - 1)) % u16_mod } in
    then_result (copy_within page (start + 16) end_offset start)
      λ moved. then_result (serialize_header fewer moved) λ page. ok (fewer, page)

-- `Vec::insert` at an index, and the loop of `split_internal_node` that finds it.
unfoldable pub insert_at {ℓ} : {A : Type ℓ} → ℕ → A → List A → List A
insert_at zero a xs = a ∷ xs
insert_at (suc i) a [] = a ∷ []
insert_at (suc i) a (x ∷ xs) = x ∷ insert_at i a xs

unfoldable pub keys_below : List ℤ → ℤ → ℕ
keys_below [] key = 0
keys_below (k ∷ keys) key = let rest = keys_below keys key in if int_ltb k key then suc rest else 0
