-- ===== src/BTree/Deleting.antt =====
-- Deletion from a tree of src/btree.rs, with the redistribution and the merging of nodes.
use velocidb.Prelude.{
  ℕ, zero, suc, ◌+◌, ◌-◌, ◌*◌, ◌%◌, Bool, true, false, not, ◌∷◌, ◌++◌, none, some, nat_beq, ltb,
  ◌&&◌, if◌then◌else◌, ℤ, corruption, storage_error, length, take, reverse,
}
use velocidb.Prelude.Actions.{Action, lift, return, stop, fail, ◌>>=◌, ◌>>◌}
use velocidb.Prelude.Words.{u64_mod}
use velocidb.Wal.{page_size}
use velocidb.Pager.State.{Page}
use velocidb.BTree.Nodes.{
  NodeHeader, header_size, u32_mod, min_keys, key_at, u64_at, serialize_header, deserialize_header,
}
use velocidb.BTree.Leaves.{leaf_entries, remove_entry, delete_entry, read_entry_at_index}
use velocidb.BTree.Internals.{
  parse_internal_node, find_sibling_info, replace_key, child_offset, remove_pair,
}
use velocidb.BTree.Trees.{PageStore, Tree, on_pages, set_root, find_leaf}
use velocidb.BTree.Inserting.{set_parent_pointer, set_parent_pointers}
use velocidb.BTree.Borrowing.{add_entry, append_entries, internal_page, move_child}

module _ (S : PageStore) where
  abbrev read_node : ℕ → Action (Tree S) (NodeHeader × Page)
  read_node page_id = do
    page ← on_pages S (S.read_page page_id)
    header ← lift (deserialize_header page)
    return (header, page)

  unfoldable pub update_parent_key : ℕ → ℤ → ℤ → Action (Tree S) (Unit {0})
  update_parent_key parent_id old_key new_key = do
    (header, page) ← read_node parent_id
    page ← lift (replace_key header.num_keys page (header_size + 8) old_key new_key)
    on_pages S (S.write_page parent_id page)

  -- The last part of `redistribute_from_sibling`: the separator becomes the first key of a leaf.
  unfoldable pub update_separator : ℕ → ℕ → ℤ → Action (Tree S) (Unit {0})
  update_separator page_id parent_id separator_key = do
    (header, page) ← read_node page_id
    if ltb 0 header.num_keys
        then (do
          new_first ← lift (key_at page header_size)
          update_parent_key parent_id separator_key new_first)
        else return tt

  unfoldable pub redistribute_from_sibling : ℕ → ℕ → ℕ → ℤ → Bool → Action (Tree S) (Unit {0})
  redistribute_from_sibling page_id sibling_id parent_id separator_key sibling_is_left = do
    (sibling_header, sibling) ← read_node sibling_id
    let index = if sibling_is_left then (sibling_header.num_keys + (u64_mod - 1)) % u64_mod else 0
    (stolen_key, stolen_bytes, start) ← lift (read_entry_at_index index sibling header_size)
    (fewer, smaller) ←
        lift (remove_entry true sibling sibling_header start (12 + length stolen_bytes))
    on_pages S (S.write_page sibling_id smaller)
    page ← on_pages S (S.read_page page_id)
    larger ← lift (add_entry sibling_is_left page stolen_key stolen_bytes)
    on_pages S (S.write_page page_id larger)
    update_separator (if sibling_is_left then page_id else sibling_id) parent_id separator_key

  unfoldable pub redistribute_internal : ℕ → ℕ → ℕ → ℤ → Bool → Action (Tree S) (Unit {0})
  redistribute_internal page_id sibling_id parent_id separator_key sibling_is_left = do
    (sibling_header, sibling) ← read_node sibling_id
    sibling_parts ← lift (parse_internal_node sibling sibling_header)
    (node_header, node) ← read_node page_id
    node_parts ← lift (parse_internal_node node node_header)
    moved ← lift (move_child sibling_is_left sibling_parts node_parts separator_key)
    new_sibling ← lift (internal_page sibling_header moved.sibling_keys moved.sibling_children)
    on_pages S (S.write_page sibling_id new_sibling)
    new_node ← lift (internal_page node_header moved.node_keys moved.node_children)
    on_pages S (S.write_page page_id new_node)
    set_parent_pointer S moved.child (page_id % u32_mod)
    update_parent_key parent_id separator_key moved.separator

  -- `remove` is `remove_child_from_parent`, which calls this in turn.
  unfoldable pub merge_internal :
      (ℕ → ℕ → Action (Tree S) (Unit {0})) → ℕ → ℕ → ℕ → ℤ → Bool → Action (Tree S) (Unit {0})
  merge_internal remove page_id sibling_id parent_id separator_key sibling_is_left = do
    let left_id = if sibling_is_left then sibling_id else page_id
    let right_id = if sibling_is_left then page_id else sibling_id
    (left_header, left) ← read_node left_id
    (left_keys, left_children) ← lift (parse_internal_node left left_header)
    (right_header, right) ← read_node right_id
    (right_keys, right_children) ← lift (parse_internal_node right right_header)
    let keys = left_keys ++ (separator_key ∷ right_keys)
    let children = left_children ++ right_children
    if ltb page_size (header_size + (8 + length keys * 16)) then fail storage_error else (do
      set_parent_pointers S (take (right_header.num_keys + 1) (reverse children))
          (left_id % u32_mod)
      page ← lift (internal_page left_header keys children)
      on_pages S (S.write_page left_id page)
      remove parent_id right_id)

  unfoldable pub handle_internal_underflow :
      (ℕ → ℕ → Action (Tree S) (Unit {0})) → ℕ → ℕ → Action (Tree S) (Unit {0})
  handle_internal_underflow remove page_id root_page = do
    (header, page) ← read_node page_id
    if (if nat_beq header.parent 0 then true else nat_beq page_id root_page) then return tt else (do
      (parent_header, parent_page) ← read_node header.parent
      (sibling_id, separator_key, sibling_is_left) ←
          lift (find_sibling_info parent_page parent_header page_id)
      if nat_beq sibling_id 0 then fail corruption else (do
        (sibling_header, sibling) ← read_node sibling_id
        if ltb min_keys sibling_header.num_keys
            then redistribute_internal page_id sibling_id header.parent separator_key
                sibling_is_left
            else merge_internal remove page_id sibling_id header.parent separator_key
                sibling_is_left))

  -- The root without keys gives way to its only child.
  abbrev promote_child : Page → Action (Tree S) (Unit {0})
  promote_child page = do new_root ← lift (u64_at page header_size); set_root S new_root

  -- The first child is removed without a look at the underflow of the parent.
  unfoldable pub remove_child_from_parent : ℕ → ℕ → ℕ → ℕ → Action (Tree S) (Unit {0})
  remove_child_from_parent zero root_page parent_id child_id = stop
  remove_child_from_parent (suc fuel) root_page parent_id child_id = do
    (header, page) ← read_node parent_id
    first_child ← lift (u64_at page header_size)
    if nat_beq first_child child_id
        then (do
          (fewer, page) ← lift (remove_pair page header header_size)
          on_pages S (S.write_page parent_id page)
          if nat_beq parent_id root_page && nat_beq fewer.num_keys 0
              then promote_child page
              else return tt)
        else (do
          found ← lift (child_offset header.num_keys page child_id (header_size + 8))
          elim found [
            | none ↦ return tt
            | some offset ↦ (do
              (fewer, page) ← lift (remove_pair page header offset)
              on_pages S (S.write_page parent_id page)
              if nat_beq parent_id root_page && nat_beq fewer.num_keys 0
                  then promote_child page
                  else if not (nat_beq parent_id root_page) && ltb fewer.num_keys min_keys
                  then handle_internal_underflow (remove_child_from_parent fuel root_page) parent_id
                      root_page
                  else return tt)
          ])

  unfoldable pub merge_leaves : ℕ → ℕ → ℕ → ℕ → ℕ → Bool → Action (Tree S) (Unit {0})
  merge_leaves fuel page_id sibling_id parent_id root_page sibling_is_left = do
    let left_id = if sibling_is_left then sibling_id else page_id
    let right_id = if sibling_is_left then page_id else sibling_id
    (right_header, right) ← read_node right_id
    right_entries ← lift (leaf_entries right_header.num_keys right header_size)
    (left_header, left) ← read_node left_id
    (header, page) ← lift (append_entries left_header left right_entries)
    page ← lift (serialize_header header page)
    on_pages S (S.write_page left_id page)
    remove_child_from_parent fuel root_page parent_id right_id

  unfoldable pub handle_leaf_underflow : ℕ → ℕ → ℕ → Action (Tree S) (Unit {0})
  handle_leaf_underflow fuel page_id root_page = do
    (header, page) ← read_node page_id
    if nat_beq header.parent 0 then return tt else (do
      (parent_header, parent_page) ← read_node header.parent
      (sibling_id, separator_key, sibling_is_left) ←
          lift (find_sibling_info parent_page parent_header page_id)
      if nat_beq sibling_id 0 then fail corruption else (do
        (sibling_header, sibling) ← read_node sibling_id
        if ltb min_keys sibling_header.num_keys
            then redistribute_from_sibling page_id sibling_id header.parent separator_key
                sibling_is_left
            else merge_leaves fuel page_id sibling_id header.parent root_page sibling_is_left))

  unfoldable pub delete : ℕ → ℤ → Action (Tree S) Bool
  delete fuel key t =
      (do
        leaf_page_id ← find_leaf S fuel t.root_page key
        page ← on_pages S (S.read_page leaf_page_id)
        deleted ← lift (delete_entry page key)
        elim deleted [
          | none ↦ return false
          | some (header, smaller) ↦ (do
            on_pages S (S.write_page leaf_page_id smaller)
            if not (nat_beq leaf_page_id t.root_page) && ltb header.num_keys min_keys
                then handle_leaf_underflow fuel leaf_page_id t.root_page
                else return tt
            return true)
        ])
        t
