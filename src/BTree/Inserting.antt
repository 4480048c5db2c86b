-- ===== src/BTree/Inserting.antt =====
-- Insertion into a tree of src/btree.rs, with the splits of leaves and of internal nodes.
use velocidb.Prelude.{
  ℕ, zero, suc, ◌+◌, ◌/◌, ◌%◌, List, [], ◌∷◌, Option, none, some, nat_beq, leb, if◌then◌else◌,
  String, ℤ, int_ltb, Result, ok, panic, length, take, drop,
}
use velocidb.Prelude.Actions.{Action, lift, return, stop, then_result, ◌>>=◌, ◌>>◌}
use velocidb.Types.{Value}
use velocidb.Pager.State.{Page, new_page}
use velocidb.BTree.Nodes.{
  NodeHeader, header_size, internal_type, leaf_type, u16_mod, u32_mod, btree_order, new_header,
  serialize_header, deserialize_header,
}
use velocidb.BTree.Rows.{serialize_row}
use velocidb.BTree.Leaves.{Entries, leaf_entries, insert_entry, put_entries}
use velocidb.BTree.Internals.{
  parse_internal_node, put_node, insert_index, insert_pair, insert_at, keys_below,
}
use velocidb.BTree.Trees.{PageStore, Tree, on_pages, set_root, find_leaf}

-- A page with a header and what `fill` puts behind it.
abbrev pub build_page : NodeHeader → (List ℕ → Result (List ℕ)) → Result Page
build_page header fill = then_result (serialize_header header new_page) fill

-- A page of entries, as `split_leaf_node` builds it: the entries first, the header last.
unfoldable pub leaf_page : NodeHeader → Entries → Result Page
leaf_page header entries =
    then_result (put_entries new_page header_size entries)
      (serialize_header (record header { num_keys = length entries % u16_mod }))

unfoldable pub node_page : NodeHeader → List ℤ → List ℕ → Result Page
node_page header keys children =
    build_page (record header { num_keys = length keys % u16_mod })
      λ page. put_node page keys children

-- `entries[i].0` and `keys[i]`.
abbrev pub key_of_entry : Entries → Result ℤ
key_of_entry [] = panic
key_of_entry ((key, bytes) ∷ entries) = ok key

abbrev pub first_of : List ℤ → Result ℤ
first_of [] = panic
first_of (k ∷ ks) = ok k

abbrev pub split_index : Entries → ℕ
split_index entries = if nat_beq (length entries) 1 then 1 else length entries / 2

module _ (S : PageStore) where
  unfoldable pub set_parent_pointer : ℕ → ℕ → Action (Tree S) (Unit {0})
  set_parent_pointer page_id new_parent = do
    page ← on_pages S (S.read_page page_id)
    header ← lift (deserialize_header page)
    if nat_beq header.parent new_parent then return tt else (do
      page ← lift (serialize_header (record header { parent = new_parent }) page)
      on_pages S (S.write_page page_id page))

  unfoldable pub create_new_root : ℕ → ℕ → ℤ → Action (Tree S) ℕ
  create_new_root left_page right_page split_key = do
    root_page_id ← on_pages S S.allocate_page
    root ←
        lift (node_page (new_header internal_type) (split_key ∷ []) (left_page ∷ (right_page ∷ [])))
    on_pages S (S.write_page root_page_id root)
    set_parent_pointer left_page (root_page_id % u32_mod)
    set_parent_pointer right_page (root_page_id % u32_mod)
    return root_page_id

  -- Of `for &child_id in right_children`.
  unfoldable pub set_parent_pointers : List ℕ → ℕ → Action (Tree S) (Unit {0})
  set_parent_pointers [] parent = return tt
  set_parent_pointers (child ∷ children) parent = do
    set_parent_pointer child parent
    set_parent_pointers children parent

  -- `parent` is `insert_into_parent`, which calls this in turn.
  unfoldable pub split_internal_node :
      (ℕ → ℕ → ℤ → Action (Tree S) (Option ℕ)) → ℕ → ℕ → ℤ → Action (Tree S) (Option ℕ)
  split_internal_node parent page_id right_page key = do
    page ← on_pages S (S.read_page page_id)
    header ← lift (deserialize_header page)
    (old_keys, old_children) ← lift (parse_internal_node page header)
    let index = keys_below old_keys key
    let keys = insert_at index key old_keys
    let children = insert_at (suc index) right_page old_children
    let split = length keys / 2
    promoted_key ← lift (first_of (drop split keys))
    sibling_page_id ← on_pages S S.allocate_page
    sibling ←
        lift
          (node_page (new_header internal_type) (drop (suc split) keys) (drop (suc split) children))
    set_parent_pointers (drop (suc split) children) (sibling_page_id % u32_mod)
    on_pages S (S.write_page sibling_page_id sibling)
    left ← lift (node_page header (take split keys) (take (suc split) children))
    on_pages S (S.write_page page_id left)
    parent page_id sibling_page_id promoted_key

  unfoldable pub insert_into_internal :
      (ℕ → ℕ → ℤ → Action (Tree S) (Option ℕ)) → ℕ → ℕ → ℤ → Action (Tree S) (Option ℕ)
  insert_into_internal parent page_id right_page key = do
    set_parent_pointer right_page (page_id % u32_mod)
    page ← on_pages S (S.read_page page_id)
    header ← lift (deserialize_header page)
    index ← lift (insert_index header.num_keys page key (header_size + 8))
    if leb btree_order header.num_keys
        then split_internal_node parent page_id right_page key
        else (do
          page ← lift (insert_pair page header index key right_page)
          on_pages S (S.write_page page_id page)
          return none)

  unfoldable pub insert_into_parent : ℕ → ℕ → ℕ → ℤ → Action (Tree S) (Option ℕ)
  insert_into_parent zero left_page right_page split_key = stop
  insert_into_parent (suc fuel) left_page right_page split_key = do
    page ← on_pages S (S.read_page left_page)
    header ← lift (deserialize_header page)
    if nat_beq header.parent 0
        then (do root ← create_new_root left_page right_page split_key; return (some root))
        else insert_into_internal (insert_into_parent fuel) header.parent right_page split_key

  unfoldable pub split_leaf_node : ℕ → Action (Tree S) (ℕ × ℤ)
  split_leaf_node page_id = do
    page ← on_pages S (S.read_page page_id)
    header ← lift (deserialize_header page)
    entries ← lift (leaf_entries header.num_keys page header_size)
    let split = split_index entries
    split_key ← lift (key_of_entry (drop split entries))
    sibling_page_id ← on_pages S S.allocate_page
    left ← lift (leaf_page header (take split entries))
    on_pages S (S.write_page page_id left)
    right ← lift (leaf_page (new_header leaf_type) (drop split entries))
    on_pages S (S.write_page sibling_page_id right)
    return (sibling_page_id, split_key)

  unfoldable pub insert_into_leaf : ℕ → ℕ → ℤ → List ℕ → Action (Tree S) (Option ℕ)
  insert_into_leaf zero page_id key bytes = stop
  insert_into_leaf (suc fuel) page_id key bytes = do
    page ← on_pages S (S.read_page page_id)
    inserted ← lift (insert_entry page key bytes)
    elim inserted [
      | some page ↦ (do on_pages S (S.write_page page_id page); return none)
      | none ↦ (do
        (sibling_page_id, split_key) ← split_leaf_node page_id
        new_root ← insert_into_parent fuel page_id sibling_page_id split_key
        _ ←
            insert_into_leaf fuel (if int_ltb key split_key then page_id else sibling_page_id) key
              bytes
        return new_root)
    ]

  unfoldable pub insert :
      (String → List ℕ) → (List ℕ → Option String) → ℕ → ℤ → List Value → Action (Tree S) (Unit {0})
  insert utf8 from_utf8 fuel key row t =
      (do
        serialized ← lift (serialize_row utf8 from_utf8 row)
        leaf_page_id ← find_leaf S fuel t.root_page key
        new_root ← insert_into_leaf fuel leaf_page_id key serialized
        elim new_root [ none ↦ return tt | some root_page ↦ set_root S root_page ])
        t
