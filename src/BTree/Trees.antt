-- ===== src/BTree/Trees.antt =====
-- The tree of src/btree.rs over any store of pages: the descent to a leaf, `search` and `scan`.
-- Loops and recursions that follow page ids take fuel, and stop as a panic does when it is spent.
use velocidb.Prelude.{
  ℕ, zero, suc, ◌+◌, List, [], ◌∷◌, ◌++◌, Option, none, some, nat_beq, if◌then◌else◌, String, ℤ,
  Result, ok,
}
use velocidb.Prelude.Actions.{Action, lift, return, stop, then_result, ◌>>=◌, ◌>>◌}
use velocidb.Types.{Value}
use velocidb.BTree.Nodes.{
  header_size, leaf_type, new_header, u64_at, serialize_header, deserialize_header, bytes_at,
}
use velocidb.BTree.Rows.{deserialize_row}
use velocidb.BTree.Leaves.{entry_at, find_entry}
use velocidb.BTree.Internals.{find_child}
use velocidb.Pager.State.{Page, new_page}

-- What the tree uses of the pager.
pub record PageStore : Type 1 where
  pub State : Type 0
  pub read_page : ℕ → Action State Page
  pub write_page : ℕ → Page → Action State (Unit {0})
  pub allocate_page : Action State ℕ

-- `BTree`: its root and the state of its pager.
pub record Tree (S : PageStore) : Type 0 where
  pub root_page : ℕ
  pub pages : S.State

-- The row of the data that `search` has found.
abbrev pub decoded :
    (String → List ℕ) → (List ℕ → Option String) → Option (List ℕ) → Result (Option (List Value))
decoded utf8 from_utf8 none = ok none
decoded utf8 from_utf8 (some bytes) =
    then_result (deserialize_row utf8 from_utf8 bytes) λ row. ok (some row)

module _ (S : PageStore) where
  -- A call of the pager, as a step of the tree.
  abbrev pub on_pages : {A : Type 0} → Action S.State A → Action (Tree S) A
  on_pages m t = let (r, s) = m t.pages in (r, record t { pages = s })

  abbrev pub set_root : ℕ → Action (Tree S) (Unit {0})
  set_root root_page t = (ok tt, record t { root_page = root_page })

  unfoldable pub new_tree : S.State → Result (Tree S) × S.State
  new_tree s =
      (do
        root_page ← S.allocate_page
        page ← lift (serialize_header (new_header leaf_type) new_page)
        S.write_page root_page page
        λ s. (ok (record { root_page = root_page; pages = s }), s))
        s

  unfoldable pub find_leaf : ℕ → ℕ → ℤ → Action (Tree S) ℕ
  find_leaf zero page_id key = stop
  find_leaf (suc fuel) page_id key = do
    page ← on_pages (S.read_page page_id)
    header ← lift (deserialize_header page)
    if nat_beq header.node_type leaf_type then return page_id else (do
      first_child ← lift (u64_at page header_size)
      child ← lift (find_child header.num_keys page key (header_size + 8) first_child)
      find_leaf fuel child key)

  module _ (utf8 : String → List ℕ) (from_utf8 : List ℕ → Option String) where
    unfoldable pub search : ℕ → ℤ → Action (Tree S) (Option (List Value))
    search fuel key t =
        (do
          leaf_page_id ← find_leaf fuel t.root_page key
          page ← on_pages (S.read_page leaf_page_id)
          header ← lift (deserialize_header page)
          found ← lift (find_entry header.num_keys page key header_size)
          lift (decoded utf8 from_utf8 found))
          t

    -- The loop of `scan_node` over the entries of a leaf.
    unfoldable pub scan_entries : ℕ → List ℕ → ℕ → Result (List (ℤ × List Value))
    scan_entries zero page offset = ok []
    scan_entries (suc count) page offset = then_result (entry_at page offset) λ (key, size).
        then_result (bytes_at page (offset + 12) size) λ bytes.
          then_result (deserialize_row utf8 from_utf8 bytes) λ row.
            then_result (scan_entries count page (offset + (12 + size)))
              λ rows. ok ((key, row) ∷ rows)

    -- The loop over the children behind the first one.
    unfoldable pub scan_children :
        (ℕ → Action (Tree S) (List (ℤ × List Value)))
        → ℕ
        → List ℕ
        → ℕ
        → Action (Tree S) (List (ℤ × List Value))
    scan_children scan_child zero page offset = return []
    scan_children scan_child (suc count) page offset = do
      child ← lift (u64_at page (offset + 8))
      rows ← scan_child child
      others ← scan_children scan_child count page (offset + 16)
      return (rows ++ others)

    unfoldable pub scan_node : ℕ → ℕ → Action (Tree S) (List (ℤ × List Value))
    scan_node zero page_id = stop
    scan_node (suc fuel) page_id = do
      page ← on_pages (S.read_page page_id)
      header ← lift (deserialize_header page)
      if nat_beq header.node_type leaf_type
          then lift (scan_entries header.num_keys page header_size)
          else (do
            first_child ← lift (u64_at page header_size)
            rows ← scan_node fuel first_child
            others ← scan_children (scan_node fuel) header.num_keys page (header_size + 8)
            return (rows ++ others))

    unfoldable pub scan : ℕ → Action (Tree S) (List (ℤ × List Value))
    scan fuel t = scan_node fuel t.root_page t
