-- ===== src/BTree/Descents.antt =====
-- The descent of src/btree.rs in a tree of a known height, over any lawful store of pages.
use velocidb.Prelude.{
  ℕ, suc, ◌+◌, ◌^◌, ◌<◌, ◌≡◌, refl, ap, ◌∙◌, true, false, Option, some, nat_beq, if◌then◌else◌,
  length, Result, ok, ℤ,
}
use velocidb.Wal.{page_size}
use velocidb.Pager.State.{Page}
use velocidb.BTree.Nodes.{NodeHeader, header_size, leaf_type, u64_at, deserialize_header}
use velocidb.BTree.Internals.{find_child}
use velocidb.BTree.Layout.{At}
use velocidb.BTree.NodeLayout.{Pairs, pairs_bytes, AllPairs, child_for, find_child-At}
use velocidb.BTree.Trees.{PageStore, Tree, on_pages, find_leaf}

-- Which states of a store are valid, and the pages that it shows in a state.
pub record PageView (S : PageStore) : Type 1 where
  pub Valid : S.State → Type 0
  pub view : S.State → ℕ → Option Page

-- What the tree relies on of its pager: in a valid state a page that there is can be read and any
-- page can be written, and the pages are those last written.
pub record IsPageStore (S : PageStore) (V : PageView S) : Type 0 where
  pub read :
      (s : S.State) (page_id : ℕ) (page : Page)
      → V.Valid s
      → V.view s page_id ≡ some page
      → (S.read_page page_id s).0 ≡ ok page
  pub read_keeps :
      (s : S.State) (page_id : ℕ) (page : Page)
      → V.Valid s
      → V.view s page_id ≡ some page
      → V.Valid (S.read_page page_id s).1
        × ((j : ℕ) → V.view (S.read_page page_id s).1 j ≡ V.view s j)
  pub write :
      (s : S.State) (page_id : ℕ) (page : Page)
      → V.Valid s
      → page_id < 2 ^ 52
      → length page ≡ page_size
      → ((S.write_page page_id page s).0 ≡ ok tt)
        × V.Valid (S.write_page page_id page s).1
        × ((j : ℕ)
            → V.view (S.write_page page_id page s).1 j
              ≡ (if nat_beq page_id j then some page else V.view s j))

-- A page that is an internal node with this first child and these keys and children behind it.
pub record IsNode (child : ℕ) (ps : Pairs) (page : Page) : Type 0 where
  pub header : NodeHeader
  pub deserialized : deserialize_header page ≡ ok header
  pub inner : nat_beq header.node_type leaf_type ≡ false
  pub counted : header.num_keys ≡ length ps
  pub first : u64_at page header_size ≡ ok child
  pub stored : At page (header_size + 8) (pairs_bytes ps)
  pub sized : AllPairs ps

-- From this page, every descent reaches a leaf within so many pages.
pub data IsRooted (view : ℕ → Option Page) : ℕ → ℕ → Type 0 where
  a_leaf :
      (height page_id : ℕ) (page : Page) (header : NodeHeader)
      → view page_id ≡ some page
      → deserialize_header page ≡ ok header
      → nat_beq header.node_type leaf_type ≡ true
      → IsRooted view (suc height) page_id
  a_node :
      (height page_id : ℕ) (page : Page) (child : ℕ) (ps : Pairs)
      → view page_id ≡ some page
      → IsNode child ps page
      → ((key : ℤ) → IsRooted view height (child_for key child ps))
      → IsRooted view (suc height) page_id

-- The leaf that a key leads to.
unfoldable pub leaf_for :
    {view : ℕ → Option Page} {height page_id : ℕ} → IsRooted view height page_id → ℤ → ℕ
leaf_for (a_leaf height page_id page header v d t) key = page_id
leaf_for (a_node height page_id page child ps v n below) key = leaf_for (below key) key

module _ (S : PageStore) (V : PageView S) (lawful : IsPageStore S V) where
  -- A tree whose pager is valid and has these pages.
  pub record Shows (view : ℕ → Option Page) (t : Tree S) : Type 0 where
    pub valid : V.Valid t.pages
    pub shown : (j : ℕ) → V.view t.pages j ≡ view j

  pub read-Shows :
      (view : ℕ → Option Page) (t : Tree S) (page_id : ℕ) (page : Page)
      → Shows view t
      → view page_id ≡ some page
      → ((on_pages S (S.read_page page_id) t).0 ≡ ok page)
        × Shows view (on_pages S (S.read_page page_id) t).1
  read-Shows view t page_id page s e =
      let v = s.shown page_id ∙ e in
      let k = lawful.read_keeps t.pages page_id page s.valid v in
      (
        lawful.read t.pages page_id page s.valid v,
        record { valid = k.0; shown = λ j. k.1 j ∙ s.shown j },
      )

  -- What a descent comes to.
  pub record Reaches (view : ℕ → Option Page) (t : Tree S) (leaf : ℕ) (x : Result ℕ × Tree S)
      : Type 0 where
    pub found : x.0 ≡ ok leaf
    pub shows : Shows view x.1
    pub root : x.1.root_page ≡ t.root_page

  -- In a valid store, a descent from a page from which every descent reaches a leaf within
  -- `fuel` pages ends, at the leaf that the key leads to, and leaves the pages and the root
  -- as they were.
  pub find_leaf-Reaches :
      (view : ℕ → Option Page) (fuel page_id : ℕ) (key : ℤ) (t : Tree S)
      → Shows view t
      → (r : IsRooted view fuel page_id)
      → Reaches view t (leaf_for r key) (find_leaf S fuel page_id key t)
  unfolding find_leaf leaf_for
  find_leaf-Reaches view _ _ key t s (a_leaf height page_id page header v d l) =
      let r = read-Shows view t page_id page s v in
      rw (r.0, d, l, find_leaf) (record { found = refl; shows = r.1; root = refl })
  find_leaf-Reaches view _ _ key t s (a_node height page_id page child ps v n below) =
      let r = read-Shows view t page_id page s v in
      let u = (on_pages S (S.read_page page_id) t).1 in
      let next = find_leaf-Reaches view height (child_for key child ps) key u r.1 (below key) in
      rw
        (
          r.0,
          n.deserialized,
          n.inner,
          n.first,
          ap (λ k. find_child k page key (header_size + 8) child) n.counted
              ∙ find_child-At page (header_size + 8) ps key child n.sized n.stored,
          find_leaf,
        )
        (record { found = next.found; shows = next.shows; root = next.root })
