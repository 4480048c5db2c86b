-- ===== src/BTree/TreeTests.antt =====
-- The theorems on trees at a pager in a group that has written a node with two leaves.
use velocidb.Prelude.{
  ℕ, ◌^◌, ◌<◌, ◌≡◌, refl, Bool, true, false, List, [], ◌∷◌, ◌++◌, none, some, arith, if◌then◌else◌,
  length, map, nat_eq, ok, ℤ, pos, int_ltb, int_beq,
}
use velocidb.Prelude.Words.{to_le_bytes}
use velocidb.Prelude.Map.{lookup}
use velocidb.Pager.State.{Pager}
use velocidb.Pager.Views.{newest}
use velocidb.BTree.Nodes.{key_bytes, deserialize_header}
use velocidb.BTree.Rows.{serialize_row, value_bytes, values_bytes}
use velocidb.BTree.RowCodec.{stored_value}
use velocidb.BTree.Fields.{deserialize_header-At}
use velocidb.BTree.LeafLoops.{lookup_entry}
use velocidb.BTree.NodeLayout.{child_for}
use velocidb.BTree.Trees.{PageStore, Tree, find_leaf, search}
use velocidb.BTree.Inserting.{insert}
use velocidb.BTree.Deleting.{remove_child_from_parent}
use velocidb.BTree.Descents.{
  IsPageStore, IsRooted, a_leaf, a_node, leaf_for, Shows, Reaches, find_leaf-Reaches,
}
use velocidb.BTree.Replacements.{HasLeaf}
use velocidb.BTree.Lookups.{search-insert}
use velocidb.BTree.PagerStore.{pager_store, pager_view, IsWorking, pager_store-IsPageStore}
use velocidb.BTree.Promotions.{remove_child_from_parent-promotes}
use velocidb.BTree.Tests.{
  checksum, first, done, utf8, from_utf8, leaf_header, leaf_header-fits, empty_leaf,
  empty_leaf-IsLeaf, a_row, node_header, a_row-storable, one_pair, node, node-IsNode, node-IsPair,
}

-- A pager in a group that has written the two leaves and the node.
abbrev pager : Pager
pager = record {
  file = [];
  num_pages = 4;
  cache = [];
  cache_size = 0;
  max_cache_size = 1024;
  wal = record { file = []; next_group_id = 2; len = 0 };
  active_group = some 1;
  pending = (1, empty_leaf) ∷ ((2, empty_leaf) ∷ ((3, node) ∷ []));
  committed = [];
  group_start_pages = 0;
  savepoint = none;
}

pager_store-IsPageStore_example :
    IsPageStore (pager_store checksum first done) (pager_view checksum first done)
pager_store-IsPageStore_example = pager_store-IsPageStore checksum first done

pager-IsWorking : IsWorking checksum first done pager
unfolding lookup
pager-IsWorking = record {
  grouped = refl;
  coherent = record { cached = λ j page h. absurd (cc h) };
  sized = record { within = omega arith; counted = omega arith };
}

abbrev tree : Tree (pager_store checksum first done)
tree = record { root_page = 3; pages = pager }

tree-Shows :
    Shows
      (pager_store checksum first done)
      (pager_view checksum first done)
      (pager_store-IsPageStore checksum first done)
      (newest pager)
      tree
tree-Shows = record { valid = pager-IsWorking; shown = λ j. refl }

abbrev below : ℤ → ℕ
below key = child_for key 1 one_pair

leaf-stands : (first_child : Bool) → newest pager (if first_child then 1 else 2) ≡ some empty_leaf
unfolding newest lookup
leaf-stands true = refl
leaf-stands false = refl

below-stands : (key : ℤ) → newest pager (below key) ≡ some empty_leaf
unfolding child_for int_ltb
below-stands key = leaf-stands (int_ltb key (pos 10))

leaf-deserialized : deserialize_header empty_leaf ≡ ok leaf_header
leaf-deserialized =
    deserialize_header-At empty_leaf leaf_header leaf_header-fits
      (omega (arith, empty_leaf-IsLeaf.whole)) empty_leaf-IsLeaf.header

node-stands : newest pager 3 ≡ some node
unfolding newest lookup
node-stands = refl

abbrev rooted : IsRooted (newest pager) 2 3
rooted =
    a_node 1 3 node 1 one_pair node-stands node-IsNode
      (λ key. a_leaf 0 (below key) empty_leaf leaf_header (below-stands key) leaf-deserialized refl)

find_leaf-Reaches_example :
    Reaches
      (pager_store checksum first done)
      (pager_view checksum first done)
      (pager_store-IsPageStore checksum first done)
      (newest pager)
      tree
      (leaf_for rooted (pos 12))
      (find_leaf (pager_store checksum first done) 2 3 (pos 12) tree)
find_leaf-Reaches_example =
    find_leaf-Reaches (pager_store checksum first done) (pager_view checksum first done)
      (pager_store-IsPageStore checksum first done) (newest pager) 2 3 (pos 12) tree tree-Shows
      rooted

abbrev leaves : (key : ℤ) → HasLeaf (newest pager) (leaf_for rooted key)
unfolding leaf_for
leaves key = record {
  page = empty_leaf;
  header = leaf_header;
  entries = [];
  stands = below-stands key;
  leaf = empty_leaf-IsLeaf;
  typed = refl;
}

abbrev row_bytes : List ℕ
row_bytes = to_le_bytes 4 4 ++ values_bytes utf8 from_utf8 a_row

row-serialized : serialize_row utf8 from_utf8 a_row ≡ ok row_bytes
unfolding serialize_row
row-serialized = refl

length-row_bytes : length row_bytes ≡ 35
unfolding to_le_bytes key_bytes value_bytes
length-row_bytes = refl

leaf_for-twelve : leaf_for rooted (pos 12) < 2 ^ 52
unfolding leaf_for int_ltb child_for
leaf_for-twelve = omega arith

search-insert_example :
    let x = insert (pager_store checksum first done) utf8 from_utf8 2 (pos 12) a_row tree in
    (x.0 ≡ ok tt)
    × ((search (pager_store checksum first done) utf8 from_utf8 2 (pos 12) x.1).0 ≡ (
        if int_beq (pos 12) (pos 12)
        then ok (some (map stored_value a_row))
        else (search (pager_store checksum first done) utf8 from_utf8 2 (pos 12) tree).0))
unfolding lookup_entry leaves
search-insert_example =
    search-insert (pager_store checksum first done) (pager_view checksum first done)
      (pager_store-IsPageStore checksum first done) utf8 from_utf8 (newest pager) 1 (pos 12)
      (pos 12) a_row row_bytes tree tree-Shows rooted leaves leaf_for-twelve (omega arith) refl
      (omega arith) a_row-storable row-serialized (omega (arith, length-row_bytes))

abbrev store : PageStore
store = pager_store checksum first done

first-stands : newest pager 1 ≡ some empty_leaf
unfolding newest lookup
first-stands = refl

remove_child_from_parent-promotes_example :
    let x = remove_child_from_parent store 1 3 3 2 tree in
    (x.0 ≡ ok tt) × (x.1.root_page ≡ 1) × (newest x.1.pages 1 ≡ some empty_leaf)
remove_child_from_parent-promotes_example =
    remove_child_from_parent-promotes store (pager_view checksum first done)
      (pager_store-IsPageStore checksum first done) (newest pager) 0 tree node_header 1 2 (pos 10)
      node empty_leaf tree-Shows (omega arith) node-stands node-IsPair
      (λ e. absurd (omega (arith, e))) (λ e. absurd (omega (arith, e))) first-stands
