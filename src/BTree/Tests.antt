-- ===== src/BTree/Tests.antt =====
-- The theorems on pages of src/btree.rs at an empty leaf, a leaf with one entry, and a node with two
-- children.
use velocidb.Prelude.{
  ℕ, ◌+◌, ◌≡◌, refl, subst, ◌∙◌, true, List, [], ◌∷◌, ◌++◌, Option, none, some, arith, length, take,
  replicate, length-replicate, append_assoc, map, nat_eq, ok, ℤ, pos, int_beq, String,
}
use velocidb.Prelude.Words.{to_le_bytes, length-to_le_bytes}
use velocidb.Prelude.Actions.{then_result}
use velocidb.Types.{Value, text, integer, real, blob}
use velocidb.Wal.{page_size, append_done, truncate_done}
use velocidb.Pager.State.{Page, Pages}
use velocidb.Pager.Groups.{CommitIo}
use velocidb.BTree.Nodes.{
  NodeHeader, FitsHeader, header_size, internal_type, leaf_type, new_header, key_bytes,
  length-key_bytes, deserialize_header,
}
use velocidb.BTree.Rows.{serialize_row, deserialize_row}
use velocidb.BTree.RowCodec.{stored_value, AllStorable, deserialize_row-serialize_row}
use velocidb.BTree.RowSizes.{sizes, length-serialize_row}
use velocidb.BTree.Leaves.{insert_entry, delete_entry}
use velocidb.BTree.Internals.{find_child, parse_internal_node, write_internal_body}
use velocidb.BTree.Layout.{At, At-left, At-right, IsOverwritten, put_page, put_bytes-IsOverwritten}
use velocidb.BTree.Fields.{header_bytes, length-header_bytes, deserialize_header-At, u64_at-At}
use velocidb.BTree.LeafLoops.{lookup_entry, not_above, above, before, behind}
use velocidb.BTree.LeafShifts.{IsLeaf, insert_sorted_entry}
use velocidb.BTree.LeafChanges.{one_more, insert_entry-IsLeaf}
use velocidb.BTree.LeafDeletes.{one_less, delete_entry-IsLeaf}
use velocidb.BTree.NodeLayout.{
  Pairs, pairs_bytes, keys_of, children_of, child_for, parse_internal_node-write_internal_body,
}
use velocidb.BTree.Descents.{IsNode}
use velocidb.BTree.Promotions.{IsPair}

abbrev pub checksum : List ℕ → ℕ
checksum bs = 0

abbrev pub first : Pages → Option ℕ
first [] = none
first ((page_id, page) ∷ pages) = some page_id

abbrev pub done : CommitIo
done = record {
  append = append_done;
  cut = true;
  checkpoint = record { pages = []; synced = true; truncated = truncate_done };
}

-- The UTF-8 encoding of one text.
abbrev pub utf8 : String → List ℕ
utf8 s = 120 ∷ []

abbrev pub from_utf8 : List ℕ → Option String
from_utf8 bytes = some "x"

abbrev zeros : Page
zeros = replicate page_size 0

zeros-whole : length zeros ≡ page_size
zeros-whole = length-replicate page_size 0

abbrev pub leaf_header : NodeHeader
leaf_header = new_header leaf_type

pub leaf_header-fits : FitsHeader leaf_header
leaf_header-fits = record {
  type_fits = omega arith;
  keys_fit = omega arith;
  parent_fits = omega arith;
}

abbrev pub empty_leaf : Page
empty_leaf = put_page zeros 0 (header_bytes leaf_header)

empty_leaf-IsOverwritten : IsOverwritten zeros 0 (header_bytes leaf_header) empty_leaf
empty_leaf-IsOverwritten =
    put_bytes-IsOverwritten zeros (header_bytes leaf_header) 0
      (omega (arith, zeros-whole, length-header_bytes leaf_header))

pub empty_leaf-IsLeaf : IsLeaf leaf_header [] empty_leaf
unfolding take
empty_leaf-IsLeaf = record {
  whole = empty_leaf-IsOverwritten.same_length ∙ zeros-whole;
  fits = leaf_header-fits;
  counted = refl;
  header = empty_leaf-IsOverwritten.self;
  stored = record {
    fits = omega (arith, empty_leaf-IsOverwritten.same_length, zeros-whole);
    found = refl;
  };
  sized = tt;
}

insert_entry-IsLeaf_example :
    (next : List ℕ) × (insert_entry empty_leaf (pos 5) (1 ∷ []) ≡ ok (some next))
    × IsLeaf (one_more leaf_header) (insert_sorted_entry (pos 5) (1 ∷ []) []) next
insert_entry-IsLeaf_example =
    insert_entry-IsLeaf leaf_header [] empty_leaf (pos 5) (1 ∷ []) empty_leaf-IsLeaf (omega arith)
      (omega arith)

-- The leaf with this entry.
abbrev one_entry : Page
one_entry =
    (insert_entry-IsLeaf leaf_header [] empty_leaf (pos 5) (1 ∷ []) empty_leaf-IsLeaf (omega arith)
      (omega arith)).0

one_entry-IsLeaf : IsLeaf (one_more leaf_header) ((pos 5, 1 ∷ []) ∷ []) one_entry
unfolding insert_sorted_entry not_above above
one_entry-IsLeaf =
    (insert_entry-IsLeaf leaf_header [] empty_leaf (pos 5) (1 ∷ []) empty_leaf-IsLeaf (omega arith)
      (omega arith)).2

found_one : lookup_entry (pos 5) ((pos 5, 1 ∷ []) ∷ []) ≡ some (1 ∷ [])
unfolding lookup_entry int_beq
found_one = refl

delete_entry-IsLeaf_example :
    (next : List ℕ) × (delete_entry one_entry (pos 5)
      ≡ ok (some (one_less (one_more leaf_header), next)))
    × IsLeaf
        (one_less (one_more leaf_header))
        (before (pos 5) ((pos 5, 1 ∷ []) ∷ []) ++ behind (pos 5) ((pos 5, 1 ∷ []) ∷ []))
        next
delete_entry-IsLeaf_example =
    delete_entry-IsLeaf (one_more leaf_header) ((pos 5, 1 ∷ []) ∷ []) one_entry (pos 5) (1 ∷ [])
      one_entry-IsLeaf found_one

abbrev pub a_row : List Value
a_row = integer (pos 7) ∷ (real 3 ∷ (blob (1 ∷ (2 ∷ [])) ∷ (text "x" ∷ [])))

abbrev pub node_header : NodeHeader
node_header = record { node_type = internal_type; num_keys = 1; parent = 0 }

node_header-fits : FitsHeader node_header
node_header-fits = record {
  type_fits = omega arith;
  keys_fit = omega arith;
  parent_fits = omega arith;
}

pub a_row-storable : AllStorable utf8 from_utf8 a_row
a_row-storable = (omega arith, (omega arith, (omega arith, ((omega arith, refl), tt))))

deserialize_row-serialize_row_example :
    then_result (serialize_row utf8 from_utf8 a_row) (deserialize_row utf8 from_utf8)
    ≡ ok (map stored_value a_row)
deserialize_row-serialize_row_example =
    deserialize_row-serialize_row utf8 from_utf8 a_row (omega arith) a_row-storable

abbrev pub one_pair : Pairs
one_pair = (pos 10, 2) ∷ []

length-serialize_row_example :
    (bytes : List ℕ) × (serialize_row utf8 from_utf8 a_row ≡ ok bytes)
    × (length bytes ≡ 4 + sizes utf8 from_utf8 a_row)
length-serialize_row_example = length-serialize_row utf8 from_utf8 a_row

parse_internal_node-write_internal_body_example :
    (next : List ℕ) × (write_internal_body zeros (keys_of one_pair) (1 ∷ children_of one_pair)
      ≡ ok next)
    × (parse_internal_node next node_header ≡ ok (keys_of one_pair, 1 ∷ children_of one_pair))
    × ((key : ℤ) → find_child 1 next key (header_size + 8) 1 ≡ ok (child_for key 1 one_pair))
parse_internal_node-write_internal_body_example =
    parse_internal_node-write_internal_body zeros node_header 1 one_pair zeros-whole refl
      (omega arith) (omega arith, omega arith, tt) (omega arith)

-- A node with the children 1 and 2.
abbrev headed : Page
headed = put_page zeros 0 (header_bytes node_header)

headed-IsOverwritten : IsOverwritten zeros 0 (header_bytes node_header) headed
headed-IsOverwritten =
    put_bytes-IsOverwritten zeros (header_bytes node_header) 0
      (omega (arith, zeros-whole, length-header_bytes node_header))

abbrev with_child : Page
with_child = put_page headed header_size (to_le_bytes 8 1)

with_child-IsOverwritten : IsOverwritten headed header_size (to_le_bytes 8 1) with_child
with_child-IsOverwritten =
    put_bytes-IsOverwritten headed (to_le_bytes 8 1) header_size
      (omega (arith, zeros-whole, headed-IsOverwritten.same_length, length-to_le_bytes 8 1))

pairs-length : length (pairs_bytes one_pair) ≡ 16
unfolding key_bytes to_le_bytes
pairs-length = refl

abbrev pub node : Page
node = put_page with_child (header_size + 8) (pairs_bytes one_pair)

node-IsOverwritten : IsOverwritten with_child (header_size + 8) (pairs_bytes one_pair) node
node-IsOverwritten = put_bytes-IsOverwritten with_child (pairs_bytes one_pair) (header_size + 8) (
    omega (
      arith, zeros-whole, headed-IsOverwritten.same_length, with_child-IsOverwritten.same_length,
      pairs-length,
    ))

node-first : At node header_size (to_le_bytes 8 1)
node-first =
    node-IsOverwritten.before header_size (to_le_bytes 8 1) (omega (arith, length-to_le_bytes 8 1))
      with_child-IsOverwritten.self

node-whole : length node ≡ page_size
node-whole = omega (
  arith, zeros-whole, headed-IsOverwritten.same_length, with_child-IsOverwritten.same_length,
  node-IsOverwritten.same_length,
)

node-deserialized : deserialize_header node ≡ ok node_header
node-deserialized =
    deserialize_header-At node node_header node_header-fits (omega (arith, node-whole)) (
      node-IsOverwritten.before 0 (header_bytes node_header)
        (omega (arith, length-header_bytes node_header))
        (with_child-IsOverwritten.before 0 (header_bytes node_header)
          (omega (arith, length-header_bytes node_header)) headed-IsOverwritten.self))

pub node-IsNode : IsNode 1 one_pair node
node-IsNode = record {
  header = node_header;
  deserialized = node-deserialized;
  inner = refl;
  counted = refl;
  first = u64_at-At node header_size 1 (omega arith) node-first;
  stored = node-IsOverwritten.self;
  sized = (omega arith, omega arith, tt);
}

node-second : At node (header_size + 16) (to_le_bytes 8 2)
node-second = At-left node (to_le_bytes 8 2) [] (header_size + 16) (
    subst (λ a. At node a (to_le_bytes 8 2 ++ []))
      {x = header_size + 8 + length (key_bytes (pos 10))} (omega (arith, length-key_bytes (pos 10)))
      (At-right node (key_bytes (pos 10)) (to_le_bytes 8 2 ++ []) (header_size + 8) (
        subst (At node (header_size + 8)) (append_assoc (key_bytes (pos 10)) (to_le_bytes 8 2) [])
          node-IsOverwritten.self)))

pub node-IsPair : IsPair node_header 1 (pos 10) 2 node
node-IsPair = record {
  whole = node-whole;
  deserialized = node-deserialized;
  first = node-first;
  second = node-second;
  child_fits = omega arith;
  other_fits = omega arith;
}
