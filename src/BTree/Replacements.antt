-- ===== src/BTree/Replacements.antt =====
-- Entries after an insertion into a leaf, and a tree of src/btree.rs with one leaf replaced.
use velocidb.Prelude.{
  ℕ, ◌≡◌, refl, ap, sym, ◌∙◌, true, false, List, [], ◌∷◌, Option, none, some, arith, nat_beq,
  nat_beq_iff, if◌then◌else◌, ok, ℤ, int_beq, int_beq_iff, int_ltb, Bool-cases, inl, inr,
}
use velocidb.Pager.State.{Page}
use velocidb.BTree.Nodes.{NodeHeader, leaf_type, deserialize_header}
use velocidb.BTree.Leaves.{Entries}
use velocidb.BTree.LeafLoops.{lookup_entry, not_above, above}
use velocidb.BTree.NodeLayout.{Pairs, child_for}
use velocidb.BTree.LeafShifts.{IsLeaf, insert_sorted_entry}
use velocidb.BTree.Descents.{IsRooted, a_leaf, a_node, IsNode, leaf_for}

-- A new entry is found by its key, and it hides no other, if the leaf had none with its key.
pub lookup_entry-insert_sorted_entry :
    (key j : ℤ) (bytes : List ℕ) (es : Entries)
    → lookup_entry key es ≡ none
    → lookup_entry j (insert_sorted_entry key bytes es)
      ≡ (if int_beq key j then some bytes else lookup_entry j es)
unfolding lookup_entry insert_sorted_entry not_above above
lookup_entry-insert_sorted_entry key j bytes [] e = refl
lookup_entry-insert_sorted_entry key j bytes ((k, b) ∷ es) e = elim (Bool-cases (int_ltb key k)) [
  | inl t ↦ rw (t, not_above, above) refl
  | inr t ↦
      rw (t, not_above, above)
        (ground (
          arith,
          lookup_entry-insert_sorted_entry key j bytes es,
          int_beq_iff k key,
          int_beq_iff k j,
          int_beq_iff key j,
        ))
]

-- The page with one page replaced.
abbrev pub replaced : (ℕ → Option Page) → ℕ → Page → ℕ → Option Page
replaced view page_id page j = if nat_beq page_id j then some page else view j

-- Another page in the place of a leaf, also a leaf, changes no descent.
pub record IsLike (view : ℕ → Option Page) (leaf : ℕ) (old next : Page) : Type 0 where
  pub old_header : NodeHeader
  pub next_header : NodeHeader
  pub stands : view leaf ≡ some old
  pub old_is : deserialize_header old ≡ ok old_header
  pub next_is : deserialize_header next ≡ ok next_header
  pub old_leaf : nat_beq old_header.node_type leaf_type ≡ true
  pub next_leaf : nat_beq next_header.node_type leaf_type ≡ true

node-apart :
    (view : ℕ → Option Page) (leaf page_id child : ℕ) (ps : Pairs) (old next page : Page)
    → IsLike view leaf old next
    → view page_id ≡ some page
    → IsNode child ps page
    → nat_beq leaf page_id ≡ false
node-apart view leaf page_id child ps old next page k v n =
    elim (Bool-cases (nat_beq leaf page_id)) [
      | inr t ↦ t
      | inl t ↦
          let stands = k.stands in
          let here : view leaf ≡ some page = ap view ((nat_beq_iff leaf page_id).0 t) ∙ v in
          let pages : old ≡ page = cc in
          let old_is = k.old_is in
          let node_is = n.deserialized in
          let headers : k.old_header ≡ n.header = cc in
          let clash : true ≡ false =
            sym k.old_leaf
            ∙ (ap (λ (h : NodeHeader). nat_beq h.node_type leaf_type) headers ∙ n.inner) in
          absurd (cc)
    ]

pub rooted-replaced :
    (view : ℕ → Option Page) (leaf : ℕ) (old next : Page) (height page_id : ℕ)
    → IsLike view leaf old next
    → (r : IsRooted view height page_id)
    → (q : IsRooted (replaced view leaf next) height page_id) × ((key : ℤ)
        → leaf_for q key ≡ leaf_for r key)
unfolding leaf_for
rooted-replaced view leaf old next _ _ k (a_leaf height page_id page header v d l) =
    elim (Bool-cases (nat_beq leaf page_id)) [
      | inl t ↦
          (a_leaf height page_id next k.next_header (rw t refl) k.next_is k.next_leaf, λ key. refl)
      | inr t ↦ (a_leaf height page_id page header (rw t v) d l, λ key. refl)
    ]
rooted-replaced view leaf old next _ _ k (a_node height page_id page child ps v n below) =
    let t = node-apart view leaf page_id child ps old next page k v n in
    let deeper = λ (key : ℤ).
      rooted-replaced view leaf old next height (child_for key child ps) k (below key) in
    (
      a_node height page_id page child ps (rw t v) n (λ key. (deeper key).0),
      λ key. (deeper key).1 key,
    )

-- The page of a leaf with its entries.
pub record HasLeaf (view : ℕ → Option Page) (page_id : ℕ) : Type 0 where
  pub page : Page
  pub header : NodeHeader
  pub entries : Entries
  pub stands : view page_id ≡ some page
  pub leaf : IsLeaf header entries page
  pub typed : nat_beq header.node_type leaf_type ≡ true
