-- ===== src/BTree/Lookups.antt =====
-- `search` and `insert` of src/btree.rs on a whole tree, where the leaf has room for the new entry.
use velocidb.Prelude.{
  ℕ, suc, ◌+◌, ◌^◌, ◌≤◌, ◌<◌, ◌≡◌, refl, ap, sym, subst, ◌∙◌, true, false, List, Option, none, some,
  arith, nat_beq, nat_beq_iff, if◌then◌else◌, length, map, Result, ok, ℤ, int_beq, int_beq_iff,
  String, Bool-cases, inl, inr,
}
use velocidb.Prelude.Actions.{then_result}
use velocidb.Types.{Value}
use velocidb.Wal.{page_size}
use velocidb.Pager.State.{Page}
use velocidb.BTree.Nodes.{NodeHeader, header_size, IsKey}
use velocidb.BTree.Rows.{serialize_row, deserialize_row}
use velocidb.BTree.RowCodec.{stored_value, AllStorable, deserialize_row-serialize_row}
use velocidb.BTree.Leaves.{Entries, find_entry}
use velocidb.BTree.Fields.{deserialize_header-At}
use velocidb.BTree.LeafLoops.{entries_bytes, lookup_entry, find_entry-At}
use velocidb.BTree.LeafShifts.{IsLeaf, insert_sorted_entry}
use velocidb.BTree.LeafChanges.{one_more, insert_entry-IsLeaf}
use velocidb.BTree.Trees.{decoded, PageStore, Tree, on_pages, find_leaf, search}
use velocidb.BTree.Inserting.{insert_into_leaf, insert}
use velocidb.BTree.Descents.{
  PageView, IsPageStore, IsRooted, leaf_for, Shows, read-Shows, find_leaf-Reaches,
}
use velocidb.BTree.Replacements.{
  lookup_entry-insert_sorted_entry, replaced, IsLike, rooted-replaced, HasLeaf,
}

module _ (S : PageStore) (V : PageView S) (lawful : IsPageStore S V) (utf8 : String → List ℕ)
    (from_utf8 : List ℕ → Option String) where
  pub search-IsLeaf :
      (view : ℕ → Option Page) (fuel : ℕ) (key : ℤ) (t : Tree S) (h : NodeHeader) (es : Entries)
      (page : Page)
      → Shows S V lawful view t
      → (r : IsRooted view fuel t.root_page) → view (leaf_for r key) ≡ some page
      → IsLeaf h es page
      → (search S utf8 from_utf8 fuel key t).0 ≡ decoded utf8 from_utf8 (lookup_entry key es)
  unfolding search
  search-IsLeaf view fuel key t h es page s r v leaf =
      let f = find_leaf-Reaches S V lawful view fuel t.root_page key t s r in
      let u = (find_leaf S fuel t.root_page key t).1 in
      let p = read-Shows S V lawful view u (leaf_for r key) page f.shows v in
      rw
        (
          f.found,
          p.0,
          deserialize_header-At page h leaf.fits (omega (arith, leaf.whole)) leaf.header,
          ap (λ n. find_entry n page key header_size) leaf.counted
              ∙ find_entry-At page header_size es key leaf.sized leaf.stored,
        )
        refl

  -- What an insertion into a leaf with room comes to.
  pub record IsInserted (view : ℕ → Option Page) (leaf : ℕ) (h : NodeHeader) (es : Entries)
      (root_page : ℕ) (x : Result (Unit {0}) × Tree S) : Type 0 where
    pub next : Page
    pub succeeds : x.0 ≡ ok tt
    pub leaf_page : IsLeaf h es next
    pub shows : Shows S V lawful (replaced view leaf next) x.1
    pub root : x.1.root_page ≡ root_page

  pub insert-IsInserted :
      (view : ℕ → Option Page) (fuel : ℕ) (key : ℤ) (row : List Value) (bytes : List ℕ) (t : Tree S)
      (h : NodeHeader) (es : Entries) (page : Page)
      → Shows S V lawful view t
      → (r : IsRooted view (suc fuel) t.root_page) → leaf_for r key < 2 ^ 52
      → view (leaf_for r key) ≡ some page
      → IsLeaf h es page
      → IsKey key
      → serialize_row utf8 from_utf8 row ≡ ok bytes
      → header_size + (length (entries_bytes es) + (12 + length bytes)) ≤ page_size
      → IsInserted view
          (leaf_for r key)
          (one_more h)
          (insert_sorted_entry key bytes es)
          t.root_page
          (insert S utf8 from_utf8 (suc fuel) key row t)
  unfolding insert insert_into_leaf
  insert-IsInserted view fuel key row bytes t h es page s r l v leaf k c room =
      let f = find_leaf-Reaches S V lawful view (suc fuel) t.root_page key t s r in
      let u = (find_leaf S (suc fuel) t.root_page key t).1 in
      let p = read-Shows S V lawful view u (leaf_for r key) page f.shows v in
      let x = (on_pages S (S.read_page (leaf_for r key)) u).1 in
      let i = insert_entry-IsLeaf h es page key bytes leaf k room in
      let w = lawful.write x.pages (leaf_for r key) i.0 p.1.valid l i.2.whole in
      rw (c, f.found, p.0, i.1, w.0)
        (record {
          next = i.0;
          succeeds = refl;
          leaf_page = i.2;
          shows = record {
            valid = w.1;
            shown = λ j.
                w.2 j ∙ ap (λ o. if nat_beq (leaf_for r key) j then some i.0 else o) (p.1.shown j);
          };
          root = f.root;
        })

  deserialize-serialized :
      (row : List Value) (bytes : List ℕ)
      → length row < 2 ^ 32
      → AllStorable utf8 from_utf8 row
      → serialize_row utf8 from_utf8 row ≡ ok bytes
      → decoded utf8 from_utf8 (some bytes) ≡ ok (some (map stored_value row))
  deserialize-serialized row bytes l a c =
      ap (λ r. then_result r λ row. ok (some row))
        (ap (λ r. then_result r (deserialize_row utf8 from_utf8)) (sym c)
          ∙ deserialize_row-serialize_row utf8 from_utf8 row l a)

  -- In a valid store with a tree whose leaves hold entries, a row of storable values that is
  -- inserted by a 64-bit key whose leaf, below page 2^52, has room and no entry with that key
  -- is found by `search`, its `Real` values as `Float`; a search for any other key, in this
  -- leaf or in another one, gives what it gave before.
  pub search-insert :
      (view : ℕ → Option Page) (fuel : ℕ) (key j : ℤ) (row : List Value) (bytes : List ℕ)
      (t : Tree S)
      → Shows S V lawful view t
      → (r : IsRooted view (suc fuel) t.root_page) (leaves : (j : ℤ) → HasLeaf view (leaf_for r j))
      → leaf_for r key < 2 ^ 52
      → IsKey key
      → lookup_entry key (leaves key).entries ≡ none
      → length row < 2 ^ 32
      → AllStorable utf8 from_utf8 row
      → serialize_row utf8 from_utf8 row ≡ ok bytes
      → header_size + (length (entries_bytes (leaves key).entries) + (12 + length bytes))
        ≤ page_size
      → let x = insert S utf8 from_utf8 (suc fuel) key row t in
        (x.0 ≡ ok tt)
        × ((search S utf8 from_utf8 (suc fuel) j x.1).0 ≡ (
            if int_beq key j
            then ok (some (map stored_value row))
            else (search S utf8 from_utf8 (suc fuel) j t).0))
  search-insert view fuel key j row bytes t s r leaves l k absent short fits c room = (
    i.succeeds,
    elim (Bool-cases (nat_beq (leaf_for r key) (leaf_for r j))) [
      | inl e ↦ here e
      | inr e ↦ there e
    ],
  )
    where
      old : HasLeaf view (leaf_for r key)
      old = leaves key

      i :
          IsInserted view
            (leaf_for r key)
            (one_more old.header)
            (insert_sorted_entry key bytes old.entries)
            t.root_page
            (insert S utf8 from_utf8 (suc fuel) key row t)
      i =
          insert-IsInserted view fuel key row bytes t old.header old.entries old.page s r l
            old.stands old.leaf k c room

      like : IsLike view (leaf_for r key) old.page i.next
      like = record {
        old_header = old.header;
        next_header = one_more old.header;
        stands = old.stands;
        old_is =
            deserialize_header-At old.page old.header old.leaf.fits (omega (arith, old.leaf.whole))
              old.leaf.header;
        next_is =
            deserialize_header-At i.next (one_more old.header) i.leaf_page.fits
              (omega (arith, i.leaf_page.whole)) i.leaf_page.header;
        old_leaf = old.typed;
        next_leaf = old.typed;
      }

      after : Tree S
      after = (insert S utf8 from_utf8 (suc fuel) key row t).1

      next_view : ℕ → Option Page
      next_view = replaced view (leaf_for r key) i.next

      rooted :
          (q : IsRooted next_view (suc fuel) after.root_page) × ((j : ℤ)
            → leaf_for q j ≡ leaf_for r j)
      rooted =
          subst
            (λ root.
              (q : IsRooted next_view (suc fuel) root) × ((j : ℤ) → leaf_for q j ≡ leaf_for r j))
            (sym i.root)
            (rooted-replaced view (leaf_for r key) old.page i.next (suc fuel) t.root_page like r)

      here :
          nat_beq (leaf_for r key) (leaf_for r j) ≡ true
          → (search S utf8 from_utf8 (suc fuel) j after).0 ≡ (
              if int_beq key j
              then ok (some (map stored_value row))
              else (search S utf8 from_utf8 (suc fuel) j t).0)
      here e =
          let same = (nat_beq_iff (leaf_for r key) (leaf_for r j)).0 e in
          search-IsLeaf next_view (suc fuel) j after (one_more old.header)
            (insert_sorted_entry key bytes old.entries) i.next i.shows rooted.0
            (ap next_view (rooted.1 j) ∙ rw e refl) i.leaf_page
          ∙ (ap (decoded utf8 from_utf8)
                (lookup_entry-insert_sorted_entry key j bytes old.entries absent)
              ∙ elim (Bool-cases (int_beq key j)) [
                | inl b ↦ rw b (deserialize-serialized row bytes short fits c)
                | inr b ↦ rw b (
                    sym (
                      search-IsLeaf view (suc fuel) j t old.header old.entries old.page s r
                        (ap view (sym same) ∙ old.stands) old.leaf))
              ])

      there :
          nat_beq (leaf_for r key) (leaf_for r j) ≡ false
          → (search S utf8 from_utf8 (suc fuel) j after).0 ≡ (
              if int_beq key j
              then ok (some (map stored_value row))
              else (search S utf8 from_utf8 (suc fuel) j t).0)
      there e =
          let other = leaves j in
          search-IsLeaf next_view (suc fuel) j after other.header other.entries other.page i.shows
            rooted.0 (ap next_view (rooted.1 j) ∙ rw e other.stands) other.leaf
          ∙ (sym (
                search-IsLeaf view (suc fuel) j t other.header other.entries other.page s r
                  other.stands other.leaf)
              ∙ elim (Bool-cases (int_beq key j)) [
                | inl b ↦
                    let t : nat_beq (leaf_for r key) (leaf_for r j) ≡ true =
                      (nat_beq_iff (leaf_for r key) (leaf_for r j)).1
                        (ap (leaf_for r) ((int_beq_iff key j).0 b)) in
                    absurd (cc)
                | inr b ↦ rw b refl
              ])
