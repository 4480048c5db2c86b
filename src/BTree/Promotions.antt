-- ===== src/BTree/Promotions.antt =====
-- The root of src/btree.rs that loses its last key.
use velocidb.Prelude.{
  ℕ, suc, ◌+◌, ◌^◌, ◌<◌, ◌≡◌, refl, sym, ◌∙◌, false, [], Option, some, arith, nat_beq, nat_beq_iff,
  length, take, ok, ℤ, ◌≢◌,
}
use velocidb.Prelude.Words.{to_le_bytes, length-to_le_bytes}
use velocidb.Wal.{page_size}
use velocidb.Pager.State.{Page}
use velocidb.BTree.Nodes.{NodeHeader, header_size, u64_at, serialize_header, deserialize_header}
use velocidb.BTree.Internals.{child_offset, remove_pair}
use velocidb.BTree.Layout.{At, put_page, put_bytes-IsOverwritten}
use velocidb.BTree.Fields.{header_bytes, length-header_bytes, u64_at-At}
use velocidb.BTree.LeafShifts.{copy_within-At}
use velocidb.BTree.Trees.{PageStore, Tree, on_pages}
use velocidb.BTree.Descents.{PageView, IsPageStore, Shows, read-Shows}
use velocidb.BTree.Deleting.{remove_child_from_parent}

-- A node with two children.
pub record IsPair (h : NodeHeader) (child : ℕ) (key : ℤ) (other : ℕ) (page : Page) : Type 0 where
  pub whole : length page ≡ page_size
  pub deserialized : deserialize_header page ≡ ok (record h { num_keys = 1 })
  pub first : At page header_size (to_le_bytes 8 child)
  pub second : At page (header_size + 16) (to_le_bytes 8 other)
  pub child_fits : child < 2 ^ 64
  pub other_fits : other < 2 ^ 64

-- What is left of such a node without its second child.
record IsSingle (h : NodeHeader) (child : ℕ) (page next : Page) : Type 0 where
  result :
      remove_pair page (record h { num_keys = 1 }) (header_size + 8)
      ≡ ok (record h { num_keys = 0 }, next)
  whole : length next ≡ page_size
  first : u64_at next header_size ≡ ok child

remove_pair-IsSingle :
    (h : NodeHeader) (child : ℕ) (key : ℤ) (other : ℕ) (page : Page)
    → IsPair h child key other page
    → (next : Page) × IsSingle h child page next
unfolding remove_pair serialize_header take
remove_pair-IsSingle h child key other page p =
    let fewer : NodeHeader = record h { num_keys = 0 } in
    let moved = put_bytes-IsOverwritten page [] 16 (omega (arith, p.whole)) in
    let start = put_page page 16 [] in
    let head =
      put_bytes-IsOverwritten start (header_bytes fewer) 0
        (omega (arith, moved.same_length, p.whole, length-header_bytes fewer)) in
    let next = put_page start 0 (header_bytes fewer) in
    (
      next,
      record {
        result =
            rw
              (
                copy_within-At page [] 32 32 16
                    (record { fits = omega (arith, p.whole); found = refl }) refl,
                moved.result,
                head.result,
                remove_pair,
              )
              refl;
        whole = omega (arith, head.same_length, moved.same_length, p.whole);
        first = u64_at-At next header_size child p.child_fits (
            head.after header_size (to_le_bytes 8 child) (omega (arith, length-header_bytes fewer))
              (moved.before header_size (to_le_bytes 8 child)
                (omega (arith, length-to_le_bytes 8 child)) p.first));
      },
    )

nat_beq-apart : (a b : ℕ) → a ≢ b → nat_beq a b ≡ false
nat_beq-apart a b n = ground (arith, n)

module _ (S : PageStore) (V : PageView S) (lawful : IsPageStore S V) where
  -- In a valid store, when the second child of a root with one key, below page 2^52, is
  -- removed, the first child, another page that can be read, becomes the root, and its page
  -- stays as it was, with the parent that it had.
  pub remove_child_from_parent-promotes :
      (view : ℕ → Option Page) (fuel : ℕ) (t : Tree S) (h : NodeHeader) (child other : ℕ) (key : ℤ)
      (page child_page : Page)
      → Shows S V lawful view t
      → t.root_page < 2 ^ 52
      → view t.root_page ≡ some page
      → IsPair h child key other page
      → child ≢ other
      → child ≢ t.root_page
      → view child ≡ some child_page
      → let x = remove_child_from_parent S (suc fuel) t.root_page t.root_page other t in
        (x.0 ≡ ok tt) × (x.1.root_page ≡ child) × (V.view x.1.pages child ≡ some child_page)
  unfolding remove_child_from_parent child_offset
  remove_child_from_parent-promotes view fuel t h child other key page child_page s l v p n m c =
      let r = read-Shows S V lawful view t t.root_page page s v in
      let u = (on_pages S (S.read_page t.root_page) t).1 in
      let q = remove_pair-IsSingle h child key other page p in
      let w = lawful.write u.pages t.root_page q.0 r.1.valid l q.1.whole in
      rw
        (
          r.0,
          p.deserialized,
          u64_at-At page header_size child p.child_fits p.first,
          nat_beq-apart child other n,
          u64_at-At page (header_size + 16) other p.other_fits p.second,
          (nat_beq_iff other other).1 refl,
          q.1.result,
          w.0,
          (nat_beq_iff t.root_page t.root_page).1 refl,
          q.1.first,
        )
        (
          refl,
          refl,
          w.2 child ∙ rw (nat_beq-apart t.root_page child λ e. m (sym e)) (r.1.shown child ∙ c),
        )
