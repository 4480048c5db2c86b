-- ===== src/BTree/NodeLayout.antt =====
-- Internal nodes of src/btree.rs: what is written is parsed back, and which child a key leads to.
use velocidb.Prelude.{
  ℕ, suc, ◌+◌, ◌*◌, ◌^◌, ◌≤◌, ◌<◌, ◌≡◌, refl, ap, subst, ◌∙◌, List, [], ◌∷◌, ◌++◌, arith,
  if◌then◌else◌, length, take, ok, ℤ, int_ltb, length-append, Bool-cases, inl, inr, le→ltb-false,
  nat_beq_iff,
}
use velocidb.Prelude.Words.{to_le_bytes, length-to_le_bytes}
use velocidb.Wal.{page_size}
use velocidb.BTree.Nodes.{NodeHeader, header_size, key_bytes, IsKey, length-key_bytes}
use velocidb.BTree.Internals.{
  pair_at, find_child, parse_pairs, parse_internal_node, put_pairs, put_node, write_internal_body,
}
use velocidb.BTree.Layout.{At, At-left, At-right, At-join, put_page, put_bytes-IsOverwritten}
use velocidb.BTree.Fields.{key_at-At, u64_at-At}

-- A key and the child behind it, and the list of them.
abbrev pair_bytes : ℤ → ℕ → List ℕ
pair_bytes key child = key_bytes key ++ to_le_bytes 8 child

abbrev pub Pairs : Type 0
Pairs = List (ℤ × ℕ)

abbrev pub pairs_bytes : Pairs → List ℕ
pairs_bytes [] = []
pairs_bytes ((key, child) ∷ ps) = pair_bytes key child ++ pairs_bytes ps

abbrev pub keys_of : Pairs → List ℤ
keys_of [] = []
keys_of ((key, child) ∷ ps) = key ∷ keys_of ps

abbrev pub children_of : Pairs → List ℕ
children_of [] = []
children_of ((key, child) ∷ ps) = child ∷ children_of ps

abbrev pub AllPairs : Pairs → Type 0
AllPairs [] = Unit {0}
AllPairs ((key, child) ∷ ps) = IsKey key × (child < 2 ^ 64) × AllPairs ps

-- The child before the first key above this one.
unfoldable pub child_for : ℤ → ℕ → Pairs → ℕ
child_for key child [] = child
child_for key child ((k, c) ∷ ps) =
    let rest = child_for key c ps in if int_ltb key k then child else rest

length-pair_bytes : (key : ℤ) (child : ℕ) → length (pair_bytes key child) ≡ 16
length-pair_bytes key child = omega (
  arith,
  length-append (key_bytes key) (to_le_bytes 8 child),
  length-key_bytes key,
  length-to_le_bytes 8 child,
)

length-pairs_bytes : (ps : Pairs) → length (pairs_bytes ps) ≡ length ps * 16
length-pairs_bytes [] = refl
length-pairs_bytes ((key, child) ∷ ps) = omega (
  arith,
  length-append (pair_bytes key child) (pairs_bytes ps),
  length-pair_bytes key child,
  length-pairs_bytes ps,
)

length-keys_of : (ps : Pairs) → length (keys_of ps) ≡ length ps
length-keys_of [] = refl
length-keys_of ((key, child) ∷ ps) = ap suc (length-keys_of ps)

length-children_of : (ps : Pairs) → length (children_of ps) ≡ length ps
length-children_of [] = refl
length-children_of ((key, child) ∷ ps) = ap suc (length-children_of ps)

pair_at-At :
    (page : List ℕ) (a : ℕ) (key : ℤ) (child : ℕ) (ps : Pairs)
    → AllPairs ((key, child) ∷ ps)
    → At page a (pairs_bytes ((key, child) ∷ ps))
    → (pair_at page a ≡ ok (key, child)) × At page (a + 16) (pairs_bytes ps)
unfolding pair_at
pair_at-At page a key child ps s h =
    let here = At-left page (pair_bytes key child) (pairs_bytes ps) a h in
    let next : At page (a + 8) (to_le_bytes 8 child) =
      subst (λ b. At page b (to_le_bytes 8 child)) (omega (arith, length-key_bytes key))
        (At-right page (key_bytes key) (to_le_bytes 8 child) a here) in
    (
      rw (key_at-At page a key s.0 (At-left page (key_bytes key) (to_le_bytes 8 child) a here))
          (rw (u64_at-At page (a + 8) child s.1 next) refl),
      subst (λ b. At page b (pairs_bytes ps)) (omega (arith, length-pair_bytes key child))
          (At-right page (pair_bytes key child) (pairs_bytes ps) a h),
    )

parse_pairs-At :
    (page : List ℕ) (a : ℕ) (ps : Pairs)
    → AllPairs ps
    → At page a (pairs_bytes ps)
    → parse_pairs (length ps) page a ≡ ok (keys_of ps, children_of ps)
unfolding parse_pairs
parse_pairs-At page a [] s h = refl
parse_pairs-At page a ((key, child) ∷ ps) s h =
    let e = pair_at-At page a key child ps s h in
    rw (e.0, parse_pairs-At page (a + 16) ps s.2 e.1) refl

pub find_child-At :
    (page : List ℕ) (a : ℕ) (ps : Pairs) (key : ℤ) (child : ℕ)
    → AllPairs ps
    → At page a (pairs_bytes ps)
    → find_child (length ps) page key a child ≡ ok (child_for key child ps)
unfolding find_child child_for
find_child-At page a [] key child s h = refl
find_child-At page a ((k, c) ∷ ps) key child s h =
    let e = pair_at-At page a k c ps s h in
    elim (Bool-cases (int_ltb key k)) [
      | inl t ↦ rw (e.0, t, find_child, child_for) refl
      | inr t ↦ rw (e.0, t, find_child, child_for) (find_child-At page (a + 16) ps key c s.2 e.1)
    ]

-- A page after some writes behind `a`: the bytes before it are the old ones.
record IsFilled (page : List ℕ) (a : ℕ) (ps : Pairs) (next : List ℕ) : Type 0 where
  result : put_pairs page a (keys_of ps) (children_of ps) ≡ ok next
  filled : At next a (pairs_bytes ps)
  before : (c : ℕ) (x : List ℕ) → c + length x ≤ a → At page c x → At next c x
  same_length : length next ≡ length page

put_pairs-IsFilled :
    (page : List ℕ) (a : ℕ) (ps : Pairs)
    → a + length ps * 16 ≤ length page
    → (next : List ℕ) × IsFilled page a ps next
unfolding put_pairs take
put_pairs-IsFilled page a [] l = (
  page,
  record {
    result = refl;
    filled = record { fits = omega arith; found = refl };
    before = λ c x k at. at;
    same_length = refl;
  },
)
put_pairs-IsFilled page a ((key, child) ∷ ps) l =
    let p =
      put_bytes-IsOverwritten page (pair_bytes key child) a
        (omega (arith, length-pair_bytes key child)) in
    let next = put_page page a (pair_bytes key child) in
    let (last, r) = put_pairs-IsFilled next (a + 16) ps (omega (arith, p.same_length)) in
    (
      last,
      record {
        result = rw p.result r.result;
        filled =
            At-join last (pair_bytes key child) (pairs_bytes ps) a
              (r.before a (pair_bytes key child) (omega (arith, length-pair_bytes key child))
                p.self)
              (subst (λ b. At last b (pairs_bytes ps)) (omega (arith, length-pair_bytes key child))
                r.filled);
        before = λ c x k at. r.before c x (omega arith) (p.before c x k at);
        same_length = r.same_length ∙ p.same_length;
      },
    )

-- A node that `write_internal_body` has written is parsed back by `parse_internal_node`, and
-- `find_leaf` goes on in it to the child before the first key above the one that it looks for:
-- for keys and children of 64 bits that fit a page, under a header with their number.
pub parse_internal_node-write_internal_body :
    (page : List ℕ) (header : NodeHeader) (child : ℕ) (ps : Pairs)
    → length page ≡ page_size
    → header.num_keys ≡ length ps
    → child < 2 ^ 64
    → AllPairs ps
    → header_size + (8 + length ps * 16) ≤ page_size
    → (next : List ℕ) × (write_internal_body page (keys_of ps) (child ∷ children_of ps) ≡ ok next)
      × (parse_internal_node next header ≡ ok (keys_of ps, child ∷ children_of ps))
      × ((key : ℤ)
          → find_child header.num_keys next key (header_size + 8) child
            ≡ ok (child_for key child ps))
unfolding write_internal_body put_node parse_internal_node
parse_internal_node-write_internal_body page header child ps l n c s f =
    let first =
      put_bytes-IsOverwritten page (to_le_bytes 8 child) header_size
        (omega (arith, length-to_le_bytes 8 child)) in
    let start = put_page page header_size (to_le_bytes 8 child) in
    let (next, r) =
      put_pairs-IsFilled start (header_size + 8) ps (omega (arith, first.same_length)) in
    let kept =
      r.before header_size (to_le_bytes 8 child) (omega (arith, length-to_le_bytes 8 child))
        first.self in
    (
      next,
      rw
          (
            (nat_beq_iff (suc (length (children_of ps))) (length (keys_of ps) + 1)).1
                (omega (arith, length-keys_of ps, length-children_of ps)),
            le→ltb-false page_size (header_size + (8 + length (keys_of ps) * 16))
                (omega (arith, length-keys_of ps)),
            first.result,
            r.result,
          )
          refl,
      rw
          (
            u64_at-At next header_size child c kept,
            ap (λ k. parse_pairs k next (header_size + 8)) n
                ∙ parse_pairs-At next (header_size + 8) ps s r.filled,
          )
          refl,
      λ key.
          ap (λ k. find_child k next key (header_size + 8) child) n
          ∙ find_child-At next (header_size + 8) ps key child s r.filled,
    )
