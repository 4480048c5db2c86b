-- ===== src/Crdt/Timestamps.antt =====
-- What an operation does to the records of a replica, src/crdt.rs.
use velocidb.Prelude.{
  ℕ, ◌<◌, Bool, true, false, ◌&&◌, List, [], ◌∷◌, Option, none, some, lt→ltb, string_eq, int_eq, ℤ,
  ◌==◌, ==_iff, ==_refl, if◌then◌else◌, ◌≡◌, refl, sym, ap, ◌∙◌, inl, inr, arith, String,
  Bool-cases, Option-cases,
}
use velocidb.Prelude.Map.{lookup, insert, lookup-insert}
use velocidb.Types.{Value}
use velocidb.Crdt.{
  CrdtOperation, inserted, updated, deleted, table_of, CrdtRecord, new_record, merge, delete_record,
  Table, insert_ordered, CrdtStore, table_state, applied, apply_operation, get_record,
}

lookup-insert_ordered :
    (k j : ℤ) (r : CrdtRecord) (t : Table)
    → lookup j (insert_ordered k r t) ≡ (if k == j then some r else lookup j t)
unfolding lookup insert_ordered
lookup-insert_ordered k j r [] = refl
lookup-insert_ordered k j r ((i, s) ∷ t) =
    ground (arith, ==_iff k j, ==_iff i k, ==_iff i j, lookup-insert_ordered k j r t)

get_record-table_state :
    (s : CrdtStore) (table : String) (key : ℤ)
    → get_record s table key ≡ lookup key (table_state s table)
unfolding get_record table_state lookup
get_record-table_state s table key = elim (Option-cases (lookup table s.state)) [
  | inl n ↦ rw (n, get_record, table_state) refl
  | inr (t, e) ↦ rw (e, get_record, table_state) refl
]

unfoldable pub key_of : CrdtOperation → ℤ
key_of (inserted table key values timestamp node_id) = key
key_of (updated table key values timestamp node_id) = key
key_of (deleted table key timestamp node_id) = key

-- The record that an operation leaves at its key, by the record that was there.
unfoldable pub resolved : CrdtOperation → Option CrdtRecord → Option CrdtRecord
resolved (inserted table key values timestamp node_id) old =
    some (new_record key values timestamp node_id)
resolved (updated table key values timestamp node_id) none =
    some (new_record key values timestamp node_id)
resolved (updated table key values timestamp node_id) (some r) =
    some (merge r (new_record key values timestamp node_id)).1
resolved (deleted table key timestamp node_id) none = none
resolved (deleted table key timestamp node_id) (some r) = some (delete_record r timestamp node_id)

same-if :
    (op : CrdtOperation) (key k : ℤ) (t : Table) (o : Option CrdtRecord)
    → lookup key t ≡ o
    → (if key == k then resolved op o else lookup k t)
      ≡ (if key == k then resolved op (lookup k t) else lookup k t)
same-if op key k t o h = elim (Bool-cases (key == k)) [
  | inl b ↦ rw b (ap (λ x. resolved op x) (sym h ∙ ap (λ j. lookup j t) ((==_iff key k).0 b)))
  | inr b ↦ rw b refl
]

applied-lookup :
    (op : CrdtOperation) (t : Table) (k : ℤ)
    → lookup k (applied op t) ≡ (if key_of op == k then resolved op (lookup k t) else lookup k t)
unfolding applied key_of resolved
applied-lookup (inserted table key values timestamp node_id) t k = lookup-insert_ordered key k _ t
applied-lookup (updated table key values timestamp node_id) t k =
    elim (Option-cases (lookup key t)) [
      | inl n ↦ rw (n, applied) (lookup-insert_ordered key k _ t ∙ at_key n)
      | inr (r, e) ↦ rw (e, applied) (lookup-insert_ordered key k _ t ∙ at_key e)
    ]
  where
    op : CrdtOperation
    op = updated table key values timestamp node_id

    at_key :
        {o : Option CrdtRecord}
        → lookup key t ≡ o
        → (if key == k then resolved op o else lookup k t)
          ≡ (if key == k then resolved op (lookup k t) else lookup k t)
    at_key {o = o} h = same-if op key k t o h
applied-lookup (deleted table key timestamp node_id) t k = elim (Option-cases (lookup key t)) [
  | inl n ↦ rw (n, applied) (unchanged n)
  | inr (r, e) ↦ rw (e, applied) (lookup-insert_ordered key k _ t ∙ same-if op key k t (some r) e)
]
  where
    op : CrdtOperation
    op = deleted table key timestamp node_id

    absent : lookup k t ≡ none → lookup k t ≡ resolved op (lookup k t)
    absent h = h ∙ sym (ap (λ o. resolved op o) h)

    unchanged :
        lookup key t ≡ none
        → lookup k t ≡ (if key == k then resolved op (lookup k t) else lookup k t)
    unchanged n = elim (Bool-cases (key == k)) [
      | inl b ↦ rw b (absent (ap (λ j. lookup j t) (sym ((==_iff key k).0 b)) ∙ n))
      | inr b ↦ rw b refl
    ]

-- An operation changes only the record of its table and key, to what it resolves to against the
-- record that was there: an insert replaces it, an update merges with it or is inserted, and a
-- delete marks it if there is one.
pub apply_operation-get_record :
    (s : CrdtStore) (op : CrdtOperation) (table : String) (key : ℤ)
    → get_record (apply_operation s op) table key ≡ (
        if (table_of op == table) && (key_of op == key)
        then resolved op (get_record s table key)
        else get_record s table key)
unfolding apply_operation table_state
apply_operation-get_record s op table key =
    get_record-table_state (apply_operation s op) table key
    ∙ ap (λ t. lookup key t) (stored (applied op (table_state s (table_of op))))
    ∙ elim (Bool-cases (table_of op == table)) [
      | inl b ↦ rw b (
          applied-lookup op (table_state s (table_of op)) key
          ∙ ap (λ o. if key_of op == key then resolved op o else o)
              (ap (λ x. lookup key (table_state s x)) ((==_iff (table_of op) table).0 b)
                ∙ sym (get_record-table_state s table key)))
      | inr b ↦ rw b (sym (get_record-table_state s table key))
    ]
  where
    stored :
        (t : Table)
        → table_state (record s { state = insert (table_of op) t s.state }) table
          ≡ (if table_of op == table then t else table_state s table)
    stored t = elim (Bool-cases (table_of op == table)) [
      | inl b ↦ rw (lookup-insert (table_of op) table t s.state, b, table_state) refl
      | inr b ↦ rw (lookup-insert (table_of op) table t s.state, b, table_state) refl
    ]

-- Two operations on one row, one after the other.
apply-twice :
    (s : CrdtStore) (x y : CrdtOperation) (table : String) (key : ℤ)
    → (table_of x ≡ table) × (key_of x ≡ key)
    → (table_of y ≡ table) × (key_of y ≡ key)
    → (t : String) (k : ℤ)
    → get_record (apply_operation (apply_operation s x) y) t k ≡ (
        if (table == t) && (key == k)
        then resolved y (resolved x (get_record s t k))
        else get_record s t k)
apply-twice s x y table key (tx, kx) (ty, ky) t k =
    apply_operation-get_record (apply_operation s x) y t k
    ∙ ap (λ r. if (table_of y == t) && (key_of y == k) then resolved y r else r)
        (apply_operation-get_record s x t k)
    ∙ ap (λ u. if (u == t) && (key_of y == k) then resolved y (at x) else at x) ty
    ∙ ap (λ j. if (table == t) && (j == k) then resolved y (at x) else at x) ky
    ∙ ap (λ u. once ((u == t) && (key_of x == k))) tx
    ∙ ap (λ j. once ((table == t) && (j == k))) kx
    ∙ both ((table == t) && (key == k))
  where
    at : CrdtOperation → Option CrdtRecord
    at z =
        if (table_of z == t) && (key_of z == k)
        then resolved z (get_record s t k)
        else get_record s t k

    once : Bool → Option CrdtRecord
    once c =
        let r = if c then resolved x (get_record s t k) else get_record s t k in
        if (table == t) && (key == k) then resolved y r else r

    both :
        (c : Bool)
        → (let r = if c then resolved x (get_record s t k) else get_record s t k in
            if c then resolved y r else r)
          ≡ (if c then resolved y (resolved x (get_record s t k)) else get_record s t k)
    both true = refl
    both false = refl

resolved-commute :
    (table : String) (key : ℤ) (v w : List Value) (a b : ℕ) (m n : String) (o : Option CrdtRecord)
    → a < b
    → resolved (updated table key v a m) (resolved (updated table key w b n) o)
      ≡ resolved (updated table key w b n) (resolved (updated table key v a m) o)
unfolding resolved merge new_record
resolved-commute table key v w a b m n none h = ground arith
resolved-commute table key v w a b m n (some r) h = ground arith

-- Two updates of one row with different timestamps leave the same record for every table and
-- key in either order.
pub updates-commute :
    (s : CrdtStore) (table : String) (key : ℤ) (v w : List Value) (a b : ℕ) (m n : String)
    → a < b
    → (t : String) (k : ℤ)
    → let x = updated table key v a m in
      let y = updated table key w b n in
      get_record (apply_operation (apply_operation s y) x) t k
      ≡ get_record (apply_operation (apply_operation s x) y) t k
unfolding table_of key_of
updates-commute s table key v w a b m n h t k =
    let x = updated table key v a m in
    let y = updated table key w b n in
    apply-twice s y x table key (refl, refl) (refl, refl) t k
    ∙ ap (λ r. if (table == t) && (key == k) then r else get_record s t k)
        (resolved-commute table key v w a b m n (get_record s t k) h)
    ∙ sym (apply-twice s x y table key (refl, refl) (refl, refl) t k)

-- An insert and a later update of one row leave different records in the two orders: the
-- update's when it comes second, and the insert's, with the lower timestamp, when that comes
-- second.
pub insert-order :
    (s : CrdtStore) (table : String) (key : ℤ) (old new : List Value) (earlier later : ℕ)
    (node peer : String)
    → earlier < later
    → let i = inserted table key old earlier node in
      let u = updated table key new later peer in
      (get_record (apply_operation (apply_operation s i) u) table key
        ≡ some (new_record key new later peer))
      × (get_record (apply_operation (apply_operation s u) i) table key
          ≡ some (new_record key old earlier node))
unfolding table_of key_of resolved merge new_record
insert-order s table key old new earlier later node peer h =
    let i = inserted table key old earlier node in
    let u = updated table key new later peer in
    (
      apply-twice s i u table key (refl, refl) (refl, refl) table key
          ∙ rw (==_refl table, ==_refl key, lt→ltb earlier later h, merge) refl,
      apply-twice s u i table key (refl, refl) (refl, refl) table key
          ∙ rw (==_refl table, ==_refl key) refl,
    )
