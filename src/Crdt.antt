-- ===== src/Crdt.antt =====
-- Replicated records, src/crdt.rs: operations with Lamport timestamps, the store of a replica, and the
-- sync protocol. A node's id is a text; Rust and `compare` order texts by their code points alike.
pub mod Timestamps
mod Tests
use Prim.Native.Nat.{Ordering}
use Prim.Native.String.{compare}
use velocidb.Prelude.{
  ℕ, zero, suc, ◌+◌, max, min, Bool, true, false, not, ◌&&◌, List, [], ◌∷◌, ◌++◌, Option, none,
  some, nat_beq, ltb, leb, string_eq, int_eq, int_ltb, ℤ, ◌==◌, if◌then◌else◌, length, filter, any,
  map, String,
}
use velocidb.Prelude.Words.{add_u64}
use velocidb.Prelude.Map.{lookup, insert}
use velocidb.Types.{Value}

pub data CrdtOperation : Type 0 where
  inserted updated : String → ℤ → List Value → ℕ → String → CrdtOperation
  deleted : String → ℤ → ℕ → String → CrdtOperation

unfoldable pub timestamp_of : CrdtOperation → ℕ
timestamp_of (inserted table key values timestamp node_id) = timestamp
timestamp_of (updated table key values timestamp node_id) = timestamp
timestamp_of (deleted table key timestamp node_id) = timestamp

unfoldable pub node_id_of : CrdtOperation → String
node_id_of (inserted table key values timestamp node_id) = node_id
node_id_of (updated table key values timestamp node_id) = node_id
node_id_of (deleted table key timestamp node_id) = node_id

unfoldable pub table_of : CrdtOperation → String
table_of (inserted table key values timestamp node_id) = table
table_of (updated table key values timestamp node_id) = table
table_of (deleted table key timestamp node_id) = table

pub record CrdtRecord : Type 0 where
  pub key : ℤ
  pub values : List Value
  pub timestamp : ℕ
  pub node_id : String
  pub is_deleted : Bool

unfoldable pub new_record : ℤ → List Value → ℕ → String → CrdtRecord
new_record key values timestamp node_id = record {
  key = key;
  values = values;
  timestamp = timestamp;
  node_id = node_id;
  is_deleted = false;
}

-- `a > b` on node ids.
abbrev pub node_gtb : String → String → Bool
node_gtb a b = elim (compare a b) [ Ordering.gt ↦ true | _ ↦ false ]

-- The merged record, and whether the other one won.
unfoldable pub merge : CrdtRecord → CrdtRecord → Bool × CrdtRecord
merge r other =
    if ltb r.timestamp other.timestamp
    then (
      true,
      record r {
        values = other.values;
        timestamp = other.timestamp;
        node_id = other.node_id;
        is_deleted = other.is_deleted;
      },
    )
    else if nat_beq other.timestamp r.timestamp
    then (if node_gtb other.node_id r.node_id
        then (
          true,
          record r {
            values = other.values;
            node_id = other.node_id;
            is_deleted = other.is_deleted;
          },
        )
        else (false, r))
    else (false, r)

unfoldable pub delete_record : CrdtRecord → ℕ → String → CrdtRecord
delete_record r timestamp node_id =
    if ltb r.timestamp timestamp
    then record r { is_deleted = true; timestamp = timestamp; node_id = node_id }
    else r

abbrev pub Table : Type 0
Table = List (ℤ × CrdtRecord)

-- `BTreeMap::insert`: the key takes its place in the order.
unfoldable pub insert_ordered : ℤ → CrdtRecord → Table → Table
insert_ordered k r [] = (k, r) ∷ []
insert_ordered k r ((j, s) ∷ m) =
    let rest = insert_ordered k r m in
    if j == k then (k, r) ∷ m else if int_ltb k j then (k, r) ∷ ((j, s) ∷ m) else (j, s) ∷ rest

pub record CrdtStore : Type 0 where
  pub node_id : String
  pub state : List (String × Table)
  pub operation_log : List CrdtOperation
  pub vector_clock : List (String × ℕ)
  pub lamport_clock : ℕ

unfoldable pub new_store : String → CrdtStore
new_store node_id = record {
  node_id = node_id;
  state = [];
  operation_log = [];
  vector_clock = insert node_id 0 [];
  lamport_clock = 1;
}

-- `max + 1` on 64 bits.
unfoldable pub update_timestamp : CrdtStore → ℕ → CrdtStore
update_timestamp s received = record s { lamport_clock = add_u64 (max received s.lamport_clock) 1 }

unfoldable pub table_state : CrdtStore → String → Table
table_state s table = elim (lookup table s.state) [ none ↦ [] | some t ↦ t ]

-- What an operation leaves at its key; the records of a delete that finds none stay as they are.
unfoldable pub applied : CrdtOperation → Table → Table
unfolding new_record
applied (inserted table key values timestamp node_id) t =
    insert_ordered key (new_record key values timestamp node_id) t
applied (updated table key values timestamp node_id) t = elim (lookup key t) [
  | none ↦ insert_ordered key (new_record key values timestamp node_id) t
  | some existing ↦
      insert_ordered key (merge existing (new_record key values timestamp node_id)).1 t
]
applied (deleted table key timestamp node_id) t = elim (lookup key t) [
  | none ↦ t
  | some existing ↦ insert_ordered key (delete_record existing timestamp node_id) t
]

unfoldable pub apply_operation : CrdtStore → CrdtOperation → CrdtStore
unfolding table_of
apply_operation s op = record s {
  state = insert (table_of op) (applied op (table_state s (table_of op))) s.state;
}

unfoldable pub update_vector_clock : CrdtStore → ℕ → CrdtStore
update_vector_clock s timestamp = record s {
  vector_clock =
      insert s.node_id
        (elim (lookup s.node_id s.vector_clock) [ none ↦ timestamp | some t ↦ max t timestamp ])
        s.vector_clock;
}

-- The common tail of `insert`, `update` and `delete`: the clock ticks, and the operation with the
-- old reading is applied, logged and noted.
unfoldable pub perform : CrdtStore → (ℕ → String → CrdtOperation) → CrdtStore
perform s make =
    let op = make s.lamport_clock s.node_id in
    let done = apply_operation (record s { lamport_clock = add_u64 s.lamport_clock 1 }) op in
    update_vector_clock (record done { operation_log = done.operation_log ++ (op ∷ []) })
      s.lamport_clock

unfoldable pub insert_row : CrdtStore → String → ℤ → List Value → CrdtStore
insert_row s table key values =
    perform s (λ timestamp node_id. inserted table key values timestamp node_id)

unfoldable pub update_row : CrdtStore → String → ℤ → List Value → CrdtStore
update_row s table key values =
    perform s (λ timestamp node_id. updated table key values timestamp node_id)

unfoldable pub delete_row : CrdtStore → String → ℤ → CrdtStore
delete_row s table key = perform s (λ timestamp node_id. deleted table key timestamp node_id)

unfoldable pub merge_operation : CrdtStore → CrdtOperation → CrdtStore
unfolding timestamp_of node_id_of
merge_operation s op =
    let done = apply_operation (update_timestamp s (timestamp_of op)) op in
    let known =
      any (λ o. nat_beq (timestamp_of o) (timestamp_of op) && (node_id_of o == node_id_of op))
        done.operation_log in
    let logged =
      if known then done else record done { operation_log = done.operation_log ++ (op ∷ []) } in
    update_vector_clock logged (timestamp_of op)

unfoldable pub merge_operations : CrdtStore → List CrdtOperation → CrdtStore
merge_operations s [] = s
merge_operations s (op ∷ ops) = merge_operations (merge_operation s op) ops

unfoldable pub get_operations_since : CrdtStore → ℕ → List CrdtOperation
get_operations_since s timestamp = filter (λ op. ltb timestamp (timestamp_of op)) s.operation_log

unfoldable pub get_record : CrdtStore → String → ℤ → Option CrdtRecord
get_record s table key = elim (lookup table s.state) [ none ↦ none | some t ↦ lookup key t ]

-- The least reading of a vector clock, 0 when it is empty.
unfoldable pub min_reading : List (String × ℕ) → ℕ
min_reading [] = 0
min_reading ((node, t) ∷ []) = t
min_reading ((node, t) ∷ (x ∷ xs)) = min t (min_reading (x ∷ xs))

unfoldable pub prune_operations : CrdtStore → CrdtStore
prune_operations s = if leb (length s.vector_clock) 1 then s else record s {
  operation_log = filter (λ op. ltb (min_reading s.vector_clock) (timestamp_of op)) s.operation_log;
}

unfoldable pub generate_sync_message : CrdtStore → List (String × ℕ) → List CrdtOperation
generate_sync_message s peer_vector_clock = get_operations_since s (min_reading peer_vector_clock)
