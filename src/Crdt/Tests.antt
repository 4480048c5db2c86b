-- ===== src/Crdt/Tests.antt =====
-- The replication theorems at an empty replica.
use velocidb.Prelude.{
  List, [], ◌∷◌, some, ◌≡◌, arith, pos, if◌then◌else◌, ◌&&◌, ◌==◌, string_eq, int_eq,
}
use velocidb.Types.{Value, integer}
use velocidb.Crdt.{
  CrdtStore, new_store, CrdtOperation, inserted, updated, table_of, new_record, apply_operation,
  get_record,
}
use velocidb.Crdt.Timestamps.{
  key_of, resolved, apply_operation-get_record, updates-commute, insert-order,
}

abbrev replica : CrdtStore
replica = new_store "a"

abbrev one : List Value
one = integer (pos 1) ∷ []

abbrev two : List Value
two = integer (pos 2) ∷ []

abbrev first_update : CrdtOperation
first_update = updated "t" (pos 1) one 1 "a"

abbrev second_update : CrdtOperation
second_update = updated "t" (pos 1) two 2 "b"

abbrev first_insert : CrdtOperation
first_insert = inserted "t" (pos 1) one 1 "a"

apply_operation-get_record_example :
    get_record (apply_operation replica first_update) "t" (pos 1) ≡ (
      if (table_of first_update == "t") && (key_of first_update == pos 1)
      then resolved first_update (get_record replica "t" (pos 1))
      else get_record replica "t" (pos 1))
apply_operation-get_record_example = apply_operation-get_record replica first_update "t" (pos 1)

updates-commute_example :
    get_record (apply_operation (apply_operation replica second_update) first_update) "t" (pos 1)
    ≡ get_record (apply_operation (apply_operation replica first_update) second_update) "t" (pos 1)
updates-commute_example =
    updates-commute replica "t" (pos 1) one two 1 2 "a" "b" (omega arith) "t" (pos 1)

insert-order_example :
    (get_record (apply_operation (apply_operation replica first_insert) second_update) "t" (pos 1)
      ≡ some (new_record (pos 1) two 2 "b"))
    × (get_record (apply_operation (apply_operation replica second_update) first_insert) "t" (pos 1)
        ≡ some (new_record (pos 1) one 1 "a"))
insert-order_example = insert-order replica "t" (pos 1) one two 1 2 "a" "b" (omega arith)
