-- ===== src/Cdc.antt =====
-- Change data capture, src/cdc.rs: staged changes of a write group, and the bounded log of published
-- ones. A row is its list of values. A call is one step: no other thread runs inside it.
pub mod Sequence
pub mod Polling
mod Tests
use velocidb.Prelude.{
  ℕ, zero, suc, ◌+◌, ◌-◌, ◌%◌, Bool, true, false, not, List, [], ◌∷◌, ◌++◌, Option, none, some, ltb,
  leb, if◌then◌else◌, length, filter, take, drop, String, ℤ,
}
use velocidb.Prelude.Words.{add_u64, u64_mod}
use velocidb.Types.{Value}

pub data ChangeOp : Type 0 where
  inserted updated deleted : ChangeOp

abbrev pub Row : Type 0
Row = List Value

pub record StagedChange : Type 0 where
  pub table : String
  pub op : ChangeOp
  pub rowid : ℤ
  pub before : Option Row
  pub after : Option Row

pub record ChangeEvent : Type 0 where
  pub seq : ℕ
  pub table : String
  pub op : ChangeOp
  pub rowid : ℤ
  pub before : Option Row
  pub after : Option Row

pub record CdcManager : Type 0 where
  pub enabled : Bool
  pub next_seq : ℕ
  pub capacity : ℕ
  pub log : List ChangeEvent
  pub staged : List StagedChange

unfoldable pub with_capacity : ℕ → CdcManager
with_capacity capacity = record {
  enabled = false;
  next_seq = 1;
  capacity = capacity;
  log = [];
  staged = [];
}

abbrev pub default_cdc_capacity : ℕ
default_cdc_capacity = 65536

unfoldable pub enable : CdcManager → CdcManager
enable m = record m { enabled = true }

unfoldable pub disable : CdcManager → CdcManager
disable m = record m { enabled = false; log = []; staged = [] }

-- `record`, with the fields of the event as a staged change.
unfoldable pub record_change : CdcManager → StagedChange → CdcManager
record_change m c =
    let event : ChangeEvent = record {
      seq = m.next_seq;
      table = c.table;
      op = c.op;
      rowid = c.rowid;
      before = c.before;
      after = c.after;
    } in
    if not m.enabled then m else record m {
      next_seq = add_u64 m.next_seq 1;
      log = (if leb m.capacity (length m.log) then drop 1 m.log else m.log) ++ (event ∷ []);
    }

unfoldable pub stage : CdcManager → StagedChange → CdcManager
stage m c = if not m.enabled then m else record m { staged = m.staged ++ (c ∷ []) }

abbrev pub staged_mark : CdcManager → ℕ
staged_mark m = length m.staged

unfoldable pub discard_staged_from : CdcManager → ℕ → CdcManager
discard_staged_from m mark = record m { staged = take mark m.staged }

unfoldable pub record_all : CdcManager → List StagedChange → CdcManager
record_all m [] = m
record_all m (c ∷ cs) = record_all (record_change m c) cs

unfoldable pub publish_staged : CdcManager → CdcManager
publish_staged m = record_all (record m { staged = [] }) m.staged

unfoldable pub changes_since : CdcManager → ℕ → List ChangeEvent
changes_since m since = filter (λ e. ltb since e.seq) m.log

-- `next_seq - 1` on 64 bits.
unfoldable pub latest_seq : CdcManager → ℕ
latest_seq m = (m.next_seq + u64_mod - 1) % u64_mod
