-- ===== src/Cdc/Tests.antt =====
-- The change log theorem at a log with room for one event and two staged changes.
use velocidb.Prelude.{
  max, ◌-◌, ◌+◌, length, drop, [], ◌∷◌, ◌++◌, drop, none, true, ◌≡◌, refl, arith, pos,
}
use velocidb.Cdc.{CdcManager, StagedChange, inserted, deleted, publish_staged, changes_since}
use velocidb.Cdc.Polling.{changes_since-IsLogged}
use velocidb.Cdc.Sequence.{IsLogged, numbered, publish_staged-IsLogged}

abbrev insertion : StagedChange
insertion = record { table = "t"; op = inserted; rowid = pos 1; before = none; after = none }

abbrev deletion : StagedChange
deletion = record { table = "t"; op = deleted; rowid = pos 1; before = none; after = none }

abbrev capturing : CdcManager
capturing = record {
  enabled = true;
  next_seq = 1;
  capacity = 1;
  log = [];
  staged = insertion ∷ deletion ∷ [];
}

capturing-IsLogged : IsLogged capturing [] 1
unfolding numbered drop
capturing-IsLogged = record { next = refl; kept = refl }

publish_staged-IsLogged_example :
    IsLogged (publish_staged capturing) ([] ++ capturing.staged) 1
    × ((publish_staged capturing).staged ≡ [])
publish_staged-IsLogged_example =
    publish_staged-IsLogged capturing [] 1 refl (omega arith) (omega arith) capturing-IsLogged

published-IsLogged : IsLogged (publish_staged capturing) capturing.staged 1
published-IsLogged =
    (publish_staged-IsLogged capturing [] 1 refl (omega arith) (omega arith) capturing-IsLogged).0

changes_since-IsLogged_example :
    changes_since (publish_staged capturing) 1
    ≡ drop
        (max (length capturing.staged - (publish_staged capturing).capacity) (1 + 1 - 1))
        (numbered 1 capturing.staged)
changes_since-IsLogged_example =
    changes_since-IsLogged (publish_staged capturing) capturing.staged 1 1 published-IsLogged
