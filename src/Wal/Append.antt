-- ===== src/Wal/Append.antt =====
-- What `append_group` of src/wal.rs leaves on disk on each of its outcomes.
use velocidb.Prelude.{
  ℕ, ◌+◌, ◌^◌, ◌<◌, ◌≡◌, refl, ap, sym, ◌∙◌, List, [], ◌∷◌, ◌++◌, arith, length, take,
  length-append, ok, err, io, true, false, Bool, ◌≢◌,
}
use velocidb.Prelude.Words.{u64_mod}
use velocidb.Disk.{set_len, write_at, write_at-end, set_len_self, set_len-append}
use velocidb.Wal.{
  CommittedGroup, WalManager, AppendIo, append_done, seek_failed, sync_failed, write_failed,
  append_group, write_buffer, finish_append, read_committed_groups,
}
use velocidb.Wal.Groups.{IsWritable}
use velocidb.Wal.Log.{
  Holds, group_bytes, log_bytes, log_bytes-append, append_group-buffer, AllWritable-append,
  read_committed_groups-prefix, read_committed_groups-Holds,
}

module _ (crc32 : List ℕ → ℕ) (crc32_u32 : (bs : List ℕ) → crc32 bs < 2 ^ 32) (w : WalManager)
    (gs : List CommittedGroup) (g : CommittedGroup) (h : Holds crc32 gs w) (k : IsWritable g) where
  written-file : (bytes : List ℕ) → write_at w.file w.len bytes ≡ log_bytes crc32 gs ++ bytes
  written-file bytes = write_at-end w.file bytes w.len h.measured ∙ ap (λ f. f ++ bytes) h.stored

  whole-file : write_at w.file w.len (group_bytes crc32 g) ≡ log_bytes crc32 (gs ++ g ∷ [])
  whole-file = written-file (group_bytes crc32 g) ∙ sym (log_bytes-append crc32 gs g)

  cut-file : (bytes : List ℕ) → set_len w.len (write_at w.file w.len bytes) ≡ w.file
  cut-file bytes =
      ap (set_len w.len) (write_at-end w.file bytes w.len h.measured)
      ∙ set_len-append w.len w.file bytes h.measured

  still-Holds : {v : WalManager} → v.file ≡ w.file → v.len ≡ w.len → Holds crc32 gs v
  still-Holds e l = record {
    stored = e ∙ h.stored;
    measured = l ∙ (h.measured ∙ ap length (sym e));
    writable = h.writable;
  }

  -- When the WAL holds some groups and a group of whole pages that fits is appended with
  -- every I/O call succeeding, the append succeeds, the WAL holds the new group behind the
  -- earlier ones, and a scan returns them all in order.
  pub append_group-committed :
      (cut : Bool)
      → w.len + length (group_bytes crc32 g) < u64_mod
      → let r = append_group crc32 w g.group_id g.writes append_done cut in
        (r.0 ≡ ok tt)
        × Holds crc32 (gs ++ g ∷ []) r.1
        × ((read_committed_groups crc32 r.1 true).0 ≡ ok (gs ++ g ∷ []))
  unfolding finish_append write_buffer
  append_group-committed cut fits =
      rw (append_group-buffer crc32 w g append_done cut k.pages)
        (refl, holds, read_committed_groups-Holds crc32 crc32_u32 _ (gs ++ g ∷ []) holds)
    where
      holds :
          Holds crc32
            (gs ++ g ∷ [])
            (finish_append
              (group_bytes crc32 g)
              cut
              (write_buffer w (group_bytes crc32 g) append_done)).1
      holds = record {
        stored = whole-file;
        measured = omega (
          arith,
          h.measured,
          ap length (written-file (group_bytes crc32 g)),
          ap length h.stored,
          length-append (log_bytes crc32 gs) (group_bytes crc32 g),
        );
        writable = AllWritable-append gs g h.writable k;
      }

  -- An append that fails at its seek, its write or its fsync, when the file can be cut back,
  -- reports an I/O error and the WAL holds the groups that it held before.
  pub append_group-failed :
      (outcome : AppendIo)
      → outcome ≢ append_done
      → let r = append_group crc32 w g.group_id g.writes outcome true in
        (r.0 ≡ err io) × Holds crc32 gs r.1
  unfolding finish_append write_buffer
  append_group-failed append_done n = absurd (n refl)
  append_group-failed seek_failed n =
      rw (append_group-buffer crc32 w g seek_failed true k.pages)
        (refl, still-Holds (set_len_self w.len w.file h.measured) refl)
  append_group-failed sync_failed n =
      rw (append_group-buffer crc32 w g sync_failed true k.pages)
        (refl, still-Holds (cut-file _) refl)
  append_group-failed (write_failed j) n =
      rw (append_group-buffer crc32 w g (write_failed j) true k.pages)
        (refl, still-Holds (cut-file _) refl)

  -- When the write of a group stops before its last byte, whether the file is then cut back
  -- or not, the append reports an I/O error and a scan returns exactly the groups that the
  -- WAL held before.
  pub append_group-torn :
      (cut : Bool) (j : ℕ)
      → j < length (group_bytes crc32 g)
      → let r = append_group crc32 w g.group_id g.writes (write_failed j) cut in
        (r.0 ≡ err io) × ((read_committed_groups crc32 r.1 true).0 ≡ ok gs)
  unfolding finish_append write_buffer
  append_group-torn true j l =
      let (failed, holds) = append_group-failed (write_failed j) (λ e. absurd (cc e)) in
      (failed, read_committed_groups-Holds crc32 crc32_u32 _ gs holds)
  append_group-torn false j l = rw (append_group-buffer crc32 w g (write_failed j) false k.pages) (
    refl,
    read_committed_groups-prefix crc32 crc32_u32 _ gs g j h.writable k l
        (written-file (take j (group_bytes crc32 g))),
  )

  -- When a group is written whole, its fsync fails and the file cannot be cut back, the
  -- append reports an I/O error, but a scan returns the group as committed behind the earlier
  -- ones.
  pub append_group-unsynced :
      let r = append_group crc32 w g.group_id g.writes sync_failed false in
      (r.0 ≡ err io) × ((read_committed_groups crc32 r.1 true).0 ≡ ok (gs ++ g ∷ []))
  unfolding finish_append write_buffer read_committed_groups
  append_group-unsynced = rw (append_group-buffer crc32 w g sync_failed false k.pages) (
    refl,
    read_committed_groups-Holds crc32 crc32_u32 whole (gs ++ g ∷ []) (record {
      stored = whole-file;
      measured = refl;
      writable = AllWritable-append gs g h.writable k;
    }),
  )
    where
      whole : WalManager
      whole = record w {
        file = write_at w.file w.len (group_bytes crc32 g);
        len = length (write_at w.file w.len (group_bytes crc32 g));
      }
