-- ===== src/Wal/Log.antt =====
-- What src/wal.rs promises of the log as a whole: appended groups are read back, in order, and a
-- group that a crash or an error cut short is not.
use velocidb.Prelude.{
  ℕ, ◌+◌, ◌^◌, ◌<◌, ◌≡◌, refl, ap, sym, ◌∙◌, List, [], ◌∷◌, ◌++◌, arith, nat_eq, nat_beq_iff,
  length, take, take-append_ge, take-all, append_assoc, append_nil, ok, true, Bool,
}
use velocidb.Wal.{
  ParsedRecord, CommittedGroup, Writes, WalManager, AppendIo, rec_page_write, page_payload,
  encode_record, encode_pages, append_group, write_buffer, finish_append, read_committed_groups,
  parse_records, collect_groups, page_size,
}
use velocidb.Wal.Records.{record_bytes, encode_record_lem}
use velocidb.Wal.Scan.{
  records_bytes, records_bytes-append, parse_records-take, whole, whole-append, AllFit-append,
  whole-all,
}
use velocidb.Wal.Groups.{
  AllPages, AllWritable, IsWritable, page_records, page_record, commit_record, group_records,
  log_records, log_records-append, log_records-AllFit, group_records-AllFit, collect-log,
  collect-torn,
}

pub AllWritable-append :
    (gs : List CommittedGroup) (g : CommittedGroup)
    → AllWritable gs
    → IsWritable g
    → AllWritable (gs ++ g ∷ [])
AllWritable-append [] g hs h = (h, tt)
AllWritable-append (x ∷ gs) g hs h = (hs.0, AllWritable-append gs g hs.1 h)

module _ (crc32 : List ℕ → ℕ) where
  -- The bytes of a group and of a log, as the header of the source draws them.
  abbrev pub group_bytes : CommittedGroup → List ℕ
  group_bytes g = records_bytes crc32 (group_records g)

  abbrev pub log_bytes : List CommittedGroup → List ℕ
  log_bytes gs = records_bytes crc32 (log_records gs)

  -- The WAL holds these groups and nothing behind them.
  pub record Holds (gs : List CommittedGroup) (w : WalManager) : Type 0 where
    pub stored : w.file ≡ log_bytes gs
    pub measured : w.len ≡ length w.file
    pub writable : AllWritable gs

  pub log_bytes-append :
      (gs : List CommittedGroup) (g : CommittedGroup)
      → log_bytes (gs ++ g ∷ []) ≡ log_bytes gs ++ group_bytes g
  log_bytes-append gs g =
      ap (records_bytes crc32) (log_records-append gs g)
      ∙ records_bytes-append crc32 (log_records gs) (group_records g)

  encode_pages-ok :
      (g : ℕ) (buf : List ℕ) (ws : Writes)
      → AllPages ws
      → encode_pages crc32 buf g ws ≡ ok (buf ++ records_bytes crc32 (page_records g ws))
  unfolding encode_pages page_records
  encode_pages-ok g buf [] a = ap ok (sym (append_nil buf))
  encode_pages-ok g buf ((page_id, bytes) ∷ ws) a =
      rw ((nat_beq_iff (length bytes) page_size).1 a.1) (
        encode_pages-ok g (encode_record crc32 buf rec_page_write g (page_payload page_id bytes)) ws
          a.2
        ∙ ap ok (
            ap (λ b. b ++ records_bytes crc32 (page_records g ws))
              (encode_record_lem crc32 buf (page_record g page_id bytes))
            ∙ append_assoc buf (record_bytes crc32 (page_record g page_id bytes))
                (records_bytes crc32 (page_records g ws))))

  -- What `append_group` writes, whatever the outcome of the writing.
  pub append_group-buffer :
      (w : WalManager) (g : CommittedGroup) (outcome : AppendIo) (cut : Bool)
      → AllPages g.writes
      → append_group crc32 w g.group_id g.writes outcome cut
        ≡ finish_append (group_bytes g) cut (write_buffer w (group_bytes g) outcome)
  unfolding append_group
  append_group-buffer w g outcome cut a =
      rw (encode_pages-ok g.group_id [] g.writes a, append_group)
        (ap (λ b. finish_append b cut (write_buffer w b outcome))
          (encode_record_lem crc32 (records_bytes crc32 (page_records g.group_id g.writes))
              (commit_record g.group_id)
            ∙ sym (
                records_bytes-append crc32 (page_records g.group_id g.writes)
                  (commit_record g.group_id ∷ [])
                ∙ ap (λ b. records_bytes crc32 (page_records g.group_id g.writes) ++ b)
                    (append_nil (record_bytes crc32 (commit_record g.group_id))))))

  module _ (crc32_u32 : (bs : List ℕ) → crc32 bs < 2 ^ 32) where
    -- A log followed by a part of one more group without its end is read as the log.
    pub read_committed_groups-prefix :
        (w : WalManager) (gs : List CommittedGroup) (g : CommittedGroup) (k : ℕ)
        → AllWritable gs
        → IsWritable g
        → k < length (group_bytes g)
        → w.file ≡ log_bytes gs ++ take k (group_bytes g)
        → (read_committed_groups crc32 w true).0 ≡ ok gs
    unfolding read_committed_groups
    read_committed_groups-prefix w gs g k hs h l e =
        ap (collect_groups [] []) (
          ap (parse_records crc32 (length w.file)) cut
          ∙ (parse_records-take crc32 crc32_u32 all (length (log_bytes gs) + k) (length w.file)
                (AllFit-append (log_records gs) (group_records g) (log_records-AllFit gs hs)
                  (group_records-AllFit g h))
                (omega (arith, ap length cut))
              ∙ whole-append crc32 (log_records gs) (group_records g) k))
        ∙ (collect-log gs [] (whole crc32 k (group_records g)) hs
            ∙ collect-torn crc32 [] gs g.group_id g.writes k h.pages l)
      where
        all : List ParsedRecord
        all = log_records gs ++ group_records g

        cut : w.file ≡ take (length (log_bytes gs) + k) (records_bytes crc32 all)
        cut =
            e
            ∙ sym (
                ap (take (length (log_bytes gs) + k))
                  (records_bytes-append crc32 (log_records gs) (group_records g))
                ∙ (take-append_ge (log_bytes gs) (group_bytes g) (length (log_bytes gs) + k)
                      (omega arith)
                    ∙ ap (λ n. log_bytes gs ++ take n (group_bytes g)) (omega arith)))

    -- A whole log is read as its groups, in order.
    pub read_committed_groups-Holds :
        (w : WalManager) (gs : List CommittedGroup)
        → Holds gs w
        → (read_committed_groups crc32 w true).0 ≡ ok gs
    unfolding read_committed_groups
    read_committed_groups-Holds w gs h =
        ap (collect_groups [] []) (
          ap (parse_records crc32 (length w.file)) cut
          ∙ (parse_records-take crc32 crc32_u32 (log_records gs) (length (log_bytes gs))
                (length w.file) (log_records-AllFit gs h.writable) (omega (arith, ap length cut))
              ∙ whole-all crc32 (log_records gs)))
        ∙ (ap (collect_groups [] []) (sym (append_nil (log_records gs)))
            ∙ (collect-log gs [] [] h.writable ∙ (unfold collect_groups in refl)))
      where
        cut : w.file ≡ take (length (log_bytes gs)) (log_bytes gs)
        cut = h.stored ∙ sym (take-all (log_bytes gs) (length (log_bytes gs)) (omega arith))
