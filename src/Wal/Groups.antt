-- ===== src/Wal/Groups.antt =====
-- Groups in the log of src/wal.rs, as `append_group` lays them out, and as the second loop of
-- `read_committed_groups` collects them.
use velocidb.Prelude.{
  ℕ, ◌+◌, ◌^◌, ◌<◌, ◌≡◌, refl, ap, sym, ◌∙◌, List, [], ◌∷◌, ◌++◌, arith, nat_eq, lt→ltb,
  nat_beq_iff, le→ltb-false, ltb, Bool-cases, inl, inr, ltb-false→le, length, slice, slice-mid,
  append_assoc, append_nil, length-append, ok, ◌-◌,
}
use velocidb.Prelude.Words.{
  to_le_bytes, from_le_bytes, length-to_le_bytes, from_le_bytes-to_le_bytes,
}
use velocidb.Prelude.Map.{lookup, insert, remove}
use velocidb.Wal.{
  ParsedRecord, CommittedGroup, Writes, page_size, rec_page_write, rec_commit, page_payload,
  or_default, collect_groups,
}
use velocidb.Wal.Records.{record_bytes}
use velocidb.Wal.Scan.{AllFit, AllFit-append, records_bytes, whole}

-- The pages of a group have ids of 64 bits and whole contents.
abbrev pub AllPages : Writes → Type 0
AllPages [] = Unit {0}
AllPages ((page_id, bytes) ∷ ws) = (page_id < 2 ^ 64) × (length bytes ≡ page_size) × AllPages ws

abbrev pub page_record : ℕ → ℕ → List ℕ → ParsedRecord
page_record group_id page_id bytes = record {
  rec_type = rec_page_write;
  group_id = group_id;
  payload = page_payload page_id bytes;
}

abbrev pub commit_record : ℕ → ParsedRecord
commit_record group_id = record { rec_type = rec_commit; group_id = group_id; payload = [] }

unfoldable pub page_records : ℕ → Writes → List ParsedRecord
page_records group_id [] = []
page_records group_id ((page_id, bytes) ∷ ws) =
    page_record group_id page_id bytes ∷ page_records group_id ws

abbrev pub group_records : CommittedGroup → List ParsedRecord
group_records g = page_records g.group_id g.writes ++ commit_record g.group_id ∷ []

pub record IsWritable (g : CommittedGroup) : Type 0 where
  pub id_fits : g.group_id < 2 ^ 64
  pub pages : AllPages g.writes

abbrev pub AllWritable : List CommittedGroup → Type 0
AllWritable [] = Unit {0}
AllWritable (g ∷ gs) = IsWritable g × AllWritable gs

unfoldable pub log_records : List CommittedGroup → List ParsedRecord
log_records [] = []
log_records (g ∷ gs) = group_records g ++ log_records gs

pub length-page_payload :
    (page_id : ℕ) (bytes : List ℕ) → length (page_payload page_id bytes) ≡ 8 + length bytes
length-page_payload page_id bytes =
    omega (arith, length-append (to_le_bytes 8 page_id) bytes, length-to_le_bytes 8 page_id)

page_records-AllFit : (g : ℕ) (ws : Writes) → g < 2 ^ 64 → AllPages ws → AllFit (page_records g ws)
unfolding page_records
page_records-AllFit g [] h a = tt
page_records-AllFit g ((page_id, bytes) ∷ ws) h a = (
  record { group_fits = h; payload_fits = omega (arith, length-page_payload page_id bytes, a.1) },
  page_records-AllFit g ws h a.2,
)

pub group_records-AllFit : (g : CommittedGroup) → IsWritable g → AllFit (group_records g)
group_records-AllFit g h =
    AllFit-append (page_records g.group_id g.writes) (commit_record g.group_id ∷ [])
      (page_records-AllFit g.group_id g.writes h.id_fits h.pages)
      (record { group_fits = h.id_fits; payload_fits = omega arith }, tt)

pub log_records-AllFit : (gs : List CommittedGroup) → AllWritable gs → AllFit (log_records gs)
unfolding log_records
log_records-AllFit [] h = tt
log_records-AllFit (g ∷ gs) h =
    AllFit-append (group_records g) (log_records gs) (group_records-AllFit g h.0)
      (log_records-AllFit gs h.1)

pub log_records-append :
    (gs : List CommittedGroup) (g : CommittedGroup)
    → log_records (gs ++ g ∷ []) ≡ log_records gs ++ group_records g
unfolding log_records
log_records-append [] g = append_nil (group_records g)
log_records-append (h ∷ gs) g =
    ap (λ l. group_records h ++ l) (log_records-append gs g)
    ∙ sym (append_assoc (group_records h) (log_records gs) (group_records g))

-- What waits for one group that is being read: nothing before its first page.
abbrev pending_of : ℕ → Writes → List (ℕ × Writes)
pending_of g [] = []
pending_of g (w ∷ ws) = (g, w ∷ ws) ∷ []

or_default-pending_of : (g : ℕ) (ws : Writes) → or_default (lookup g (pending_of g ws)) ≡ ws
unfolding lookup
or_default-pending_of g [] = refl
or_default-pending_of g (w ∷ ws) = rw ((nat_beq_iff g g).1 refl) refl

insert-pending_of :
    (g : ℕ) (ws : Writes) (page_id : ℕ) (bytes : List ℕ)
    → insert g (ws ++ (page_id, bytes) ∷ []) (pending_of g ws)
      ≡ pending_of g (ws ++ (page_id, bytes) ∷ [])
unfolding insert
insert-pending_of g [] page_id bytes = refl
insert-pending_of g (w ∷ ws) page_id bytes = rw ((nat_beq_iff g g).1 refl) refl

remove-pending_of : (g : ℕ) (ws : Writes) → remove g (pending_of g ws) ≡ []
unfolding remove
remove-pending_of g [] = refl
remove-pending_of g (w ∷ ws) = rw ((nat_beq_iff g g).1 refl) refl

collect-page :
    (pending : List (ℕ × Writes)) (acc : List CommittedGroup) (g page_id : ℕ) (bytes : List ℕ)
    (rs : List ParsedRecord)
    → page_id < 2 ^ 64
    → length bytes ≡ page_size
    → collect_groups pending acc (page_record g page_id bytes ∷ rs)
      ≡ collect_groups
          (insert g (or_default (lookup g pending) ++ (page_id, bytes) ∷ []) pending)
          acc
          rs
unfolding collect_groups
collect-page pending acc g page_id bytes rs h l =
    rw
      (
        le→ltb-false (length (page_payload page_id bytes)) (8 + page_size)
            (omega (arith, length-page_payload page_id bytes)),
        id_eq,
        bytes_eq,
      )
      refl
  where
    id_eq : from_le_bytes (slice 0 8 (page_payload page_id bytes)) ≡ page_id
    id_eq =
        ap from_le_bytes (
          slice-mid [] (to_le_bytes 8 page_id) bytes 0 8 (omega arith)
            (omega (arith, length-to_le_bytes 8 page_id)))
        ∙ from_le_bytes-to_le_bytes 8 page_id h

    bytes_eq : slice 8 (8 + page_size) (page_payload page_id bytes) ≡ bytes
    bytes_eq =
        ap (λ b. slice 8 (8 + page_size) (to_le_bytes 8 page_id ++ b)) (sym (append_nil bytes))
        ∙ slice-mid (to_le_bytes 8 page_id) bytes [] 8 (8 + page_size)
            (omega (arith, length-to_le_bytes 8 page_id)) (omega arith)

collect-commit :
    (pending : List (ℕ × Writes)) (acc : List CommittedGroup) (g : ℕ) (rs : List ParsedRecord)
    → collect_groups pending acc (commit_record g ∷ rs)
      ≡ collect_groups
          (remove g pending)
          (acc ++ record { group_id = g; writes = or_default (lookup g pending) } ∷ [])
          rs
unfolding collect_groups
collect-commit pending acc g rs = refl

-- The rest of a group, when the pages `done` have been read.
collect-pages :
    (g : ℕ) (done ws : Writes) (acc : List CommittedGroup) (rs : List ParsedRecord)
    → AllPages ws
    → collect_groups (pending_of g done) acc (page_records g ws ++ commit_record g ∷ rs)
      ≡ collect_groups [] (acc ++ record { group_id = g; writes = done ++ ws } ∷ []) rs
unfolding page_records
collect-pages g done [] acc rs a =
    collect-commit (pending_of g done) acc g rs
    ∙ (ap
          (λ p.
            collect_groups p
              (acc
                ++ record { group_id = g; writes = or_default (lookup g (pending_of g done)) } ∷ [])
              rs)
          (remove-pending_of g done)
        ∙ ap (λ ws. collect_groups [] (acc ++ record { group_id = g; writes = ws } ∷ []) rs)
            (or_default-pending_of g done ∙ sym (append_nil done)))
collect-pages g done ((page_id, bytes) ∷ ws) acc rs a =
    collect-page (pending_of g done) acc g page_id bytes (page_records g ws ++ commit_record g ∷ rs)
      a.0 a.1
    ∙ (ap (λ p. collect_groups p acc (page_records g ws ++ commit_record g ∷ rs)) buffered
        ∙ (collect-pages g (done ++ (page_id, bytes) ∷ []) ws acc rs a.2
            ∙ ap (λ l. collect_groups [] (acc ++ record { group_id = g; writes = l } ∷ []) rs)
                (append_assoc done ((page_id, bytes) ∷ []) ws)))
  where
    buffered :
        insert g
          (or_default (lookup g (pending_of g done)) ++ (page_id, bytes) ∷ [])
          (pending_of g done)
        ≡ pending_of g (done ++ (page_id, bytes) ∷ [])
    buffered =
        ap (λ l. insert g (l ++ (page_id, bytes) ∷ []) (pending_of g done))
          (or_default-pending_of g done)
        ∙ insert-pending_of g done page_id bytes

-- A whole log is collected to its groups, in order, before whatever follows it.
pub collect-log :
    (gs acc : List CommittedGroup) (rs : List ParsedRecord)
    → AllWritable gs
    → collect_groups [] acc (log_records gs ++ rs) ≡ collect_groups [] (acc ++ gs) rs
unfolding log_records
collect-log [] acc rs h = ap (λ a. collect_groups [] a rs) (sym (append_nil acc))
collect-log (g ∷ gs) acc rs h =
    ap (collect_groups [] acc) (
      append_assoc (group_records g) (log_records gs) rs
      ∙ append_assoc (page_records g.group_id g.writes) (commit_record g.group_id ∷ [])
          (log_records gs ++ rs))
    ∙ (collect-pages g.group_id [] g.writes acc (log_records gs ++ rs) h.0.pages
        ∙ (collect-log gs (acc ++ g ∷ []) rs h.1
            ∙ ap (λ a. collect_groups [] a rs) (append_assoc acc (g ∷ []) gs)))

-- The page records of a group whose COMMIT record is missing are dropped.
pub collect-torn :
    (crc32 : List ℕ → ℕ) (pending : List (ℕ × Writes)) (acc : List CommittedGroup) (g : ℕ)
    (ws : Writes) (k : ℕ)
    → AllPages ws
    → k < length (records_bytes crc32 (page_records g ws ++ commit_record g ∷ []))
    → collect_groups pending acc (whole crc32 k (page_records g ws ++ commit_record g ∷ []))
      ≡ ok acc
unfolding page_records whole
collect-torn crc32 pending acc g [] k a h =
    rw
      (
        lt→ltb k (length (record_bytes crc32 (commit_record g)))
            (omega (arith, length-append (record_bytes crc32 (commit_record g)) [])),
        whole,
      )
      (unfold collect_groups in refl)
collect-torn crc32 pending acc g ((page_id, bytes) ∷ ws) k a h =
    elim (Bool-cases (ltb k (length (record_bytes crc32 (page_record g page_id bytes))))) [
      | inl torn ↦ rw (torn, whole) (unfold collect_groups in refl)
      | inr all ↦
          rw (all, whole)
            (collect-page pending acc g page_id bytes _ a.0 a.1
              ∙ collect-torn crc32
                  (insert g (or_default (lookup g pending) ++ (page_id, bytes) ∷ []) pending) acc g
                  ws (k - length (record_bytes crc32 (page_record g page_id bytes))) a.2
                  (omega (
                    arith,
                    ltb-false→le _ _ all,
                    length-append (record_bytes crc32 (page_record g page_id bytes))
                        (records_bytes crc32 (page_records g ws ++ commit_record g ∷ [])),
                  )))
    ]
