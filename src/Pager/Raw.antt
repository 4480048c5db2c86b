-- ===== src/Pager/Raw.antt =====
-- The raw page writes that checkpoints and recovery of src/storage.rs make.
use velocidb.Prelude.{
  ℕ, ◌+◌, ◌*◌, ◌^◌, ◌≤◌, ◌<◌, ◌≡◌, refl, ap, sym, ◌∙◌, true, List, some, arith, leb, nat_beq,
  nat_beq_iff, length, take, length-take, Bool-cases, inl, inr, ◌⊎◌, ok, ◌≢◌,
}
use velocidb.Disk.{write_at, read-write_self, read-write_ne}
use velocidb.Wal.{page_size}
use velocidb.Pager.State.{
  Page, Pager, RawIo, raw_done, raw_seek_failed, raw_write_failed, write_page_raw, offset_of,
}
use velocidb.Pager.Views.{on_disk}

on_disk-write_self :
    (file : List ℕ) (page_id : ℕ) (page : Page)
    → page_id < 2 ^ 52
    → length page ≡ page_size
    → on_disk (write_at file (offset_of page_id) page) page_id ≡ some page
unfolding on_disk
on_disk-write_self file page_id page h l =
    ap (λ o. on_disk (write_at file o page) page_id) {x = offset_of page_id}
      {y = page_id * page_size} (omega arith)
    ∙ read-write_self file page (page_id * page_size) page_size (sym l) (omega arith)

-- A write of a page, or of a part of it, leaves the other pages of the file.
on_disk-write_ne :
    (file : List ℕ) (page_id j : ℕ) (bytes : List ℕ) (v : Page)
    → page_id < 2 ^ 52
    → length bytes ≤ page_size
    → page_id ≢ j
    → on_disk file j ≡ some v
    → on_disk (write_at file (offset_of page_id) bytes) j ≡ some v
unfolding on_disk
on_disk-write_ne file page_id j bytes v h l n e =
    ap (λ o. on_disk (write_at file o bytes) j) {x = offset_of page_id} {y = page_id * page_size}
      (omega arith)
    ∙ read-write_ne file bytes (page_id * page_size) (j * page_size) page_size v
        (apart page_id j n l) e
  where
    apart :
        (a b : ℕ)
        → a ≢ b
        → length bytes ≤ page_size
        → (b * page_size + page_size ≤ a * page_size)
          ⊎ (a * page_size + length bytes ≤ b * page_size)
    apart a b m k = elim (Bool-cases (leb a b)) [
      | inl t ↦ inr (ground arith)
      | inr t ↦ inl (ground arith)
    ]

-- A raw write of a whole page below page 2^52 whose calls succeed succeeds: the data file then
-- has this page, and the page is among those counted.
pub write_page_raw-done :
    (p : Pager) (page_id : ℕ) (page : Page)
    → page_id < 2 ^ 52
    → length page ≡ page_size
    → let r = write_page_raw p page_id page raw_done in
      (r.0 ≡ ok tt) × (on_disk r.1.file page_id ≡ some page) × (page_id < r.1.num_pages)
unfolding write_page_raw
write_page_raw-done p page_id page h l =
    let whole = (nat_beq_iff (length page) page_size).1 l in
    (
      rw (whole, write_page_raw) refl,
      rw (whole, write_page_raw) (on_disk-write_self p.file page_id page h l),
      rw (whole, write_page_raw) (ground (arith, h)),
    )

-- A raw write of a page below page 2^52, whole, failed or cut short at any byte, leaves every
-- other page of the data file as it was.
pub write_page_raw-keeps :
    (p : Pager) (page_id : ℕ) (page : Page) (outcome : RawIo) (j : ℕ) (v : Page)
    → page_id < 2 ^ 52
    → page_id ≢ j
    → on_disk p.file j ≡ some v
    → on_disk (write_page_raw p page_id page outcome).1.file j ≡ some v
unfolding write_page_raw
write_page_raw-keeps p page_id page outcome j v h n e =
    elim (Bool-cases (nat_beq (length page) page_size)) [
      | inl t ↦ whole outcome t
      | inr t ↦ rw (t, write_page_raw) e
    ]
  where
    whole :
        (outcome : RawIo)
        → nat_beq (length page) page_size ≡ true
        → on_disk (write_page_raw p page_id page outcome).1.file j ≡ some v
    whole raw_done t =
        rw (t, write_page_raw)
          (on_disk-write_ne p.file page_id j page v h
            (omega (arith, (nat_beq_iff (length page) page_size).0 t)) n e)
    whole raw_seek_failed t = rw (t, write_page_raw) e
    whole (raw_write_failed k) t =
        rw (t, write_page_raw)
          (on_disk-write_ne p.file page_id j (take k page) v h
            (omega (arith, length-take k page, (nat_beq_iff (length page) page_size).0 t)) n e)
