-- ===== src/Pager/Batches.antt =====
-- The loops of raw page writes that checkpoints and recovery of src/storage.rs run.
use velocidb.Prelude.{
  ℕ, ◌^◌, ◌<◌, ◌≡◌, refl, ap, sym, ◌∙◌, true, List, [], ◌∷◌, Option, none, some, arith, nat_beq,
  nat_beq_iff, nat_eq, if◌then◌else◌, length, Bool-cases, inl, inr, Result, ok, err, panic,
  Result-cases,
}
use velocidb.Wal.{Writes, page_size}
use velocidb.Pager.State.{
  Page, Pager, RawIo, raw_done, raw_seek_failed, raw_write_failed, write_page_raw, write_pages_raw,
  first_or_done, rest_of,
}
use velocidb.Pager.Views.{on_disk, or_else}
use velocidb.Pager.Raw.{write_page_raw-done, write_page_raw-keeps}

-- The last write of a page in a sequence of writes.
unfoldable pub written : Writes → ℕ → Option Page
written [] j = none
written ((page_id, page) ∷ ws) j =
    or_else (written ws j) (if nat_beq page_id j then some page else none)

-- Whole pages at offsets that fit 64 bits.
abbrev pub AllPlaced : Writes → Type 0
AllPlaced [] = Unit {0}
AllPlaced ((page_id, page) ∷ ws) = (page_id < 2 ^ 52) × (length page ≡ page_size) × AllPlaced ws

-- `q` is `p` with another data file and page count.
abbrev pub Refiled : Pager → Pager → Type 0
Refiled p q = q ≡ record p { file = q.file; num_pages = q.num_pages }

write_page_raw-Refiled :
    (p : Pager) (page_id : ℕ) (page : Page) (outcome : RawIo)
    → Refiled p (write_page_raw p page_id page outcome).1
unfolding write_page_raw
write_page_raw-Refiled p page_id page outcome =
    elim (Bool-cases (nat_beq (length page) page_size)) [
      | inl t ↦ fits outcome t
      | inr t ↦ rw (t, write_page_raw) refl
    ]
  where
    fits :
        (outcome : RawIo)
        → nat_beq (length page) page_size ≡ true
        → Refiled p (write_page_raw p page_id page outcome).1
    fits raw_done t = rw (t, write_page_raw) refl
    fits raw_seek_failed t = rw (t, write_page_raw) refl
    fits (raw_write_failed n) t = rw (t, write_page_raw) refl

-- One round of the loop, for any property of its result.
round {ℓ} :
    (P : Result (Unit {0}) × Pager → Type ℓ) (p : Pager) (page_id : ℕ) (page : Page) (ws : Writes)
    (outcomes : List RawIo)
    → let q = (write_page_raw p page_id page (first_or_done outcomes)).1 in
      ((r : Result (Unit {0})) → P (r, q))
      → P (write_pages_raw q ws (rest_of outcomes))
      → P (write_pages_raw p ((page_id, page) ∷ ws) outcomes)
unfolding write_pages_raw
round P p page_id page ws outcomes stop next =
    elim (Result-cases (write_page_raw p page_id page (first_or_done outcomes)).0) [
      | inl (u, e) ↦ rw (e, write_pages_raw) next
      | inr f ↦ elim f [
        | inl (x, e) ↦ rw (e, write_pages_raw) (stop (err x))
        | inr e ↦ rw (e, write_pages_raw) (stop panic)
      ]
    ]

pub write_pages_raw-Refiled :
    (p : Pager) (ws : Writes) (outcomes : List RawIo) → Refiled p (write_pages_raw p ws outcomes).1
unfolding write_pages_raw
write_pages_raw-Refiled p [] outcomes = refl
write_pages_raw-Refiled p ((page_id, page) ∷ ws) outcomes =
    let q = (write_page_raw p page_id page (first_or_done outcomes)).1 in
    let a = write_page_raw-Refiled p page_id page (first_or_done outcomes) in
    round (λ x. Refiled p x.1) p page_id page ws outcomes (λ r. a)
      (let s = (write_pages_raw q ws (rest_of outcomes)).1 in
        write_pages_raw-Refiled q ws (rest_of outcomes)
        ∙ ap (λ (x : Pager). record x { file = s.file; num_pages = s.num_pages }) a)

-- The loop leaves a page of the data file that it does not write.
pub write_pages_raw-keeps :
    (p : Pager) (ws : Writes) (outcomes : List RawIo) (j : ℕ) (v : Page)
    → AllPlaced ws
    → written ws j ≡ none
    → on_disk p.file j ≡ some v
    → on_disk (write_pages_raw p ws outcomes).1.file j ≡ some v
unfolding write_pages_raw written
write_pages_raw-keeps p [] outcomes j v a n e = e
write_pages_raw-keeps p ((page_id, page) ∷ ws) outcomes j v a n e =
    let kept =
      write_page_raw-keeps p page_id page (first_or_done outcomes) j v a.0
        (ground (arith, nat_beq_iff page_id j)) e in
    round (λ x. on_disk x.1.file j ≡ some v) p page_id page ws outcomes (λ r. kept)
      (write_pages_raw-keeps (write_page_raw p page_id page (first_or_done outcomes)).1 ws
        (rest_of outcomes) j v a.2 (ground arith) kept)

-- When all its calls succeed, the loop succeeds and the file has every page as last written.
pub write_pages_raw-done :
    (p : Pager) (ws : Writes)
    → AllPlaced ws
    → let r = write_pages_raw p ws [] in
      (r.0 ≡ ok tt)
      × ((j : ℕ) (v : Page)
          → or_else (written ws j) (on_disk p.file j) ≡ some v
          → on_disk r.1.file j ≡ some v)
unfolding write_pages_raw written
write_pages_raw-done p [] a = (refl, λ j v e. e)
write_pages_raw-done p ((page_id, page) ∷ ws) a =
    let d = write_page_raw-done p page_id page a.0 a.1 in
    let q = (write_page_raw p page_id page raw_done).1 in
    let rest = write_pages_raw-done q ws a.2 in
    rw (d.0, write_pages_raw) (rest.0, λ j v e. rest.1 j v (later j v (written ws j) e))
  where
    later :
        (j : ℕ) (v : Page) (o : Option Page)
        → or_else (or_else o (if nat_beq page_id j then some page else none)) (on_disk p.file j)
          ≡ some v
        → or_else o (on_disk (write_page_raw p page_id page raw_done).1.file j) ≡ some v
    later j v (some u) e = e
    later j v none e = elim (Bool-cases (nat_beq page_id j)) [
      | inl same ↦
          let k = (nat_beq_iff page_id j).0 same in
          ap (on_disk (write_page_raw p page_id page raw_done).1.file) (sym k)
          ∙ ((write_page_raw-done p page_id page a.0 a.1).1 ∙ ground arith)
      | inr other ↦
          write_page_raw-keeps p page_id page raw_done j v a.0
            (ground (arith, nat_beq_iff page_id j)) (ground arith)
    ]
