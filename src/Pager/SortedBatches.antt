-- ===== src/Pager/SortedBatches.antt =====
-- The sorted pages that a checkpoint of src/storage.rs writes, and how their writes end.
use velocidb.Prelude.{
  ℕ, ◌^◌, ◌<◌, ◌≡◌, ◌≢◌, refl, ap, sym, ◌∙◌, Bool, true, false, ◌||◌, List, [], ◌∷◌, ◌++◌, none,
  some, arith, nat_beq, nat_beq_iff, nat_eq, if◌then◌else◌, length, Bool-cases, Option-cases, inl,
  inr, Result, ok, panic, Result-cases,
}
use velocidb.Prelude.Map.{lookup, lookup-insert}
use velocidb.Wal.{Writes, page_size}
use velocidb.Pager.State.{
  Page, Pages, Pager, RawIo, raw_done, raw_seek_failed, raw_write_failed, write_page_raw,
  write_pages_raw, first_or_done, rest_of, insert_sorted, sorted_keys, pages_of, sorted_pages,
  extend,
}
use velocidb.Pager.Views.{or_else}
use velocidb.Pager.Batches.{written, AllPlaced}

-- Membership of an id, as `sorted_keys` finds it.
abbrev has : ℕ → List ℕ → Bool
has j [] = false
has j (k ∷ ks) = nat_beq k j || has j ks

has-insert_sorted : (j k : ℕ) (ks : List ℕ) → has j (insert_sorted k ks) ≡ (nat_beq k j || has j ks)
unfolding insert_sorted
has-insert_sorted j k [] = refl
has-insert_sorted j k (i ∷ ks) = ground (arith, has-insert_sorted j k ks)

lookup-has : (j : ℕ) (m : Pages) → has j (sorted_keys m) ≡ false → lookup j m ≡ none
unfolding sorted_keys lookup
lookup-has j [] h = refl
lookup-has j ((k, page) ∷ m) h =
    ground (arith, has-insert_sorted j k (sorted_keys m), lookup-has j m)

written-pages_of :
    (m : Pages) (ids : List ℕ) (j : ℕ)
    → written (pages_of m ids) j ≡ (if has j ids then lookup j m else none)
unfolding pages_of written
written-pages_of m [] j = refl
written-pages_of m (id ∷ ids) j = elim (Option-cases (lookup id m)) [
  | inl n ↦ rw (n, pages_of) (ground (arith, written-pages_of m ids j, nat_beq_iff id j, n))
  | inr (page, s) ↦
      rw (s, pages_of, written) (ground (arith, written-pages_of m ids j, nat_beq_iff id j, s))
]

-- Writing the pages of a map in the order of their ids writes every page of the map.
pub written-sorted_pages : (m : Pages) (j : ℕ) → written (sorted_pages m) j ≡ lookup j m
unfolding sorted_pages
written-sorted_pages m j = ground (arith, written-pages_of m (sorted_keys m) j, lookup-has j m)

pub lookup-extend :
    (m pages : Pages) (j : ℕ) → lookup j (extend m pages) ≡ or_else (lookup j pages) (lookup j m)
unfolding extend lookup
lookup-extend m [] j = refl
lookup-extend m ((k, page) ∷ pages) j =
    ground (arith, lookup-insert k j page (extend m pages), lookup-extend m pages j)

pub written-append :
    (ws us : Writes) (j : ℕ) → written (ws ++ us) j ≡ or_else (written us j) (written ws j)
unfolding written
written-append [] us j = ground arith
written-append ((k, page) ∷ ws) us j = ground (arith, written-append ws us j)

pub AllPlaced-append : (ws us : Writes) → AllPlaced ws → AllPlaced us → AllPlaced (ws ++ us)
AllPlaced-append [] us a b = b
AllPlaced-append ((k, page) ∷ ws) us a b = (a.0, a.1, AllPlaced-append ws us a.2 b)

-- The pages of a map that hold whole pages at offsets that fit.
unfoldable pub IsPlaced : Pages → Type 0
IsPlaced m = (j : ℕ) (v : Page) → lookup j m ≡ some v → (j < 2 ^ 52) × (length v ≡ page_size)

AllPlaced-pages_of : (m : Pages) (ids : List ℕ) → IsPlaced m → AllPlaced (pages_of m ids)
unfolding pages_of IsPlaced
AllPlaced-pages_of m [] h = tt
AllPlaced-pages_of m (id ∷ ids) h = elim (Option-cases (lookup id m)) [
  | inl n ↦ rw (n, pages_of) (AllPlaced-pages_of m ids h)
  | inr (page, s) ↦ rw (s, pages_of) ((h id page s).0, (h id page s).1, AllPlaced-pages_of m ids h)
]

pub AllPlaced-sorted_pages : (m : Pages) → IsPlaced m → AllPlaced (sorted_pages m)
unfolding sorted_pages
AllPlaced-sorted_pages m h = AllPlaced-pages_of m (sorted_keys m) h

write_page_raw-ok :
    (p : Pager) (page_id : ℕ) (page : Page) (outcome : RawIo)
    → (write_page_raw p page_id page outcome).0 ≡ ok tt
    → (length page ≡ page_size)
      × (write_page_raw p page_id page outcome ≡ write_page_raw p page_id page raw_done)
unfolding write_page_raw
write_page_raw-ok p page_id page outcome e = elim (Bool-cases (nat_beq (length page) page_size)) [
  | inl t ↦ ((nat_beq_iff (length page) page_size).0 t, same outcome t e)
  | inr t ↦ absurd (ground arith)
]
  where
    same :
        (o : RawIo)
        → nat_beq (length page) page_size ≡ true
        → (write_page_raw p page_id page o).0 ≡ ok tt
        → write_page_raw p page_id page o ≡ write_page_raw p page_id page raw_done
    same raw_done t e = refl
    same raw_seek_failed t e = absurd (ground arith)
    same (raw_write_failed n) t e = absurd (ground arith)

round-ok :
    (p : Pager) (page_id : ℕ) (page : Page) (ws : Writes) (outcomes : List RawIo)
    → (write_page_raw p page_id page (first_or_done outcomes)).0 ≡ ok tt
    → write_pages_raw p ((page_id, page) ∷ ws) outcomes
      ≡ write_pages_raw
          (write_page_raw p page_id page (first_or_done outcomes)).1
          ws
          (rest_of outcomes)
unfolding write_pages_raw
round-ok p page_id page ws outcomes e = rw (e, write_pages_raw) refl

-- A loop that succeeds has run as if no call could fail.
pub write_pages_raw-ok :
    (p : Pager) (ws : Writes) (outcomes : List RawIo)
    → (write_pages_raw p ws outcomes).0 ≡ ok tt
    → write_pages_raw p ws outcomes ≡ write_pages_raw p ws []
unfolding write_pages_raw
write_pages_raw-ok p [] outcomes e = refl
write_pages_raw-ok p ((page_id, page) ∷ ws) outcomes e =
    elim (Result-cases (write_page_raw p page_id page (first_or_done outcomes)).0) [
      | inl (u, d) ↦
          let s = (write_page_raw-ok p page_id page (first_or_done outcomes) d).1 in
          let first = round-ok p page_id page ws outcomes d in
          first
          ∙ (write_pages_raw-ok (write_page_raw p page_id page (first_or_done outcomes)).1 ws
                (rest_of outcomes) (ap (λ r. r.0) (sym first) ∙ e)
              ∙ (ap (λ (r : Result (Unit {0}) × Pager). write_pages_raw r.1 ws []) s
                  ∙ sym (round-ok p page_id page ws [] (ap (λ r. r.0) (sym s) ∙ d))))
      | inr f ↦ elim f [ inl (x, d) ↦ absurd (ground arith) | inr d ↦ absurd (ground arith) ]
    ]

write_page_raw-returns :
    (p : Pager) (page_id : ℕ) (page : Page) (outcome : RawIo)
    → (write_page_raw p page_id page outcome).0 ≢ panic
unfolding write_page_raw
write_page_raw-returns p page_id page outcome e =
    elim (Bool-cases (nat_beq (length page) page_size)) [
      | inl t ↦ fits outcome t e
      | inr t ↦ absurd (ground arith)
    ]
  where
    fits :
        (o : RawIo)
        → nat_beq (length page) page_size ≡ true
        → (write_page_raw p page_id page o).0 ≢ panic
    fits raw_done t e = absurd (ground arith)
    fits raw_seek_failed t e = absurd (ground arith)
    fits (raw_write_failed n) t e = absurd (ground arith)

pub write_pages_raw-returns :
    (p : Pager) (ws : Writes) (outcomes : List RawIo) → (write_pages_raw p ws outcomes).0 ≢ panic
unfolding write_pages_raw
write_pages_raw-returns p [] outcomes = λ e. absurd (cc)
write_pages_raw-returns p ((page_id, page) ∷ ws) outcomes =
    elim (Result-cases (write_page_raw p page_id page (first_or_done outcomes)).0) [
      | inl (u, d) ↦
          rw (d, write_pages_raw)
            (write_pages_raw-returns (write_page_raw p page_id page (first_or_done outcomes)).1 ws
              (rest_of outcomes))
      | inr f ↦ elim f [
        | inl (x, d) ↦ rw (d, write_pages_raw) (λ e. absurd (cc))
        | inr d ↦ absurd (write_page_raw-returns p page_id page (first_or_done outcomes) d)
      ]
    ]
