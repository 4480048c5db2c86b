-- ===== src/Pager/Reading.antt =====
-- `read_page` of src/storage.rs: through whatever the cache holds, it returns the newest version.
use velocidb.Prelude.{
  ℕ, ◌+◌, ◌*◌, ◌^◌, ◌≤◌, ◌<◌, ◌≡◌, refl, ap, sym, ◌∙◌, Bool, true, false, List, Option, none, some,
  arith, leb, lt→ltb, nat_eq, if◌then◌else◌, length, Bool-cases, Option-cases, inl, inr, Result, ok,
  err, io, not_found,
}
use velocidb.Prelude.Map.{lookup}
use velocidb.Disk.{read_exact_at}
use velocidb.Wal.{page_size}
use velocidb.Pager.State.{Page, Pages, Pager, cache_insert, make_room, offset_of}
use velocidb.Pager.Access.{read_page, cache_page, read_file}
use velocidb.Pager.Views.{
  IsCoherent, IsSized, newest, base, on_disk, make_room-Shrinks, newest-Shrinks, Shrinks-IsCoherent,
  newest-cache_insert, cache_insert-IsCoherent,
}

-- What a reader is told: the newest version, or which error if there is none.
abbrev pub expected : Pager → ℕ → Result Page
expected p page_id = elim (newest p page_id) [
  | some page ↦ ok page
  | none ↦ (if leb p.num_pages page_id then err not_found else err io)
]

-- The answer is the expected one, no view changes, and the cache stays right.
pub record IsRead (p : Pager) (page_id : ℕ) (r : Result Page × Pager) : Type 0 where
  pub answer : r.0 ≡ expected p page_id
  pub views : (j : ℕ) → newest r.1 j ≡ newest p j
  pub coherent : IsCoherent r.1

module _ (p : Pager) (page_id : ℕ) (c : IsCoherent p) where
  at-hand : (page : Page) → newest p page_id ≡ some page → IsRead p page_id (ok page, p)
  at-hand page e = record { answer = rw (e, expected) refl; views = λ j. refl; coherent = c }

  cached-IsRead :
      (first : Pages → Option ℕ) (page : Page)
      → newest p page_id ≡ some page
      → IsRead p page_id (cache_page first p page_id page)
  unfolding cache_page
  cached-IsRead first page e =
      let q = make_room first none (length p.cache) p in
      let s = make_room-Shrinks first none (length p.cache) p in
      let d = Shrinks-IsCoherent s c in
      record {
        answer = rw (e, expected) refl;
        views = λ j. newest-cache_insert q page_id page j ∙ newest-Shrinks s j;
        coherent =
            cache_insert-IsCoherent q page_id page (λ j old _ h. d.cached j old h)
              (newest-Shrinks s page_id ∙ e);
      }

-- Past the pages counted there is nothing on disk; below, offsets do not wrap.
pub on_disk-beyond :
    (p : Pager) (page_id : ℕ) → IsSized p → p.num_pages ≤ page_id → on_disk p.file page_id ≡ none
unfolding on_disk read_exact_at
on_disk-beyond p page_id z h =
    rw (lt→ltb (length p.file) (page_id * page_size + page_size) (omega (arith, z.within))) refl

pub on_disk-offset :
    (file : List ℕ) (page_id : ℕ)
    → page_id < 2 ^ 52
    → read_exact_at file (offset_of page_id) page_size ≡ on_disk file page_id
unfolding on_disk
on_disk-offset file page_id h = ap (λ o. read_exact_at file o page_size) (omega arith)

newest-file :
    (p : Pager) (page_id : ℕ)
    → lookup page_id p.pending ≡ none
    → lookup page_id p.committed ≡ none
    → newest p page_id ≡ on_disk p.file page_id
unfolding newest base
newest-file p page_id e g = rw (e, g, newest, base) refl

missing :
    (p : Pager) (page_id : ℕ) (b : Bool)
    → newest p page_id ≡ none
    → leb p.num_pages page_id ≡ b
    → (if b then err not_found else err io) ≡ expected p page_id
missing p page_id b e f = rw (e, f, expected) refl

-- With a right cache and a file that ends within the pages counted, at most 2^52, a read with a
-- working file answers the newest version of the page, which is the active group's write, else
-- the last committed version, else the data file's, or `not_found` or an I/O error when there
-- is none; the newest version of every page stays the same, and the cache stays right.
pub read_page-newest :
    (first : Pages → Option ℕ) (p : Pager) (page_id : ℕ)
    → IsCoherent p
    → IsSized p
    → IsRead p page_id (read_page first p page_id true)
unfolding read_page newest base
read_page-newest first p page_id c z = elim (Option-cases (lookup page_id p.pending)) [
  | inr (page, e) ↦ rw (e, read_page) (at-hand p page_id c page (rw (e, newest) refl))
  | inl e ↦ elim (Option-cases (lookup page_id p.cache)) [
    | inr (page, f) ↦ rw (e, f, read_page) (at-hand p page_id c page (c.cached page_id page f))
    | inl f ↦ elim (Option-cases (lookup page_id p.committed)) [
      | inr (page, g) ↦
          rw (e, f, g, read_page) (cached-IsRead p page_id c first page (rw (e, g, newest) refl))
      | inl g ↦ elim (Bool-cases (leb p.num_pages page_id)) [
        | inl beyond ↦
            rw (e, f, g, beyond, read_page)
              (record {
                answer =
                    missing p page_id true
                      (newest-file p page_id e g ∙ on_disk-beyond p page_id z (ground arith))
                      beyond;
                views = λ j. refl;
                coherent = c;
              })
        | inr within ↦
            let file = on_disk-offset p.file page_id (ground (arith, z.counted)) in
            elim (Option-cases (read_exact_at p.file (offset_of page_id) page_size)) [
              | inl h ↦
                  rw (e, f, g, within, h, read_page)
                    (record {
                      answer =
                          missing p page_id false (newest-file p page_id e g ∙ (sym file ∙ h))
                            within;
                      views = λ j. refl;
                      coherent = c;
                    })
              | inr (page, h) ↦
                  rw (e, f, g, within, h, read_page)
                    (cached-IsRead p page_id c first page
                      (newest-file p page_id e g ∙ (sym file ∙ h)))
            ]
      ]
    ]
  ]
]

-- `q` is `p` with another cache, which is right.
pub record Recached (p q : Pager) : Type 0 where
  pub same : q ≡ record p { cache = q.cache; cache_size = q.cache_size }
  pub coherent : IsCoherent q

cache_page-Recached :
    (first : Pages → Option ℕ) (p : Pager) (page_id : ℕ) (page : Page)
    → IsCoherent p
    → newest p page_id ≡ some page
    → Recached p (cache_page first p page_id page).1
unfolding cache_page cache_insert
cache_page-Recached first p page_id page c e =
    let q = make_room first none (length p.cache) p in
    let s = make_room-Shrinks first none (length p.cache) p in
    record {
      same =
          ap
            (λ (r : Pager). record r {
              cache = (cache_insert q page_id page).cache;
              cache_size = (cache_insert q page_id page).cache_size;
            })
            s.same;
      coherent = (cached-IsRead p page_id c first page e).coherent;
    }

-- A read, also one that fails, changes nothing but the cache.
pub read_page-Recached :
    (first : Pages → Option ℕ) (p : Pager) (page_id : ℕ) (readable : Bool)
    → IsCoherent p
    → p.num_pages ≤ 2 ^ 52
    → Recached p (read_page first p page_id readable).1
unfolding read_page newest base
read_page-Recached first p page_id readable c z = elim (Option-cases (lookup page_id p.pending)) [
  | inr (page, e) ↦ rw (e, read_page) (record { same = refl; coherent = c })
  | inl e ↦ elim (Option-cases (lookup page_id p.cache)) [
    | inr (page, f) ↦ rw (e, f, read_page) (record { same = refl; coherent = c })
    | inl f ↦ elim (Option-cases (lookup page_id p.committed)) [
      | inr (page, g) ↦
          rw (e, f, g, read_page)
            (cache_page-Recached first p page_id page c (rw (e, g, newest) refl))
      | inl g ↦ elim (Bool-cases (leb p.num_pages page_id)) [
        | inl beyond ↦ rw (e, f, g, beyond, read_page) (record { same = refl; coherent = c })
        | inr within ↦ elim (Option-cases (read_file p page_id readable)) [
          | inl h ↦ rw (e, f, g, within, h, read_page) (record { same = refl; coherent = c })
          | inr (page, h) ↦
              rw (e, f, g, within, h, read_page)
                (cache_page-Recached first p page_id page c (
                  newest-file p page_id e g
                  ∙ (sym (on_disk-offset p.file page_id (ground (arith, z)))
                      ∙ found readable page h)))
        ]
      ]
    ]
  ]
]
  where
    found :
        (b : Bool) (page : Page)
        → read_file p page_id b ≡ some page
        → read_exact_at p.file (offset_of page_id) page_size ≡ some page
    found true page h = h
    found false page h = cc
