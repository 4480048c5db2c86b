-- ===== src/Pager/Views.antt =====
-- What a client of the pager of src/storage.rs sees, and what the cache operations leave alone.
use velocidb.Prelude.{
  ℕ, zero, suc, ◌*◌, ◌^◌, ◌≤◌, ◌≡◌, refl, ap, sym, subst, ◌∙◌, false, List, Option, none, some,
  arith, leb, nat_beq, nat_beq_iff, nat_eq, if◌then◌else◌, length, Bool-cases, Option-cases, inl,
  inr,
}
use velocidb.Prelude.Map.{lookup, lookup-insert, lookup-remove}
use velocidb.Disk.{read_exact_at}
use velocidb.Wal.{page_size}
use velocidb.Pager.State.{Page, Pages, Pager, evict, cache_insert, make_room}

abbrev pub or_else : Option Page → Option Page → Option Page
or_else none b = b
or_else (some a) b = some a

-- The page as the data file has it.
unfoldable pub on_disk : List ℕ → ℕ → Option Page
on_disk file page_id = read_exact_at file (page_id * page_size) page_size

-- The page as of the last commit, and with the writes of the active group.
unfoldable pub base : Pager → ℕ → Option Page
base p page_id = or_else (lookup page_id p.committed) (on_disk p.file page_id)

unfoldable pub newest : Pager → ℕ → Option Page
unfolding base
newest p page_id = or_else (lookup page_id p.pending) (base p page_id)

-- A cached page is the newest version of it.
pub record IsCoherent (p : Pager) : Type 0 where
  pub cached :
      (page_id : ℕ) (page : Page)
      → lookup page_id p.cache ≡ some page
      → newest p page_id ≡ some page

-- The file ends within the pages counted, and page offsets fit 64 bits.
pub record IsSized (p : Pager) : Type 0 where
  pub within : length p.file ≤ p.num_pages * page_size
  pub counted : p.num_pages ≤ 2 ^ 52

-- `q` is `p` with less in its cache.
pub record Shrinks (p q : Pager) : Type 0 where
  pub same : q ≡ record p { cache = q.cache; cache_size = q.cache_size }
  pub fewer :
      (page_id : ℕ) (page : Page)
      → lookup page_id q.cache ≡ some page
      → lookup page_id p.cache ≡ some page

pub Shrinks-refl : (p : Pager) → Shrinks p p
Shrinks-refl p = record { same = refl; fewer = λ j page h. h }

pub Shrinks-trans : {p q r : Pager} → Shrinks p q → Shrinks q r → Shrinks p r
Shrinks-trans {p} {q} {r} a b = record {
  same =
      b.same ∙ ap (λ (s : Pager). record s { cache = r.cache; cache_size = r.cache_size }) a.same;
  fewer = λ j page h. a.fewer j page (b.fewer j page h);
}

pub evict-Shrinks : (p : Pager) (page_id : ℕ) → Shrinks p (evict p page_id)
unfolding evict
evict-Shrinks p page_id = elim (Option-cases (lookup page_id p.cache)) [
  | inl e ↦ rw (e, evict) (Shrinks-refl p)
  | inr (old, e) ↦
      rw (e, evict)
        (record {
          same = refl;
          fewer = λ j page h. ground (arith, lookup-remove page_id j p.cache);
        })
]

pub lookup-evict : (p : Pager) (page_id : ℕ) → lookup page_id (evict p page_id).cache ≡ none
unfolding evict
lookup-evict p page_id = ground (arith, lookup-remove page_id page_id p.cache)

-- What one round of the loop comes to, for any property of its result.
make_room-cases {ℓ} :
    (P : Pager → Type ℓ) (first : Pages → Option ℕ) (keep : Option ℕ) (fuel : ℕ) (p : Pager)
    → P p
    → ((key : ℕ) → P (make_room first keep fuel (evict p key)))
    → P (make_room first keep (suc fuel) p)
unfolding make_room
make_room-cases P first keep fuel p stop next =
    elim (Bool-cases (leb p.max_cache_size (length p.cache))) [
      | inr fits ↦ rw (fits, make_room) stop
      | inl full ↦ elim (Option-cases (first p.cache)) [
        | inl e ↦ rw (full, e, make_room) stop
        | inr (key, e) ↦ rw (full, e, make_room) (kept keep key)
      ]
    ]
  where
    kept :
        (k : Option ℕ) (key : ℕ)
        → P (elim k [
          | none ↦ make_room first keep fuel (evict p key)
          | some page_id ↦
              (if nat_beq key page_id then p else make_room first keep fuel (evict p key))
        ])
    kept none key = next key
    kept (some page_id) key = elim (Bool-cases (nat_beq key page_id)) [
      | inl e ↦ rw e stop
      | inr e ↦ rw e (next key)
    ]

pub make_room-Shrinks :
    (first : Pages → Option ℕ) (keep : Option ℕ) (fuel : ℕ) (p : Pager)
    → Shrinks p (make_room first keep fuel p)
unfolding make_room
make_room-Shrinks first keep zero p = Shrinks-refl p
make_room-Shrinks first keep (suc fuel) p =
    make_room-cases (Shrinks p) first keep fuel p (Shrinks-refl p)
      λ key. Shrinks-trans (evict-Shrinks p key) (make_room-Shrinks first keep fuel (evict p key))

pub newest-Shrinks : {p q : Pager} → Shrinks p q → (j : ℕ) → newest q j ≡ newest p j
unfolding newest base
newest-Shrinks {p} {q} s j = ap (λ r. newest r j) s.same

pub base-Shrinks : {p q : Pager} → Shrinks p q → (j : ℕ) → base q j ≡ base p j
unfolding base
base-Shrinks {p} {q} s j = ap (λ r. base r j) s.same

pub Shrinks-IsCoherent : {p q : Pager} → Shrinks p q → IsCoherent p → IsCoherent q
Shrinks-IsCoherent s c = record {
  cached = λ j page h. newest-Shrinks s j ∙ c.cached j page (s.fewer j page h);
}

pub Shrinks-IsSized : {p q : Pager} → Shrinks p q → IsSized p → IsSized q
Shrinks-IsSized {p} {q} s z =
    subst IsSized (sym s.same) (record { within = z.within; counted = z.counted })

-- Caching the newest version of a page changes no view and keeps the cache right.
pub newest-cache_insert :
    (p : Pager) (page_id : ℕ) (page : Page) (j : ℕ)
    → newest (cache_insert p page_id page) j ≡ newest p j
unfolding newest base cache_insert
newest-cache_insert p page_id page j = refl

pub cache_insert-IsCoherent :
    (p : Pager) (page_id : ℕ) (page : Page)
    → ((j : ℕ) (old : Page)
        → nat_beq page_id j ≡ false
        → lookup j p.cache ≡ some old
        → newest p j ≡ some old)
    → newest p page_id ≡ some page
    → IsCoherent (cache_insert p page_id page)
unfolding cache_insert newest base
cache_insert-IsCoherent p page_id page c e = record {
  cached = λ j old h. elim (Bool-cases (nat_beq page_id j)) [
    | inl same ↦
        ap (newest p) (sym ((nat_beq_iff page_id j).0 same))
        ∙ (e ∙ ground (arith, lookup-insert page_id j page p.cache))
    | inr other ↦ c j old other (ground (arith, lookup-insert page_id j page p.cache))
  ];
}
