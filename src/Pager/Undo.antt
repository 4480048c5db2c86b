-- ===== src/Pager/Undo.antt =====
-- `abort_group` and `rollback_to_savepoint` of src/storage.rs, one call each.
use velocidb.Prelude.{
  ℕ, ◌≡◌, refl, ap, sym, ◌∙◌, List, [], ◌∷◌, Option, none, some, arith, nat_beq, nat_beq_iff,
  nat_eq, if◌then◌else◌, Bool-cases, Option-cases, inl, inr, Result, ok,
}
use velocidb.Prelude.Map.{lookup, lookup-insert, lookup-remove}
use velocidb.Pager.State.{Page, Pages, Pager, Savepoint, evict}
use velocidb.Pager.Groups.{evict_all, abort_group}
use velocidb.Pager.Access.{restore_page, restore_pages, rollback_to_savepoint}
use velocidb.Pager.Views.{
  IsCoherent, newest, base, or_else, Shrinks, Shrinks-refl, Shrinks-trans, evict-Shrinks,
  lookup-evict, newest-Shrinks, base-Shrinks,
}
use velocidb.Pager.Writing.{saved}

pub evict_all-Shrinks : (p : Pager) (pages : Pages) → Shrinks p (evict_all p pages)
unfolding evict_all
evict_all-Shrinks p [] = Shrinks-refl p
evict_all-Shrinks p ((page_id, page) ∷ pages) =
    Shrinks-trans (evict-Shrinks p page_id) (evict_all-Shrinks (evict p page_id) pages)

-- What is evicted stays out of a cache that only shrinks.
gone : {p q : Pager} (j : ℕ) → Shrinks p q → lookup j p.cache ≡ none → lookup j q.cache ≡ none
gone {p} {q} j s e = elim (Option-cases (lookup j q.cache)) [
  | inl f ↦ f
  | inr (page, f) ↦ absurd (ground (arith, s.fewer j page f))
]

pub lookup-evict_all :
    (p : Pager) (pages : Pages) (j : ℕ) (page : Page)
    → lookup j (evict_all p pages).cache ≡ some page
    → lookup j pages ≡ none
unfolding evict_all lookup
lookup-evict_all p [] j page h = refl
lookup-evict_all p ((page_id, old) ∷ pages) j page h = elim (Bool-cases (nat_beq page_id j)) [
  | inr other ↦ rw (other, lookup) (lookup-evict_all (evict p page_id) pages j page h)
  | inl same ↦ absurd (cc (sym h ∙ out ((nat_beq_iff page_id j).0 same)))
]
  where
    out : page_id ≡ j → lookup j (evict_all (evict p page_id) pages).cache ≡ none
    out e =
        gone j (evict_all-Shrinks (evict p page_id) pages)
          (ap (λ k. lookup k (evict p page_id).cache) (sym e) ∙ lookup-evict p page_id)

-- The state behind an abort: every page is as of the last commit,
-- the page count is that of the group's start, no group is active, and the cache is right.
pub record IsAborted (p : Pager) (r : Result (Unit {0}) × Pager) : Type 0 where
  pub succeeds : r.0 ≡ ok tt
  pub views : (j : ℕ) → newest r.1 j ≡ base p j
  pub bases : (j : ℕ) → base r.1 j ≡ base p j
  pub pages : r.1.num_pages ≡ p.group_start_pages
  pub idle : r.1.active_group ≡ none
  pub coherent : IsCoherent r.1

-- With a right cache, aborting the active group succeeds; every page is again as it was last
-- committed, the committed versions are unchanged, the page count is that of the group's start,
-- no group is active, and the cache is right.
pub abort_group-IsAborted :
    (p : Pager) (id : ℕ) → p.active_group ≡ some id → IsCoherent p → IsAborted p (abort_group p)
unfolding abort_group newest base lookup
abort_group-IsAborted p id e c =
    rw (e, abort_group)
      (record {
        succeeds = refl;
        views = λ j. views j;
        bases = λ j. base-Shrinks s j;
        pages = refl;
        idle = ap (λ (r : Pager). r.active_group) s.same;
        coherent = record { cached = λ j page h. views j ∙ cached j page h };
      })
  where
    clean : Pager
    clean = record p { active_group = none; savepoint = none; pending = [] }

    s : Shrinks clean (evict_all clean p.pending)
    s = evict_all-Shrinks clean p.pending

    views : (j : ℕ) → newest (evict_all clean p.pending) j ≡ base p j
    views j = newest-Shrinks s j

    cached :
        (j : ℕ) (page : Page)
        → lookup j (evict_all clean p.pending).cache ≡ some page
        → base p j ≡ some page
    cached j page h =
        ap (λ o. or_else o (base p j)) (sym (lookup-evict_all clean p.pending j page h))
        ∙ c.cached j page (s.fewer j page h)

-- What the loop over `undo` does to a pager.
record IsRestored (undo : List (ℕ × Option Page)) (p q : Pager) : Type 0 where
  same : q ≡ record p { cache = q.cache; cache_size = q.cache_size; pending = q.pending }
  buffered :
      (j : ℕ)
      → lookup j q.pending ≡ elim (lookup j undo) [ none ↦ lookup j p.pending | some prior ↦ prior ]
  cached :
      (j : ℕ) (page : Page)
      → lookup j q.cache ≡ some page
      → (lookup j p.cache ≡ some page) × (lookup j undo ≡ none)

lookup-restore_page :
    (prior : Option Page) (page_id : ℕ) (m : Pages) (j : ℕ)
    → lookup j (restore_page prior page_id m) ≡ (if nat_beq page_id j then prior else lookup j m)
lookup-restore_page none page_id m j = lookup-remove page_id j m
lookup-restore_page (some page) page_id m j = lookup-insert page_id j page m

restore_page-IsRestored :
    {p q : Pager} (page_id : ℕ) (prior : Option Page) (undo : List (ℕ × Option Page))
    → IsRestored undo p q
    → IsRestored
        ((page_id, prior) ∷ undo)
        p
        (evict (record q { pending = restore_page prior page_id q.pending }) page_id)
unfolding lookup
restore_page-IsRestored {p} {q} page_id prior undo h = record {
  same =
      s.same
      ∙ ap
          (λ (r : Pager). record r {
            cache = (evict v page_id).cache;
            cache_size = (evict v page_id).cache_size;
            pending = v.pending;
          })
          h.same
      ∙ ap
          (λ m. record p {
            cache = (evict v page_id).cache;
            cache_size = (evict v page_id).cache_size;
            pending = m;
          })
          (sym (ap (λ (r : Pager). r.pending) s.same));
  buffered = λ j.
      ap (λ (r : Pager). lookup j r.pending) s.same
      ∙ (lookup-restore_page prior page_id q.pending j ∙ ground (arith, h.buffered j));
  cached = λ j page e. elim (Bool-cases (nat_beq page_id j)) [
    | inl same ↦ absurd (
        cc (
          sym e
          ∙ (ap (λ k. lookup k (evict v page_id).cache) (sym ((nat_beq_iff page_id j).0 same))
              ∙ lookup-evict v page_id)))
    | inr other ↦ rw (other, lookup) (h.cached j page (s.fewer j page e))
  ];
}
  where
    v : Pager
    v = record q { pending = restore_page prior page_id q.pending }

    s : Shrinks v (evict v page_id)
    s = evict-Shrinks v page_id

restore_pages-IsRestored :
    (undo : List (ℕ × Option Page)) (p : Pager) → IsRestored undo p (restore_pages undo p)
unfolding restore_pages lookup
restore_pages-IsRestored [] p = record {
  same = refl;
  buffered = λ j. refl;
  cached = λ j page h. (h, refl);
}
restore_pages-IsRestored ((page_id, prior) ∷ undo) p =
    restore_page-IsRestored page_id prior undo (restore_pages-IsRestored undo p)

-- The state behind a rollback: every page, and the page count, is what the savepoint
-- remembers, and leaves what was committed.
pub record IsRolledBack (p : Pager) (sp : Savepoint) (r : Result (Unit {0}) × Pager) : Type 0 where
  pub succeeds : r.0 ≡ ok tt
  pub views : (j : ℕ) → newest r.1 j ≡ or_else (saved sp p.pending j) (base p j)
  pub bases : (j : ℕ) → base r.1 j ≡ base p j
  pub pages : r.1.num_pages ≡ sp.num_pages
  pub released : r.1.savepoint ≡ none
  pub grouped : r.1.active_group ≡ p.active_group
  pub start : r.1.group_start_pages ≡ p.group_start_pages
  pub coherent : IsCoherent r.1

-- With a right cache, rolling back to the active savepoint succeeds; every page and the page
-- count are as the savepoint remembers them, committed versions, the active group and its start
-- are unchanged, no savepoint is left, and the cache is right.
pub rollback-IsRolledBack :
    (p : Pager) (sp : Savepoint)
    → p.savepoint ≡ some sp
    → IsCoherent p
    → IsRolledBack p sp (rollback_to_savepoint p)
unfolding rollback_to_savepoint newest base
rollback-IsRolledBack p sp e c =
    rw (e, rollback_to_savepoint)
      (record {
        succeeds = refl;
        views = λ j. views j;
        bases = λ j. ap (λ r. base r j) h.same;
        pages = refl;
        released = ap (λ (r : Pager). r.savepoint) h.same;
        grouped = ap (λ (r : Pager). r.active_group) h.same;
        start = ap (λ (r : Pager). r.group_start_pages) h.same;
        coherent = record { cached = λ j page f. coherent j page f };
      })
  where
    q : Pager
    q = restore_pages sp.undo (record p { savepoint = none })

    h : IsRestored sp.undo (record p { savepoint = none }) q
    h = restore_pages-IsRestored sp.undo (record p { savepoint = none })

    views : (j : ℕ) → newest q j ≡ or_else (saved sp p.pending j) (base p j)
    views j =
        ap (λ o. or_else o (base q j)) (h.buffered j)
        ∙ ap (or_else (saved sp p.pending j)) (ap (λ r. base r j) h.same)

    coherent : (j : ℕ) (page : Page) → lookup j q.cache ≡ some page → newest q j ≡ some page
    coherent j page f =
        let (old, fresh) = h.cached j page f in
        views j
        ∙ (ap
              (λ (o : Option (Option Page)).
                or_else (elim o [ none ↦ lookup j p.pending | some prior ↦ prior ]) (base p j))
              fresh
            ∙ c.cached j page old)
