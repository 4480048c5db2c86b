-- ===== src/BTree/PagerStore.antt =====
-- The pager of src/storage.rs, in a write group and with working I/O, as the store of a tree.
use velocidb.Prelude.{
  ℕ, ◌*◌, ◌^◌, ◌≤◌, ◌<◌, ◌≡◌, refl, ap, sym, subst, ◌∙◌, true, List, Option, some, arith, nat_beq,
  leb, if◌then◌else◌, length, ok,
}
use velocidb.Prelude.Words.{add_u64}
use velocidb.Wal.{page_size}
use velocidb.Pager.State.{Page, Pages, Pager}
use velocidb.Pager.Groups.{CommitIo, in_group}
use velocidb.Pager.Access.{read_page, write_page, write_in_group, allocate_page}
use velocidb.Pager.Views.{IsCoherent, IsSized, newest}
use velocidb.Pager.Reading.{expected, read_page-newest, read_page-Recached}
use velocidb.Pager.Writing.{newest-write_in_group, write_in_group-IsCoherent}
use velocidb.Pager.Session.{
  write_in_group-IsWritten, write_in_group-counted, write_page-in_group, grouped-eq,
}
use velocidb.BTree.Trees.{PageStore}
use velocidb.BTree.Descents.{PageView, IsPageStore}

expected-newest :
    (p : Pager) (page_id : ℕ) (page : Page)
    → newest p page_id ≡ some page
    → expected p page_id ≡ ok page
expected-newest p page_id page e = rw (e, expected) refl

module _ (crc32 : List ℕ → ℕ) (first : Pages → Option ℕ) (outcome : CommitIo) where
  abbrev pub pager_store : PageStore
  pager_store = record {
    State = Pager;
    read_page = λ page_id p. read_page first p page_id true;
    write_page = λ page_id page p. write_page crc32 first p page_id page outcome;
    allocate_page = λ p. allocate_page crc32 first p outcome;
  }

  -- In a group, with a right cache and a file within the pages counted.
  pub record IsWorking (p : Pager) : Type 0 where
    pub grouped : in_group p ≡ true
    pub coherent : IsCoherent p
    pub sized : IsSized p

  read-IsWorking :
      (p : Pager) (page_id : ℕ) → IsWorking p → IsWorking (read_page first p page_id true).1
  read-IsWorking p page_id w =
      let c = read_page-Recached first p page_id true w.coherent w.sized.counted in
      let q = (read_page first p page_id true).1 in
      record {
        grouped = grouped-eq p q (ap (λ (x : Pager). x.active_group) c.same) ∙ w.grouped;
        coherent = c.coherent;
        sized =
            subst IsSized (sym c.same)
              (record { within = w.sized.within; counted = w.sized.counted });
      }

  within :
      (p q : Pager) (page_id : ℕ)
      → q.file ≡ p.file
      → q.num_pages ≡ (if leb p.num_pages page_id then add_u64 page_id 1 else p.num_pages)
      → page_id < 2 ^ 52
      → IsSized p
      → length q.file ≤ q.num_pages * page_size
  within p q page_id f c l z = ground (arith, ap length f, c, z.within)

  write-IsWorking :
      (p : Pager) (page_id : ℕ) (page : Page)
      → page_id < 2 ^ 52
      → IsWorking p
      → IsWorking (write_in_group first p page_id page)
  write-IsWorking p page_id page l w =
      let i = write_in_group-IsWritten first p page_id page in
      let q = write_in_group first p page_id page in
      let counted = write_in_group-counted crc32 first p page_id page l w.sized.counted in
      record {
        grouped = grouped-eq p q i.group ∙ w.grouped;
        coherent = write_in_group-IsCoherent first p page_id page w.coherent;
        sized = record {
          within = within p q page_id i.file i.counted l w.sized;
          counted = counted;
        };
      }

  written :
      (p : Pager) (page_id : ℕ) (page : Page)
      → IsWorking p
      → page_id < 2 ^ 52
      → let r = write_page crc32 first p page_id page outcome in
        (r.0 ≡ ok tt)
        × IsWorking r.1
        × ((j : ℕ) → newest r.1 j ≡ (if nat_beq page_id j then some page else newest p j))
  written p page_id page w l =
      rw (write_page-in_group crc32 first p page_id page outcome w.grouped) (
        refl,
        write-IsWorking p page_id page l w,
        λ j. newest-write_in_group first p page_id page j,
      )

  -- The states of the pager that are valid for a tree, and their pages.
  abbrev pub pager_view : PageView pager_store
  pager_view = record { Valid = IsWorking; view = newest }

  -- The pager, in a group, with a right cache and a file within the pages counted, is a
  -- lawful store of pages for a tree: reads give the newest versions, writes below page 2^52
  -- set them and leave all others, and both keep the pager so.
  pub pager_store-IsPageStore : IsPageStore pager_store pager_view
  pager_store-IsPageStore = record {
    read = λ p page_id page w e.
        (read_page-newest first p page_id w.coherent w.sized).answer
        ∙ expected-newest p page_id page e;
    read_keeps = λ p page_id page w e. (
      read-IsWorking p page_id w,
      λ j. (read_page-newest first p page_id w.coherent w.sized).views j,
    );
    write = λ p page_id page w l k. written p page_id page w l;
  }
