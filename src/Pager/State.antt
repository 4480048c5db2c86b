-- ===== src/Pager/State.antt =====
-- The state of the pager of src/storage.rs, its cache, and its raw writes to the data file.
-- `dashmap` promises no order of iteration: `first` is the key that `iter().next()` finds.
use velocidb.Prelude.{
  ℕ, zero, suc, ◌+◌, ◌-◌, ◌*◌, ◌%◌, Bool, true, false, List, [], ◌∷◌, Option, none, some, leb,
  nat_beq, nat_eq, if◌then◌else◌, length, take, replicate, Result, ok, err, panic, io,
  storage_error,
}
use velocidb.Prelude.Words.{u64_mod, add_u64}
use velocidb.Prelude.Map.{lookup, insert, remove}
use velocidb.Disk.{write_at}
use velocidb.Wal.{WalManager, page_size}

abbrev pub Page : Type 0
Page = List ℕ

-- `Page::new`, a page of zeros.
unfoldable pub new_page : Page
new_page = replicate page_size 0

abbrev pub checkpoint_wal_bytes : ℕ
checkpoint_wal_bytes = 4 * 1024 * 1024

abbrev pub Pages : Type 0
Pages = List (ℕ × Page)

pub record Savepoint : Type 0 where
  pub undo : List (ℕ × Option Page)
  pub num_pages : ℕ

pub record Pager : Type 0 where
  pub file : List ℕ
  pub num_pages : ℕ
  pub cache : Pages
  pub cache_size : ℕ
  pub max_cache_size : ℕ
  pub wal : WalManager
  pub active_group : Option ℕ
  pub pending : Pages
  pub committed : Pages
  pub group_start_pages : ℕ
  pub savepoint : Option Savepoint

-- `self.cache.remove`, with the count.
unfoldable pub evict : Pager → ℕ → Pager
evict p page_id = elim (lookup page_id p.cache) [
  | none ↦ p
  | some page ↦ record p {
    cache = remove page_id p.cache;
    cache_size = (p.cache_size + u64_mod - 1) % u64_mod;
  }
]

-- `self.cache.insert`, with the count.
unfoldable pub cache_insert : Pager → ℕ → Page → Pager
cache_insert p page_id page = record p {
  cache = insert page_id page p.cache;
  cache_size = elim (lookup page_id p.cache) [
    | none ↦ add_u64 p.cache_size 1
    | some old ↦ p.cache_size
  ];
}

-- The loop that makes room in the cache; with `keep` it stops at that key, as `write_page` does.
-- Each round drops an entry, so the size of the cache is fuel enough.
unfoldable pub make_room : (Pages → Option ℕ) → Option ℕ → ℕ → Pager → Pager
make_room first keep zero p = p
make_room first keep (suc fuel) p =
    if leb p.max_cache_size (length p.cache)
    then (elim (first p.cache) [
      | none ↦ p
      | some key ↦
          let next = make_room first keep fuel (evict p key) in
          elim keep [ none ↦ next | some page_id ↦ (if nat_beq key page_id then p else next) ]
    ])
    else p

-- Which call of a raw page write fails; a failed `write_all` has written `n` bytes.
pub data RawIo : Type 0 where
  raw_done raw_seek_failed : RawIo
  raw_write_failed : ℕ → RawIo

abbrev pub offset_of : ℕ → ℕ
offset_of page_id = (page_id * page_size) % u64_mod

unfoldable pub write_page_raw : Pager → ℕ → Page → RawIo → Result (Unit {0}) × Pager
write_page_raw p page_id bytes outcome =
    let written = record p {
      file = write_at p.file (offset_of page_id) bytes;
      num_pages = if leb p.num_pages page_id then add_u64 page_id 1 else p.num_pages;
    } in
    let part = λ (n : ℕ). record p { file = write_at p.file (offset_of page_id) (take n bytes) } in
    if nat_beq (length bytes) page_size
    then (elim outcome [
      | raw_done ↦ (ok tt, written)
      | raw_seek_failed ↦ (err io, p)
      | raw_write_failed n ↦ (err io, part n)
    ])
    else (err storage_error, p)

abbrev pub first_or_done : List RawIo → RawIo
first_or_done [] = raw_done
first_or_done (o ∷ outcomes) = o

abbrev pub rest_of : List RawIo → List RawIo
rest_of [] = []
rest_of (o ∷ outcomes) = outcomes

-- A loop of `write_page_raw` that stops at the first error; the outcomes are those of its calls,
-- and a call past the end of the list succeeds.
unfoldable pub write_pages_raw : Pager → Pages → List RawIo → Result (Unit {0}) × Pager
write_pages_raw p [] outcomes = (ok tt, p)
write_pages_raw p ((page_id, page) ∷ pages) outcomes =
    let (r, q) = write_page_raw p page_id page (first_or_done outcomes) in
    let rest = write_pages_raw q pages (rest_of outcomes) in
    elim r [ ok _ ↦ rest | err e ↦ (err e, q) | panic ↦ (panic, q) ]

-- `keys()` and `sort_unstable`.
unfoldable pub insert_sorted : ℕ → List ℕ → List ℕ
insert_sorted k [] = k ∷ []
insert_sorted k (j ∷ js) = if leb k j then k ∷ (j ∷ js) else j ∷ insert_sorted k js

unfoldable pub sorted_keys : Pages → List ℕ
unfolding insert_sorted
sorted_keys [] = []
sorted_keys ((k, page) ∷ m) = insert_sorted k (sorted_keys m)

-- `(id, m[id])` for each id; the ids are keys of the map, so that the indexing does not panic.
unfoldable pub pages_of : Pages → List ℕ → Pages
pages_of m [] = []
pages_of m (id ∷ ids) =
    let rest = pages_of m ids in elim (lookup id m) [ none ↦ rest | some page ↦ (id, page) ∷ rest ]

-- The pages of a map in the order of their ids.
unfoldable pub sorted_pages : Pages → Pages
unfolding sorted_keys pages_of
sorted_pages m = pages_of m (sorted_keys m)

abbrev pub is_empty : Pages → Bool
is_empty [] = true
is_empty (x ∷ m) = false

-- `committed.extend(pending)`. The keys of `pending` are distinct, so the order is not observable.
unfoldable pub extend : Pages → Pages → Pages
extend m [] = m
extend m ((page_id, page) ∷ pages) = insert page_id page (extend m pages)
