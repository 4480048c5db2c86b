-- ===== src/Cdc/Sequence.antt =====
-- The published changes carry consecutive numbers, and the log keeps the newest of them, src/cdc.rs.
use mathlib.Core.List.{append-nil, append_assoc}
use velocidb.Prelude.{
  ℕ, suc, ◌+◌, ◌-◌, ◌^◌, ◌<◌, true, List, [], ◌∷◌, ◌++◌, leb, if◌then◌else◌, length, length-append,
  length-drop, drop-drop, drop-append_le, ◌≡◌, refl, sym, ap, ◌∙◌, subst, inl, inr, arith, drop,
  Bool-cases,
}
use velocidb.Prelude.Words.{add_u64}
use velocidb.Cdc.{ChangeEvent, StagedChange, CdcManager, record_change, record_all, publish_staged}

abbrev pub event : ℕ → StagedChange → ChangeEvent
event seq c = record {
  seq = seq;
  table = c.table;
  op = c.op;
  rowid = c.rowid;
  before = c.before;
  after = c.after;
}

-- The events from the number `from` on, one for each change.
unfoldable pub numbered : ℕ → List StagedChange → List ChangeEvent
numbered from [] = []
numbered from (c ∷ cs) = event from c ∷ numbered (from + 1) cs

-- The changes published since capture was enabled, and the log, which holds the newest of them.
pub record IsLogged (m : CdcManager) (published : List StagedChange) (first : ℕ) : Type 0 where
  pub next : m.next_seq ≡ first + length published
  pub kept : m.log ≡ drop (length published - m.capacity) (numbered first published)

length-numbered : (from : ℕ) (cs : List StagedChange) → length (numbered from cs) ≡ length cs
unfolding numbered
length-numbered from [] = refl
length-numbered from (c ∷ cs) = ap suc (length-numbered (from + 1) cs)

numbered-append :
    (from : ℕ) (cs ds : List StagedChange)
    → numbered from (cs ++ ds) ≡ numbered from cs ++ numbered (from + length cs) ds
unfolding numbered
numbered-append from [] ds = ap (λ k. numbered k ds) {x = from} {y = from + 0} (omega arith)
numbered-append from (c ∷ cs) ds =
    ap (λ es. event from c ∷ es)
      (numbered-append (from + 1) cs ds
        ∙ ap (λ k. numbered (from + 1) cs ++ numbered k ds) {x = from + 1 + length cs}
            {y = from + suc (length cs)} (omega arith))

-- The log after one more event.
trimmed :
    (xs : List ChangeEvent) (e : ChangeEvent) (capacity : ℕ)
    → 0 < capacity
    → let log = drop (length xs - capacity) xs in
      (if leb capacity (length log) then drop 1 log else log) ++ (e ∷ [])
      ≡ drop (length xs + 1 - capacity) (xs ++ (e ∷ []))
trimmed xs e capacity h =
    elim (Bool-cases (leb capacity (length (drop (length xs - capacity) xs)))) [
      | inl b ↦ rw b (
          ap (λ ys. ys ++ (e ∷ [])) (drop-drop 1 (length xs - capacity) xs)
          ∙ sym (drop-append_le xs (e ∷ []) (length xs - capacity + 1) (ground (arith, size)))
          ∙ ap (λ n. drop n (xs ++ (e ∷ []))) {x = length xs - capacity + 1}
              {y = length xs + 1 - capacity} (ground (arith, size)))
      | inr b ↦ rw b (
          sym (drop-append_le xs (e ∷ []) (length xs - capacity) (omega arith))
          ∙ ap (λ n. drop n (xs ++ (e ∷ []))) {x = length xs - capacity}
              {y = length xs + 1 - capacity} (ground (arith, size)))
    ]
  where
    size : length (drop (length xs - capacity) xs) ≡ length xs - (length xs - capacity)
    size = length-drop (length xs - capacity) xs

record_change-IsLogged :
    (m : CdcManager) (published : List StagedChange) (first : ℕ) (c : StagedChange)
    → m.enabled ≡ true
    → 0 < m.capacity
    → first + length published + 1 < 2 ^ 64
    → IsLogged m published first
    → IsLogged (record_change m c) (published ++ (c ∷ [])) first
unfolding record_change numbered
record_change-IsLogged m published first c on room h w =
    rw (on, record_change) (record { next = next; kept = kept })
  where
    next : add_u64 m.next_seq 1 ≡ first + length (published ++ (c ∷ []))
    next = omega (arith, w.next, length-append published (c ∷ []))

    held : List ChangeEvent
    held = drop (length (numbered first published) - m.capacity) (numbered first published)

    kept :
        (if leb m.capacity (length m.log) then drop 1 m.log else m.log) ++ (event m.next_seq c ∷ [])
        ≡ drop
            (length (published ++ (c ∷ [])) - m.capacity)
            (numbered first (published ++ (c ∷ [])))
    kept =
        ap
          (λ log.
            (if leb m.capacity (length log) then drop 1 log else log) ++ (event m.next_seq c ∷ []))
          (w.kept
            ∙ ap (λ n. drop (n - m.capacity) (numbered first published))
                (sym (length-numbered first published)))
        ∙ ap
            (λ n.
              (if leb m.capacity (length (held)) then drop 1 (held) else held) ++ (event n c ∷ []))
            w.next
        ∙ trimmed (numbered first published) (event (first + length published) c) m.capacity room
        ∙ ap (λ es. drop (length (numbered first published) + 1 - m.capacity) es)
            (sym (numbered-append first published (c ∷ [])))
        ∙ ap (λ n. drop (n - m.capacity) (numbered first (published ++ (c ∷ []))))
            {x = length (numbered first published) + 1} {y = length (published ++ (c ∷ []))}
            (omega (arith, length-numbered first published, length-append published (c ∷ [])))

record_change-fixed :
    (m : CdcManager) (c : StagedChange)
    → ((record_change m c).enabled ≡ m.enabled)
      × ((record_change m c).capacity ≡ m.capacity)
      × ((record_change m c).staged ≡ m.staged)
unfolding record_change
record_change-fixed m c = elim (Bool-cases m.enabled) [
  | inl b ↦ (rw (b, record_change) refl, rw (b, record_change) refl, rw (b, record_change) refl)
  | inr b ↦ (rw (b, record_change) refl, rw (b, record_change) refl, rw (b, record_change) refl)
]

record_all-IsLogged :
    (m : CdcManager) (published : List StagedChange) (first : ℕ) (cs : List StagedChange)
    → m.enabled ≡ true
    → 0 < m.capacity
    → first + length published + length cs < 2 ^ 64
    → IsLogged m published first
    → IsLogged (record_all m cs) (published ++ cs) first × ((record_all m cs).staged ≡ m.staged)
unfolding record_all
record_all-IsLogged m published first [] on room h w =
    (subst (λ xs. IsLogged m xs first) (sym (append-nil published)) w, refl)
record_all-IsLogged m published first (c ∷ cs) on room h w =
    let n = record_change m c in
    let (e, k, s) = record_change-fixed m c in
    let (rest, t) =
      record_all-IsLogged n (published ++ (c ∷ [])) first cs (e ∙ on)
        (subst (λ x. 0 < x) (sym k) room) (omega (arith, h, length-append published (c ∷ [])))
        (record_change-IsLogged m published first c on room (omega arith) w) in
    (
      subst (λ xs. IsLogged (record_all n cs) xs first) (append_assoc published (c ∷ []) cs) rest,
      t ∙ s,
    )

-- With capture enabled, room for an event, a log that holds the newest of the changes published
-- so far under consecutive numbers, and no wrap of the numbers, publishing appends the staged
-- changes in order under the next numbers, the log is then the newest `capacity` of all the
-- changes published, and no staged change is left.
pub publish_staged-IsLogged :
    (m : CdcManager) (published : List StagedChange) (first : ℕ)
    → m.enabled ≡ true
    → 0 < m.capacity
    → first + length published + length m.staged < 2 ^ 64
    → IsLogged m published first
    → IsLogged (publish_staged m) (published ++ m.staged) first × ((publish_staged m).staged ≡ [])
unfolding publish_staged
publish_staged-IsLogged m published first on room h w =
    record_all-IsLogged (record m { staged = [] }) published first m.staged on room h
      (record { next = w.next; kept = w.kept })
