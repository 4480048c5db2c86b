-- ===== src/Cdc/Polling.antt =====
-- What a consumer that polls with `changes_since` receives, src/cdc.rs.
use velocidb.Prelude.{
  ℕ, zero, suc, ◌+◌, ◌-◌, max, List, [], ◌∷◌, ltb, length, ◌≡◌, refl, sym, ap, ◌∙◌, inl, inr, arith,
  filter, drop, drop-drop, Bool-cases,
}
use velocidb.Cdc.{ChangeEvent, StagedChange, CdcManager, changes_since}
use velocidb.Cdc.Sequence.{numbered, event, IsLogged}

filter-numbered :
    (since from : ℕ) (cs : List StagedChange)
    → filter (λ e. ltb since e.seq) (numbered from cs) ≡ drop (since + 1 - from) (numbered from cs)
unfolding filter numbered drop
filter-numbered since from [] = nothing (since + 1 - from)
  where
    nothing : (n : ℕ) → [] ≡ drop n (numbered from [])
    nothing zero = refl
    nothing (suc n) = refl
filter-numbered since from (c ∷ cs) = elim (Bool-cases (ltb since from)) [
  | inl b ↦
      rw (b, filter, numbered)
        (ap (λ es. event from c ∷ es)
            (filter-numbered since (from + 1) cs
              ∙ ap (λ n. drop n (numbered (from + 1) cs)) {x = since + 1 - (from + 1)} {y = 0}
                  (ground arith))
          ∙ ap (λ n. drop n (numbered from (c ∷ cs))) {x = 0} {y = since + 1 - from} (ground arith))
  | inr b ↦
      rw (b, filter, numbered)
        (filter-numbered since (from + 1) cs
          ∙ ap (λ n. drop n (numbered from (c ∷ cs))) {x = suc (since + 1 - (from + 1))}
              {y = since + 1 - from} (ground arith))
]

drop-numbered :
    (n from : ℕ) (cs : List StagedChange)
    → drop n (numbered from cs) ≡ numbered (from + n) (drop n cs)
unfolding drop numbered
drop-numbered zero from cs = ap (λ k. numbered k cs) {x = from} {y = from + 0} (omega arith)
drop-numbered (suc n) from [] = refl
drop-numbered (suc n) from (c ∷ cs) =
    drop-numbered n (from + 1) cs
    ∙ ap (λ k. numbered k (drop n cs)) {x = from + 1 + n} {y = from + suc n} (omega arith)

-- When the log holds the newest of the changes published under consecutive numbers,
-- `changes_since` returns exactly the changes above the number given that are still held, in
-- order: those published, less as many as are lost or at most that number.
pub changes_since-IsLogged :
    (m : CdcManager) (published : List StagedChange) (first since : ℕ)
    → IsLogged m published first
    → changes_since m since
      ≡ drop (max (length published - m.capacity) (since + 1 - first)) (numbered first published)
unfolding changes_since
changes_since-IsLogged m published first since w =
    let lost = length published - m.capacity in
    ap (λ es. filter (λ (e : ChangeEvent). ltb since e.seq) es)
      (w.kept ∙ drop-numbered lost first published)
    ∙ filter-numbered since (first + lost) (drop lost published)
    ∙ ap (λ es. drop (since + 1 - (first + lost)) es) (sym (drop-numbered lost first published))
    ∙ drop-drop (since + 1 - (first + lost)) lost (numbered first published)
    ∙ ap (λ n. drop n (numbered first published)) {x = lost + (since + 1 - (first + lost))}
        {y = max lost (since + 1 - first)} (ground arith)
