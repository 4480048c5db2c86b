-- ===== src/BTree/Layout.antt =====
-- Bytes at an offset of a page, and what a write of src/btree.rs to a page leaves where it was.
use velocidb.Prelude.{
  ℕ, ◌+◌, ◌-◌, ◌≤◌, ◌≡◌, refl, ap, sym, ◌∙◌, List, ◌++◌, arith, length, take, drop, ok, take-append,
  drop-append, append_assoc, take-append-drop, drop-drop, length-append, length-take, length-drop,
  drop-append_ge, slice-append,
}
use velocidb.BTree.Nodes.{bytes_at, put_bytes}

-- The page has these bytes at this offset.
pub record At (page : List ℕ) (a : ℕ) (bytes : List ℕ) : Type 0 where
  pub fits : a + length bytes ≤ length page
  pub found : take (length bytes) (drop a page) ≡ bytes

-- What stands at an offset, with the rest of the page behind it.
At-rest :
    (page bytes : List ℕ) (a : ℕ)
    → At page a bytes
    → drop a page ≡ bytes ++ drop (length bytes) (drop a page)
At-rest page bytes a h =
    sym (take-append-drop (length bytes) (drop a page))
    ∙ ap (λ l. l ++ drop (length bytes) (drop a page)) h.found

pub At-left : (page x y : List ℕ) (a : ℕ) → At page a (x ++ y) → At page a x
At-left page x y a h = record {
  fits = omega (arith, h.fits, length-append x y);
  found =
      ap (take (length x))
        (At-rest page (x ++ y) a h ∙ append_assoc x y (drop (length (x ++ y)) (drop a page)))
      ∙ take-append x (y ++ drop (length (x ++ y)) (drop a page)) (length x) refl;
}

pub At-right : (page x y : List ℕ) (a : ℕ) → At page a (x ++ y) → At page (a + length x) y
At-right page x y a h = record {
  fits = omega (arith, h.fits, length-append x y);
  found =
      ap (take (length y)) (
        sym (drop-drop (length x) a page)
        ∙ (ap (drop (length x))
              (At-rest page (x ++ y) a h ∙ append_assoc x y (drop (length (x ++ y)) (drop a page)))
            ∙ drop-append x (y ++ drop (length (x ++ y)) (drop a page)) (length x) refl))
      ∙ take-append y (drop (length (x ++ y)) (drop a page)) (length y) refl;
}

pub At-join :
    (page x y : List ℕ) (a : ℕ) → At page a x → At page (a + length x) y → At page a (x ++ y)
At-join page x y a h k = record {
  fits = omega (arith, k.fits, length-append x y);
  found =
      ap (take (length (x ++ y))) (
        At-rest page x a h
        ∙ ap (λ l. x ++ l) (drop-drop (length x) a page ∙ At-rest page y (a + length x) k)
        ∙ sym (append_assoc x y (drop (length y) (drop (a + length x) page))))
      ∙ take-append (x ++ y) (drop (length y) (drop (a + length x) page)) (length (x ++ y)) refl;
}

pub bytes_at-At :
    (page bytes : List ℕ) (a n : ℕ)
    → At page a bytes
    → n ≡ length bytes
    → bytes_at page a n ≡ ok bytes
unfolding bytes_at
bytes_at-At page bytes a n h e = ap (bytes_at page a) e ∙ ground (arith, h.fits, h.found)

-- The page after a write.
abbrev pub put_page : List ℕ → ℕ → List ℕ → List ℕ
put_page page a bytes = take a page ++ (bytes ++ drop (a + length bytes) page)

pub record IsOverwritten (page : List ℕ) (a : ℕ) (bytes next : List ℕ) : Type 0 where
  pub result : put_bytes page a bytes ≡ ok next
  pub self : At next a bytes
  pub before : (c : ℕ) (x : List ℕ) → c + length x ≤ a → At page c x → At next c x
  pub after : (c : ℕ) (x : List ℕ) → a + length bytes ≤ c → At page c x → At next c x
  pub same_length : length next ≡ length page

pub put_bytes-IsOverwritten :
    (page bytes : List ℕ) (a : ℕ)
    → a + length bytes ≤ length page
    → IsOverwritten page a bytes (put_page page a bytes)
unfolding put_bytes
put_bytes-IsOverwritten page bytes a h = record {
  result = ground arith;
  self = record {
    fits = omega (arith, measured);
    found =
        ap (take (length bytes)) (drop-append (take a page) rest a front)
        ∙ take-append bytes (drop (a + length bytes) page) (length bytes) refl;
  };
  before = λ c x l k. record {
    fits = omega (arith, k.fits, measured);
    found =
        slice-append (take a page) rest c (length x) (omega (arith, front))
        ∙ (sym (slice-append (take a page) (drop a page) c (length x) (omega (arith, front)))
            ∙ (ap (λ p. take (length x) (drop c p)) (take-append-drop a page) ∙ k.found));
  };
  after = λ c x l k. record {
    fits = omega (arith, k.fits, measured);
    found =
        ap (take (length x)) (
          ap (drop c) (sym (append_assoc (take a page) bytes (drop (a + length bytes) page)))
          ∙ (drop-append_ge (take a page ++ bytes) (drop (a + length bytes) page) c
                (omega (arith, front, length-append (take a page) bytes))
              ∙ (drop-drop (c - length (take a page ++ bytes)) (a + length bytes) page
                  ∙ ap (λ n. drop n page)
                      (omega (arith, front, length-append (take a page) bytes)))))
        ∙ k.found;
  };
  same_length = measured;
}
  where
    rest : List ℕ
    rest = bytes ++ drop (a + length bytes) page

    front : a ≡ length (take a page)
    front = omega (arith, length-take a page)

    measured : length (put_page page a bytes) ≡ length page
    measured = omega (
      arith,
      front,
      length-append (take a page) rest,
      length-append bytes (drop (a + length bytes) page),
      length-drop (a + length bytes) page,
    )
