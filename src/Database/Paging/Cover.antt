-- ===== src/Database/Paging/Cover.antt =====
-- The pages of a list, one after the other, are the list.
use mathlib.Core.Path.{subst}
use gms_be.Common.{
  ℕ, zero, suc, ◌+◌, ◌-◌, ◌*◌, ◌≤◌, ◌<◌, Bool, true, ltb, All, All-map_of_imp, Bool-cases, inl, inr,
  List, [], ◌∷◌, ◌++◌, length, select, take, drop, length-take, ◌==◌, false, ◌≡◌, refl, sym, ap,
  ◌∙◌, arith,
}
use mathlib.Core.Logic.{∥∥₁_elim, ◌≢◌}
use mathlib.Core.HLevel.{¬_prop}
use mathlib.Core.List.{Permᴰ, Pairwise, mem-cons_self}
use mathlib.Core.List.Permᴰ
use gms_be.Common.Select.{IsPairwise, All-Memᴰ}
use gms_be.Database.Paging.{insert_desc, sort_desc, find_page, ceil_div}
use native.Mathlib.Nat.{mod-lt, mod-add-div', suc-mul, zero-mul}

take-drop : {A : Type 0} (n : ℕ) (xs : List A) → take n xs ++ drop n xs ≡ xs
take-drop zero xs = refl
take-drop (suc n) [] = refl
take-drop (suc n) (x ∷ xs) = ap (λ r. x ∷ r) (take-drop n xs)

drop_nil : {A : Type 0} (n : ℕ) → drop {A = A} n [] ≡ []
drop_nil zero = refl
drop_nil (suc n) = refl

drop-drop : {A : Type 0} (m n : ℕ) (xs : List A) → drop n (drop m xs) ≡ drop (m + n) xs
drop-drop zero n xs = ap (λ k. drop k xs) (omega arith)
drop-drop (suc m) n [] = drop_nil n ∙ sym (drop_nil (suc m + n))
drop-drop (suc m) n (x ∷ xs) =
    drop-drop m n xs ∙ ap (λ k. drop k (x ∷ xs)) {x = suc (m + n)} (omega arith)

drop_all : {A : Type 0} (n : ℕ) (xs : List A) → length xs ≤ n → drop n xs ≡ []
drop_all n [] h = drop_nil n
drop_all zero (x ∷ xs) h = absurd (omega arith)
drop_all (suc n) (x ∷ xs) h = drop_all n xs (omega arith)

ceil_enough : (total limit : ℕ) → 0 < limit → total ≤ ceil_div total limit * limit
unfolding ceil_div
ceil_enough total limit h =
    omega (arith, mod-add-div' (total + limit - 1) limit, mod-lt (total + limit - 1) {m = limit} h)

-- The pages from one on, so many of them, joined; each page is a query that reads the table in an
-- order of its own.
unfoldable pub pages_from : {A : Type 0} → (A → ℕ) → (A → Bool) → ℕ → (ℕ → List A) → ℕ → ℕ → List A
pages_from key p limit read first zero = []
pages_from key p limit read first (suc n) =
    (find_page key p first limit (read first)).data_rows
    ++ pages_from key p limit read (suc first) n

-- No row is later than the one before it.
abbrev pub IsDescending : {A : Type 0} → (A → ℕ) → List A → Type 0
IsDescending key [] = Unit
IsDescending key (r ∷ rs) = All (λ s. key s ≤ key r) rs × IsDescending key rs

module _ {A : Type 0} (key : A → ℕ) where
  insert-All :
      (q : A → Type 0) (r : A) (ss : List A) → q r → All q ss → All q (insert_desc key r ss)
  unfolding insert_desc
  insert-All q r [] h hs = (h, tt)
  insert-All q r (s ∷ ss) h (k, ks) = elim (Bool-cases (ltb (key r) (key s))) [
    | inl e ↦ rw e (k, insert-All q r ss h ks)
    | inr e ↦ rw e (h, (k, ks))
  ]

  insert-IsDescending :
      (r : A) (ss : List A) → IsDescending key ss → IsDescending key (insert_desc key r ss)
  unfolding insert_desc
  insert-IsDescending r [] h = (tt, tt)
  insert-IsDescending r (s ∷ ss) (h, hs) = elim (Bool-cases (ltb (key r) (key s))) [
    | inl e ↦
        rw e (insert-All (λ x. key x ≤ key s) r ss (ground arith) h, insert-IsDescending r ss hs)
    | inr e ↦ rw e ((ground arith, All-map_of_imp ss (λ x k. ground arith) h), (h, hs))
  ]

  sort-IsDescending : (rs : List A) → IsDescending key (sort_desc key rs)
  unfolding sort_desc
  sort-IsDescending [] = tt
  sort-IsDescending (r ∷ rs) = insert-IsDescending r (sort_desc key rs) (sort-IsDescending rs)

  -- How many rows pass a test.
  abbrev pub count : (A → Bool) → List A → ℕ
  count q rs = length (select q rs)

  count-insert :
      (q : A → Bool) (r : A) (ss : List A) → count q (insert_desc key r ss) ≡ count q (r ∷ ss)
  unfolding insert_desc
  count-insert q r [] = refl
  count-insert q r (s ∷ ss) = ground (arith, count-insert q r ss)

  count-sort : (q : A → Bool) (rs : List A) → count q (sort_desc key rs) ≡ count q rs
  unfolding sort_desc
  count-sort q [] = refl
  count-sort q (r ∷ rs) = ground (arith, count-insert q r (sort_desc key rs), count-sort q rs)

  select-true : (rs : List A) → length (select (λ x. true) rs) ≡ length rs
  select-true [] = refl
  select-true (r ∷ rs) = ground (arith, select-true rs)

  length-sort : (rs : List A) → length (sort_desc key rs) ≡ length rs
  length-sort rs = sym (select-true (sort_desc key rs)) ∙ count-sort (λ x. true) rs ∙ select-true rs

module _ {A : Type 0} (key : A → ℕ) where
  insert-insert :
      (r s : A) (ss : List A)
      → key r ≢ key s
      → insert_desc key r (insert_desc key s ss) ≡ insert_desc key s (insert_desc key r ss)
  unfolding insert_desc
  insert-insert r s [] h = ground (arith, h)
  insert-insert r s (t ∷ ss) h = ground (arith, h, insert-insert r s ss h)

  abbrev Differ : A → A → Type 0
  Differ r s = key r ≢ key s

  different : (r s : A) → (key r == key s) ≡ false → Differ r s
  different r s h e = ground arith

  pairwise : (rs : List A) → IsPairwise (λ r s. (key r == key s) ≡ false) rs → Pairwise Differ rs
  pairwise [] h = Pairwise.nil
  pairwise (r ∷ rs) h =
      Pairwise.cons
        (λ s m.
          ∥∥₁_elim m ¬_prop λ d. different r s (All-Memᴰ (λ s. (key r == key s) ≡ false) rs h.0 d))
        (pairwise rs h.1)

  -- The order in which rows with different keys are read does not matter.
  sort-perm :
      {rs ss : List A} → Permᴰ rs ss → Pairwise Differ rs → sort_desc key rs ≡ sort_desc key ss
  unfolding sort_desc
  sort-perm Permᴰ.nil h = refl
  sort-perm (Permᴰ.cons {l₁ = rs} {l₂ = ss} e d) (Pairwise.cons h t) =
      λ i. insert_desc key (e i) (sort-perm d t i)
  sort-perm (Permᴰ.swap {a = a} {b = b} {l = l} e e') (Pairwise.cons h t) =
      insert-insert a b (sort_desc key l) (h b mem-cons_self)
      ∙ (λ i. insert_desc key (e' i) (insert_desc key (e i) (sort_desc key l)))
  sort-perm (Permᴰ.trans d d') h =
      sort-perm d h ∙ sort-perm d' (Permᴰ.pairwise (λ a b. ¬_prop) (λ a b n e. n (sym e)) d h)

select-perm :
    {A : Type 0} (p : A → Bool) {rs ss : List A} → Permᴰ rs ss → Permᴰ (select p rs) (select p ss)
select-perm p Permᴰ.nil = Permᴰ.nil
select-perm p (Permᴰ.cons {a = a} {b = b} e d) = elim (Bool-cases (p a)) [
  | inl k ↦ rw (k, ap p (sym e) ∙ k) (Permᴰ.cons e (select-perm p d))
  | inr k ↦ rw (k, ap p (sym e) ∙ k) (select-perm p d)
]
select-perm p (Permᴰ.swap {a = a} {b = b} e e') = elim (Bool-cases (p a)) [
  | inl k ↦ elim (Bool-cases (p b)) [
    | inl m ↦ rw (k, m, ap p (sym e) ∙ k, ap p (sym e') ∙ m) (Permᴰ.swap e e')
    | inr m ↦ rw (k, m, ap p (sym e) ∙ k, ap p (sym e') ∙ m) (Permᴰ.cons e (Permᴰ.refl _))
  ]
  | inr k ↦ elim (Bool-cases (p b)) [
    | inl m ↦ rw (k, m, ap p (sym e) ∙ k, ap p (sym e') ∙ m) (Permᴰ.cons e' (Permᴰ.refl _))
    | inr m ↦ rw (k, m, ap p (sym e) ∙ k, ap p (sym e') ∙ m) (Permᴰ.refl _)
  ]
]
select-perm p (Permᴰ.trans d d') = Permᴰ.trans (select-perm p d) (select-perm p d')

module _ {A : Type 0} (key : A → ℕ) (p : A → Bool) (limit : ℕ) (rows : List A) where
  sorted : List A
  sorted = sort_desc key (select p rows)

  suc_pred : (k : ℕ) → suc k - 1 ≡ k
  suc_pred k = omega arith

  module _ (read : ℕ → List A)
      (same : (n : ℕ) → sort_desc key (select p (read n)) ≡ sort_desc key (select p rows)) where
    rest-of_pages :
        (n k : ℕ)
        → length sorted ≤ (k + n) * limit
        → pages_from key p limit read (suc k) n ≡ drop (k * limit) sorted
    unfolding pages_from find_page sorted
    rest-of_pages zero k h =
        sym (drop_all (k * limit) sorted (subst (λ m. length sorted ≤ m * limit) (omega arith) h))
    rest-of_pages (suc n) k h =
        ap
          (λ m.
            take limit (drop (m * limit) (sort_desc key (select p (read (suc k)))))
            ++ pages_from key p limit read (suc (suc k)) n)
          (suc_pred k)
        ∙ ap (λ xs. take limit (drop (k * limit) xs) ++ pages_from key p limit read (suc (suc k)) n)
            (same (suc k))
        ∙ ap (λ r. take limit (drop (k * limit) sorted) ++ r)
            (rest-of_pages n (suc k) (subst (λ m. length sorted ≤ m * limit) (omega arith) h)
              ∙ ap (λ m. drop m sorted) (suc-mul k limit)
              ∙ sym (drop-drop (k * limit) limit sorted))
        ∙ take-drop limit (drop (k * limit) sorted)

    total_same : (n : ℕ) → length (select p (read n)) ≡ length (select p rows)
    total_same n =
        sym (length-sort key (select p (read n)))
        ∙ ap length (same n)
        ∙ length-sort key (select p rows)

  -- Where no two of the rows that pass the test have one key, and at least one row goes to a page:
  -- the pages from the first to the last that is counted, each read in an order of its own and put
  -- one after the other, are a list in which every row that passes the test stands as often as in
  -- the table and no row is later than one before it; and no page has more rows than the limit.
  pub pages_cover :
      (read : ℕ → List A)
      → ((n : ℕ) → Permᴰ rows (read n))
      → IsPairwise (λ r s. (key r == key s) ≡ false) (select p rows)
      → 0 < limit
      → let listed = pages_from key p limit read 1 (find_page key p 1 limit (read 1)).pages in
        IsDescending key listed
        × ((q : A → Bool) → length (select q listed) ≡ length (select q (select p rows)))
        × ((page : ℕ) → length (find_page key p page limit (read page)).data_rows ≤ limit)
  unfolding find_page sorted
  pages_cover read perm keys h =
      let same = λ (n : ℕ). sym (sort-perm key (select-perm p (perm n)) (pairwise key _ keys)) in
      let total = length (select p rows) in
      let whole =
        ap (λ n. pages_from key p limit read 1 (ceil_div n limit)) (total_same read same 1)
        ∙ rest-of_pages read same (ceil_div total limit) 0 (
            subst (λ m. length sorted ≤ m * limit) (omega arith)
              (subst (λ m. m ≤ ceil_div total limit * limit) (sym (length-sort key (select p rows)))
                (ceil_enough total limit h)))
        ∙ ap (λ m. drop m sorted) (zero-mul limit) in
      (
        rw whole (sort-IsDescending key (select p rows)),
        λ q. rw whole (count-sort key q (select p rows)),
        λ page. omega (
          arith,
          length-take limit (drop ((page - 1) * limit) (sort_desc key (select p (read page)))),
        ),
      )
