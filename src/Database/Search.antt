-- ===== src/Database/Search.antt =====
-- Searches of a table, before and after an update.
use gms_be.Common.{
  Bool, true, false, List, [], ◌∷◌, none, some, if◌then◌else◌, ◌≡◌, refl, All, arith, Bool-cases,
  inl, inr, ◌∙◌,
}
use mathlib.Core.Path.{subst}
use mathlib.Core.Option.{some-injective}
use gms_be.Database.{find_first, update_where, delete_where}

module _ {ℓ} {A : Type ℓ} where
  pub find_first_holds :
      (p : A → Bool) (rows : List A) {r : A} → find_first p rows ≡ some r → p r ≡ true
  find_first_holds p [] h = cc
  find_first_holds p (x ∷ rows) {r} h = ground (arith, find_first_holds p rows {r = r})

  pub find_first-none :
      (p q : A → Bool) (rows : List A) {r : A}
      → find_first p rows ≡ none
      → find_first q rows ≡ some r
      → p r ≡ false
  find_first-none p q [] h k = cc
  find_first-none p q (x ∷ rows) {r} h k = ground (arith, find_first-none p q rows {r = r})

  pub All-find_first {κ} :
      (P : A → Type κ) (p : A → Bool) (rows : List A) {r : A}
      → All P rows
      → find_first p rows ≡ some r
      → P r
  All-find_first P p [] a h = cc
  All-find_first P p (x ∷ rows) {r} a h = elim (Bool-cases (p x)) [
    | inl found ↦ subst P (some-injective x r (rw found at h)) a.0
    | inr other ↦ All-find_first P p rows a.1 (rw other at h)
  ]

  -- An update that does not touch what a search tests is seen by it.
  pub find_first-update_where :
      (p q : A → Bool) (f : A → A) (rows : List A)
      → ((x : A) → p (f x) ≡ p x)
      → find_first p (update_where q f rows)
        ≡ elim (find_first p rows) [ none ↦ none | some r ↦ some (if q r then f r else r) ]
  find_first-update_where p q f [] k = refl
  find_first-update_where p q f (x ∷ rows) k =
      ground (arith, find_first-update_where p q f rows k, k x)

  -- The row that is found is seen in its new form, if the update is of that row.
  pub find_first_updated :
      (p q : A → Bool) (f : A → A) (rows : List A) (r : A)
      → ((x : A) → p (f x) ≡ p x)
      → find_first p rows ≡ some r
      → q r ≡ true
      → find_first p (update_where q f rows) ≡ some (f r)
  find_first_updated p q f rows r k h c = find_first-update_where p q f rows k ∙ ground arith

  -- Searches for other rows find what they found.
  pub find_first_other :
      (p q : A → Bool) (f : A → A) (rows : List A)
      → ((x : A) → p (f x) ≡ p x)
      → ((x : A) → p x ≡ true → q x ≡ false)
      → find_first p (update_where q f rows) ≡ find_first p rows
  find_first_other p q f [] k apart = refl
  find_first_other p q f (x ∷ rows) k apart =
      ground (arith, find_first_other p q f rows k apart, k x, apart x)

  pub find_first_deleted :
      (p q : A → Bool) (rows : List A)
      → ((x : A) → p x ≡ true → q x ≡ true)
      → find_first p (delete_where q rows) ≡ none
  find_first_deleted p q [] k = refl
  find_first_deleted p q (x ∷ rows) k = ground (arith, find_first_deleted p q rows k, k x)
