-- ===== src/Payroll/Apart.antt =====
-- Lists of periods of which no two of one location have a moment in common, and what keeps them so.
use gms_be.Common.{
  ℕ, Bool, true, false, ◌&&◌, List, [], ◌∷◌, any, all, some, ◌==◌, leb, if◌then◌else◌, ◌≡◌, inl,
  inr, All, arith, Bool-cases,
}
use gms_be.Database.{PayrollDuration, update_where, delete_where}

-- Two periods of one location have a moment in common.
abbrev pub clash : PayrollDuration → PayrollDuration → Bool
clash p q =
    q.location_id == p.location_id && (leb q.start_date p.end_date && leb p.start_date q.end_date)

abbrev pub IsApart : List PayrollDuration → Type 0
IsApart [] = Unit
IsApart (p ∷ ps) = All (λ q. clash p q ≡ false) ps × IsApart ps

pub none_of :
    {A : Type 0} (f : A → Bool) (xs : List A) → any f xs ≡ false → All (λ x. f x ≡ false) xs
none_of f [] h = tt
none_of f (x ∷ xs) h = (ground arith, none_of f xs (ground arith))

pub every_of :
    {A : Type 0} (f : A → Bool) (xs : List A) → all f xs ≡ true → All (λ x. f x ≡ true) xs
every_of f [] h = tt
every_of f (x ∷ xs) h = (ground arith, every_of f xs (ground arith))

module _ (id now : ℕ) where
  abbrev pub finish : PayrollDuration → PayrollDuration
  finish p = record p { is_final_locked = true; final_locked_at = some now }

  finish_one :
      (p q : PayrollDuration) (b : Bool)
      → clash p q ≡ false
      → clash p (if b then finish q else q) ≡ false
  finish_one p q true h = h
  finish_one p q false h = h

  finished_rest :
      (p : PayrollDuration) (ps : List PayrollDuration)
      → All (λ q. clash p q ≡ false) ps
      → All (λ q. clash p q ≡ false) (update_where (λ x. x.id == id) finish ps)
  finished_rest p [] h = tt
  finished_rest p (q ∷ qs) (h, hs) = (finish_one p q (q.id == id) h, finished_rest p qs hs)

  finished_first :
      (p : PayrollDuration) (b : Bool) (ps : List PayrollDuration)
      → All (λ q. clash p q ≡ false) ps
      → All (λ q. clash (if b then finish p else p) q ≡ false) ps
  finished_first p true ps h = h
  finished_first p false ps h = h

  pub finish-IsApart :
      (ps : List PayrollDuration) → IsApart ps → IsApart (update_where (λ x. x.id == id) finish ps)
  finish-IsApart [] h = tt
  finish-IsApart (p ∷ ps) (h, hs) =
      (finished_first p (p.id == id) _ (finished_rest p ps h), finish-IsApart ps hs)

  deleted_rest :
      (p : PayrollDuration) (ps : List PayrollDuration)
      → All (λ q. clash p q ≡ false) ps
      → All (λ q. clash p q ≡ false) (delete_where (λ x. x.id == id) ps)
  deleted_rest p [] h = tt
  deleted_rest p (q ∷ qs) (h, hs) = elim (Bool-cases (q.id == id)) [
    | inl e ↦ rw e (deleted_rest p qs hs)
    | inr e ↦ rw e (h, deleted_rest p qs hs)
  ]

  pub delete-IsApart :
      (ps : List PayrollDuration) → IsApart ps → IsApart (delete_where (λ x. x.id == id) ps)
  delete-IsApart [] h = tt
  delete-IsApart (p ∷ ps) (h, hs) = elim (Bool-cases (p.id == id)) [
    | inl e ↦ rw e (delete-IsApart ps hs)
    | inr e ↦ rw e (deleted_rest p ps h, delete-IsApart ps hs)
  ]
