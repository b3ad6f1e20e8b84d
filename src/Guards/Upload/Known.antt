-- ===== src/Guards/Upload/Known.antt =====
-- The guards of a file who are found in the table neither by one key nor by the other.
use gms_be.Common.{
  ℕ, Bool, true, false, ◌||◌, List, [], ◌∷◌, map, any, select, All, ◌≡◌, refl, sym, inl, inr, arith,
  Bool-cases, All-map_of_imp,
}
use mathlib.Core.Path.{subst}
use gms_be.Common.Select.{IsPairwise, any-false, All-both}
use gms_be.Common.Int.{◌==ℤ◌}
use gms_be.Common.Text.{Text, text_eq}
use gms_be.Database.{Guard, Db}
use gms_be.Guards.{has_cnic, has_number}
use gms_be.Guards.Upload.{
  Row, Number, value_of, RowError, NewGuard, Progress, found_errors, push_errors, row_of,
  is_known_cnic, is_known_number, known_errors, is_like, is_taken, has_clash,
}
use gms_be.Guards.Upload.Rows.{IsSound}

-- A guard of whom neither key is known.
abbrev pub IsNew : ℕ → Progress → Db → NewGuard → Type 0
IsNew org s d g = (is_known_cnic s d g ≡ false) × (is_known_number org s d g ≡ false)

IsNew-of_found :
    (org : ℕ) (s : Progress) (d : Db) (g : NewGuard) → found_errors org s d g ≡ [] → IsNew org s d g
IsNew-of_found org s d g h = elim (Bool-cases (is_known_cnic s d g)) [
  | inl e ↦ absurd (ground arith)
  | inr e ↦ elim (Bool-cases (is_known_number org s d g)) [
    | inl f ↦ absurd (ground arith)
    | inr f ↦ (e, f)
  ]
]

pushed :
    (i : ℕ) (es : List RowError) (rest : List (ℕ × List RowError))
    → push_errors i es rest ≡ []
    → (es ≡ []) × (rest ≡ [])
pushed i [] rest h = (refl, h)
pushed i (e ∷ es) [] h = absurd (ground arith)
pushed i (e ∷ es) (r ∷ rs) h = absurd (ground arith)

pub All-IsNew :
    (org : ℕ) (rows : List Row) (s : Progress) (d : Db) (gs : List NewGuard)
    → known_errors org rows s d gs ≡ []
    → All (IsNew org s d) gs
unfolding known_errors
All-IsNew org rows s d [] h = tt
All-IsNew org rows s d (g ∷ gs) h =
    let (a, b) =
      pushed (row_of 0 rows g) (found_errors org s d g) (known_errors org rows s d gs) h in
    (IsNew-of_found org s d g a, All-IsNew org rows s d gs b)

module _ {A B : Type 0} (key : A → B) where
  abbrev AreSeen : List A → List A → Type 0
  AreSeen gs hs = All (λ g. (f : B → Bool) → f (key g) ≡ true → any f (map key hs) ≡ true) gs

  seen_later : (h : A) (gs hs : List A) → AreSeen gs hs → AreSeen gs (h ∷ hs)
  seen_later h gs hs = All-map_of_imp gs (λ g k f e. ground (arith, k f e))

  all_seen : (gs : List A) → AreSeen gs gs
  all_seen [] = tt
  all_seen (g ∷ gs) = (λ f e. ground arith, seen_later g gs gs (all_seen gs))

module _ {A : Type 0} where
  -- A search among the rows that were looked up finds what a search of the whole table finds.
  any-select :
      (q p : A → Bool) (xs : List A)
      → ((x : A) → q x ≡ true → p x ≡ true)
      → any q (select p xs) ≡ false
      → any q xs ≡ false
  any-select q p [] k h = refl
  any-select q p (x ∷ xs) k h = elim (Bool-cases (q x)) [
    | inl e ↦ absurd (ground (arith, k x e))
    | inr e ↦ ground (arith, any-select q p xs k)
  ]

  any-or :
      (p q : A → Bool) (xs : List A)
      → any p xs ≡ false
      → any q xs ≡ false
      → any (λ x. p x || q x) xs ≡ false
  any-or p q [] h k = refl
  any-or p q (x ∷ xs) h k = ground (arith, any-or p q xs)

  any-weaker :
      (q r : A → Bool) (xs : List A)
      → ((x : A) → q x ≡ true → r x ≡ true)
      → any r xs ≡ false
      → any q xs ≡ false
  any-weaker q r [] k h = refl
  any-weaker q r (x ∷ xs) k h = elim (Bool-cases (q x)) [
    | inl e ↦ absurd (ground (arith, k x e))
    | inr e ↦ ground (arith, any-weaker q r xs k)
  ]

module _ (org : ℕ) (s : Progress) (d : Db) where
  not_taken :
      (g : NewGuard)
      → IsNew org s d g
      → ((f : Text → Bool) → f g.cnic_number ≡ true → any f s.seen_cnic_numbers ≡ true)
      → ((f : Number → Bool) → f g.service_number ≡ true → any f s.seen_service_numbers ≡ true)
      → any (is_taken org g) d.guards ≡ false
  not_taken g (a, b) cnic number =
      any-or (has_cnic g.cnic_number) (has_number org (value_of g.service_number)) d.guards
        (any-select (has_cnic g.cnic_number) _ d.guards
          (λ x e. cnic (λ c. text_eq x.cnic_number c) e) a)
        (any-select (has_number org (value_of g.service_number)) _ d.guards
          (λ x e. ground (arith, number (λ n. x.service_number ==ℤ value_of n)))
          (any-weaker (has_number org (value_of g.service_number))
            (λ h. h.service_number ==ℤ value_of g.service_number) _ (λ x e. ground arith) b))

  pub none_taken :
      (past : List Row)
      → IsSound past s
      → All (IsNew org s d) s.guards_to_create
      → All (λ g. any (is_taken org g) d.guards ≡ false) s.guards_to_create
  none_taken past h new =
      All-both _ _ _ s.guards_to_create
        (λ g (n : IsNew org s d g) (f : Seen g). not_taken g n f.0 f.1) new
        (All-both _ _ _ s.guards_to_create (λ g c n. (c, n)) cnics numbers)
    where
      Seen : NewGuard → Type 0
      Seen g =
          ((f : Text → Bool) → f g.cnic_number ≡ true → any f s.seen_cnic_numbers ≡ true)
          × ((f : Number → Bool) → f g.service_number ≡ true → any f s.seen_service_numbers ≡ true)

      cnics :
          All
            (λ g. (f : Text → Bool) → f g.cnic_number ≡ true → any f s.seen_cnic_numbers ≡ true)
            s.guards_to_create
      cnics =
          subst
            (λ cs.
              All (λ g. (f : Text → Bool) → f g.cnic_number ≡ true → any f cs ≡ true)
                s.guards_to_create)
            (sym h.cnics) (all_seen (λ (g : NewGuard). g.cnic_number) s.guards_to_create)

      numbers :
          All
            (λ g.
              (f : Number → Bool) → f g.service_number ≡ true → any f s.seen_service_numbers ≡ true)
            s.guards_to_create
      numbers =
          subst
            (λ ns.
              All (λ g. (f : Number → Bool) → f g.service_number ≡ true → any f ns ≡ true)
                s.guards_to_create)
            (sym h.numbers) (all_seen (λ (g : NewGuard). g.service_number) s.guards_to_create)

pub any-All :
    {A : Type 0} (f : A → Bool) (xs : List A) → any f xs ≡ false → All (λ x. f x ≡ false) xs
any-All f [] h = tt
any-All f (x ∷ xs) h = (ground arith, any-All f xs (ground arith))

pub no_clash :
    (org : ℕ) (gs : List NewGuard) (old : List Guard)
    → IsPairwise (λ g h. is_like g h ≡ false) gs
    → All (λ g. any (is_taken org g) old ≡ false) gs
    → has_clash org gs old ≡ false
unfolding has_clash
no_clash org [] old a b = refl
no_clash org (g ∷ gs) old a b =
    ground (arith, any-false (is_like g) gs a.0, no_clash org gs old a.1 b.1)
