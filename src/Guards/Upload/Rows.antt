-- ===== src/Guards/Upload/Rows.antt =====
-- The loop over the rows of a file: the guards it takes have different keys.
use gms_be.Common.{
  ◌||◌, ℕ, suc, Bool, true, false, List, [], ◌∷◌, ◌++◌, map, any, All, ◌≡◌, refl, ap, arith,
}
use mathlib.Core.Path.{subst}
use gms_be.Common.Select.{IsPairwise, Matches}
use gms_be.Common.Text.{text_eq}
use gms_be.Errors.{trim}
use gms_be.Guards.Age.{Day}
use gms_be.Guards.Upload.{
  Number, same_number, Field, left_out, unreadable, given, Row, RowError, NewGuard, Progress, start,
  is_seen_cnic, is_seen_number, note_if, missing_fields, field_errors, number_errors,
  duplicate_cnic, duplicate_service_number, row_errors, note_errors, note_or, take_guard, take_row,
  check_row, check_rows,
}

module _ {A : Type 0} where
  append_nil_right : (xs ys : List A) → xs ++ ys ≡ [] → ys ≡ []
  append_nil_right [] ys h = h
  append_nil_right (x ∷ xs) ys h = absurd (ground arith)

  append_nil_left : (xs ys : List A) → xs ++ ys ≡ [] → xs ≡ []
  append_nil_left [] ys h = refl
  append_nil_left (x ∷ xs) ys h = absurd (ground arith)

  snoc_nil : (xs : List A) (x : A) → ¬ (xs ++ x ∷ [] ≡ [])
  snoc_nil [] x h = ground arith
  snoc_nil (y ∷ xs) x h = ground arith

noted : (b : Bool) (e : RowError) → note_if b e [] ≡ [] → b ≡ false
noted true e h = absurd (ground arith)
noted false e h = refl

-- What a row without errors shows.
unseen :
    (today : Day) (s : Progress) (r : Row) (n : Number)
    → r.service_number ≡ given n
    → row_errors today s r ≡ []
    → (is_seen_cnic s (trim r.cnic_number) ≡ false) × (is_seen_number s n ≡ false)
unfolding row_errors
unseen today s r n e h =
    let cnic = note_if (is_seen_cnic s (trim r.cnic_number)) duplicate_cnic [] in
    let number = number_errors s r.service_number in
    let h1 = append_nil_right (field_errors today r) (cnic ++ number) h in
    let h2 = append_nil_right cnic number h1 in
    (
      noted (is_seen_cnic s (trim r.cnic_number)) duplicate_cnic (append_nil_left cnic number h1),
      noted (is_seen_number s n) duplicate_service_number
          (subst (λ f. number_errors s f ≡ []) e h2),
    )

-- A guard who is to be created is the one of a row.
abbrev pub IsNewOf : Row → NewGuard → Type 0
IsNewOf r g =
    (g.full_name ≡ trim r.full_name)
    × (g.cnic_number ≡ trim r.cnic_number)
    × (r.service_number ≡ given g.service_number)

abbrev pub is_same : NewGuard → NewGuard → Bool
is_same g h = text_eq h.cnic_number g.cnic_number || same_number h.service_number g.service_number

-- What is kept by the loop, after the rows `past`, of which the last one is first.
pub record IsSound (past : List Row) (s : Progress) : Type 0 where
  pub cnics : s.seen_cnic_numbers ≡ map (λ g. g.cnic_number) s.guards_to_create
  pub numbers : s.seen_service_numbers ≡ map (λ g. g.service_number) s.guards_to_create
  pub apart : IsPairwise (λ g h. is_same g h ≡ false) s.guards_to_create
  pub taken : s.validation_errors ≡ [] → Matches IsNewOf past s.guards_to_create

noted-IsSound :
    (past : List Row) (r : Row) (i : ℕ) (es : List RowError) (s : Progress)
    → IsSound past s
    → IsSound (r ∷ past) (note_errors i es s)
noted-IsSound past r i es s h = record {
  cnics = h.cnics;
  numbers = h.numbers;
  apart = h.apart;
  taken = λ e. absurd (snoc_nil s.validation_errors _ e);
}

unlike :
    (g : NewGuard) (gs : List NewGuard)
    → any (λ c. text_eq c g.cnic_number) (map (λ h. h.cnic_number) gs) ≡ false
    → any (λ m. same_number m g.service_number) (map (λ h. h.service_number) gs) ≡ false
    → All (λ h. is_same g h ≡ false) gs
unlike g [] a b = tt
unlike g (h ∷ hs) a b = (ground arith, unlike g hs (ground arith) (ground arith))

taken-IsSound :
    (past : List Row) (r : Row) (g : NewGuard) (s : Progress)
    → IsSound past s
    → IsNewOf r g
    → is_seen_cnic s g.cnic_number ≡ false
    → is_seen_number s g.service_number ≡ false
    → IsSound (r ∷ past) (take_guard g s)
taken-IsSound past r g s h new a b = record {
  cnics = ap (◌∷◌ g.cnic_number) h.cnics;
  numbers = ap (◌∷◌ g.service_number) h.numbers;
  apart = (
    unlike g s.guards_to_create
        (subst (λ cs. any (λ c. text_eq c g.cnic_number) cs ≡ false) h.cnics a)
        (subst (λ ns. any (λ m. same_number m g.service_number) ns ≡ false) h.numbers b),
    h.apart,
  );
  taken = λ e. (new, h.taken e);
}

note_or-IsSound :
    (past : List Row) (r : Row) (i : ℕ) (es : List RowError) (s t : Progress)
    → IsSound past s
    → (es ≡ [] → IsSound (r ∷ past) t)
    → IsSound (r ∷ past) (note_or i es s t)
note_or-IsSound past r i [] s t h f = f refl
note_or-IsSound past r i (e ∷ es) s t h f = noted-IsSound past r i (e ∷ es) s h

row-IsSound :
    (past : List Row) (i : ℕ) (r : Row) (f : Field Number) (s : Progress)
    → IsSound past s
    → r.service_number ≡ f
    → ((n : Number)
        → f ≡ given n
        → (is_seen_cnic s (trim r.cnic_number) ≡ false) × (is_seen_number s n ≡ false))
    → IsSound (r ∷ past) (take_row i r f s)
row-IsSound past i r (given n) s h same free =
    let (a, b) = free n refl in taken-IsSound past r _ s h (refl, refl, same) a b
row-IsSound past i r unreadable s h same free = noted-IsSound past r i _ s h
row-IsSound past i r left_out s h same free = noted-IsSound past r i _ s h

check_row-IsSound :
    (today : Day) (past : List Row) (i : ℕ) (r : Row) (s : Progress)
    → IsSound past s
    → IsSound (r ∷ past) (check_row today i r s)
unfolding check_row
check_row-IsSound today past i r s h = note_or-IsSound past r i (missing_fields r) s _ h λ _.
    note_or-IsSound past r i (row_errors today s r) s _ h
      λ e. row-IsSound past i r r.service_number s h refl (λ n g. unseen today s r n g e)

-- The rows of a file in front of others, the last one first.
abbrev pub onto : {A : Type 0} → List A → List A → List A
onto [] past = past
onto (r ∷ rs) past = onto rs (r ∷ past)

pub check_rows-IsSound :
    (today : Day) (past : List Row) (i : ℕ) (rs : List Row) (s : Progress)
    → IsSound past s
    → IsSound (onto rs past) (check_rows today i rs s)
unfolding check_rows
check_rows-IsSound today past i [] s h = h
check_rows-IsSound today past i (r ∷ rs) s h =
    check_rows-IsSound today (r ∷ past) (suc i) rs _ (check_row-IsSound today past i r s h)

pub start-IsSound : IsSound [] start
start-IsSound = record { cnics = refl; numbers = refl; apart = tt; taken = λ e. tt }
