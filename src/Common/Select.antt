-- ===== src/Common/Select.antt =====
-- What holds of the elements that a test selects.
use mathlib.Core.Path.{◌≡◌, refl, sym, subst}
use mathlib.Core.List.Memᴰ
use mathlib.Core.Bool.{Bool, true, false}
use mathlib.Core.Logic.{inl, inr}
use mathlib.Core.List.{Memᴰ, List, [], ◌∷◌, map}
use native.Mathlib.Omega.{arith}
use gms_be.Common.Tests.{Bool-cases}
use gms_be.Common.Lists.{All, any, select}

-- Every two elements are related, the earlier to the later.
abbrev pub IsPairwise : {A : Type 0} → (A → A → Type 0) → List A → Type 0
IsPairwise P [] = Unit
IsPairwise P (x ∷ xs) = All (P x) xs × IsPairwise P xs

-- Two lists have one length, and are related element by element.
abbrev pub Matches : {A B : Type 0} → (A → B → Type 0) → List A → List B → Type 0
Matches R [] [] = Unit
Matches R (x ∷ xs) (y ∷ ys) = R x y × Matches R xs ys
Matches R _ _ = ⊥

pub Matches-map :
    {A B C : Type 0} (R : B → C → Type 0) (S : A → C → Type 0) (f : A → B)
    → ((x : A) (y : C) → R (f x) y → S x y)
    → (xs : List A) (ys : List C) → Matches R (map f xs) ys
    → Matches S xs ys
Matches-map R S f k [] [] h = tt
Matches-map R S f k (x ∷ xs) (y ∷ ys) h = (k x y h.0, Matches-map R S f k xs ys h.1)
Matches-map R S f k [] (y ∷ ys) h = absurd h
Matches-map R S f k (x ∷ xs) [] h = absurd h

module _ {A : Type 0} where
  pub All-select : (P : A → Type 0) (q : A → Bool) (xs : List A) → All P xs → All P (select q xs)
  All-select P q [] h = tt
  All-select P q (x ∷ xs) h = elim (Bool-cases (q x)) [
    | inl e ↦ rw e (h.0, All-select P q xs h.1)
    | inr e ↦ rw e (All-select P q xs h.1)
  ]

  pub IsPairwise-select :
      (P : A → A → Type 0) (q : A → Bool) (xs : List A)
      → IsPairwise P xs
      → IsPairwise P (select q xs)
  IsPairwise-select P q [] h = tt
  IsPairwise-select P q (x ∷ xs) h = elim (Bool-cases (q x)) [
    | inl e ↦ rw e (All-select (P x) q xs h.0, IsPairwise-select P q xs h.1)
    | inr e ↦ rw e (IsPairwise-select P q xs h.1)
  ]

  pub select_holds : (q : A → Bool) (xs : List A) → All (λ x. q x ≡ true) (select q xs)
  select_holds q [] = tt
  select_holds q (x ∷ xs) = elim (Bool-cases (q x)) [
    | inl e ↦ rw e (e, select_holds q xs)
    | inr e ↦ rw e (select_holds q xs)
  ]

  pub All-both :
      (P Q R : A → Type 0) (xs : List A)
      → ((x : A) → P x → Q x → R x)
      → All P xs
      → All Q xs
      → All R xs
  All-both P Q R [] f h k = tt
  All-both P Q R (x ∷ xs) f h k = (f x h.0 k.0, All-both P Q R xs f h.1 k.1)

  pub any-false : (f : A → Bool) (xs : List A) → All (λ x. f x ≡ false) xs → any f xs ≡ false
  any-false f [] h = refl
  any-false f (x ∷ xs) h = ground (arith, any-false f xs h.1)

pub All-Memᴰ :
    {A : Type 0} (P : A → Type 0) (rows : List A) {x : A} → All P rows → Memᴰ x rows → P x
All-Memᴰ P [] h m = absurd (Memᴰ.not-nil m)
All-Memᴰ P (y ∷ rows) {x} h m = elim (Memᴰ.cases_cons m) [
  | inl e ↦ subst P (sym e) h.0
  | inr n ↦ All-Memᴰ P rows h.1 n
]
