-- ===== src/Batches/Loop.antt =====
-- The loop over the slices of a list goes through the whole list.

use gms_be.Common.{
  ℕ, zero, suc, ◌+◌, ◌≤◌, ◌<◌, List, [], ◌∷◌, ◌++◌, length, take, drop, ◌≡◌, refl, sym, ap, ◌∙◌,
  arith,
}
use mathlib.Core.Path.{subst, subst₂}
use native.Mathlib.Decide.{dec_lt}
use mathlib.Core.List.{append_assoc, append-nil}
use gms_be.Batches.{chunk_loop}

module _ {ℓ} {A : Type ℓ} where
  pub take-++-drop : (n : ℕ) (xs : List A) → take n xs ++ drop n xs ≡ xs
  take-++-drop zero xs = refl
  take-++-drop (suc n) [] = refl
  take-++-drop (suc n) (x ∷ xs) = ap (◌∷◌ x) (take-++-drop n xs)

  drop-nil : (n : ℕ) → ◌≡◌ {A = List A} (drop n []) []
  drop-nil zero = refl
  drop-nil (suc n) = refl

  pub drop-drop : (m n : ℕ) (xs : List A) → drop m (drop n xs) ≡ drop (n + m) xs
  drop-drop m zero xs = let e : m ≡ 0 + m = omega arith in ap (λ k. drop k xs) e
  drop-drop m (suc n) [] = drop-nil m ∙ sym (drop-nil (suc n + m))
  drop-drop m (suc n) (x ∷ xs) =
      let e : suc (n + m) ≡ suc n + m = omega arith in
      drop-drop m n xs ∙ ap (λ k. drop k (x ∷ xs)) e

  pub drop-length : (n : ℕ) (xs : List A) → length xs ≤ n → drop n xs ≡ []
  drop-length zero [] h = refl
  drop-length zero (x ∷ xs) h = absurd (omega arith)
  drop-length (suc n) [] h = refl
  drop-length (suc n) (x ∷ xs) h = drop-length n xs (omega arith)

module _ {A S : Type 0} (size : ℕ) (body : ℕ → List A → S → S) where
  loop_more :
      (fuel i : ℕ) (xs : List A) (s : S)
      → i < length xs
      → chunk_loop size body (suc fuel) i xs s
        ≡ chunk_loop size body fuel (i + size) xs (body i (take size (drop i xs)) s)
  unfolding chunk_loop
  loop_more fuel i xs s h = ground arith

  loop_over :
      (fuel i : ℕ) (xs : List A) (s : S) → length xs ≤ i → chunk_loop size body fuel i xs s ≡ s
  unfolding chunk_loop
  loop_over zero i xs s h = refl
  loop_over (suc fuel) i xs s h = ground arith

  past_end : (i : ℕ) (past xs : List A) → length xs ≤ i → past ++ drop i xs ≡ xs → past ≡ xs
  past_end i past xs h e = sym (append-nil past) ∙ (ap (◌++◌ past) (sym (drop-length i xs h)) ∙ e)

  module _ (P : List A → List A → S → Type 0)
      (keep : (i : ℕ) (past rest : List A) (s : S)
        → P past rest s
        → P (past ++ take size rest) (drop size rest) (body i (take size rest) s)) where
    loop_end :
        (fuel i : ℕ) (past xs : List A) (s : S)
        → length xs ≤ i
        → past ++ drop i xs ≡ xs
        → P past (drop i xs) s
        → P xs [] (chunk_loop size body fuel i xs s)
    loop_end fuel i past xs s h whole p =
        subst (P xs []) (sym (loop_over fuel i xs s h))
          (subst₂ (λ a b. P a b s) (past_end i past xs h whole) (drop-length i xs h) p)

    loop_inv :
        (fuel i : ℕ) (past xs : List A) (s : S)
        → 0 < size
        → length xs ≤ i + fuel
        → past ++ drop i xs ≡ xs
        → P past (drop i xs) s
        → P xs [] (chunk_loop size body fuel i xs s)
    loop_inv zero i past xs s h e whole p = loop_end zero i past xs s (omega arith) whole p
    loop_inv (suc fuel) i past xs s h e whole p = elim (dec_lt i (length xs)) [
      | no over ↦ loop_end (suc fuel) i past xs s (omega arith) whole p
      | yes more ↦
          let chunk = take size (drop i xs) in
          let split : chunk ++ drop (i + size) xs ≡ drop i xs =
            ap (◌++◌ chunk) (sym (drop-drop size i xs)) ∙ take-++-drop size (drop i xs) in
          let next = body i chunk s in
          subst (P xs []) (sym (loop_more fuel i xs s more)) (
            loop_inv fuel (i + size) (past ++ chunk) xs (body i chunk s) h (omega arith)
              (append_assoc past chunk _ ∙ (ap (◌++◌ past) split ∙ whole))
              (subst (λ r. P (past ++ chunk) r next) (drop-drop size i xs)
                (keep i past (drop i xs) s p)))
    ]

    -- What holds before a loop and is kept by each round, on the slice that is next, holds when the
    -- list is used up.
    pub chunk_loop_slices :
        (xs : List A) (s : S)
        → 0 < size
        → P [] xs s
        → P xs [] (chunk_loop size body (length xs) 0 xs s)
    chunk_loop_slices xs s h p = loop_inv (length xs) 0 [] xs s h (omega arith) refl p

  -- The same, where the round keeps it for any slice.
  pub chunk_loop_inv :
      (P : List A → List A → S → Type 0)
      → ((i : ℕ) (chunk past rest : List A) (s : S)
          → P past (chunk ++ rest) s
          → P (past ++ chunk) rest (body i chunk s))
      → (xs : List A) (s : S) → 0 < size
      → P [] xs s
      → P xs [] (chunk_loop size body (length xs) 0 xs s)
  chunk_loop_inv P keep xs s h p =
      chunk_loop_slices P
        (λ i past rest s q.
          keep i (take size rest) past (drop size rest) s
            (subst (λ r. P past r s) (sym (take-++-drop size rest)) q))
        xs s h p
