-- ===== src/Guards/Numbers.antt =====
-- The service number of a guard for whom none is given.
use gms_be.Common.{
  ℕ, true, false, List, [], ◌∷◌, any, All, Option, none, some, ◌==◌, ◌≡◌, refl, sym, arith, inl,
  inr, Bool-cases, All-map_of_imp,
}
use mathlib.Core.Path.{subst}
use gms_be.Common.Int.{pos, ◌≤ℤ◌, ltb_ℤ, ltb_ℤ_false, +ℤ_parts}
use gms_be.Common.Select.{any-false}
use gms_be.Database.{Guard, Db}
use gms_be.Guards.{greater, last_guard, after_last, number_for, has_number}

-- No number of the organization is above that of the guard who was found; none was found where the
-- organization has no guard.
abbrev IsLast : ℕ → Option Guard → Guard → Type 0
IsLast org none g = (g.organization_id == org) ≡ false
IsLast org (some m) g = (g.organization_id == org) ≡ true → g.service_number ≤ℤ m.service_number

greater_first : (org : ℕ) (g : Guard) (o : Option Guard) → IsLast org (greater g o) g
greater_first org g none = λ e. omega arith
greater_first org g (some h) = elim (Bool-cases (ltb_ℤ g.service_number h.service_number)) [
  | inl e ↦ rw e (λ k. ground arith)
  | inr e ↦ rw e (λ k. omega arith)
]

greater_rest :
    (org : ℕ) (g h : Guard) (o : Option Guard) → IsLast org o h → IsLast org (greater g o) h
greater_rest org g h none e = λ k. absurd (ground arith)
greater_rest org g h (some m) e = elim (Bool-cases (ltb_ℤ g.service_number m.service_number)) [
  | inl k ↦ rw k e
  | inr k ↦ rw k (λ l. omega (arith, e l, ltb_ℤ_false g.service_number m.service_number k))
]

last_guard_here :
    (org : ℕ) (g : Guard) (gs : List Guard)
    → (g.organization_id == org) ≡ true
    → last_guard org (g ∷ gs) ≡ greater g (last_guard org gs)
unfolding last_guard
last_guard_here org g gs e = rw e

last_guard_other :
    (org : ℕ) (g : Guard) (gs : List Guard)
    → (g.organization_id == org) ≡ false
    → last_guard org (g ∷ gs) ≡ last_guard org gs
unfolding last_guard
last_guard_other org g gs e = rw e

IsLast-other :
    (org : ℕ) (g : Guard) (o : Option Guard) → (g.organization_id == org) ≡ false → IsLast org o g
IsLast-other org g none k = k
IsLast-other org g (some m) k = λ l. absurd (ground arith)

last_guard-IsLast : (org : ℕ) (gs : List Guard) → All (IsLast org (last_guard org gs)) gs
last_guard-IsLast org [] = tt
last_guard-IsLast org (g ∷ gs) =
    let rest = last_guard org gs in
    let ih = last_guard-IsLast org gs in
    elim (Bool-cases (g.organization_id == org)) [
      | inl e ↦
          subst (λ o. All (IsLast org o) (g ∷ gs)) (sym (last_guard_here org g gs e))
            (greater_first org g rest, All-map_of_imp gs (λ h. greater_rest org g h rest) ih)
      | inr e ↦
          subst (λ o. All (IsLast org o) (g ∷ gs)) (sym (last_guard_other org g gs e))
            (IsLast-other org g rest e, ih)
    ]

after_last_free :
    (org : ℕ) (o : Option Guard) (g : Guard)
    → IsLast org o g
    → has_number org (after_last o) g ≡ false
after_last_free org none g h = ground arith
after_last_free org (some m) g h = elim (Bool-cases (g.organization_id == org)) [
  | inl e ↦ ground (arith, h e, +ℤ_parts m.service_number (pos 1))
  | inr e ↦ ground arith
]

-- A guard for whom no service number is given, or 0, gets one that no guard of the organization has.
pub number_for_free :
    (org : ℕ) (d : Db)
    → (any (has_number org (number_for org none d)) d.guards ≡ false)
      × (number_for org (some (pos 0)) d ≡ number_for org none d)
unfolding number_for
number_for_free org d = (
  any-false _ d.guards (
      All-map_of_imp d.guards (after_last_free org (last_guard org d.guards))
        (last_guard-IsLast org d.guards)),
  refl,
)
