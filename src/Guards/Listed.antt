-- ===== src/Guards/Listed.antt =====
-- What is listed can be opened.
use gms_be.Common.{
  ℕ, Bool, true, false, ◌&&◌, List, [], ◌∷◌, select, All, Option, none, some, ◌==◌, ◌≡◌, refl, sym,
  ◌∙◌, inl, inr, arith, Bool-cases,
}
use mathlib.Core.Path.{subst}
use mathlib.Core.List.{Memᴰ}
use mathlib.Core.List.Memᴰ
use gms_be.Errors.{Failure}
use gms_be.Database.{Guard, Db, Result, ok, find_first, query, ◌>>=◌}
use gms_be.Database.Laws.{Leaves, >>=-ok}
use gms_be.Access.{User, should_filter_by_office, get_supervisor_location_filter}
use gms_be.Access.Filter.{filter-Leaves}
use gms_be.Common.Select.{IsPairwise, All-Memᴰ, All-both}
use gms_be.Guards.Reading.{
  is_elsewhere, is_hidden, is_reached, check_scope, find_one, find_guards_by_organization_id,
}

office-Leaves : (b : Bool) (user : Option User) → Leaves (λ d. d) (should_filter_by_office b user)
unfolding should_filter_by_office
office-Leaves b none = λ d. refl
office-Leaves b (some u) = λ d. ground arith

module _ (org : ℕ) (user : Option User) (d : Db) where
  scope_ok :
      (g : Guard) (o : Option ℕ) (f : Option (List ℕ))
      → (g.organization_id == org) ≡ true
      → should_filter_by_office true user d ≡ (ok o, d)
      → is_elsewhere o g ≡ false
      → get_supervisor_location_filter user d ≡ (ok f, d)
      → is_hidden f g d ≡ false
      → (check_scope org g user d).0 ≡ ok g
  unfolding check_scope
  scope_ok g o f e1 e2 e3 e4 e5 = rw (e1, e2, e3, e4, e5)

find_by_id :
    (gs : List Guard)
    → IsPairwise (λ g h. (g.id == h.id) ≡ false) gs
    → All (λ g. find_first (λ h. h.id == g.id) gs ≡ some g) gs
find_by_id [] u = tt
find_by_id (g ∷ gs) u = (
  ground arith,
  All-both _ _ _ gs
      (λ h (e : (g.id == h.id) ≡ false) (k : find_first (λ x. x.id == h.id) gs ≡ some h). rw (e, k))
      u.0 (find_by_id gs u.1),
)

abbrev is_listed : ℕ → Option ℕ → Option (List ℕ) → Db → Guard → Bool
is_listed org o f d g = g.organization_id == org && (g.is_active && is_reached o f d g)

ok-injective : {A : Type 0} {a b : A} → ◌≡◌ {A = Result Failure A} (ok a) (ok b) → a ≡ b
ok-injective h = cc

listed_here :
    (org : ℕ) (o : Option ℕ) (f : Option (List ℕ)) (d : Db) (g : Guard)
    → is_listed org o f d g ≡ true
    → is_elsewhere o g ≡ false
listed_here org o f d g t = elim (Bool-cases (is_elsewhere o g)) [
  | inl e ↦ absurd (ground arith)
  | inr e ↦ e
]

listed_seen :
    (org : ℕ) (o : Option ℕ) (f : Option (List ℕ)) (d : Db) (g : Guard)
    → is_listed org o f d g ≡ true
    → is_hidden f g d ≡ false
listed_seen org o f d g t = elim (Bool-cases (is_hidden f g d)) [
  | inl e ↦ absurd (ground arith)
  | inr e ↦ e
]

opened :
    (org : ℕ) (user : Option User) (d : Db) (g : Guard) (o : Option ℕ) (f : Option (List ℕ))
    → find_first (λ h. h.id == g.id) d.guards ≡ some g
    → is_listed org o f d g ≡ true
    → should_filter_by_office true user d ≡ (ok o, d)
    → get_supervisor_location_filter user d ≡ (ok f, d)
    → (find_one g.id org user d).0 ≡ ok g
unfolding find_one
opened org user d g o f found t e1 e2 = rw found (
    scope_ok org user d g o f (ground arith) e1 (listed_here org o f d g t) e2
      (listed_seen org o f d g t))

-- What a guard that is opened has passed.
passed :
    (org : ℕ) (user : Option User) (d : Db) (g : Guard) (o : Option ℕ) (f : Option (List ℕ))
    → find_first (λ h. h.id == g.id) d.guards ≡ some g
    → should_filter_by_office true user d ≡ (ok o, d)
    → get_supervisor_location_filter user d ≡ (ok f, d)
    → (find_one g.id org user d).0 ≡ ok g
    → ((g.organization_id == org) ≡ true) × (is_elsewhere o g ≡ false) × (is_hidden f g d ≡ false)
unfolding find_one check_scope
passed org user d g o f found e1 e2 h = elim (Bool-cases (g.organization_id == org)) [
  | inr a ↦ absurd (ground (arith, rw (found, a) at h))
  | inl a ↦ elim (Bool-cases (is_elsewhere o g)) [
    | inl b ↦ absurd (ground (arith, rw (found, a, e1, b) at h))
    | inr b ↦ elim (Bool-cases (is_hidden f g d)) [
      | inl c ↦ absurd (ground (arith, rw (found, a, e1, b, e2, c) at h))
      | inr c ↦ (a, b, c)
    ]
  ]
]

-- A guard is among those selected if and only if it is in the table and passes the test.
Memᴰ-select :
    {A : Type 0} (q : A → Bool) (rows : List A) {x : A}
    → Memᴰ x rows
    → q x ≡ true
    → Memᴰ x (select q rows)
Memᴰ-select q [] m h = absurd (Memᴰ.not-nil m)
Memᴰ-select q (y ∷ rows) {x} m h = elim (Memᴰ.cases_cons m) [
  | inl e ↦ rw (subst (λ z. q z ≡ true) e h) (Memᴰ.head e)
  | inr n ↦ elim (Bool-cases (q y)) [
    | inl k ↦ rw k (Memᴰ.tail (Memᴰ-select q rows n h))
    | inr k ↦ rw k (Memᴰ-select q rows n h)
  ]
]

select-test :
    {A : Type 0} (q : A → Bool) (rows : List A) {x : A} → Memᴰ x (select q rows) → q x ≡ true
select-test q [] m = absurd (Memᴰ.not-nil m)
select-test q (y ∷ rows) {x} m = elim (Bool-cases (q y)) [
  | inl k ↦ elim (Memᴰ.cases_cons (rw k at m)) [
    | inl e ↦ subst (λ z. q z ≡ true) (sym e) k
    | inr n ↦ select-test q rows n
  ]
  | inr k ↦ select-test q rows (rw k at m)
]

-- The list holds a guard if and only if the guard is active and can be opened.
abbrev pub Agrees : ℕ → Option User → Db → List Guard → Guard → Type 0
Agrees org user d gs g =
    (Memᴰ g gs → (g.is_active ≡ true) × ((find_one g.id org user d).0 ≡ ok g))
    × (g.is_active ≡ true → (find_one g.id org user d).0 ≡ ok g → Memᴰ g gs)

selected-Agrees :
    (org : ℕ) (user : Option User) (d : Db) (g : Guard) (o : Option ℕ) (f : Option (List ℕ))
    → find_first (λ h. h.id == g.id) d.guards ≡ some g
    → Memᴰ g d.guards
    → should_filter_by_office true user d ≡ (ok o, d)
    → get_supervisor_location_filter user d ≡ (ok f, d)
    → Agrees org user d (select (is_listed org o f d) d.guards) g
selected-Agrees org user d g o f found m e1 e2 = (
  λ k.
      let t = select-test (is_listed org o f d) d.guards k in
      (ground arith, opened org user d g o f found t e1 e2),
  λ active h.
      let (a, b, c) = passed org user d g o f found e1 e2 h in
      Memᴰ-select (is_listed org o f d) d.guards m (ground arith),
)

-- Where no two guards have one identifier, and findGuardsByOrganizationId answers a user with a
-- list: a guard of the table is in the list if and only if the guard is active and is one that
-- findOne gives to that user.
pub listed_iff_opened :
    (org : ℕ) (user : Option User) (d : Db) {gs : List Guard}
    → IsPairwise (λ g h. (g.id == h.id) ≡ false) d.guards
    → (find_guards_by_organization_id org user d).0 ≡ ok gs
    → (g : Guard) → Memᴰ g d.guards
    → Agrees org user d gs g
unfolding find_guards_by_organization_id
listed_iff_opened org user d {gs} u h g m =
    let office = should_filter_by_office true user in
    let filter = get_supervisor_location_filter user in
    let list =
      λ (o : Option ℕ) (f : Option (List ℕ)). query (λ x. select (is_listed org o f x) x.guards) in
    let (o, h1, h2, e1) = >>=-ok office (λ o. filter >>= list o) d h in
    let (f, h3, h4, e2) = >>=-ok filter (list o) (office d).1 h2 in
    let same = office-Leaves true user d in
    let h5 = subst (λ x. (filter x).0 ≡ ok f) same h3 in
    let h6 = subst (λ x. (list o f x).0 ≡ ok gs) (filter-Leaves user (office d).1 ∙ same) h4 in
    subst (λ xs. Agrees org user d xs g) (ok-injective h6)
      (selected-Agrees org user d g o f (All-Memᴰ _ d.guards (find_by_id d.guards u) m) m
        (λ i. (h1 i, same i)) (λ i. (h5 i, filter-Leaves user d i)))
