-- ===== src/Database/Laws.antt =====
-- How a sequence of calls succeeds: each part does, one after the other.
use gms_be.Common.{
  List, [], ◌∷◌, ◌≡◌, ◌∙◌, ◌⊎◌, inl, inr, refl, arith, Bool, false, Option, some, All,
}
use gms_be.Errors.{Failure, HttpException}
use gms_be.Database.{
  Db, Result, ok, err, Action, require, commit, caught, resume, throw_if, transaction, handled,
  ◌>>=◌, ◌>>◌, for_each,
}

resume-ok :
    {A B : Type 0} (f : A → Action B) (p : Result Failure A × Db) {b : B}
    → (resume f p).0 ≡ ok b
    → (a : A) × (p.0 ≡ ok a) × ((f a p.1).0 ≡ ok b) × (resume f p ≡ f a p.1)
resume-ok f (ok a, d) h = (a, refl, h, refl)
resume-ok f (err e, d) h = absurd (ground arith)

pub >>=-ok :
    {A B : Type 0} (m : Action A) (f : A → Action B) (d : Db) {b : B}
    → ((m >>= f) d).0 ≡ ok b
    → (a : A) × ((m d).0 ≡ ok a) × ((f a (m d).1).0 ≡ ok b) × ((m >>= f) d ≡ f a (m d).1)
>>=-ok m f d h = resume-ok f (m d) h

pub >>-ok :
    {B : Type 0} (m : Action (Unit {0})) (k : Action B) (d : Db) {b : B}
    → ((m >> k) d).0 ≡ ok b
    → ((m d).0 ≡ ok tt) × ((k (m d).1).0 ≡ ok b) × ((m >> k) d ≡ k (m d).1)
>>-ok m k d h = let (u, first, second, whole) = >>=-ok m (λ _. k) d h in (first, second, whole)

caught-ok :
    {A : Type 0} (p : Result Failure A × Db) {a : A}
    → (caught p).0 ≡ ok a
    → (p.0 ≡ ok a) × ((caught p).1 ≡ p.1)
caught-ok (ok a, d) h = (ground arith, refl)
caught-ok (err e, d) h = absurd (ground arith)

-- A handler passes a success on.
pub handled-ok :
    {A : Type 0} (m : Action A) (d : Db) {a : A}
    → (handled m d).0 ≡ ok a
    → ((m d).0 ≡ ok a) × ((handled m d).1 ≡ (m d).1)
handled-ok m d h = caught-ok (m d) h

commit-ok :
    {A : Type 0} (d : Db) (p : Result Failure A × Db) {a : A}
    → (commit d p).0 ≡ ok a
    → (p.0 ≡ ok a) × ((commit d p).1 ≡ p.1)
commit-ok d (ok a, d') h = (h, refl)
commit-ok d (err e, d') h = absurd (ground arith)

-- A transaction that succeeds has written all that it wrote.
pub transaction-ok :
    {A : Type 0} (m : Action A) (d : Db) {a : A}
    → (transaction m d).0 ≡ ok a
    → ((m d).0 ≡ ok a) × ((transaction m d).1 ≡ (m d).1)
transaction-ok m d h = commit-ok d (m d) h

caught-commit-err :
    {A : Type 0} (d : Db) (p : Result Failure A × Db) {e : HttpException}
    → (caught (commit d p)).0 ≡ err e
    → (caught (commit d p)).1 ≡ d
caught-commit-err d (ok a, d') h = absurd (ground arith)
caught-commit-err d (err e, d') h = refl

-- A method that is one transaction and throws changes nothing.
pub handled-transaction-err :
    {A : Type 0} (m : Action A) (d : Db) {e : HttpException}
    → (handled (transaction m) d).0 ≡ err e
    → (handled (transaction m) d).1 ≡ d
handled-transaction-err m d h = caught-commit-err d (m d) h

pub Result-cases :
    {E A : Type 0} (r : Result E A) → ((a : A) × (r ≡ ok a)) ⊎ ((e : E) × (r ≡ err e))
Result-cases (ok a) = inl (a, refl)
Result-cases (err e) = inr (e, refl)

-- A call that leaves a part of the database as it was, however it ends.
abbrev pub Leaves : {A X : Type 0} → (Db → X) → Action A → Type 0
Leaves g m = (d : Db) → g (m d).1 ≡ g d

resume-Leaves :
    {A B X : Type 0} (g : Db → X) (f : A → Action B) (p : Result Failure A × Db)
    → ((a : A) → Leaves g (f a))
    → g (resume f p).1 ≡ g p.1
resume-Leaves g f (ok a, d) h = h a d
resume-Leaves g f (err e, d) h = refl

pub >>=-Leaves :
    {A B X : Type 0} (g : Db → X) (m : Action A) (f : A → Action B)
    → Leaves g m
    → ((a : A) → Leaves g (f a))
    → Leaves g (m >>= f)
>>=-Leaves g m f hm hf = λ d. resume-Leaves g f (m d) hf ∙ hm d

pub for_each-Leaves :
    {A X : Type 0} (g : Db → X) (f : A → Action (Unit {0})) (xs : List A)
    → ((x : A) → Leaves g (f x))
    → Leaves g (for_each f xs)
unfolding for_each
for_each-Leaves g f [] h = λ d. refl
for_each-Leaves g f (x ∷ xs) h =
    >>=-Leaves g (f x) (λ _. for_each f xs) (h x) (λ _. for_each-Leaves g f xs h)

-- A loop that ends well has run its body well on each element.
pub for_each-ok :
    {A : Type 0} (P : A → Type 0) (f : A → Action (Unit {0})) (xs : List A)
    → ((x : A) (d : Db) → (f x d).0 ≡ ok tt → P x)
    → (d : Db) → (for_each f xs d).0 ≡ ok tt
    → All P xs
unfolding for_each
for_each-ok P f [] each d h = tt
for_each-ok P f (x ∷ xs) each d h =
    let (h1, h2, e) = >>-ok (f x) (for_each f xs) d h in
    (each x d h1, for_each-ok P f xs each (f x d).1 h2)

pub require-ok :
    {A : Type 0} (f : Db → Option A) (e : HttpException) (d : Db) {a : A}
    → (require f e d).0 ≡ ok a
    → f d ≡ some a
require-ok f e d h = ground arith

pub throw_if-ok :
    (test : Bool) (e : Failure) (d : Db) → (throw_if test e d).0 ≡ ok tt → test ≡ false
throw_if-ok test e d h = ground arith

pub >>-Leaves :
    {B X : Type 0} (g : Db → X) (m : Action (Unit {0})) (k : Action B)
    → Leaves g m
    → Leaves g k
    → Leaves g (m >> k)
>>-Leaves g m k hm hk = >>=-Leaves g m (λ _. k) hm (λ _. hk)

caught_state : {A : Type 0} (p : Result Failure A × Db) → (caught p).1 ≡ p.1
caught_state (ok a, d) = refl
caught_state (err e, d) = refl

-- A handler changes nothing in the database.
pub handled_state : {A : Type 0} (m : Action A) (d : Db) → (handled m d).1 ≡ (m d).1
handled_state m d = caught_state (m d)

pub require-Leaves :
    {A X : Type 0} (g : Db → X) (f : Db → Option A) (e : HttpException) → Leaves g (require f e)
require-Leaves g f e = λ d. refl

pub throw_if-Leaves :
    {X : Type 0} (g : Db → X) (test : Bool) (e : Failure) → Leaves g (throw_if test e)
throw_if-Leaves g test e = λ d. refl

-- A call that writes nothing when it throws.
abbrev pub Rolls : {A : Type 0} → Action A → Type 0
Rolls m = (d : Db) (e : Failure) → (m d).0 ≡ err e → (m d).1 ≡ d

resume-Rolls :
    {A B : Type 0} (f : A → Action B) (p : Result Failure A × Db) (d : Db) {e : Failure}
    → p.1 ≡ d
    → ((a : A) → Rolls (f a))
    → (resume f p).0 ≡ err e
    → (resume f p).1 ≡ d
resume-Rolls f (ok a, d') d same h k = h a d' _ k ∙ same
resume-Rolls f (err e, d') d same h k = same

-- A call that only reads, before one that rolls back.
pub >>=-Rolls :
    {A B : Type 0} (m : Action A) (f : A → Action B)
    → Leaves (λ d. d) m
    → ((a : A) → Rolls (f a))
    → Rolls (m >>= f)
>>=-Rolls m f reads h = λ d e k. resume-Rolls f (m d) d (reads d) h k

caught-err :
    {A : Type 0} (p : Result Failure A × Db) {e : HttpException}
    → (caught p).0 ≡ err e
    → (x : Failure) × (p.0 ≡ err x)
caught-err (ok a, d) h = absurd (ground arith)
caught-err (err x, d) h = (x, refl)

pub handled-Rolls :
    {A : Type 0} (m : Action A) (d : Db) {e : HttpException}
    → Rolls m
    → (handled m d).0 ≡ err e
    → (handled m d).1 ≡ d
handled-Rolls m d r h = let (x, k) = caught-err (m d) h in handled_state m d ∙ r d x k

commit-Rolls :
    {A : Type 0} (d : Db) (p : Result Failure A × Db) {e : Failure}
    → (commit d p).0 ≡ err e
    → (commit d p).1 ≡ d
commit-Rolls d (ok a, d') h = absurd (ground arith)
commit-Rolls d (err x, d') h = refl

-- A transaction that throws undoes what it wrote.
pub transaction-Rolls : {A : Type 0} (m : Action A) → Rolls (transaction m)
transaction-Rolls m = λ d e h. commit-Rolls d (m d) h

pub >>-Rolls :
    {B : Type 0} (m : Action (Unit {0})) (k : Action B)
    → Leaves (λ d. d) m
    → Rolls k
    → Rolls (m >> k)
>>-Rolls m k reads r = >>=-Rolls m (λ _. k) reads (λ _. r)
