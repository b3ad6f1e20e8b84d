-- ===== src/Batches/Rule.antt =====
-- What is kept by the steps of overlapping calls, in any order.
use gms_be.Common.{ℕ, zero, suc, List, [], ◌∷◌, map, Option, none, some, All, ◌≡◌, refl}
use gms_be.Common.Select.{IsPairwise}
use gms_be.Database.{Db}
use gms_be.Batches.{Task, waiting, checked, done, decide, turn, turn_at, run, complete, all_of}

module _ {X R : Type 0} (check : X → Db → Option R) (act : X → Db → R × Db) where
  -- What to show of an invariant `I`, of what a check has found (`C`), and of inputs that are apart.
  pub record Rule (Apart : X → X → Type 0) (I : Db → Type 0) (C : X → Db → Type 0) : Type 0 where
    pub swap : (x y : X) → Apart x y → Apart y x
    pub found : (x : X) (d : Db) → I d → check x d ≡ none → C x d
    pub acts : (x : X) (d : Db) → I d → C x d → I (act x d).1
    pub stable : (x y : X) (d : Db) → Apart x y → C x d → C y d → C y (act x d).1

  module _ {Apart : X → X → Type 0} {I : Db → Type 0} {C : X → Db → Type 0}
      (rule : Rule Apart I C) where
    open rule use {swap, found, acts, stable}

    abbrev Fact : Db → Task X R → Type 0
    Fact d (checked x) = C x d
    Fact d _ = Unit

    abbrev Away : Task X R → Task X R → Type 0
    Away (done r) _ = Unit
    Away (waiting x) (done r) = Unit
    Away (waiting x) (waiting y) = Apart x y
    Away (waiting x) (checked y) = Apart x y
    Away (checked x) (done r) = Unit
    Away (checked x) (waiting y) = Apart x y
    Away (checked x) (checked y) = Apart x y

    record Good (ts : List (Task X R)) (d : Db) : Type 0 where
      inv : I d
      facts : All (Fact d) ts
      away : IsPairwise Away ts

    -- Another call keeps what it has found, and stays apart.
    abbrev Spares : Task X R → Db → Task X R → Db → Type 0
    Spares t d t' d' = (u : Task X R) → Away t u → Fact d u → Fact d' u × Away t' u

    Away-swap : (t u : Task X R) → Away t u → Away u t
    Away-swap (done r) (done s) h = tt
    Away-swap (done r) (waiting y) h = tt
    Away-swap (done r) (checked y) h = tt
    Away-swap (waiting x) (done s) h = tt
    Away-swap (waiting x) (waiting y) h = swap x y h
    Away-swap (waiting x) (checked y) h = swap x y h
    Away-swap (checked x) (done s) h = tt
    Away-swap (checked x) (waiting y) h = swap x y h
    Away-swap (checked x) (checked y) h = swap x y h

    record Turned (t : Task X R) (d : Db) (t' : Task X R) (d' : Db) : Type 0 where
      inv : I d'
      fact : Fact d' t'
      spares : Spares t d t' d'

    decided_spares :
        (x : X) (d : Db) (u : Task X R)
        → Away (waiting x) u
        → Fact d u
        → Fact d u × Away (checked x) u
    decided_spares x d (waiting y) a f = (f, a)
    decided_spares x d (checked y) a f = (f, a)
    decided_spares x d (done r) a f = (f, tt)

    decided :
        (x : X) (d : Db) (o : Option R)
        → check x d ≡ o
        → I d
        → Turned (waiting x) d (decide check act x o) d
    decided x d none e i = record {
      inv = i;
      fact = found x d i e;
      spares = λ u. decided_spares x d u;
    }
    decided x d (some r) e i = record { inv = i; fact = tt; spares = λ u a f. (f, tt) }

    acted_spares :
        (x : X) (d : Db) (u : Task X R) → C x d → Away (checked x) u → Fact d u → Fact (act x d).1 u
    acted_spares x d (waiting y) f a g = tt
    acted_spares x d (checked y) f a g = stable x y d a f g
    acted_spares x d (done r) f a g = tt

    turn-Turned :
        (t : Task X R) (d : Db)
        → I d
        → Fact d t
        → Turned t d (turn check act t d).0 (turn check act t d).1
    unfolding turn
    turn-Turned (waiting x) d i f = decided x d (check x d) refl i
    turn-Turned (checked x) d i f = record {
      inv = acts x d i f;
      fact = tt;
      spares = λ u a g. (acted_spares x d u f a g, tt);
    }
    turn-Turned (done r) d i f = record { inv = i; fact = tt; spares = λ u a g. (g, tt) }

    -- What a step does to the calls of a slice, and to a call outside it.
    record Kept (ts : List (Task X R)) (d : Db) (ts' : List (Task X R)) (d' : Db) : Type 0 where
      good : Good ts d → Good ts' d'
      outside :
          Good ts d → (u : Task X R) → All (Away u) ts → Fact d u → Fact d' u × All (Away u) ts'

    Kept-refl : (ts : List (Task X R)) (d : Db) → Kept ts d ts d
    Kept-refl ts d = record { good = λ g. g; outside = λ g u a f. (f, a) }

    Kept-trans :
        {ts ts' ts'' : List (Task X R)} {d d' d'' : Db}
        → Kept ts d ts' d'
        → Kept ts' d' ts'' d''
        → Kept ts d ts'' d''
    Kept-trans k l = record {
      good = λ g. l.good (k.good g);
      outside = λ g u a f. let (f', a') = k.outside g u a f in l.outside (k.good g) u a' f';
    }

    spared :
        (t t' : Task X R) (d d' : Db) (us : List (Task X R))
        → Spares t d t' d'
        → All (Away t) us
        → All (Fact d) us
        → All (Fact d') us × All (Away t') us
    spared t t' d d' [] s a f = (tt, tt)
    spared t t' d d' (u ∷ us) s a f =
        let (f1, a1) = s u a.0 f.0 in
        let (fs, as') = spared t t' d d' us s a.1 f.1 in ((f1, fs), (a1, as'))

    head-Kept :
        (t : Task X R) (ts : List (Task X R)) (d : Db)
        → Kept (t ∷ ts) d ((turn check act t d).0 ∷ ts) (turn check act t d).1
    head-Kept t ts d = record {
      good = λ g.
          let r = turn-Turned t d g.inv g.facts.0 in
          let (fs, as') = spared t _ d _ ts r.spares g.away.0 g.facts.1 in
          record { inv = r.inv; facts = (r.fact, fs); away = (as', g.away.1) };
      outside = λ g u a f.
          let r = turn-Turned t d g.inv g.facts.0 in
          let (f', a') = r.spares u (Away-swap u t a.0) f in (f', (Away-swap _ u a', a.1));
    }

    tail-Kept :
        (t : Task X R) {ts ts' : List (Task X R)} {d d' : Db}
        → Kept ts d ts' d'
        → Kept (t ∷ ts) d (t ∷ ts') d'
    tail-Kept t {ts} {ts'} {d} {d'} k = record {
      good = λ g.
          let rest = rest_of g in
          let (f, a) = k.outside rest t g.away.0 g.facts.0 in
          let after = k.good rest in
          record { inv = after.inv; facts = (f, after.facts); away = (a, after.away) };
      outside = λ g u a f. let (f', a') = k.outside (rest_of g) u a.1 f in (f', (a.0, a'));
    }
      where
        rest_of : Good (t ∷ ts) d → Good ts d
        rest_of g = record { inv = g.inv; facts = g.facts.1; away = g.away.1 }

    turn_at-Kept :
        (i : ℕ) (ts : List (Task X R)) (d : Db)
        → Kept ts d (turn_at check act i ts d).0 (turn_at check act i ts d).1
    unfolding turn_at
    turn_at-Kept i [] d = Kept-refl [] d
    turn_at-Kept zero (t ∷ ts) d = head-Kept t ts d
    turn_at-Kept (suc i) (t ∷ ts) d = tail-Kept t (turn_at-Kept i ts d)

    run-Kept :
        (order : List ℕ) (ts : List (Task X R)) (d : Db)
        → Kept ts d (run check act order ts d).0 (run check act order ts d).1
    unfolding run
    run-Kept [] ts d = Kept-refl ts d
    run-Kept (i ∷ order) ts d = Kept-trans (turn_at-Kept i ts d) (run-Kept order _ _)

    complete-Kept :
        (ts : List (Task X R)) (d : Db)
        → Kept ts d (complete check act ts d).0 (complete check act ts d).1
    unfolding complete
    complete-Kept [] d = Kept-refl [] d
    complete-Kept (t ∷ ts) d =
        Kept-trans (head-Kept t ts d)
          (Kept-trans (head-Kept _ ts _) (tail-Kept _ (complete-Kept ts _)))

    waiting-Away :
        (x : X) (xs : List X) → All (Apart x) xs → All (Away (waiting x)) (map waiting xs)
    waiting-Away x [] a = tt
    waiting-Away x (y ∷ ys) a = (a.0, waiting-Away x ys a.1)

    all_waiting : (xs : List X) (d : Db) → IsPairwise Apart xs → I d → Good (map waiting xs) d
    all_waiting [] d a i = record { inv = i; facts = tt; away = tt }
    all_waiting (x ∷ xs) d a i =
        let g = all_waiting xs d a.1 i in
        record { inv = i; facts = (tt, g.facts); away = (waiting-Away x xs a.0, g.away) }

    -- The invariant holds when the calls of a slice are over, whatever the order of their steps.
    pub all_of_inv :
        (order : List ℕ) (xs : List X) (d : Db)
        → IsPairwise Apart xs
        → I d
        → I (all_of check act order xs d).1
    unfolding all_of
    all_of_inv order xs d a i =
        let g = all_waiting xs d a i in ((complete-Kept _ _).good ((run-Kept order _ d).good g)).inv
