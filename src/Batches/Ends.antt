-- ===== src/Batches/Ends.antt =====
-- Every call of a slice ends with an answer, whatever the order of the steps.
use gms_be.Common.{ℕ, zero, suc, List, [], ◌∷◌, map, length, Option, none, some, ◌≡◌, refl, ap, ◌∙◌}
use gms_be.Database.{Db}
use gms_be.Batches.{
  Task, waiting, checked, done, decide, turn, turn_at, run, complete, results, all_of,
}

module _ {X R : Type 0} (check : X → Db → Option R) (act : X → Db → R × Db) where
  length-turn_at :
      (i : ℕ) (ts : List (Task X R)) (d : Db) → length (turn_at check act i ts d).0 ≡ length ts
  unfolding turn_at
  length-turn_at i [] d = refl
  length-turn_at zero (t ∷ ts) d = refl
  length-turn_at (suc i) (t ∷ ts) d = ap suc (length-turn_at i ts d)

  length-run :
      (order : List ℕ) (ts : List (Task X R)) (d : Db)
      → length (run check act order ts d).0 ≡ length ts
  unfolding run
  length-run [] ts d = refl
  length-run (i ∷ order) ts d =
      length-run order (turn_at check act i ts d).0 (turn_at check act i ts d).1
      ∙ length-turn_at i ts d

  IsDone : Task X R → Type 0
  IsDone t = (r : R) × (t ≡ done r)

  turn-decide-IsDone :
      (x : X) (o : Option R) (d : Db) → IsDone (turn check act (decide check act x o) d).0
  unfolding IsDone turn
  turn-decide-IsDone x none d = (_, refl)
  turn-decide-IsDone x (some r) d = (r, refl)

  turn-turn-IsDone :
      (t : Task X R) (d : Db)
      → IsDone (turn check act (turn check act t d).0 (turn check act t d).1).0
  unfolding IsDone turn
  turn-turn-IsDone (waiting x) d = turn-decide-IsDone x (check x d) d
  turn-turn-IsDone (checked x) d = (_, refl)
  turn-turn-IsDone (done r) d = (r, refl)

  results-cons :
      (t : Task X R) (ts : List (Task X R))
      → IsDone t
      → length (results check act (t ∷ ts)) ≡ suc (length (results check act ts))
  unfolding IsDone
  results-cons t ts (r, e) = ap (λ u. length (results check act (u ∷ ts))) e

  results-complete :
      (ts : List (Task X R)) (d : Db)
      → length (results check act (complete check act ts d).0) ≡ length ts
  unfolding complete
  results-complete [] d = refl
  results-complete (t ∷ ts) d =
      results-cons _ _ (turn-turn-IsDone t d) ∙ ap suc (results-complete ts _)

  length-map : (xs : List X) → length (map {B = Task X R} waiting xs) ≡ length xs
  length-map [] = refl
  length-map (x ∷ xs) = ap suc (length-map xs)

  pub length-all_of :
      (order : List ℕ) (xs : List X) (d : Db) → length (all_of check act order xs d).0 ≡ length xs
  unfolding all_of
  length-all_of order xs d =
      results-complete (run check act order (map waiting xs) d).0 _
      ∙ (length-run order (map waiting xs) d ∙ length-map xs)
