-- ===== src/Batches.antt =====
-- Batches of calls that overlap: the loop `for (let i = 0; i < list.length; i += size)` over the
-- slices of a list, and `Promise.all` over the calls of one slice. A call is two steps: it checks,
-- and then it acts; the steps of different calls may come in any order.
pub mod Loop
pub mod Rule
pub mod Ends
use gms_be.Common.{
  ℕ, zero, suc, ◌+◌, Bool, true, false, List, [], ◌∷◌, ◌++◌, map, length, take, drop, Option, none,
  some, ltb,
}
use gms_be.Database.{Db}

-- Each round takes the slice from `i` on; with fuel for `length xs` rounds.
unfoldable pub chunk_loop : {A S : Type 0} → ℕ → (ℕ → List A → S → S) → ℕ → ℕ → List A → S → S
chunk_loop size body zero i xs s = s
chunk_loop size body (suc fuel) i xs s = elim (ltb i (length xs)) [
  | true ↦ chunk_loop size body fuel (i + size) xs (body i (take size (drop i xs)) s)
  | false ↦ s
]

pub data Task (X R : Type 0) : Type 0 where
  waiting checked : X → Task X R
  done : R → Task X R

module _ {X R : Type 0} (check : X → Db → Option R) (act : X → Db → R × Db) where
  abbrev pub decide : X → Option R → Task X R
  decide x none = checked x
  decide x (some r) = done r

  -- The next step of a call.
  unfoldable pub turn : Task X R → Db → Task X R × Db
  turn (waiting x) d = (decide x (check x d), d)
  turn (checked x) d = let (r, d') = act x d in (done r, d')
  turn (done r) d = (done r, d)

  -- The next step of the call at a place of the slice.
  unfoldable pub turn_at : ℕ → List (Task X R) → Db → List (Task X R) × Db
  turn_at i [] d = ([], d)
  turn_at zero (t ∷ ts) d = let (t', d') = turn t d in (t' ∷ ts, d')
  turn_at (suc i) (t ∷ ts) d = let (ts', d') = turn_at i ts d in (t ∷ ts', d')

  unfoldable pub run : List ℕ → List (Task X R) → Db → List (Task X R) × Db
  run [] ts d = (ts, d)
  run (i ∷ order) ts d = let (ts', d') = turn_at i ts d in run order ts' d'

  -- A call that is left to itself is over after two steps.
  unfoldable pub complete : List (Task X R) → Db → List (Task X R) × Db
  complete [] d = ([], d)
  complete (t ∷ ts) d =
      let (t1, d1) = turn t d in
      let (t2, d2) = turn t1 d1 in let (ts', d') = complete ts d2 in (t2 ∷ ts', d')

  abbrev pub results : List (Task X R) → List R
  results [] = []
  results (done r ∷ ts) = r ∷ results ts
  results (t ∷ ts) = results ts

  -- `await Promise.all(chunk.map(call))`: the steps come in the order given, the rest of them after
  -- it call by call. The answers are in the order of the calls.
  unfoldable pub all_of : List ℕ → List X → Db → List R × Db
  all_of order xs d =
      let (ts, d1) = run order (map waiting xs) d in
      let (ts', d2) = complete ts d1 in (results ts', d2)
