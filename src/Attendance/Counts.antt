-- ===== src/Attendance/Counts.antt =====
-- The counts of a batch, and its end.

use gms_be.Common.{ℕ, ◌+◌, List, [], ◌∷◌, ◌++◌, length, Option, ◌≡◌, refl, sym, ap, ◌∙◌, arith}
use mathlib.Core.Path.{subst}
use gms_be.Database.{GuardsAttendance, Db, Runtime}
use gms_be.Access.{User}
use gms_be.Batches.Loop.{chunk_loop_inv}
use gms_be.Batches.Ends.{length-all_of}
use gms_be.Attendance.{
  CreateAttendance, Response, success, failure, Refusal, Batch, add_success, add_failure,
  empty_batch, add_responses, create_chunk, create, batch_chunk_size,
}

module _ {A : Type 0} where
  pub length-++ : (xs ys : List A) → length (xs ++ ys) ≡ length xs + length ys
  length-++ [] ys = omega arith
  length-++ (x ∷ xs) ys = omega (arith, length-++ xs ys)

-- `n` answers have been counted, each as one that succeeded or as one that failed.
pub record HasCounted {S F : Type 0} (n : ℕ) (b : Batch S F) : Type 0 where
  pub processed : b.total_processed ≡ n
  pub succeeded : b.total_success ≡ length b.successful
  pub refused : b.total_failed ≡ length b.failed
  pub whole : b.total_success + b.total_failed ≡ n

pub HasCounted-empty : {S F : Type 0} → HasCounted 0 (empty_batch {S = S} {F = F})
HasCounted-empty = record {
  processed = refl;
  succeeded = refl;
  refused = refl;
  whole = omega arith;
}

module _ {S F : Type 0} (n : ℕ) (b : Batch S F) where
  pub HasCounted-add_success : (r : S) → HasCounted n b → HasCounted (n + 1) (add_success r b)
  HasCounted-add_success r c = record {
    processed = omega arith;
    succeeded = omega (arith, length-++ b.successful (r ∷ []));
    refused = omega arith;
    whole = omega arith;
  }

  pub HasCounted-add_failure : (r : F) → HasCounted n b → HasCounted (n + 1) (add_failure r b)
  HasCounted-add_failure r c = record {
    processed = omega arith;
    succeeded = omega arith;
    refused = omega (arith, length-++ b.failed (r ∷ []));
    whole = omega arith;
  }

HasCounted-add_responses :
    (rs : List Response) (n m : ℕ) (b : Batch GuardsAttendance Refusal)
    → n + length rs ≡ m
    → HasCounted n b
    → HasCounted m (add_responses rs b)
unfolding add_responses
HasCounted-add_responses [] n m b e c =
    let e' : n ≡ m = omega arith in subst (λ k. HasCounted k b) e' c
HasCounted-add_responses (success a ∷ rs) n m b e c =
    HasCounted-add_responses rs (n + 1) m _ (omega arith) (HasCounted-add_success n b a c)
HasCounted-add_responses (failure r ∷ rs) n m b e c =
    HasCounted-add_responses rs (n + 1) m _ (omega arith) (HasCounted-add_failure n b r c)

module _ (turns : ℕ → List ℕ) (rt : Runtime) (org : ℕ) (user : Option User) where
  -- The loop over the slices comes to the end of the list, and each request is counted once, as one
  -- that succeeded or as one that failed; each count is the number of the answers that are listed.
  pub create-HasCounted :
      (dtos : List CreateAttendance) (d : Db)
      → HasCounted (length dtos) (create turns rt org user dtos d).0
  unfolding create create_chunk
  create-HasCounted dtos d =
      chunk_loop_inv batch_chunk_size (create_chunk turns rt org user)
        (λ past rest s. HasCounted (length past) s.0)
        (λ i chunk past rest s h.
          HasCounted-add_responses _ (length past) _ s.0
            (ap (◌+◌ (length past)) (length-all_of _ _ (turns i) chunk s.1)
              ∙ sym (length-++ past chunk))
            h)
        dtos (empty_batch, d) (omega arith) HasCounted-empty
