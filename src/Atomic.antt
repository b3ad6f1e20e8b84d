-- ===== src/Atomic.antt =====
-- The methods that take effect as a whole or not at all: those of src/inventory that move goods,
-- make notes and decide on requests.
pub mod Tests
use gms_be.Common.{ℕ, List, Option, none, some, ◌≡◌, refl, ap, ◌∙◌, arith}
use gms_be.Common.Text.{Text}
use gms_be.Errors.{HttpException}
use gms_be.Database.{Result, ok, err, Db, Runtime}
use gms_be.Transfers.Receive.{receive}
use gms_be.Transfers.Receive.Outcome.{receive-err}
use gms_be.Issuances
use gms_be.Issuances.{CreateIssuance}
use gms_be.Issuances.Outcome.{create_issuance-err}
use gms_be.Returns
use gms_be.Returns.{CreateReturn}
use gms_be.Returns.Outcome.{create_return-err}
use gms_be.Grn
use gms_be.Grn.{CreateGrn}
use gms_be.Grn.Creation.{create_grn-err}
use gms_be.Grn.Receive.{ReceiveLine, receive_goods}
use gms_be.Grn.Receive.Outcome.{receive_goods-err}
use gms_be.PurchaseRequests.{approve, reject}
use gms_be.PurchaseRequests.Approval.{approve-err, reject-err}

-- A call, with the organization and the user that it is made for.
pub data Call : Type 0 where
  receive_transfer : ℕ → ℕ → ℕ → Option Text → Call
  issue : CreateIssuance → ℕ → ℕ → Call
  take_back : CreateReturn → ℕ → ℕ → Call
  make_note : CreateGrn → ℕ → ℕ → Call
  receive_note : ℕ → List ReceiveLine → ℕ → ℕ → Call
  approve_request : ℕ → ℕ → ℕ → Option Text → Option Text → Call
  reject_request : ℕ → ℕ → ℕ → Option Text → Option Text → Call

-- What a call throws, and the database after it.
abbrev pub ended : {A : Type 0} → Result HttpException A × Db → Option HttpException × Db
ended (ok a, d) = (none, d)
ended (err e, d) = (some e, d)

ended-err :
    {A : Type 0} (p : Result HttpException A × Db) (d : Db) {e : HttpException}
    → ((x : HttpException) → p.0 ≡ err x → p.1 ≡ d)
    → (ended p).0 ≡ some e
    → (ended p).1 ≡ d
ended-err (ok a, d') d h k = absurd (ground arith)
ended-err (err x, d') d h k = h x refl

module _ (rt : Runtime) (no_order : Text) where
  unfoldable pub run : Call → Db → Option HttpException × Db
  run (receive_transfer id org user notes) d = ended (receive rt id org user notes d)
  run (issue dto org user) d = ended (Issuances.create rt dto org user d)
  run (take_back dto org user) d = ended (Returns.create rt dto org user d)
  run (make_note dto org user) d = ended (Grn.create rt no_order dto org user d)
  run (receive_note id lines org user) d = ended (receive_goods rt id lines org user d)
  run (approve_request id org user notes role) d = ended (approve rt id org user notes role d)
  run (reject_request id org user reason role) d = ended (reject id org user reason role d)

  -- A call that throws leaves the whole database as it was: the receipt of a transfer, an issue, a
  -- return, the making of a goods received note and the receipt of its goods, and the approval and
  -- the rejection of a purchase request.
  pub run-err : (c : Call) (d : Db) {e : HttpException} → (run c d).0 ≡ some e → (run c d).1 ≡ d
  unfolding run
  run-err (receive_transfer id org user notes) d h =
      ended-err (receive rt id org user notes d) d (λ x. receive-err rt id org user notes d) h
  run-err (issue dto org user) d h =
      ended-err (Issuances.create rt dto org user d) d (λ x. create_issuance-err rt dto org user d)
        h
  run-err (take_back dto org user) d h =
      ended-err (Returns.create rt dto org user d) d (λ x. create_return-err rt dto org user d) h
  run-err (make_note dto org user) d h =
      ended-err (Grn.create rt no_order dto org user d) d
        (λ x. create_grn-err rt no_order dto org user d) h
  run-err (receive_note id lines org user) d h =
      ended-err (receive_goods rt id lines org user d) d
        (λ x. receive_goods-err rt id lines org user d) h
  run-err (approve_request id org user notes role) d h =
      ended-err (approve rt id org user notes role d) d
        (λ x. approve-err rt id org user notes role d) h
  run-err (reject_request id org user reason role) d h =
      ended-err (reject id org user reason role d) d (λ x. reject-err id org user reason role d) h
