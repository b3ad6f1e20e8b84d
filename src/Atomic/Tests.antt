-- ===== src/Atomic/Tests.antt =====
-- A call that throws, at a small database.
use gms_be.Common.{none, ◌≡◌, refl}
use gms_be.Common.Text.{codes}
use gms_be.Database.{draft}
use gms_be.Samples.{db, runtime}
use gms_be.Transfers.{find_transfer}
use gms_be.Transfers.Receive.{receive, receive_body}
use gms_be.Atomic.{receive_transfer, run, run-err}

-- There is no such transfer.
run-err_example :
    (run runtime (codes "no order") (receive_transfer 6 1 7 none) (db draft)).1 ≡ db draft
unfolding run receive receive_body find_transfer
run-err_example = run-err runtime (codes "no order") (receive_transfer 6 1 7 none) (db draft) refl
