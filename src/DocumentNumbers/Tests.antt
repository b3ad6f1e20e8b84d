-- ===== src/DocumentNumbers/Tests.antt =====
-- Tests of the document numbers.
use gms_be.Common.{◌≡◌, refl, some, none}
use gms_be.Common.Text.{codes}
use gms_be.DocumentNumbers.{next_document}

first_document : next_document (codes "ST") 3 2026 none ≡ codes "ST-2026-001"
unfolding next_document
first_document = refl

later_document :
    next_document (codes "ST") 3 2026 (some (codes "ST-2025-099")) ≡ codes "ST-2026-100"
unfolding next_document
later_document = refl

wide_document :
    next_document (codes "PO") 3 2026 (some (codes "PO-2025-1234")) ≡ codes "PO-2026-1235"
unfolding next_document
wide_document = refl
