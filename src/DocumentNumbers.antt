-- ===== src/DocumentNumbers.antt =====
-- The running numbers of documents, such as ST-2026-007: the lines of the services that make one
-- from the last document's (`nextNumber`, `transferNumber` and the like), with JavaScript's
-- `parseInt`, `String`, `padStart` and `split` on the texts that stand there. `none` is NaN.
pub mod RoundTrip
pub mod Tests
use gms_be.Common.{
  ℕ, zero, suc, ◌+◌, ◌-◌, ◌*◌, ◌/◌, ◌%◌, Bool, ◌&&◌, List, [], ◌∷◌, ◌++◌, Option, none, some,
  length, ltb, leb, if◌then◌else◌,
}
use gms_be.Common.Text.{Text, codes, split_on}

-- The decimal digits of a number below ten to the power of the fuel.
unfoldable pub digits : ℕ → ℕ → Text
digits zero n = []
digits (suc f) n =
    let more = digits f (n / 10) ++ (b'0' + n % 10) ∷ [] in
    if ltb n 10 then (b'0' + n) ∷ [] else more

-- `String(n)`
unfoldable pub number_text : Option ℕ → Text
unfolding digits
number_text (some n) = digits (suc n) n
number_text none = codes "NaN"

unfoldable pub zeros : ℕ → Text
zeros zero = []
zeros (suc n) = b'0' ∷ zeros n

-- `s.padStart(width, '0')`
unfoldable pub pad_start : ℕ → Text → Text
unfolding zeros
pad_start width s = zeros (width - length s) ++ s

abbrev pub is_digit : ℕ → Bool
is_digit c = leb b'0' c && leb c b'9'

-- The number that the leading digits spell, after the number `acc` read so far.
unfoldable pub parse_from : ℕ → Text → ℕ
parse_from acc [] = acc
parse_from acc (c ∷ s) =
    let rest = parse_from (acc * 10 + (c - b'0')) s in if is_digit c then rest else acc

-- `parseInt(s)`; a sign, white space or `0x` in front is not read, since no number that the
-- services write has one.
unfoldable pub parse_int : Text → Option ℕ
unfolding parse_from
parse_int [] = none
parse_int (c ∷ s) = if is_digit c then some (parse_from 0 (c ∷ s)) else none

-- `parts[2]`, of the parts behind the first
unfoldable pub third : List Text → Option Text
third (a ∷ b ∷ ps) = some b
third _ = none

-- `text.split('-')[2]`
unfoldable pub third_part : Text → Option Text
unfolding split_on third
third_part s = third (split_on b'-' s).1

-- `(part ? parseInt(part) : 0) + 1`
unfoldable pub next_of_part : Option Text → Option ℕ
unfolding parse_int
next_of_part (some (c ∷ s)) = elim (parse_int (c ∷ s)) [ some n ↦ some (n + 1) | none ↦ none ]
next_of_part _ = some 1

-- The number after the last document's, if there is a last document.
unfoldable pub next_number : Option Text → Option ℕ
unfolding third_part next_of_part
next_number none = some 1
next_number (some last) = next_of_part (third_part last)

-- `${prefix}-${year}-${String(n).padStart(width, '0')}`
unfoldable pub document_number : Text → ℕ → ℕ → Option ℕ → Text
unfolding number_text pad_start
document_number prefix width year n =
    prefix ++ (b'-' ∷ (number_text (some year) ++ (b'-' ∷ pad_start width (number_text n))))

-- The number of the next document of a kind.
unfoldable pub next_document : Text → ℕ → ℕ → Option Text → Text
unfolding document_number next_number
next_document prefix width year last = document_number prefix width year (next_number last)
