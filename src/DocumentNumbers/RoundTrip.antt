-- ===== src/DocumentNumbers/RoundTrip.antt =====
-- A document number is read back: the next one counts on from it.
use gms_be.Common.{
  ℕ, zero, suc, ◌+◌, ◌-◌, ◌*◌, ◌/◌, ◌%◌, ◌<◌, ◌≡◌, ◌≢◌, refl, true, false, [], ◌∷◌, ◌++◌, some, All,
  arith, ltb, ◌==◌, Bool-cases, inl, inr, length,
}
use gms_be.Common.Text.{Text, split_on}
use gms_be.DocumentNumbers.{
  digits, number_text, zeros, pad_start, is_digit, parse_from, parse_int, third_part, next_of_part,
  next_number, document_number,
}

abbrev IsDigit : ℕ → Type 0
IsDigit c = is_digit c ≡ true

All-append : (xs ys : Text) → All IsDigit xs → All IsDigit ys → All IsDigit (xs ++ ys)
All-append [] ys hx hy = hy
All-append (x ∷ xs) ys hx hy = (hx.0, All-append xs ys hx.1 hy)

+-IsDigit : (n : ℕ) → n < 10 → IsDigit (b'0' + n)
+-IsDigit n h = ground arith

digits-IsDigit : (f n : ℕ) → All IsDigit (digits f n)
unfolding digits
digits-IsDigit zero n = tt
digits-IsDigit (suc f) n = elim (Bool-cases (ltb n 10)) [
  | inl small ↦ rw small (+-IsDigit n (ground arith), tt)
  | inr big ↦ rw big (
      All-append (digits f (n / 10)) _ (digits-IsDigit f (n / 10))
        (+-IsDigit (n % 10) (omega arith), tt))
]

zeros-IsDigit : (n : ℕ) → All IsDigit (zeros n)
unfolding zeros
zeros-IsDigit zero = tt
zeros-IsDigit (suc n) = (refl, zeros-IsDigit n)

-- The last digit is read after those before it.
parse_from-append :
    (acc c : ℕ) (s : Text)
    → All IsDigit s
    → IsDigit c
    → parse_from acc (s ++ c ∷ []) ≡ parse_from acc s * 10 + (c - b'0')
unfolding parse_from
parse_from-append acc c [] hs hc = rw hc
parse_from-append acc c (x ∷ s) hs hc =
    rw hs.0 (parse_from-append (acc * 10 + (x - b'0')) c s hs.1 hc)

parse_from-zeros : (n : ℕ) (s : Text) → parse_from 0 (zeros n ++ s) ≡ parse_from 0 s
unfolding zeros parse_from
parse_from-zeros zero s = refl
parse_from-zeros (suc n) s = parse_from-zeros n s

parse_from_digit : (n : ℕ) → n < 10 → parse_from 0 ((b'0' + n) ∷ []) ≡ n
unfolding parse_from
parse_from_digit n h = ground arith

parse_from-digits : (f n : ℕ) → n < f → parse_from 0 (digits f n) ≡ n
unfolding digits
parse_from-digits zero n h = elim h [ ]
parse_from-digits (suc f) n h = elim (Bool-cases (ltb n 10)) [
  | inl small ↦ rw small (parse_from_digit n (ground arith))
  | inr big ↦
      rw
        (
          big,
          parse_from-append 0 (b'0' + n % 10) (digits f (n / 10)) (digits-IsDigit f (n / 10))
              (+-IsDigit (n % 10) (omega arith)),
          parse_from-digits f (n / 10) (ground arith),
        )
        (omega arith)
]

-- A part has no separator in it.
abbrev pub IsPart : Text → Type 0
IsPart = All (λ c. (c == b'-') ≡ false)

IsPart-of_digits : (s : Text) → All IsDigit s → IsPart s
IsPart-of_digits [] h = tt
IsPart-of_digits (c ∷ s) h = (ground arith, IsPart-of_digits s h.1)

split_on-append :
    (p s : Text)
    → IsPart p
    → split_on b'-' (p ++ b'-' ∷ s) ≡ (p, (split_on b'-' s).0 ∷ (split_on b'-' s).1)
unfolding split_on
split_on-append [] s h = refl
split_on-append (c ∷ p) s h = rw (h.0, split_on-append p s h.1)

split_on_whole : (p : Text) → IsPart p → split_on b'-' p ≡ (p, [])
unfolding split_on
split_on_whole [] h = refl
split_on_whole (c ∷ p) h = rw (h.0, split_on_whole p h.1)

third_part_lem :
    (p q r : Text)
    → IsPart p
    → IsPart q
    → IsPart r
    → third_part (p ++ (b'-' ∷ (q ++ (b'-' ∷ r)))) ≡ some r
unfolding third_part
third_part_lem p q r hp hq hr =
    rw (split_on-append p _ hp, split_on-append q _ hq, split_on_whole r hr)

next_of_part_lem :
    (s : Text) → s ≢ [] → All IsDigit s → next_of_part (some s) ≡ some (parse_from 0 s + 1)
unfolding next_of_part parse_int
next_of_part_lem [] ne h = absurd (ne refl)
next_of_part_lem (c ∷ s) ne h = ground arith

append-ne-nil : (s t : Text) → t ≢ [] → s ++ t ≢ []
append-ne-nil [] t h = h
append-ne-nil (c ∷ s) t h = λ e. cc e

digits-ne-nil : (f n : ℕ) → digits (suc f) n ≢ []
unfolding digits
digits-ne-nil f n = elim (Bool-cases (ltb n 10)) [
  | inl small ↦ rw small (λ e. cc e)
  | inr big ↦ rw big (append-ne-nil (digits f (n / 10)) ((b'0' + n % 10) ∷ []) (λ e. cc e))
]

-- The number after a document's own number is the next one, whatever the year, the width of the
-- padding and the kind of the document, whose prefix has no dash in it.
pub next_number-document_number :
    (prefix : Text) (width year n : ℕ)
    → IsPart prefix
    → next_number (some (document_number prefix width year (some n))) ≡ some (n + 1)
unfolding next_number document_number number_text pad_start
next_number-document_number prefix width year n h =
    let padding = zeros (width - length (digits (suc n) n)) in
    let IsDigits =
      All-append padding (digits (suc n) n) (zeros-IsDigit (width - length (digits (suc n) n)))
        (digits-IsDigit (suc n) n) in
    rw (
      third_part_lem prefix (digits (suc year) year) (padding ++ digits (suc n) n) h
          (IsPart-of_digits _ (digits-IsDigit (suc year) year)) (IsPart-of_digits _ IsDigits),
      next_of_part_lem _ (append-ne-nil padding _ (digits-ne-nil n n)) IsDigits,
      parse_from-zeros _ (digits (suc n) n),
      parse_from-digits (suc n) n (omega arith),
    )
