-- ===== src/GoText/Decimal.antt =====
-- strconv.FormatInt(z, 10), strconv.Itoa and the verb %d; strconv.ParseInt(s, 10, 64) and
-- strconv.Atoi, whose error is `none`.
use socialpublish.Prelude.{
  ℕ, zero, suc, ◌+◌, ◌-◌, ◌*◌, ◌/◌, ◌%◌, ◌^◌, ◌≤◌, ◌<◌, ◌≡◌, ◌≢◌, refl, inl, inr, Bool, ◌&&◌,
  Option, none, some, [], ◌∷◌, arith, Bytes, ltb, leb, ◌==◌, if◌then◌else◌, All, Bool-cases, ℤ, pos,
  negsuc,
}

is_digit : ℕ → Bool
is_digit c = leb b'0' c && leb c b'9'

abbrev pub IsDigit : ℕ → Type 0
IsDigit c = (b'0' ≤ c) × (c ≤ b'9')

-- The digits of `n` in front of `out`. A round divides by ten, so more than `n` rounds are enough.
unfoldable pub emit : ℕ → ℕ → Bytes → Bytes
emit zero n out = out
emit (suc f) n out =
    let rest = emit f (n / 10) ((b'0' + n % 10) ∷ out) in
    if ltb n 10 then (b'0' + n) ∷ out else rest

unfoldable pub format_uint : ℕ → Bytes
unfolding emit
format_uint n = emit (suc n) n []

unfoldable pub format_int : ℤ → Bytes
unfolding format_uint
format_int (pos n) = format_uint n
format_int (negsuc n) = b'-' ∷ format_uint (suc n)

read_digits : Bytes → ℕ → Option ℕ
unfolding is_digit
read_digits [] n = some n
read_digits (c ∷ s) n = if is_digit c then read_digits s (n * 10 + (c - b'0')) else none

unfoldable pub parse_uint : Bytes → Option ℕ
unfolding read_digits
parse_uint [] = none
parse_uint (c ∷ s) = read_digits (c ∷ s) 0

-- The range of an int64, on either side.
positive : Option ℕ → Option ℤ
positive none = none
positive (some n) = if ltb n (2 ^ 63) then some (pos n) else none

negative : Option ℕ → Option ℤ
negative none = none
negative (some zero) = some (pos 0)
negative (some (suc n)) = if ltb n (2 ^ 63) then some (negsuc n) else none

unfoldable pub parse_int : Bytes → Option ℤ
unfolding parse_uint positive negative
parse_int [] = none
parse_int (c ∷ s) =
    if c == b'-'
    then negative (parse_uint s)
    else if c == b'+'
    then positive (parse_uint s)
    else positive (parse_uint (c ∷ s))

abbrev pub InInt64 : ℤ → Type 0
InInt64 (pos n) = n < 2 ^ 63
InInt64 (negsuc n) = n < 2 ^ 63

emit-IsDigit : (f n : ℕ) (out : Bytes) → All IsDigit out → All IsDigit (emit f n out)
unfolding emit
emit-IsDigit zero n out h = h
emit-IsDigit (suc f) n out h =
    let h' = emit-IsDigit f (n / 10) ((b'0' + n % 10) ∷ out) ((omega arith, omega arith), h) in
    ground arith

emit-ne-nil : (f n : ℕ) (c : ℕ) (out : Bytes) → emit f n (c ∷ out) ≢ []
unfolding emit
emit-ne-nil zero n c out = cc
emit-ne-nil (suc f) n c out = ground (arith, emit-ne-nil f (n / 10) (b'0' + n % 10) (c ∷ out))

format_uint-ne-nil : (n : ℕ) → format_uint n ≢ []
unfolding format_uint emit
format_uint-ne-nil n = ground (arith, emit-ne-nil n (n / 10) (b'0' + n % 10) [])

pub format_uint-IsDigit : (n : ℕ) → All IsDigit (format_uint n)
unfolding format_uint
format_uint-IsDigit n = emit-IsDigit (suc n) n [] tt

read_digits-emit :
    (f n : ℕ) (out : Bytes) → n < f → read_digits (emit f n out) 0 ≡ read_digits out n
unfolding emit read_digits
read_digits-emit zero n out h = absurd (omega arith)
read_digits-emit (suc f) n out h =
    ground (arith, read_digits-emit f (n / 10) ((b'0' + n % 10) ∷ out))

parse_uint-read : (s : Bytes) → s ≢ [] → parse_uint s ≡ read_digits s 0
unfolding parse_uint
parse_uint-read [] h = absurd (h refl)
parse_uint-read (c ∷ s) h = refl

-- Reading the print of a number gives it back.
pub parse_uint-format_uint : (n : ℕ) → parse_uint (format_uint n) ≡ some n
unfolding format_uint read_digits
parse_uint-format_uint n =
    rw (parse_uint-read _ (format_uint-ne-nil n)) (read_digits-emit (suc n) n [] (omega arith))

parse_int-digits : (s : Bytes) → s ≢ [] → All IsDigit s → parse_int s ≡ positive (parse_uint s)
unfolding parse_int
parse_int-digits [] h d = absurd (h refl)
parse_int-digits (c ∷ s) h (d, ds) = ground arith

-- Every int64 is read back from its decimal print.
pub parse_int-format_int : (z : ℤ) → InInt64 z → parse_int (format_int z) ≡ some z
unfolding format_int positive
parse_int-format_int (pos n) h =
    rw (parse_int-digits _ (format_uint-ne-nil n) (format_uint-IsDigit n), parse_uint-format_uint n)
      (ground arith)
parse_int-format_int (negsuc n) h =
    unfold parse_int negative in rw (parse_uint-format_uint (suc n)) (ground arith)

positive-InInt64 : (o : Option ℕ) (z : ℤ) → positive o ≡ some z → InInt64 z
unfolding positive
positive-InInt64 none z h = cc
positive-InInt64 (some n) (pos m) h = ground arith
positive-InInt64 (some n) (negsuc m) h = ground arith

negative-InInt64 : (o : Option ℕ) (z : ℤ) → negative o ≡ some z → InInt64 z
unfolding negative
negative-InInt64 none z h = cc
negative-InInt64 (some zero) (pos m) h = ground arith
negative-InInt64 (some zero) (negsuc m) h = ground arith
negative-InInt64 (some (suc n)) (pos m) h = ground arith
negative-InInt64 (some (suc n)) (negsuc m) h = ground arith

-- What is read is in range.
pub parse_int-InInt64 : (s : Bytes) (z : ℤ) → parse_int s ≡ some z → InInt64 z
parse_int-InInt64 [] z h = unfold parse_int in cc
parse_int-InInt64 (c ∷ s) z h = elim (Bool-cases (c == b'-')) [
  | inl e ↦ negative-InInt64 (parse_uint s) z (unfold parse_int in rw e at h)
  | inr n ↦ elim (Bool-cases (c == b'+')) [
    | inl e ↦ positive-InInt64 (parse_uint s) z (unfold parse_int in rw (n, e) at h)
    | inr m ↦ positive-InInt64 (parse_uint (c ∷ s)) z (unfold parse_int in rw (n, m) at h)
  ]
]
