-- ===== src/GoText/Print.antt =====
-- The decimal text of a number, as the verb %d of fmt writes it.
pub mod Codes
use Prim.Native.String.{◌++◌}
use socialpublish.Prelude.{ℤ, pos, negsuc, ℕ, zero, suc, ◌/◌, ◌%◌, String, if◌then◌else◌, ltb, ◌==◌}

digit_text : ℕ → String
digit_text d =
    if d == 0
    then "0"
    else if d == 1
    then "1"
    else if d == 2
    then "2"
    else if d == 3
    then "3"
    else if d == 4
    then "4"
    else if d == 5
    then "5"
    else if d == 6
    then "6"
    else if d == 7
    then "7"
    else if d == 8
    then "8"
    else "9"

-- The verb %d for a number that is not negative; more than `n` rounds are enough.
decimal_text : ℕ → ℕ → String
unfolding digit_text
decimal_text zero n = ""
decimal_text (suc f) n =
    let front = decimal_text f (n / 10) in
    if ltb n 10 then digit_text n else front ++ digit_text (n % 10)

unfoldable pub itoa : ℕ → String
unfolding decimal_text
itoa n = decimal_text (suc n) n

-- The same for a number of either sign.
unfoldable pub strconv_itoa : ℤ → String
unfolding itoa
strconv_itoa (pos n) = itoa n
strconv_itoa (negsuc n) = "-" ++ itoa (suc n)
