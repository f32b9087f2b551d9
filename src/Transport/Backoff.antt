-- ===== src/Transport/Backoff.antt =====
-- sdk/transport.go: transport.backoff, transport.sleep and parseRetryAfter. A duration is a number
-- of nanoseconds in an int64.
use socialpublish.Prelude.{
  ℕ, suc, ◌-◌, ◌*◌, ◌^◌, ◌%◌, ◌≤◌, ◌<◌, min, Option, none, some, Bytes, arith, ltb, is_empty,
  if◌then◌else◌, ℤ, pos, negsuc, ltb_ℤ, pos_part, ◌≡◌,
}
use socialpublish.GoText.Decimal.{parse_int}
use socialpublish.Webhook.Signature.{second}

abbrev pub millisecond : ℕ
millisecond = 1000000

abbrev pub fallback_retry_min : ℤ
fallback_retry_min = pos (100 * millisecond)

abbrev pub fallback_retry_max : ℤ
fallback_retry_max = pos (5 * second)

-- The int64 with the same lowest 64 bits.
unfoldable pub wrap_int64 : ℤ → ℤ
wrap_int64 (pos n) = let m = n % 2 ^ 64 in if ltb m (2 ^ 63) then pos m else negsuc (2 ^ 64 - 1 - m)
wrap_int64 (negsuc n) =
    let m = n % 2 ^ 64 in if ltb m (2 ^ 63) then negsuc m else pos (2 ^ 64 - 1 - m)

-- The conversions that the language leaves to the platform: float64 of a positive int64, whose
-- value is an integer, and the int64 of a float64 that is 2^63 or more.
pub record Float : Type 0 where
  pub to_float : ℕ → ℕ
  pub out_of_range : ℤ

-- float64 is exact up to 53 bits.
pub record IsExact (float : Float) : Type 0 where
  pub exact : (n : ℕ) → n < 2 ^ 53 → float.to_float n ≡ n

or_fallback : ℤ → ℤ → ℤ
or_fallback wait fallback = if ltb_ℤ (pos 0) wait then wait else fallback

-- time.Duration(float64(minWait) * math.Pow(2, float64(attempt)))
to_duration : Float → ℕ → ℤ
to_duration float product = if ltb product (2 ^ 63) then pos product else float.out_of_range

unfoldable pub backoff : Float → ℤ → ℤ → ℕ → ℤ
unfolding or_fallback to_duration
backoff float retry_wait_min retry_wait_max attempt =
    let min_wait = or_fallback retry_wait_min fallback_retry_min in
    let max_wait = or_fallback retry_wait_max fallback_retry_max in
    let wait = to_duration float (float.to_float (pos_part min_wait) * 2 ^ attempt) in
    if ltb_ℤ max_wait wait then max_wait else wait

-- The duration that sleep waits for.
unfoldable pub sleep_time : Float → ℤ → ℤ → ℕ → Option ℤ → ℤ
unfolding backoff
sleep_time float retry_wait_min retry_wait_max attempt (some wait) = wait
sleep_time float retry_wait_min retry_wait_max attempt none =
    backoff float retry_wait_min retry_wait_max attempt

abbrev pub scale_seconds : ℤ → ℤ
scale_seconds (pos n) = pos (n * second)
scale_seconds (negsuc n) = negsuc (suc n * second - 1)

or_zero : ℤ → ℤ
or_zero (pos n) = pos n
or_zero (negsuc n) = pos 0

-- `until` is http.ParseTime followed by time.Until.
unfoldable pub parse_retry_after : (until : Bytes → Option ℤ) → Bytes → Option ℤ
unfolding or_zero
parse_retry_after until value = if is_empty value then none else elim (parse_int value) [
  | some seconds ↦ some (wrap_int64 (scale_seconds seconds))
  | none ↦ elim (until value) [ none ↦ none | some d ↦ some (or_zero d) ]
]

module _ (float : Float) (exact : IsExact float) (lo hi attempt : ℕ) where
  -- For positive waits, a minimum below 2^53 and a float64 that is exact there: as long as the doubled
  -- minimum is below 2^63, the wait is the smaller of it and the maximum.
  pub backoff_doubles :
      0 < lo
      → lo < 2 ^ 53
      → 0 < hi
      → lo * 2 ^ attempt < 2 ^ 63
      → backoff float (pos lo) (pos hi) attempt ≡ pos (min (lo * 2 ^ attempt) hi)
  unfolding backoff
  backoff_doubles p q r s = ground (arith, exact.exact lo)

  -- For positive waits, a minimum below 2^53 and a float64 that is exact there: where the doubled
  -- minimum is 2^63 or more, the wait is the smaller of what the platform makes of it and the maximum.
  backoff_overflow :
      0 < lo
      → lo < 2 ^ 53
      → 0 < hi
      → 2 ^ 63 ≤ lo * 2 ^ attempt
      → backoff float (pos lo) (pos hi) attempt
        ≡ (if ltb_ℤ (pos hi) float.out_of_range then pos hi else float.out_of_range)
  unfolding backoff
  backoff_overflow p q r s = ground (arith, exact.exact lo)
