-- ===== src/Transport/Retry/Laws.antt =====
-- sdk/transport.go: how often DoJSON sends and which result it returns.
use socialpublish.Prelude.{
  ℕ, zero, suc, ◌+◌, ◌-◌, ◌≤◌, ◌<◌, Bool, true, false, not, ◌||◌, ◌^◌, Option, none, [], ◌==◌, ℤ,
  pos, negsuc, Result, ok, err, Result-cases, Bool-cases, ◌≡◌, ◌⊎◌, inl, inr, refl, ap, sym, subst,
  ◌∙◌, arith, length,
}
use socialpublish.Transport.Errors.{SdkError}
use socialpublish.Transport.Backoff.{Float, sleep_time}
use socialpublish.Transport.Retry.{
  Response, Codec, RetryConfig, Run, finish, attempt_result, tries_again, asked_wait, after_sleep,
  attempts_of, retry_loop, do_json,
}

module _ {A : Type 0} (codec : Codec A) (float : Float) (cfg : RetryConfig) (wanted : Bool)
    (send : ℕ → Option Response) where
  abbrev pub result_of : ℕ → Result SdkError (Option A)
  result_of attempt = attempt_result codec wanted (send attempt)

  -- The attempt fails with an error that is worth another one.
  abbrev pub FailsAgain : ℕ → Type 0
  FailsAgain attempt = (e : SdkError) × (result_of attempt ≡ err e) × (tries_again e ≡ true)

  -- The attempt succeeds, or fails with an error that is not worth another one.
  abbrev pub IsFinal : ℕ → Type 0
  IsFinal attempt = (e : SdkError) → result_of attempt ≡ err e → tries_again e ≡ false

  -- What a run from attempt `first` with `n` attempts left may be: it sends at least once and at
  -- most `n` times, sleeps between the requests only, returns the result of its last attempt,
  -- every earlier one failed with an error worth another, and it stops before the `n`-th only on a
  -- result that is final.
  pub record IsRun (n first : ℕ) (run : Run A) : Type 0 where
    pub some_sent : 0 < run.sends
    pub bounded : run.sends ≤ n
    pub slept : suc (length run.sleeps) ≡ run.sends
    pub last : run.result ≡ result_of (first + (run.sends - 1))
    pub earlier : (k : ℕ) → suc k < run.sends → FailsAgain (first + k)
    pub stopped : (run.sends ≡ n) ⊎ IsFinal (first + (run.sends - 1))

  finish-IsRun :
      (left first : ℕ)
      → (left ≡ 0) ⊎ IsFinal first
      → IsRun (suc left) first (finish (result_of first))
  finish-IsRun left first stop = record {
    some_sent = omega arith;
    bounded = omega arith;
    slept = refl;
    last = ap result_of (omega arith);
    earlier = λ k h. absurd (omega arith);
    stopped = finish_stopped stop;
  }
    where
      finish_stopped : (left ≡ 0) ⊎ IsFinal first → (1 ≡ suc left) ⊎ IsFinal (first + (1 - 1))
      finish_stopped (inl z) = inl (omega arith)
      finish_stopped (inr f) = inr (subst IsFinal (omega arith) f)

  earlier_shift :
      (first sends k : ℕ)
      → FailsAgain first
      → ((j : ℕ) → suc j < sends → FailsAgain (suc first + j))
      → suc k < suc sends
      → FailsAgain (first + k)
  earlier_shift first sends zero again rest h = subst FailsAgain (omega arith) again
  earlier_shift first sends (suc k) again rest h =
      subst FailsAgain (omega arith) (rest k (omega arith))

  after_sleep-IsRun :
      (n first : ℕ) (wait : ℤ) (rest : Run A)
      → FailsAgain first
      → IsRun n (suc first) rest
      → IsRun (suc n) first (after_sleep wait rest)
  unfolding after_sleep
  after_sleep-IsRun n first wait rest again r = record {
    some_sent = omega arith;
    bounded = omega (arith, r.bounded);
    slept = ap suc r.slept;
    last = r.last ∙ ap result_of (omega (arith, r.some_sent));
    earlier = λ k h. earlier_shift first rest.sends k again r.earlier h;
    stopped = still r.stopped;
  }
    where
      still :
          (rest.sends ≡ n) ⊎ IsFinal (suc first + (rest.sends - 1))
          → (suc rest.sends ≡ suc n) ⊎ IsFinal (first + (suc rest.sends - 1))
      still (inl e) = inl (ap suc e)
      still (inr f) = inr (subst IsFinal (omega (arith, r.some_sent)) f)

  retry_finish :
      (left first : ℕ) (e : SdkError)
      → result_of first ≡ err e
      → (not (tries_again e) || left == 0) ≡ true
      → retry_loop codec float cfg wanted send (suc left) first ≡ finish (err e)
  unfolding retry_loop
  retry_finish left first e p stop = ground arith

  retry_again :
      (left first : ℕ) (e : SdkError)
      → result_of first ≡ err e
      → tries_again e ≡ true
      → (wait : ℤ) × (retry_loop codec float cfg wanted send (suc (suc left)) first
          ≡ after_sleep wait (retry_loop codec float cfg wanted send (suc left) (suc first)))
  unfolding retry_loop
  retry_again left first e p again =
      (sleep_time float cfg.retry_wait_min cfg.retry_wait_max first (asked_wait e), ground arith)

  retry_ok :
      (left first : ℕ) (a : Option A)
      → result_of first ≡ ok a
      → retry_loop codec float cfg wanted send (suc left) first ≡ finish (ok a)
  unfolding retry_loop
  retry_ok left first a p = ground arith

  -- A loop that returns at once returns the result of its first attempt.
  finished-IsRun :
      (left first : ℕ) (r : Result SdkError (Option A))
      → result_of first ≡ r
      → retry_loop codec float cfg wanted send (suc left) first ≡ finish r
      → (left ≡ 0) ⊎ IsFinal first
      → IsRun (suc left) first (retry_loop codec float cfg wanted send (suc left) first)
  finished-IsRun left first r p e stop =
      subst (IsRun (suc left) first) (ap finish p ∙ sym e) (finish-IsRun left first stop)

  IsFinal-of_eq :
      (first : ℕ) (r : Result SdkError (Option A))
      → result_of first ≡ r
      → ((e : SdkError) → r ≡ err e → tries_again e ≡ false)
      → IsFinal first
  IsFinal-of_eq first r p f e h = f e (sym p ∙ h)

  retry_loop-IsRun :
      (left first : ℕ)
      → IsRun (suc left) first (retry_loop codec float cfg wanted send (suc left) first)
  retry_loop-IsRun zero first = elim (Result-cases (result_of first)) [
    | inl (a, p) ↦ finished-IsRun 0 first (ok a) p (retry_ok 0 first a p) (inl refl)
    | inr (e, p) ↦
        finished-IsRun 0 first (err e) p (retry_finish 0 first e p (ground arith)) (inl refl)
  ]
  retry_loop-IsRun (suc left) first = elim (Result-cases (result_of first)) [
    | inl (a, p) ↦
        finished-IsRun (suc left) first (ok a) p (retry_ok (suc left) first a p)
          (inr (IsFinal-of_eq first (ok a) p (λ e h. absurd (cc))))
    | inr (e, p) ↦ elim (Bool-cases (tries_again e)) [
      | inl again ↦
          let (wait, same) = retry_again left first e p again in
          subst (IsRun (suc (suc left)) first) (sym same) (
            after_sleep-IsRun (suc left) first wait _ (e, p, again)
              (retry_loop-IsRun left (suc first)))
      | inr over ↦
          finished-IsRun (suc left) first (err e) p
            (retry_finish (suc left) first e p (ground arith))
            (inr (IsFinal-of_eq first (err e) p (λ e' h. ground arith)))
    ]
  ]

  do_json_loop :
      (retries : ℕ)
      → suc retries < 2 ^ 63
      → cfg.max_retries ≡ pos retries
      → retry_loop codec float cfg wanted send (suc retries) 0
        ≡ do_json codec float cfg wanted send true
  unfolding do_json attempts_of
  do_json_loop retries fits e = ground arith

  -- With maxRetries from 0 to 2^63 - 2 and a request that can be built, DoJSON sends between 1 and
  -- maxRetries + 1 requests and sleeps once between two of them; it returns the result of the last
  -- attempt, all earlier ones failed with an error worth another attempt, and it stops before
  -- maxRetries + 1 requests only on a success or an error that is not.
  pub do_json-IsRun :
      (retries : ℕ)
      → suc retries < 2 ^ 63
      → cfg.max_retries ≡ pos retries
      → IsRun (suc retries) 0 (do_json codec float cfg wanted send true)
  do_json-IsRun retries fits e =
      subst (IsRun (suc retries) 0) (do_json_loop retries fits e) (retry_loop-IsRun retries 0)

  -- A first attempt that succeeds is the only one.
  pub do_json-ok :
      (retries : ℕ) (a : Option A)
      → suc retries < 2 ^ 63
      → cfg.max_retries ≡ pos retries
      → result_of 0 ≡ ok a
      → do_json codec float cfg wanted send true ≡ finish (ok a)
  do_json-ok retries a fits e p = sym (do_json_loop retries fits e) ∙ retry_ok retries 0 a p

  -- With a negative maxRetries DoJSON sends nothing and reports success.
  do_json_negative :
      (n : ℕ) (buildable : Bool)
      → cfg.max_retries ≡ negsuc n
      → do_json codec float cfg wanted send buildable
        ≡ record { result = ok none; sends = 0; sleeps = [] }
  unfolding do_json attempts_of
  do_json_negative n buildable e = rw e
