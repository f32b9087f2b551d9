-- ===== src/Server/Run/Returned.antt =====
-- Why Server.Run of internal/api/server.go and Pool.Run of internal/worker/pool.go return, and which
-- errors they wait for.
use socialpublish.Prelude.{
  Bool, true, false, Option, none, some, Result, ok, err, Bool-cases, ◌≡◌, ◌⊎◌, inl, inr, refl, sym,
  subst, ◌∙◌, ap,
}
use socialpublish.Store.Database.{Error, wrap}
use socialpublish.Server.Run.{
  Phase, waiting, stopping, returned, State, Program, Step, Reach, listener_ends, context_ends,
  receive, shutdown_starts, shutdown_ends, here, next, server, server_reports, pool, pool_reports,
}

abbrev Outcome : Type 0
Outcome = Option (Result Error (Unit {0}))

module _ (program : Program) where
  -- What the listener has sent, by what it came back with.
  sent : Outcome → Option Error
  sent none = none
  sent (some result) = program.reports result

  IsExplained : Outcome → (cancelled : Bool) → (err_ch : Option Error) → Phase → Type 0
  unfolding sent
  IsExplained listener cancelled err_ch waiting = err_ch ≡ sent listener
  IsExplained listener cancelled err_ch stopping = cancelled ≡ true
  IsExplained listener cancelled err_ch (returned r) =
      ((e : Error) × (r ≡ err e) × (sent listener ≡ some e))
      ⊎ ((cancelled ≡ true) × program.Stops r)

  IsExplained-listener :
      (result : Result Error (Unit {0})) (b : Bool) (ch : Option Error) (p : Phase)
      → IsExplained none b ch p
      → IsExplained (some result) b (program.reports result) p
  unfolding IsExplained sent
  IsExplained-listener result b ch waiting x = refl
  IsExplained-listener result b ch stopping x = x
  IsExplained-listener result b ch (returned r) (inl (e, same, x)) = absurd (cc)
  IsExplained-listener result b ch (returned r) (inr x) = inr x

  IsExplained-cancelled :
      (l : Outcome) (b : Bool) (ch : Option Error) (p : Phase)
      → IsExplained l b ch p
      → IsExplained l true ch p
  unfolding IsExplained
  IsExplained-cancelled l b ch waiting x = x
  IsExplained-cancelled l b ch stopping x = refl
  IsExplained-cancelled l b ch (returned r) (inl y) = inl y
  IsExplained-cancelled l b ch (returned r) (inr (c, y)) = inr (refl, y)

  abbrev IsSound : State → Type 0
  IsSound s = IsExplained s.listener s.cancelled s.err_ch s.phase

  Step-IsSound : {s t : State} → Step program s t → IsSound s → IsSound t
  unfolding IsExplained
  Step-IsSound (listener_ends s result on) x =
      IsExplained-listener result s.cancelled s.err_ch s.phase
        (subst (λ l. IsExplained l s.cancelled s.err_ch s.phase) on x)
  Step-IsSound (context_ends s) x = IsExplained-cancelled s.listener s.cancelled s.err_ch s.phase x
  Step-IsSound (receive s e waits held) x =
      let same = subst (IsExplained s.listener s.cancelled s.err_ch) waits x in
      inl (e, refl, sym same ∙ held)
  Step-IsSound (shutdown_starts s waits ended) x = ended
  Step-IsSound (shutdown_ends s result stops made) x =
      inr (subst (IsExplained s.listener s.cancelled s.err_ch) stops x, made)

  Reach-IsSound : {s : State} → Reach program s → IsSound s
  unfolding IsExplained sent
  Reach-IsSound here = refl
  Reach-IsSound (next before step) = Step-IsSound step (Reach-IsSound before)

-- Where a Run stands: `Told` relates what the listener came back with to the error that is told of
-- it, and `Stops` holds of the results of a shutdown.
pub data Stands (Told : Outcome → Option Error → Type 0) (Stops : Result Error (Unit {0}) → Type 0)
    (s : State) : Type 0 where
  -- It waits, and errCh holds the error that is told of the listener, if there is one.
  awaits : s.phase ≡ waiting → Told s.listener s.err_ch → Stands Told Stops s
  stops : s.phase ≡ stopping → s.cancelled ≡ true → Stands Told Stops s
  -- It has returned the error that is told of the listener.
  failed : (e : Error) → s.phase ≡ returned (err e) → Told s.listener (some e) → Stands Told Stops s
  -- The context has ended, and it has returned the result of the shutdown.
  stopped :
      (r : Result Error (Unit {0}))
      → s.phase ≡ returned r
      → s.cancelled ≡ true
      → Stops r
      → Stands Told Stops s

module _ (program : Program) (Told : Outcome → Option Error → Type 0)
    (told : (l : Outcome) → Told l (sent program l)) where
  IsExplained-Stands :
      (s : State)
      → (p : Phase) → s.phase ≡ p
      → IsExplained program s.listener s.cancelled s.err_ch p
      → Stands Told program.Stops s
  unfolding IsExplained
  IsExplained-Stands s waiting e x = awaits e (subst (Told s.listener) (sym x) (told s.listener))
  IsExplained-Stands s stopping e x = stops e x
  IsExplained-Stands s (returned r) e (inl (x, same, f)) =
      failed x (e ∙ ap returned same) (subst (Told s.listener) f (told s.listener))
  IsExplained-Stands s (returned r) e (inr (c, made)) = stopped r e c made

  Reach-Stands : {s : State} → Reach program s → Stands Told program.Stops s
  Reach-Stands {s} reached = IsExplained-Stands s s.phase refl (Reach-IsSound program reached)

-- What the HTTP server tells of ListenAndServe: nothing while it runs, behind a nil error and
-- behind http.ErrServerClosed, and every other error as it is.
pub data ToldByServer (is_server_closed : Error → Bool) : Outcome → Option Error → Type 0 where
  runs : ToldByServer is_server_closed none none
  ends : ToldByServer is_server_closed (some (ok tt)) none
  closed :
      (e : Error) → is_server_closed e ≡ true → ToldByServer is_server_closed (some (err e)) none
  fails :
      (e : Error)
      → is_server_closed e ≡ false
      → ToldByServer is_server_closed (some (err e)) (some e)

-- What the pool tells of asynq's Run: every error, as one of the worker pool.
pub data ToldByPool : Outcome → Option Error → Type 0 where
  runs : ToldByPool none none
  ends : ToldByPool (some (ok tt)) none
  fails : (e : Error) → ToldByPool (some (err e)) (some (wrap "worker pool" e))

ToldByServer-sent :
    (is_server_closed : Error → Bool) (shutdown : Result Error (Unit {0})) (l : Outcome)
    → ToldByServer is_server_closed l (sent (server is_server_closed shutdown) l)
unfolding sent server_reports
ToldByServer-sent is_server_closed shutdown none = runs
ToldByServer-sent is_server_closed shutdown (some (ok u)) = ends
ToldByServer-sent is_server_closed shutdown (some (err e)) =
    elim (Bool-cases (is_server_closed e)) [ inl h ↦ rw h (closed e h) | inr h ↦ rw h (fails e h) ]

ToldByPool-sent : (l : Outcome) → ToldByPool l (sent pool l)
unfolding sent pool_reports
ToldByPool-sent none = runs
ToldByPool-sent (some (ok u)) = ends
ToldByPool-sent (some (err e)) = fails e

-- In every order in which the listener ends and the context does: the server's Run waits, and errCh holds the
-- error of ListenAndServe unless that is nil or http.ErrServerClosed; or the context has ended and
-- Run stops, or has returned what Shutdown gave; or Run has returned that error of
-- ListenAndServe. The same holds of the pool's Run, which puts "worker pool" in front of every error of
-- asynq's Run and returns nil behind the end of the context.
pub Reach-returned :
    (is_server_closed : Error → Bool) (shutdown : Result Error (Unit {0})) {s t : State}
    → Reach (server is_server_closed shutdown) s
    → Reach pool t
    → Stands (ToldByServer is_server_closed) (λ r. r ≡ shutdown) s
      × Stands ToldByPool (λ r. r ≡ ok tt) t
Reach-returned is_server_closed shutdown served pooled = (
  Reach-Stands (server is_server_closed shutdown) (ToldByServer is_server_closed)
      (ToldByServer-sent is_server_closed shutdown) served,
  Reach-Stands pool ToldByPool ToldByPool-sent pooled,
)
