-- ===== src/Server/Run.antt =====
-- Server.Run of internal/api/server.go and Pool.Run of internal/worker/pool.go, as the steps of their
-- two goroutines: the one that listens, and the one that waits for its error or for the end of the
-- context. What ListenAndServe, asynq's Run and Shutdown return is theirs.
pub mod Returned
use socialpublish.Prelude.{
  Bool, true, false, Option, none, some, if◌then◌else◌, Result, ok, err, ◌≡◌,
}
use socialpublish.Store.Database.{Error, wrap}

pub data Phase : Type 0 where
  -- Run waits in its select.
  waiting : Phase
  -- The context has ended, and Shutdown is running.
  stopping : Phase
  returned : Result Error (Unit {0}) → Phase

pub record State : Type 0 where
  pub phase : Phase
  -- What the listener came back with, once it has ended.
  pub listener : Option (Result Error (Unit {0}))
  -- errCh, a channel of one place.
  pub err_ch : Option Error
  -- Whether the context has ended.
  pub cancelled : Bool

abbrev pub initial : State
initial = record { phase = waiting; listener = none; err_ch = none; cancelled = false }

-- What a program does with the error of its listener, and what its Shutdown can make Run return.
pub record Program : Type 1 where
  pub reports : Result Error (Unit {0}) → Option Error
  pub Stops : Result Error (Unit {0}) → Type 0

-- errors.Is(err, http.ErrServerClosed) is the parameter `is_server_closed`.
unfoldable pub server_reports :
    (is_server_closed : Error → Bool) → Result Error (Unit {0}) → Option Error
server_reports is_server_closed (ok _) = none
server_reports is_server_closed (err e) = if is_server_closed e then none else some e

-- Run returns the result of Shutdown, the parameter `shutdown`.
abbrev pub server : (is_server_closed : Error → Bool) (shutdown : Result Error (Unit {0})) → Program
server is_server_closed shutdown = record {
  reports = server_reports is_server_closed;
  Stops = λ r. r ≡ shutdown;
}

unfoldable pub pool_reports : Result Error (Unit {0}) → Option Error
pool_reports (ok _) = none
pool_reports (err e) = some (wrap "worker pool" e)

-- asynq's Shutdown has no result, and Run returns nil.
abbrev pub pool : Program
pool = record { reports = pool_reports; Stops = λ r. r ≡ ok tt }

pub data Step (program : Program) : State → State → Type 0 where
  -- The listener ends, and sends its error if there is one to report.
  listener_ends :
      (s : State) (result : Result Error (Unit {0}))
      → s.listener ≡ none
      → Step program s (record s { listener = some result; err_ch = program.reports result })
  context_ends : (s : State) → Step program s (record s { cancelled = true })
  -- case err := <-errCh
  receive :
      (s : State) (e : Error)
      → s.phase ≡ waiting
      → s.err_ch ≡ some e
      → Step program s (record s { phase = returned (err e); err_ch = none })
  -- case <-ctx.Done()
  shutdown_starts :
      (s : State)
      → s.phase ≡ waiting
      → s.cancelled ≡ true
      → Step program s (record s { phase = stopping })
  shutdown_ends :
      (s : State) (result : Result Error (Unit {0}))
      → s.phase ≡ stopping
      → program.Stops result
      → Step program s (record s { phase = returned result })

pub data Reach (program : Program) : State → Type 0 where
  here : Reach program initial
  next : {s t : State} → Reach program s → Step program s t → Reach program t
