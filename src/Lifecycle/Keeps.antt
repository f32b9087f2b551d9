-- ===== src/Lifecycle/Keeps.antt =====
-- Predicates on the posts and targets that the operations keep, one rule for each way to build an
-- operation.
use socialpublish.Prelude.{ℕ, suc, String, Result, ok, err, Bool-cases, inl, inr, All}
use socialpublish.Store.Types.{Post, TargetRow}
use socialpublish.Store.Database.{
  World, Env, Error, S, ◌>>=◌, pure, call, query, outside, on_result, or_return,
}

-- Something about every post and every target.
abbrev pub Rows : (Post → Type 0) → (TargetRow → Type 0) → World → Type 0
Rows P T w = All P w.posts × All T w.targets

-- Whatever the operation returns, it keeps what holds of the rows.
pub record Keeps (P : Post → Type 0) (T : TargetRow → Type 0) {A : Type 0} (m : S A) : Type 0 where
  pub at : (w : World) → Rows P T w → Rows P T (m w).1

-- What a query does to the tables, if it is made.
abbrev pub KeepsBody :
    (Post → Type 0)
    → (TargetRow → Type 0)
    → {A : Type 0} → (ℕ → World → Result Error A × World)
    → Type 0
KeepsBody P T f = (n : ℕ) (w : World) → Rows P T w → Rows P T (f n w).1

module _ {P : Post → Type 0} {T : TargetRow → Type 0} where
  pub Keeps-pure : {A : Type 0} (a : A) → Keeps P T (pure a)
  unfolding pure
  Keeps-pure a = record { at = λ w h. h }

  pub Keeps-bind :
      {A B : Type 0} (m : S A) (f : A → S B)
      → Keeps P T m
      → ((a : A) → Keeps P T (f a))
      → Keeps P T (m >>= f)
  unfolding ◌>>=◌
  Keeps-bind m f km kf = record { at = λ w h. (kf (m w).0).at (m w).1 (km.at w h) }

  pub Keeps-on_result :
      {A B : Type 0} (r : Result Error A) (failed : Error → S B) (k : A → S B)
      → ((e : Error) → Keeps P T (failed e))
      → ((a : A) → Keeps P T (k a))
      → Keeps P T (on_result r failed k)
  unfolding on_result
  Keeps-on_result (ok a) failed k kf kk = kk a
  Keeps-on_result (err e) failed k kf kk = kf e

  pub Keeps-or_return :
      {A B : Type 0} (r : Result Error A) (wrapping : Error → Error) (k : A → S (Result Error B))
      → ((a : A) → Keeps P T (k a))
      → Keeps P T (or_return r wrapping k)
  unfolding or_return
  Keeps-or_return (ok a) wrapping k kk = kk a
  Keeps-or_return (err e) wrapping k kk = Keeps-pure (err (wrapping e))

  pub Keeps-outside : {A : Type 0} (f : ℕ → A) → Keeps P T (outside f)
  unfolding outside
  Keeps-outside f = record { at = λ w h. h }

  -- A query or call that fails changes nothing.
  pub Keeps-query :
      (env : Env) {A : Type 0} (text : String) (f : ℕ → World → Result Error A × World)
      → KeepsBody P T f
      → Keeps P T (query env text f)
  unfolding query
  Keeps-query env text f k = record {
    at = λ w h. elim (Bool-cases (env.fails w.calls)) [
      | inl e ↦ rw e h
      | inr e ↦ rw e (k w.calls (record w { calls = suc w.calls }) h)
    ];
  }

  pub Keeps-call :
      (env : Env) {A : Type 0} (f : ℕ → World → Result Error A × World)
      → KeepsBody P T f
      → Keeps P T (call env f)
  unfolding call
  Keeps-call env f k = record {
    at = λ w h. elim (Bool-cases (env.fails w.calls)) [
      | inl e ↦ rw e h
      | inr e ↦ rw e (k w.calls (record w { calls = suc w.calls }) h)
    ];
  }

pub ruleset keeps_rules = (Keeps-pure, Keeps-bind, Keeps-on_result, Keeps-or_return, Keeps-outside)
