-- ===== src/Server/Worker/Idle.antt =====
-- Operations on the state of internal/store that publish nothing and leave alone the posts, accounts,
-- tokens and snapshots, one rule for each way to build one.
use socialpublish.Prelude.{
  ℕ, suc, Bool, true, false, String, map, Bytes, Result, ok, err, length, ◌==◌, Bool-cases, inl,
  inr, ◌≡◌, ◌∙◌, refl, if◌then◌else◌,
}
use socialpublish.Store.Types.{TargetRow}
use socialpublish.Store.Json.{Json}
use socialpublish.Store.Database.{
  World, Env, Error, S, ◌>>=◌, pure, call, query, outside, on_result, or_return,
}
use socialpublish.Store.Database.Rows.{map-update_where}
use socialpublish.Store.Accounts.{get_account}
use socialpublish.Store.Posts
use socialpublish.Store.Media.{mark_ready, mark_failed}
use socialpublish.Store.Tokens.{Crypto, decrypt}
use socialpublish.Store.Webhooks.{list_endpoints, list_pending_deliveries, mark_delivered}

-- The second state has the posts, accounts, tokens and snapshots of the first, and targets with the
-- same identifiers of platform posts.
abbrev pub IsIdle : World → World → Type 0
IsIdle w v =
    (map (λ (t : TargetRow). t.platform_post_id) v.targets
      ≡ map (λ (t : TargetRow). t.platform_post_id) w.targets)
    × (v.posts ≡ w.posts)
    × (v.accounts ≡ w.accounts)
    × (v.tokens ≡ w.tokens)
    × (v.snapshots ≡ w.snapshots)

pub IsIdle-refl : (w : World) → IsIdle w w
IsIdle-refl w = (refl, refl, refl, refl, refl)

pub IsIdle-trans : (u v w : World) → IsIdle u v → IsIdle v w → IsIdle u w
IsIdle-trans u v w (a, b, c, d, e) (f, g, h, i, j) = (f ∙ a, g ∙ b, h ∙ c, i ∙ d, j ∙ e)

pub record Idles {A : Type 0} (m : S A) : Type 0 where
  pub at : (w : World) → IsIdle w (m w).1

pub Idles-pure : {A : Type 0} (a : A) → Idles (pure a)
unfolding pure
Idles-pure a = record { at = λ w. IsIdle-refl w }

pub Idles-bind :
    {A B : Type 0} (m : S A) (f : A → S B) → Idles m → ((a : A) → Idles (f a)) → Idles (m >>= f)
unfolding ◌>>=◌
Idles-bind m f km kf = record {
  at = λ w. IsIdle-trans w (m w).1 (f (m w).0 (m w).1).1 (km.at w) ((kf (m w).0).at (m w).1);
}

pub Idles-on_result :
    {A B : Type 0} (r : Result Error A) (failed : Error → S B) (k : A → S B)
    → ((e : Error) → Idles (failed e))
    → ((a : A) → Idles (k a))
    → Idles (on_result r failed k)
unfolding on_result
Idles-on_result (ok a) failed k kf kk = kk a
Idles-on_result (err e) failed k kf kk = kf e

pub Idles-or_return :
    {A B : Type 0} (r : Result Error A) (wrapping : Error → Error) (k : A → S (Result Error B))
    → ((a : A) → Idles (k a))
    → Idles (or_return r wrapping k)
unfolding or_return
Idles-or_return (ok a) wrapping k kk = kk a
Idles-or_return (err e) wrapping k kk = Idles-pure (err (wrapping e))

pub Idles-outside : {A : Type 0} (f : ℕ → A) → Idles (outside f)
unfolding outside
Idles-outside f = record { at = λ w. IsIdle-refl w }

pub Idles-if : {A : Type 0} (b : Bool) (m k : S A) → Idles m → Idles k → Idles (if b then m else k)
Idles-if true m k h h' = h
Idles-if false m k h h' = h'

-- What a query does to the tables, if it is made.
abbrev IdleBody : {A : Type 0} → (ℕ → World → Result Error A × World) → Type 0
IdleBody f = (n : ℕ) (w : World) → IsIdle w (f n w).1

module _ (env : Env) {A : Type 0} where
  pub Idles-query :
      (text : String) (f : ℕ → World → Result Error A × World)
      → IdleBody f
      → Idles (query env text f)
  unfolding query
  Idles-query text f k = record {
    at = λ w. elim (Bool-cases (env.fails w.calls)) [
      | inl e ↦ rw e (IsIdle-refl w)
      | inr e ↦ rw e (k w.calls (record w { calls = suc w.calls }))
    ];
  }

  Idles-call : (f : ℕ → World → Result Error A × World) → IdleBody f → Idles (call env f)
  unfolding call
  Idles-call f k = record {
    at = λ w. elim (Bool-cases (env.fails w.calls)) [
      | inl e ↦ rw e (IsIdle-refl w)
      | inr e ↦ rw e (k w.calls (record w { calls = suc w.calls }))
    ];
  }

module _ (env : Env) where
  pub get_target-Idles : (id : String) → Idles (Posts.get_target env id)
  unfolding Posts.get_target
  get_target-Idles id = Idles-query env _ _ λ n w. IsIdle-refl w

  pub get_account-Idles : (id : String) → Idles (get_account env id)
  unfolding get_account
  get_account-Idles id = Idles-query env _ _ λ n w. IsIdle-refl w

  pub decrypt-Idles :
      (crypto : Crypto) (key : Bytes) (id : String) → Idles (decrypt env crypto key id)
  unfolding decrypt
  decrypt-Idles crypto key id = record {
    at = λ w. elim (Bool-cases (length key == 32)) [
      | inl e ↦ rw e ((Idles-call env _ (λ n v. IsIdle-refl v)).at w)
      | inr e ↦ rw e (IsIdle-refl w)
    ];
  }

  pub set_target_failed-Idles : (id reason : String) → Idles (Posts.set_target_failed env id reason)
  unfolding Posts.set_target_failed
  set_target_failed-Idles id reason =
      Idles-query env _ _
        λ n w. (map-update_where _ _ _ w.targets (λ t. refl), refl, refl, refl, refl)

  pub mark_failed-Idles : (id reason : String) → Idles (mark_failed env id reason)
  unfolding mark_failed
  mark_failed-Idles id reason = Idles-query env _ _ λ n w. IsIdle-refl w

  pub mark_ready-Idles :
      (id : String) (formats : Json) (thumbnail : String)
      → Idles (mark_ready env id formats thumbnail)
  unfolding mark_ready
  mark_ready-Idles id formats thumbnail = Idles-query env _ _ λ n w. IsIdle-refl w

  pub list_endpoints-Idles : (id : String) → Idles (list_endpoints env id)
  unfolding list_endpoints
  list_endpoints-Idles id = Idles-query env _ _ λ n w. IsIdle-refl w

  pub list_pending_deliveries-Idles :
      (id : String) (limit : _) → Idles (list_pending_deliveries env id limit)
  unfolding list_pending_deliveries
  list_pending_deliveries-Idles id limit = Idles-query env _ _ λ n w. IsIdle-refl w

  pub mark_delivered-Idles : (id : String) (status : ℕ) → Idles (mark_delivered env id status)
  unfolding mark_delivered
  mark_delivered-Idles id status = Idles-query env _ _ λ n w. IsIdle-refl w
