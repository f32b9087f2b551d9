-- ===== src/Store/Database.antt =====
-- The database and the queue as one state, the errors that the server's code returns, and the
-- monad of its operations. PostgreSQL, pgx and the queue are outside the program: an environment
-- says which of their calls fail, what time it is and which identifiers are generated.
pub mod Rows
use socialpublish.Prelude.{
  ℕ, suc, String, Bool, true, false, Option, none, some, List, [], ◌∷◌, ◌++◌, map, take,
  if◌then◌else◌, is_empty, str_eq, Result, ok, err, ltb, leb, ◌≡◌, ◌&&◌, ◌==◌, zero, length, ℤ, pos,
  negsuc,
}
use Prim.Native.String
use socialpublish.Store.Types.{
  Time, Workspace, ApiKey, Account, MediaRow, Post, TargetRow, AnalyticsSnapshot, WebhookEndpoint,
  WebhookDelivery, TokenRow,
}

-- A task of the queue, with its decoded payload.
pub data Task : Type 0 where
  publish_task : (post_id target_id : String) → Task
  webhook_task : (workspace_id : String) → Task

-- `failure` is an error of a library, `no_rows` that of a query for exactly one row that found
-- none, `bad_column` that of a value which does not fit the Go type it is read into. `wrap` is
-- fmt.Errorf("text: %w", err), `wrap_noted` has a text behind err as well,
-- `skip` is fmt.Errorf("%w: text", asynq.SkipRetry).
pub data Error : Type 0 where
  failure no_rows bad_column : Error
  plain : String → Error
  wrap : String → Error → Error
  wrap_noted : String → Error → String → Error
  skip : String → Error

-- errors.Is(err, asynq.SkipRetry)
unfoldable pub is_skip_retry : Error → Bool
is_skip_retry (skip s) = true
is_skip_retry (wrap s e) = is_skip_retry e
is_skip_retry (wrap_noted s e note) = is_skip_retry e
is_skip_retry _ = false

pub record World : Type 0 where
  pub workspaces : List Workspace
  pub api_keys : List ApiKey
  pub accounts : List Account
  pub media : List MediaRow
  pub posts : List Post
  pub targets : List TargetRow
  pub snapshots : List AnalyticsSnapshot
  pub endpoints : List WebhookEndpoint
  pub deliveries : List WebhookDelivery
  pub tokens : List TokenRow
  pub queue : List Task
  -- How many calls to the outside have been made.
  pub calls : ℕ

-- What the outside does at its n-th call: whether it fails, the time, the generated identifier
-- (`row_id` where a statement inserts several rows),
-- and after how many rows a result breaks off. `scan_text` reads a text column, NULL or not, into
-- a string; `text_before` is the order of text columns; `library_text` is the message of an error
-- that is not the program's; `read_number` is a number of JSON as the float64 that an interface
-- value holds is written, none where it is out of range.
pub record Env : Type 0 where
  pub fails : ℕ → Bool
  pub now : ℕ → Time
  pub fresh : ℕ → String
  pub row_id : ℕ → String → String
  pub broken : ℕ → Option ℕ
  pub scan_text : Option String → Option String
  pub text_before : String → String → Bool
  pub library_text : Error → String
  pub read_number : String → Option String

-- pgx reads a text, and refuses NULL, into a string.
pub record ScansText (env : Env) : Type 0 where
  pub scans : (s : String) → env.scan_text (some s) ≡ some s
  pub refuses : env.scan_text none ≡ none

-- No call fails and no result breaks off.
pub record IsUp (env : Env) : Type 0 where
  pub answers : (n : ℕ) → env.fails n ≡ false
  pub whole : (n : ℕ) → env.broken n ≡ none

unfoldable pub error_text : Env → Error → String
error_text env (plain s) = s
error_text env (wrap s e) = String.◌++◌ s (String.◌++◌ ": " (error_text env e))
error_text env (wrap_noted s e note) =
    String.◌++◌ s (String.◌++◌ ": " (String.◌++◌ (error_text env e) note))
error_text env e = env.library_text e

abbrev pub S : Type 0 → Type 0
S A = World → A × World

unfoldable pub pure : {A : Type 0} → A → S A
pure a w = (a, w)

-- `if err != nil { … }` behind a call.
unfoldable pub on_result : {A B : Type 0} → Result Error A → (Error → S B) → (A → S B) → S B
on_result (ok a) failed k = k a
on_result (err e) failed k = failed e

-- `if err != nil { return wrapping(err) }`
unfoldable pub or_return :
    {A B : Type 0}
    → Result Error A
    → (Error → Error)
    → (A → S (Result Error B))
    → S (Result Error B)
unfolding pure
or_return (ok a) wrapping k = k a
or_return (err e) wrapping k = pure (err (wrapping e))

infixl 5 ◌>>=◌ ◌>>◌
-- Opening this opens `pure`, `on_result` and `or_return` too.
unfoldable pub ◌>>=◌ : {A B : Type 0} → S A → (A → S B) → S B
unfolding pure on_result or_return
◌>>=◌ m f w = let (a, w') = m w in f a w'

abbrev pub ◌>>◌ : {A B : Type 0} → S A → S B → S B
m >> k = m >>= λ _. k

-- A call of an interface to the outside, which is told its number.
unfoldable pub outside : {A : Type 0} → (ℕ → A) → S A
outside f w = (f w.calls, record w { calls = suc w.calls })

module _ (env : Env) where
  -- One call to the outside: it fails with no effect, or does `f`, which is told its number.
  unfoldable pub call : {A : Type 0} → (ℕ → World → Result Error A × World) → S (Result Error A)
  call f w =
      let w' = record w { calls = suc w.calls } in
      if env.fails w.calls then (err failure, w') else f w.calls w'

  -- The same, where the error of a failed call is wrapped.
  unfoldable pub query :
      {A : Type 0} → String → (ℕ → World → Result Error A × World) → S (Result Error A)
  query text f w =
      let w' = record w { calls = suc w.calls } in
      if env.fails w.calls then (err (wrap text failure), w') else f w.calls w'

  -- pgx.CollectRows: a result that breaks off is an error.
  unfoldable pub collect_rows : {A : Type 0} → ℕ → List A → Result Error (List A)
  collect_rows n rows = elim (env.broken n) [ none ↦ ok rows | some k ↦ err failure ]

  -- `for rows.Next()` with no look at rows.Err(): a result that breaks off ends the loop.
  unfoldable pub next_rows : {A : Type 0} → ℕ → List A → List A
  next_rows n rows = elim (env.broken n) [ none ↦ rows | some k ↦ take k rows ]

-- pgx.CollectExactlyOneRow on a query by a unique key.
unfoldable pub one_row : {A : Type 0} → (A → Bool) → List A → Result Error A
one_row p [] = err no_rows
one_row p (x ∷ xs) = let rest = one_row p xs in if p x then ok x else rest

-- UPDATE … SET f WHERE p
unfoldable pub update_where : {A : Type 0} → (A → Bool) → (A → A) → List A → List A
update_where p f [] = []
update_where p f (x ∷ xs) = (if p x then f x else x) ∷ update_where p f xs

-- EXISTS (SELECT … WHERE p)
unfoldable pub exists_row : {A : Type 0} → (A → Bool) → List A → Bool
exists_row p [] = false
exists_row p (x ∷ xs) = let rest = exists_row p xs in if p x then true else rest

-- ORDER BY key DESC; equal keys keep the order of the table.
unfoldable pub insert_desc : {A : Type 0} → (A → ℕ) → A → List A → List A
insert_desc key x [] = x ∷ []
insert_desc key x (y ∷ ys) =
    let rest = insert_desc key x ys in if leb (key y) (key x) then x ∷ y ∷ ys else y ∷ rest

unfoldable pub order_desc : {A : Type 0} → (A → ℕ) → List A → List A
unfolding insert_desc
order_desc key [] = []
order_desc key (x ∷ xs) = insert_desc key x (order_desc key xs)

-- ORDER BY key ASC on a column that may be NULL, which comes last.
abbrev before_or_null : Option ℕ → Option ℕ → Bool
before_or_null a none = true
before_or_null none (some b) = false
before_or_null (some a) (some b) = leb a b

unfoldable pub insert_asc : {A : Type 0} → (A → Option ℕ) → A → List A → List A
insert_asc key x [] = x ∷ []
insert_asc key x (y ∷ ys) =
    let rest = insert_asc key x ys in
    if before_or_null (key x) (key y) then x ∷ y ∷ ys else y ∷ rest

unfoldable pub order_asc : {A : Type 0} → (A → Option ℕ) → List A → List A
unfolding insert_asc
order_asc key [] = []
order_asc key (x ∷ xs) = insert_asc key x (order_asc key xs)

-- low <= t AND t <= high, which NULL does not satisfy.
abbrev pub is_between : ℕ → ℕ → Option ℕ → Bool
is_between low high none = false
is_between low high (some t) = leb low t && leb t high

-- fmt.Errorf("text: %w", err) on an error.
abbrev pub wrapped : {A : Type 0} → String → Result Error A → Result Error A
wrapped text (ok a) = ok a
wrapped text (err e) = err (wrap text e)

abbrev pub named : String → String → String → String
named before id after = String.◌++◌ before (String.◌++◌ id after)

-- if limit <= 0 { limit = 20 }
unfoldable pub page_limit : ℤ → ℕ
page_limit (pos n) = if n == 0 then 20 else n
page_limit (negsuc n) = 20

-- The identifier of the last of the first `limit` items.
unfoldable pub last_id : {A : Type 0} → (A → String) → ℕ → List A → String
last_id id limit [] = ""
last_id id zero (x ∷ xs) = ""
last_id id (suc zero) (x ∷ xs) = id x
last_id id (suc (suc n)) (x ∷ xs) = last_id id (suc n) xs

-- if len(items) > limit { next = items[limit-1].ID; items = items[:limit] }
unfoldable pub page_of : {A : Type 0} → (A → String) → ℕ → List A → List A × String
unfolding last_id
page_of id limit items =
    if ltb limit (length items) then (take limit items, last_id id limit items) else (items, "")

-- ORDER BY id
unfoldable pub insert_by_id : {A : Type 0} → Env → (A → String) → A → List A → List A
insert_by_id env key x [] = x ∷ []
insert_by_id env key x (y ∷ ys) =
    let rest = insert_by_id env key x ys in
    if env.text_before (key y) (key x) then y ∷ rest else x ∷ y ∷ ys

unfoldable pub order_by_id : {A : Type 0} → Env → (A → String) → List A → List A
unfolding insert_by_id
order_by_id env key [] = []
order_by_id env key (x ∷ xs) = insert_by_id env key x (order_by_id env key xs)
