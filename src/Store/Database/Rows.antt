-- ===== src/Store/Database/Rows.antt =====
-- What holds of the rows of a table, through the operations on tables.
use socialpublish.Prelude.{
  ℕ, suc, ◌≤◌, String, Bool, true, List, [], ◌∷◌, length, length-take, Result, ok, err, select, All,
  All-take, Bool-cases, ◌≡◌, map, refl, inl, inr, subst, arith,
}
use socialpublish.Store.Database.{
  Error, failure, wrap, Env, IsUp, one_row, update_where, insert_desc, order_desc, page_of, query,
  collect_rows, World,
}

module _ {A : Type 0} (P : A → Type 0) where
  pub All-select : (p : A → Bool) (xs : List A) → All P xs → All P (select p xs)
  unfolding select
  All-select p [] h = tt
  All-select p (x ∷ xs) (q, h) = ground (arith, All-select p xs h)

  pub All-update_where :
      (p : A → Bool) (f : A → A) (xs : List A)
      → ((x : A) → P x → P (f x))
      → All P xs
      → All P (update_where p f xs)
  unfolding update_where
  All-update_where p f [] keep h = tt
  All-update_where p f (x ∷ xs) keep (q, h) = elim (Bool-cases (p x)) [
    | inl e ↦ (rw e (keep x q), All-update_where p f xs keep h)
    | inr e ↦ (rw e q, All-update_where p f xs keep h)
  ]

  pub All-insert_desc :
      (key : A → ℕ) (x : A) (xs : List A) → P x → All P xs → All P (insert_desc key x xs)
  unfolding insert_desc
  All-insert_desc key x [] q h = (q, tt)
  All-insert_desc key x (y ∷ ys) q (r, h) = ground (arith, All-insert_desc key x ys q h)

  pub All-order_desc : (key : A → ℕ) (xs : List A) → All P xs → All P (order_desc key xs)
  unfolding order_desc
  All-order_desc key [] h = tt
  All-order_desc key (x ∷ xs) (q, h) =
      All-insert_desc key x (order_desc key xs) q (All-order_desc key xs h)

  pub one_row-All : (p : A → Bool) (xs : List A) {a : A} → All P xs → one_row p xs ≡ ok a → P a
  unfolding one_row
  one_row-All p [] h e = absurd (cc)
  one_row-All p (x ∷ xs) {a} (q, h) e = elim (Bool-cases (p x)) [
    | inl t ↦ let same : x ≡ a = ground arith in subst P same q
    | inr f ↦ one_row-All p xs h (rw f at e)
  ]

  pub page_of-All :
      (id : A → String) (limit : ℕ) (items : List A)
      → All P items
      → All P (page_of id limit items).0
  unfolding page_of
  page_of-All id limit items h = ground (arith, All-take P limit items h)

module _ {A : Type 0} where
  -- What is selected passes the test.
  pub All-selected : (p : A → Bool) (xs : List A) → All (λ x. p x ≡ true) (select p xs)
  unfolding select
  All-selected p [] = tt
  All-selected p (x ∷ xs) = elim (Bool-cases (p x)) [
    | inl t ↦ rw t (t, All-selected p xs)
    | inr f ↦ rw f (All-selected p xs)
  ]

  -- The row that is found passes the test.
  pub one_row-holds : (p : A → Bool) (xs : List A) {a : A} → one_row p xs ≡ ok a → p a ≡ true
  unfolding one_row
  one_row-holds p [] e = absurd (cc)
  one_row-holds p (x ∷ xs) {a} e = elim (Bool-cases (p x)) [
    | inl t ↦ let same : x ≡ a = ground arith in subst (λ (y : A). p y ≡ true) same t
    | inr f ↦ one_row-holds p xs (rw f at e)
  ]

  -- An update that leaves alone what the test reads is seen in the row that is found.
  pub one_row-update_where :
      (p : A → Bool) (f : A → A) (xs : List A) {a : A}
      → ((x : A) → p (f x) ≡ p x)
      → one_row p xs ≡ ok a
      → one_row p (update_where p f xs) ≡ ok (f a)
  unfolding one_row update_where
  one_row-update_where p f [] keeps e = absurd (cc)
  one_row-update_where p f (x ∷ xs) keeps e = elim (Bool-cases (p x)) [
    | inl t ↦ rw (t, keeps x, t) (ground arith)
    | inr n ↦ rw (n, n) (one_row-update_where p f xs keeps (rw n at e))
  ]

  pub length-page_of :
      (id : A → String) (limit : ℕ) (items : List A) → length (page_of id limit items).0 ≤ limit
  unfolding page_of
  length-page_of id limit items = ground (arith, length-take limit items)

-- An update that leaves alone what `g` reads.
pub map-update_where :
    {A B : Type 0} (g : A → B) (p : A → Bool) (f : A → A) (xs : List A)
    → ((x : A) → g (f x) ≡ g x)
    → map g (update_where p f xs) ≡ map g xs
unfolding update_where
map-update_where g p f [] h = refl
map-update_where g p f (x ∷ xs) h = elim (Bool-cases (p x)) [
  | inl e ↦ rw e (cc (h x, map-update_where g p f xs h))
  | inr e ↦ rw e (cc (map-update_where g p f xs h))
]

module _ {A : Type 0} {env : Env} (up : IsUp env) where
  pub query-up :
      (text : String) (f : ℕ → World → Result Error A × World) (w : World)
      → query env text f w ≡ f w.calls (record w { calls = suc w.calls })
  unfolding query
  query-up text f w = rw (up.answers w.calls)

  pub collect_rows-up : (n : ℕ) (rows : List A) → collect_rows env n rows ≡ ok rows
  unfolding collect_rows
  collect_rows-up n rows = ground (arith, up.whole n)

-- A query whose answer is always an error and leaves the tables alone fails.
pub query-failed :
    {A : Type 0} (env : Env) (text : String) (f : ℕ → World → Result Error A × World) (w : World)
    → (e : Error) × (f w.calls (record w { calls = suc w.calls })
        ≡ (err e, record w { calls = suc w.calls }))
    → (e : Error) × (query env text f w ≡ (err e, record w { calls = suc w.calls }))
unfolding query
query-failed env text f w (e, h) = elim (Bool-cases (env.fails w.calls)) [
  | inl t ↦ (wrap text failure, rw t)
  | inr t ↦ (e, rw t h)
]
