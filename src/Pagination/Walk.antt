-- ===== src/Pagination/Walk.antt =====
-- sdk/pagination.go: a loop over Next and Item.
use socialpublish.Prelude.{
  ℕ, zero, suc, ◌+◌, ◌-◌, ◌<◌, String, Bool, true, false, not, Option, none, some, List, [], ◌∷◌,
  ◌++◌, append_assoc, append-nil, map, length, length-append, ltb, if◌then◌else◌, Result, ok, ◌≡◌,
  refl, ap, subst, arith,
}
use socialpublish.Pagination.{Page, Iter, get_elem?, new_iter, load, item, next}

module _ {E A : Type 0} (fetch : String → Result E (Page A)) where
  -- `for it.Next() { … it.Item() … }`: what Item returns in each round, and the iterator behind
  -- the loop, for as many calls of Next as the fuel says.
  unfoldable pub walk : ℕ → Iter E A → List (Option A) × Iter E A
  walk zero it = ([], it)
  walk (suc fuel) it =
      let (more, it') = next fetch it in
      let (seen, last) = walk fuel it' in if more then (item it' ∷ seen, last) else ([], it')

  -- The items of the pages from a cursor on, where no page is empty and the last one says so.
  pub data Book : String → List A → Type 0 where
    last_page :
        {cursor : String} (x : A) (xs : List A) (next_cursor : String)
        → fetch cursor ≡ ok (record { items = x ∷ xs; next_cursor = next_cursor; has_more = false })
        → Book cursor (x ∷ xs)
    more_pages :
        {cursor : String} (x : A) (xs : List A) (next_cursor : String) (rest : List A)
        → fetch cursor ≡ ok (record { items = x ∷ xs; next_cursor = next_cursor; has_more = true })
        → Book next_cursor rest
        → Book cursor (x ∷ xs ++ rest)

  -- An iterator that stands behind the items `seen` of its page, before `ahead`.
  abbrev within : (seen ahead : List A) → String → Bool → Iter E A
  within seen ahead cursor done = record {
    cursor = cursor;
    items = seen ++ ahead;
    position = length seen;
    done = done;
    failed = none;
  }

  get_elem-append :
      (seen : List A) (x : A) (ahead : List A)
      → get_elem? (length seen) (seen ++ x ∷ ahead) ≡ some x
  unfolding get_elem?
  get_elem-append [] x ahead = refl
  get_elem-append (y ∷ seen) x ahead = get_elem-append seen x ahead

  next-within :
      (seen : List A) (x : A) (ahead : List A) (cursor : String) (done : Bool)
      → next fetch (within seen (x ∷ ahead) cursor done)
        ≡ (true, record (within seen (x ∷ ahead) cursor done) { position = suc (length seen) })
  unfolding next
  next-within seen x ahead cursor done =
      let inside : ltb (length seen) (length (seen ++ x ∷ ahead)) ≡ true =
        ground (arith, length-append seen (x ∷ ahead)) in
      rw inside refl

  within-step :
      (seen : List A) (x : A) (ahead : List A) (cursor : String) (done : Bool)
      → record (within seen (x ∷ ahead) cursor done) { position = suc (length seen) }
        ≡ within (seen ++ x ∷ []) ahead cursor done
  within-step seen x ahead cursor done =
      rw (append_assoc seen (x ∷ []) ahead, length-append seen (x ∷ []))
        (ap (λ (n : ℕ). record (within seen (x ∷ ahead) cursor done) { position = n })
          (omega arith))

  item-within :
      (seen : List A) (x : A) (ahead : List A) (cursor : String) (done : Bool)
      → item (record (within seen (x ∷ ahead) cursor done) { position = suc (length seen) })
        ≡ some x
  unfolding item
  item-within seen x ahead cursor done =
      let here : suc (length seen) - 1 ≡ length seen = omega arith in
      rw here (get_elem-append seen x ahead)

  walk-step :
      (seen : List A) (x : A) (ahead : List A) (cursor : String) (done : Bool) (fuel : ℕ)
      → walk (suc fuel) (within seen (x ∷ ahead) cursor done) ≡ (
        some x ∷ (walk fuel (within (seen ++ x ∷ []) ahead cursor done)).0,
        (walk fuel (within (seen ++ x ∷ []) ahead cursor done)).1,
      )
  unfolding walk
  walk-step seen x ahead cursor done fuel =
      rw
        (
          next-within seen x ahead cursor done,
          item-within seen x ahead cursor done,
          within-step seen x ahead cursor done,
        )
        refl

  walk-within :
      (ahead seen : List A) (cursor : String) (done : Bool) (fuel : ℕ)
      → walk (length ahead + fuel) (within seen ahead cursor done) ≡ (
        map some ahead ++ (walk fuel (within (seen ++ ahead) [] cursor done)).0,
        (walk fuel (within (seen ++ ahead) [] cursor done)).1,
      )
  unfolding walk
  walk-within [] seen cursor done fuel =
      let same : 0 + fuel ≡ fuel = omega arith in rw (same, append-nil seen, append-nil seen) refl
  walk-within (x ∷ ahead) seen cursor done fuel =
      let one_more : suc (length ahead) + fuel ≡ suc (length ahead + fuel) = omega arith in
      rw
        (
          one_more,
          walk-step seen x ahead cursor done (length ahead + fuel),
          walk-within ahead (seen ++ x ∷ []) cursor done fuel,
          append_assoc seen (x ∷ []) ahead,
        )
        refl

  -- An iterator whose page is read to its end.
  abbrev exhausted : List A → String → Bool → Iter E A
  exhausted seen cursor done = within seen [] cursor done

  next-exhausted :
      (seen : List A) (cursor : String) (x : A) (xs : List A) (next_cursor : String) (more : Bool)
      → fetch cursor ≡ ok (record { items = x ∷ xs; next_cursor = next_cursor; has_more = more })
      → next fetch (exhausted seen cursor false) ≡ (true, within (x ∷ []) xs next_cursor (not more))
  unfolding next load
  next-exhausted seen cursor x xs next_cursor more h =
      let over : ltb (length seen) (length (seen ++ [])) ≡ false =
        rw (append-nil seen) (ground arith) in
      rw (over, h) refl

  next-done :
      (seen : List A) (cursor : String)
      → next fetch (exhausted seen cursor true) ≡ (false, exhausted seen cursor true)
  unfolding next
  next-done seen cursor =
      let over : ltb (length seen) (length (seen ++ [])) ≡ false =
        rw (append-nil seen) (ground arith) in
      rw over refl

  -- A page is read from its fetch to its end.
  walk-page :
      (seen : List A) (cursor : String) (x : A) (xs : List A) (next_cursor : String) (more : Bool)
      (fuel : ℕ)
      → fetch cursor ≡ ok (record { items = x ∷ xs; next_cursor = next_cursor; has_more = more })
      → walk (suc (length xs + fuel)) (exhausted seen cursor false) ≡ (
        map some (x ∷ xs) ++ (walk fuel (exhausted (x ∷ xs) next_cursor (not more))).0,
        (walk fuel (exhausted (x ∷ xs) next_cursor (not more))).1,
      )
  unfolding walk item get_elem?
  walk-page seen cursor x xs next_cursor more fuel h =
      rw
        (
          next-exhausted seen cursor x xs next_cursor more h,
          walk-within xs (x ∷ []) next_cursor (not more) fuel,
        )
        refl

  map-append : (xs ys : List A) → map some (xs ++ ys) ≡ map some xs ++ map some ys
  map-append [] ys = refl
  map-append (x ∷ xs) ys = ap (λ (l : List (Option A)). some x ∷ l) (map-append xs ys)

  walk-exhausted :
      (cursor : String) (all seen : List A) (spare : ℕ)
      → Book cursor all
      → ((walk (length all + suc spare) (exhausted seen cursor false)).0 ≡ map some all)
        × ((walk (length all + suc spare) (exhausted seen cursor false)).1.failed ≡ none)
        × ((walk (length all + suc spare) (exhausted seen cursor false)).1.done ≡ true)
  unfolding walk
  walk-exhausted cursor all seen spare (last_page x xs next_cursor h) =
      let fuel : suc (length xs) + suc spare ≡ suc (length xs + suc spare) = omega arith in
      rw
        (
          fuel,
          walk-page seen cursor x xs next_cursor false (suc spare) h,
          next-done (x ∷ xs) next_cursor,
        )
        (ap (λ (l : List (Option A)). some x ∷ l) (append-nil (map some xs)), refl, refl)
  walk-exhausted cursor all seen spare (more_pages x xs next_cursor rest h book) =
      let (whole, fine, ended) = walk-exhausted next_cursor rest (x ∷ xs) spare book in
      let fuel : suc (length (xs ++ rest)) + suc spare
          ≡ suc (length xs + (length rest + suc spare)) =
        omega (arith, length-append xs rest) in
      rw
        (
          fuel,
          walk-page seen cursor x xs next_cursor true (length rest + suc spare) h,
          map-append xs rest,
        )
        (ap (λ (l : List (Option A)). some x ∷ (map some xs ++ l)) whole, fine, ended)

  -- Where no page is empty and the last one says that it is the last: the loop sees the items of
  -- all pages in their order, after one more call of Next than there are items, and ends without an
  -- error.
  pub walk-Book :
      (all : List A) (fuel : ℕ)
      → Book "" all
      → length all < fuel
      → ((walk fuel new_iter).0 ≡ map some all)
        × ((walk fuel new_iter).1.failed ≡ none)
        × ((walk fuel new_iter).1.done ≡ true)
  unfolding new_iter
  walk-Book all fuel book enough =
      let same : length all + suc (fuel - length all - 1) ≡ fuel = omega (arith, enough) in
      subst
        (λ (n : ℕ).
          ((walk n new_iter).0 ≡ map some all)
          × ((walk n new_iter).1.failed ≡ none)
          × ((walk n new_iter).1.done ≡ true))
        same (walk-exhausted "" all [] (fuel - length all - 1) book)

  -- If the first page is empty, the loop sees nothing and ends without an error, even where that
  -- page says that there are more.
  pub walk-empty :
      (fuel : ℕ) (next_cursor : String) (more : Bool)
      → fetch "" ≡ ok (record { items = []; next_cursor = next_cursor; has_more = more })
      → ((walk (suc fuel) new_iter).0 ≡ [])
        × ((walk (suc fuel) new_iter).1.failed ≡ none)
        × ((walk (suc fuel) new_iter).1.done ≡ not more)
  unfolding walk next load new_iter
  walk-empty fuel next_cursor more h = rw h (refl, refl, refl)
