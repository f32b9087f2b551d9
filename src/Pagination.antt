-- ===== src/Pagination.antt =====
-- sdk/pagination.go: Iter. The function that fetches a page for a cursor is a parameter.
pub mod Walk
mod Tests
use socialpublish.Prelude.{
  ℕ, zero, suc, ◌-◌, String, Bool, true, false, not, Option, none, some, List, [], ◌∷◌, length, ltb,
  if◌then◌else◌, Result, ok, err,
}

-- What a Pager tells.
pub record Page (A : Type 0) : Type 0 where
  pub items : List A
  pub next_cursor : String
  pub has_more : Bool

-- `failed` is the error, if there is one.
pub record Iter (E A : Type 0) : Type 0 where
  pub cursor : String
  pub items : List A
  pub position : ℕ
  pub done : Bool
  pub failed : Option E

-- it.items[i]; out of range the program panics.
unfoldable pub get_elem? : {A : Type 0} → ℕ → List A → Option A
get_elem? i [] = none
get_elem? zero (x ∷ xs) = some x
get_elem? (suc i) (x ∷ xs) = get_elem? i xs

module _ {E A : Type 0} where
  unfoldable pub new_iter : Iter E A
  new_iter = record { cursor = ""; items = []; position = 0; done = false; failed = none }

  -- A page that was fetched is taken over; if it is empty, Next says that there is no item.
  load : Page A → Iter E A → Bool × Iter E A
  load page it =
      let fresh : Iter E A = record it {
        items = page.items;
        cursor = page.next_cursor;
        done = not page.has_more;
        position = 0;
      } in
      elim page.items [ [] ↦ (false, fresh) | x ∷ xs ↦ (true, record fresh { position = 1 }) ]

  unfoldable pub item : Iter E A → Option A
  unfolding get_elem?
  item it = get_elem? (it.position - 1) it.items

  module _ (fetch : String → Result E (Page A)) where
    unfoldable pub next : Iter E A → Bool × Iter E A
    unfolding load
    next it = elim it.failed [
      | some e ↦ (false, it)
      | none ↦
          if ltb it.position (length it.items)
          then (true, record it { position = suc it.position })
          else if it.done
          then (false, it)
          else elim (fetch it.cursor) [
            | err e ↦ (false, record it { failed = some e })
            | ok page ↦ load page it
          ]
    ]
