-- ===== src/Orders/Repository/Pages.antt =====
-- The pages of orders against the repository.
use crm_silmer.Base.{
  ltb, if◌then◌else◌, is_some, length, keep, count, count-keep, values, sort, count-sort, ℕ, zero,
  suc, ◌≤◌, ◌≡◌, refl, ap, Bool, true, ◌&&◌, none, List, [], ◌∷◌, arith,
}
use crm_silmer.Orders.Repository.{Repo}
use crm_silmer.Orders.Repository.Listing.{
  ListQuery, in_scope, status_fits, before, comes_after, take, last, cursor_of, remaining,
  list_orders,
}
use crm_silmer.Orders.{Order}

module _ {A : Type 0} where
  -- The page within one more than the limit.
  take-take : (n : ℕ) (xs : List A) → take n (take (suc n) xs) ≡ take n xs
  take-take zero xs = refl
  take-take (suc n) [] = refl
  take-take (suc n) (x ∷ xs) = ap (λ ys. x ∷ ys) (take-take n xs)

  -- A list of which one more than the limit is no longer than the limit is taken whole.
  take_whole : (n : ℕ) (xs : List A) → length (take (suc n) xs) ≤ n → take n xs ≡ xs
  take_whole zero [] h = refl
  take_whole zero (x ∷ xs) h = ground arith
  take_whole (suc n) [] h = refl
  take_whole (suc n) (x ∷ xs) h = ap (λ ys. x ∷ ys) (take_whole n xs (omega (arith, h)))

-- An order that the query asks for, after its cursor.
abbrev pub answers : Repo → ListQuery → Order → Bool
answers r q o = in_scope r q o && (status_fits q.status o && comes_after q.after o)

count-remaining :
    (r : Repo) (q : ListQuery) (p : Order → Bool)
    → count p (remaining r q) ≡ count (λ o. answers r q o && p o) (values r.orders)
unfolding remaining
count-remaining r q p =
    let scoped = keep (in_scope r q) (values r.orders) in
    let found = keep (status_fits q.status) scoped in
    ground (
      arith,
      count-keep p (comes_after q.after) (sort before found),
      count-sort before (λ o. comes_after q.after o && p o) found,
      count-keep (λ o. comes_after q.after o && p o) (status_fits q.status) scoped,
      count-keep (λ o. status_fits q.status o && (comes_after q.after o && p o)) (in_scope r q)
          (values r.orders),
      agree (values r.orders),
    )
  where
    agree :
        (xs : List Order)
        → count
            (λ o. in_scope r q o && (status_fits q.status o && (comes_after q.after o && p o)))
            xs
          ≡ count (λ o. answers r q o && p o) xs
    agree [] = refl
    agree (x ∷ xs) = ground (arith, agree xs)

cursor_of-last : (x : Order) (xs : List Order) → is_some (cursor_of (last (x ∷ xs))) ≡ true
cursor_of-last x [] = refl
cursor_of-last x (y ∷ ys) = cursor_of-last y ys

no_cursor :
    (n : ℕ) (xs : List Order)
    → 1 ≤ n
    → (if ltb n (length (take (suc n) xs))
        then cursor_of (last (take n (take (suc n) xs)))
        else none)
      ≡ none
    → length (take (suc n) xs) ≤ n
no_cursor zero xs positive h = ground arith
no_cursor (suc n) [] positive h = omega arith
no_cursor (suc n) (x ∷ xs) positive h = ground (arith, cursor_of-last x (take n (take (suc n) xs)))

-- A page without a next cursor, at a limit of one or more, has every order of the repository that
-- the query asks for after its cursor, as often as it is there, and no other.
pub list_orders_last_page :
    (r : Repo) (q : ListQuery) (p : Order → Bool)
    → 1 ≤ q.limit
    → (list_orders r q).next_cursor ≡ none
    → count p (list_orders r q).items ≡ count (λ o. answers r q o && p o) (values r.orders)
unfolding list_orders
list_orders_last_page r q p positive done =
    let rest = remaining r q in
    let whole = no_cursor q.limit rest positive done in
    rw (take-take q.limit rest, take_whole q.limit rest whole) (count-remaining r q p)
