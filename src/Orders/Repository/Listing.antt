-- ===== src/Orders/Repository/Listing.antt =====
-- `list` of the order repository, on the query that `readOrderListQuery` made: the orders that a
-- person may see and asked for, the most recently updated first, page by page. A cursor is the pair
-- that it encodes. Ids are compared by their code points.
use crm_silmer.Base.{
  ltb, text_eq, nat_eq, ◌==◌, if◌then◌else◌, is_some, is_text, length, any, keep, count, values,
  sort, ℕ, zero, suc, String, Bool, true, false, not, ◌&&◌, ◌||◌, Option, none, some, List, [], ◌∷◌,
}
use crm_silmer.Orders.Repository.{StoreReceipt, Repo}
use crm_silmer.Orders.{
  OrderStatus, pendente, confirmado, Origin, Order, is_pendente, is_loja, codes,
}
use crm_silmer.Orders.Calendar.{text_leb}

pub record Owner : Type 0 where
  pub user_id : String
  pub conversation_ids : List String

pub record Cursor : Type 0 where
  pub updated_at : ℕ
  pub id : String

pub record ListQuery : Type 0 where
  pub after : Option Cursor
  pub conversation_ids : Option (List String)
  pub contact_ids : Option (List String)
  pub limit : ℕ
  pub number_sequence : Option ℕ
  pub origin : Option Origin
  pub owner : Option Owner
  pub phone_digests : Option (List String)
  pub status : Option OrderStatus
  pub store_number : Option String

abbrev pub includes : List String → Option String → Bool
includes ids none = false
includes ids (some id) = any (λ x. x == id) ids

abbrev pub listed_in : Option (List String) → Option String → Bool
listed_in none id = false
listed_in (some ids) id = includes ids id

abbrev same_origin : Origin → Origin → Bool
same_origin a b = if is_loja a then is_loja b else not (is_loja b)

abbrev pub origin_fits : Option Origin → Order → Bool
origin_fits none o = true
origin_fits (some origin) o = same_origin o.origin origin

abbrev pub owner_fits : Option Owner → Order → Bool
owner_fits none o = true
owner_fits (some owner) o =
    is_text o.manual_owner_id owner.user_id || includes owner.conversation_ids o.conversation_id

abbrev pub number_is : Option ℕ → ℕ → Bool
number_is none n = false
number_is (some m) n = n == m

abbrev pub text_is : Option String → Option String → Bool
text_is none t = false
text_is (some x) t = is_text t x

abbrev pub is_open_search : ListQuery → Bool
is_open_search q =
    not (is_some q.number_sequence)
    && not (is_some q.conversation_ids)
    && not (is_some q.contact_ids)
    && not (is_some q.phone_digests)
    && not (is_some q.store_number)

-- A receipt of the order has one of the phones.
abbrev pub has_phone : Repo → Option (List String) → String → Bool
has_phone r digests order_id =
    any (λ (s : StoreReceipt). listed_in digests (some s.phone_digest) && s.order_id == order_id)
      r.receipts

unfoldable pub in_scope : Repo → ListQuery → Order → Bool
in_scope r q o =
    origin_fits q.origin o
    && owner_fits q.owner o
    && (is_open_search q
        || number_is q.number_sequence o.number_sequence
        || listed_in q.conversation_ids o.conversation_id
        || listed_in q.contact_ids o.contact_id
        || has_phone r q.phone_digests o.id
        || text_is q.store_number o.store_number)

abbrev pub status_fits : Option OrderStatus → Order → Bool
status_fits none o = true
status_fits (some pendente) o = is_pendente o.status
status_fits (some confirmado) o = not (is_pendente o.status)

-- `byMostRecentlyUpdated` answers no more than zero.
unfoldable pub recent : ℕ → String → ℕ → String → Bool
unfolding text_leb
recent at id at' id' = if at == at' then text_leb (codes id') (codes id) else ltb at' at

abbrev pub before : Order → Order → Bool
before a b = recent a.updated_at a.id b.updated_at b.id

abbrev pub comes_after : Option Cursor → Order → Bool
comes_after none o = true
comes_after (some c) o = not (recent o.updated_at o.id c.updated_at c.id)

abbrev pub take {ℓ} : {A : Type ℓ} → ℕ → List A → List A
take zero xs = []
take (suc n) [] = []
take (suc n) (x ∷ xs) = x ∷ take n xs

abbrev pub last {ℓ} : {A : Type ℓ} → List A → Option A
last [] = none
last (x ∷ []) = some x
last (x ∷ y ∷ xs) = last (y ∷ xs)

abbrev pub cursor_of : Option Order → Option Cursor
cursor_of none = none
cursor_of (some o) = some (record { updated_at = o.updated_at; id = o.id })

pub record Page : Type 0 where
  pub confirmed_count : ℕ
  pub pending_count : ℕ
  pub items : List Order
  pub next_cursor : Option Cursor

-- The orders of the query after its cursor, newest first.
unfoldable pub remaining : Repo → ListQuery → List Order
unfolding in_scope recent
remaining r q =
    keep (comes_after q.after)
      (sort before (keep (status_fits q.status) (keep (in_scope r q) (values r.orders))))

unfoldable pub list_orders : Repo → ListQuery → Page
unfolding remaining
list_orders r q =
    let scoped = keep (in_scope r q) (values r.orders) in
    let page = take (suc q.limit) (remaining r q) in
    let items = take q.limit page in
    record {
      confirmed_count = count (λ (o : Order). not (is_pendente o.status)) scoped;
      pending_count = count (λ (o : Order). is_pendente o.status) scoped;
      items = items;
      next_cursor = if ltb q.limit (length page) then cursor_of (last items) else none;
    }
