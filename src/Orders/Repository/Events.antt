-- ===== src/Orders/Repository/Events.antt =====
-- The versions of the orders against their events.
use crm_silmer.Base.{
  ok, lookup, IsCounted, put-IsCounted_bump, put-IsCounted_new, String, ◌≡◌, refl, sym, ◌∙◌, Option,
  none, some, arith,
}
use crm_silmer.Orders.Repository.{Event, Repo}
use crm_silmer.Orders.Repository.Commands.{Command, execute, Effect, idle, adds, changes, new_id}
use crm_silmer.Orders.{Order}
use crm_silmer.Orders.Repository.Effects.{execute-Effect}

abbrev pub IsLogged : Repo → Type 0
IsLogged r =
    IsCounted {V = Order} {E = Event} (λ o. o.id) (λ o. o.version) (λ e. e.order_id) r.orders
      r.events

-- The id of a created order is not in use.
abbrev pub IsUnused : Repo → Option String → Type 0
IsUnused r none = Unit
IsUnused r (some id) = lookup id r.orders ≡ none

Effect-IsLogged :
    {new : Option String} {r t : Repo} → Effect new r t → IsUnused r new → IsLogged r → IsLogged t
Effect-IsLogged (idle same) fresh a = rw same a
Effect-IsLogged {r} (adds o e orders events _ version _ mine _ id) fresh a =
    rw (orders, events)
      (put-IsCounted_new _ _ _ r.orders r.events o.id o e a (rw id at fresh) refl version mine)
Effect-IsLogged {r} (changes k id o o' e found at orders events _ version mine same) fresh a =
    let own = a.keyed id o found in
    let here : k ≡ id = ground arith in
    rw (orders, events)
      (put-IsCounted_bump _ _ _ r.orders r.events k o' e o a (rw here found)
        (same.id ∙ own ∙ sym here) version (mine ∙ own ∙ sym here))

-- After every command that creates with a new id, the version of each order is still the number of
-- its events.
pub execute-IsLogged :
    (r : Repo) (c : Command) {t : Repo}
    → execute r c ≡ ok t
    → IsUnused r (new_id c)
    → IsLogged r
    → IsLogged t
execute-IsLogged r c h fresh a = Effect-IsLogged (execute-Effect r c h) fresh a
