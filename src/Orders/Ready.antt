-- ===== src/Orders/Ready.antt =====
-- When an order can be generated, and what generating and reopening it keep.
use crm_silmer.Base.{
  is_some, ok, err, any, append-eq-nil, All, ℕ, suc, String, ◌≡◌, refl, ◌↔◌, Bool, true, false, not,
  Option, List, [], ◌∷◌, arith,
}
use crm_silmer.Orders.{
  Text, pendente, PaymentCondition, FichaItem, Ficha, Blocker, artwork, delivery_day, final_amount,
  order_status_conflict, Order, is_blank, is_blank?, is_positive_safe, codes,
}
use crm_silmer.Orders.Calendar.{is_calendar_day}
use crm_silmer.Orders.Confirmation.{
  has_artwork_origin, lacks, item_gaps, gaps_from, items_blockers, unless, confirmation_blockers,
  missing_for_confirmation, ConfirmInput, require_actor, is_nil, confirmed, confirm_order, reopened,
  reopen_order,
}

-- The principal points of an item, read off the item.
pub record IsComplete (item : FichaItem) : Type 0 where
  pub kind : is_blank? item.tipo ≡ false
  pub colour : is_blank? item.cor ≡ false
  pub technique : is_blank? item.tipo_servico ≡ false
  pub fabric : any (λ t. not (is_blank t)) item.malhas ≡ true
  pub sizes : is_nil item.grade ≡ false
  pub collar : is_blank? item.gola ≡ false

item_gaps-nil_iff : (item : FichaItem) (index : ℕ) → (item_gaps item index ≡ []) ↔ IsComplete item
unfolding item_gaps lacks
item_gaps-nil_iff item index = (λ h. ground arith, λ c. ground arith)

gaps_from-nil_iff :
    (index : ℕ) (items : List FichaItem) → (gaps_from index items ≡ []) ↔ All IsComplete items
unfolding gaps_from
gaps_from-nil_iff index [] = (λ _. tt, λ _. refl)
gaps_from-nil_iff index (item ∷ items) =
    let first = item_gaps-nil_iff item index in
    let rest = gaps_from-nil_iff (suc index) items in
    (
      λ h. let (a, b) = append-eq-nil (item_gaps item index) _ h in (first.0 a, rest.0 b),
      λ c. rw (first.1 c.0) (rest.1 c.1),
    )

-- What generating an order needs, said of the ficha itself.
pub record IsReady (ficha : Ficha) (amount : Option ℕ) (condition : Option PaymentCondition)
    : Type 0 where
  pub some_item : is_nil ficha.items ≡ false
  pub complete : All IsComplete ficha.items
  pub art : has_artwork_origin ficha.artwork ≡ true
  pub delivery : is_calendar_day ficha.summary.data_entrega_confirmada ≡ true
  pub priced : is_positive_safe amount ≡ true
  pub payable : is_some condition ≡ true

items_blockers-nil_iff :
    (items : List FichaItem)
    → (items_blockers items ≡ []) ↔ ((is_nil items ≡ false) × All IsComplete items)
unfolding items_blockers
items_blockers-nil_iff [] = (λ h. cc, λ h. cc)
items_blockers-nil_iff (item ∷ items) =
    let parts = gaps_from-nil_iff 0 (item ∷ items) in (λ h. (refl, parts.0 h), λ h. parts.1 h.1)

unless-nil : (b : Bool) (x : Blocker) → unless b x ≡ [] → b ≡ true
unless-nil true x h = refl
unless-nil false x h = cc

-- An order lacks nothing exactly when every item is complete, there is one, the art and the
-- delivery day are known, and the amount and the condition can be charged.
confirmation_blockers-nil_iff :
    (ficha : Ficha) (amount : Option ℕ) (condition : Option PaymentCondition)
    → (confirmation_blockers ficha amount condition ≡ []) ↔ IsReady ficha amount condition
unfolding confirmation_blockers
confirmation_blockers-nil_iff ficha amount condition =
    let parts = items_blockers-nil_iff ficha.items in
    (
      λ h.
          let (a, h1) = append-eq-nil (items_blockers ficha.items) _ h in
          let (b, h2) = append-eq-nil (unless (has_artwork_origin ficha.artwork) artwork) _ h1 in
          let (c, h3) =
            append-eq-nil
              (unless (is_calendar_day ficha.summary.data_entrega_confirmada) delivery_day) _ h2 in
          let (d, e) = append-eq-nil (unless (is_positive_safe amount) final_amount) _ h3 in
          record {
            some_item = (parts.0 a).0;
            complete = (parts.0 a).1;
            art = unless-nil _ _ b;
            delivery = unless-nil _ _ c;
            priced = unless-nil _ _ d;
            payable = unless-nil _ _ e;
          },
      λ r. rw (parts.1 (r.some_item, r.complete), r.art, r.delivery, r.priced, r.payable),
    )

is_nil→eq {ℓ} : {A : Type ℓ} (xs : List A) → is_nil xs ≡ true → xs ≡ []
is_nil→eq [] h = refl
is_nil→eq (x ∷ xs) h = cc

module _ (operational_day : ℕ → Text) where
  -- An order is generated exactly when it is pending and ready and a named actor asks; then it is
  -- confirmed on the operational day, with nothing missing.
  pub confirm_order-eq-ok_iff :
      (order : Order) (input : ConfirmInput) (next : Order)
      → (confirm_order operational_day order input ≡ ok next) ↔ (
          (is_blank (codes input.actor_id) ≡ false)
          × (order.status ≡ pendente)
          × IsReady order.ficha input.amount_cents input.payment_condition
          × (confirmed operational_day order input ≡ next))
  unfolding confirm_order require_actor
  confirm_order-eq-ok_iff order input next =
      let blockers = confirmation_blockers order.ficha input.amount_cents input.payment_condition in
      let ready =
        confirmation_blockers-nil_iff order.ficha input.amount_cents input.payment_condition in
      (
        λ h.
            (ground arith, ground arith, ready.0 (is_nil→eq blockers (ground arith)), ground arith),
        λ h. ground (arith, ready.1 h.2),
      )

  -- A named actor can reopen an order that was generated. It keeps its ficha, number, amount and
  -- condition; nothing is missing, and it can be generated again with the same amount and
  -- condition.
  pub confirm-reopen :
      (order : Order) (input : ConfirmInput) {next : Order} (actor_id : String) (now later : ℕ)
      → confirm_order operational_day order input ≡ ok next
      → is_blank (codes actor_id) ≡ false
      → (again : Order) × (reopen_order next actor_id now ≡ ok again)
        × (again.ficha ≡ order.ficha)
        × (again.number ≡ order.number)
        × (again.final_amount_cents ≡ input.amount_cents)
        × (again.payment_condition ≡ input.payment_condition)
        × (again.missing_fields ≡ [])
        × ((last : Order) × (confirm_order operational_day again (record input { now = later })
              ≡ ok last))
  unfolding reopen_order require_actor missing_for_confirmation
  confirm-reopen order input actor_id now later h named =
      let (who, _, ready, same) = (confirm_order-eq-ok_iff order input _).0 h in
      let kept : Order = reopened (confirmed operational_day order input) actor_id now in
      let none_left =
        (confirmation_blockers-nil_iff order.ficha input.amount_cents input.payment_condition).1
          ready in
      let again : Order = record kept { missing_fields = missing_for_confirmation kept } in
      let repeat : ConfirmInput = record input { now = later } in
      (
        again,
        rw (← same, named) refl,
        refl,
        refl,
        refl,
        refl,
        none_left,
        (
          confirmed operational_day again repeat,
          (confirm_order-eq-ok_iff again repeat _).1 (who, refl, ready, refl),
        ),
      )

  -- An order that was generated is refused for its status when a named actor generates it again.
  confirm-confirm :
      (order : Order) (input second : ConfirmInput) {next : Order}
      → confirm_order operational_day order input ≡ ok next
      → is_blank (codes second.actor_id) ≡ false
      → confirm_order operational_day next second ≡ err order_status_conflict
  unfolding confirm_order require_actor
  confirm-confirm order input second h named = ground arith
