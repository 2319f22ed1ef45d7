-- ===== src/Orders/Tests.antt =====
-- Orders that are generated and reopened, and the theorems on them.
use crm_silmer.Orders.{grade, cor, artwork}
use crm_silmer.Base.{
  ok, err, is_space, digits_within, ℕ, ◌≡◌, refl, ◌↔◌, true, false, none, some, [], ◌∷◌,
}
use crm_silmer.Orders.{
  Text, pendente, pix, atendimento, user, FichaItem, Ficha, delivery_day, final_amount,
  payment_condition, item_field, delivered_on, invalid_amount, invalid_date, Order, is_blank,
  is_positive_safe, codes,
}
use crm_silmer.Orders.Calendar.{
  is_digit, read_digits, days_in_month, is_date, is_calendar_text, text_leb, is_milestone_day,
}
use crm_silmer.Orders.Confirmation.{
  lacks, item_gaps, gaps_from, items_blockers, confirmation_blockers, ConfirmInput, require_actor,
  confirmed, confirm_order, record_milestones,
}
use crm_silmer.Orders.Ready.{IsReady, confirm_order-eq-ok_iff}
use crm_silmer.Orders.Money.{groups, read, parse_brl_amount, put_groups, format_brl_amount}
use crm_silmer.Orders.Amounts.{parse_brl_amount-format_brl_amount}

abbrev pub day : ℕ → Text
day now = codes "2026-03-05"

abbrev shirt : FichaItem
shirt = record {
  tipo = some (codes "Camiseta");
  cor = some (codes "Azul");
  tipo_servico = some (codes "Silk");
  malhas = codes " " ∷ codes "Algodao" ∷ [];
  grade = record { tamanho = codes "M"; quantidade = 10 } ∷ [];
  gola = some (codes "Careca");
  extras = [];
}

abbrev pub ready_ficha : Ficha
ready_ficha = record {
  summary = record {
    data_entrega_confirmada = some (codes "2024-02-29");
    nome = none;
    cliente = codes "Ana";
    aplicacao = none;
  };
  items = shirt ∷ [];
  observations = [];
  artwork = some (record {
    feito_pelo_cliente = false;
    feito_pela_silmer = false;
    sem_estampa = true;
    files = [];
  });
  service_data = [];
  store = none;
}

abbrev bare_ficha : Ficha
bare_ficha = record ready_ficha {
  items = shirt ∷ record shirt { cor = some (codes "  "); grade = [] } ∷ [];
  artwork = none;
  summary = record (ready_ficha.summary) { data_entrega_confirmada = some (codes "2023-02-29") };
}

abbrev pub order : Order
order = record {
  id = "o1";
  number = codes "01-CRM";
  number_sequence = 1;
  conversation_id = some "v1";
  contact_id = some "c1";
  manual_owner_id = none;
  manual_create_key = none;
  status = pendente;
  fab_code = "FAB";
  origin = atendimento;
  is_test = false;
  store_number = none;
  lead_time_business_days = none;
  gateway_payment = none;
  ficha_first_printed_at = none;
  ficha_first_printed_by = none;
  ficha = ready_ficha;
  total_pieces = 10;
  missing_fields = [];
  final_amount_cents = none;
  payment_condition = none;
  order_date = none;
  confirmed_at = none;
  confirmed_by = none;
  reopened_at = none;
  reopened_by = none;
  first_contact_at = none;
  paid_on = none;
  delivered_on = none;
  created_by_kind = user;
  created_by = some "ana";
  version = 1;
  created_at = 5;
  updated_at = 5;
}

abbrev input : ConfirmInput
input = record {
  amount_cents = some 12990;
  payment_condition = some pix;
  actor_id = "ana";
  now = 20;
}

confirmation_blockers_bare :
    confirmation_blockers bare_ficha (some 0) none
    ≡ item_field 1 cor
      ∷ item_field 1 grade
      ∷ artwork
      ∷ delivery_day
      ∷ final_amount
      ∷ payment_condition
      ∷ []
unfolding confirmation_blockers items_blockers gaps_from item_gaps lacks is_blank is_space
    is_calendar_text is_date days_in_month read_digits is_digit is_positive_safe
confirmation_blockers_bare = refl

record_milestones_future :
    record_milestones day order (some (codes "2026-03-05")) (some (codes "2026-03-06")) 30
    ≡ err (invalid_date (delivered_on ∷ []))
unfolding record_milestones is_milestone_day is_calendar_text is_date days_in_month read_digits
    is_digit text_leb
record_milestones_future = refl

ready : IsReady ready_ficha (some 12990) (some pix)
unfolding is_blank is_space is_calendar_text is_date days_in_month read_digits is_digit
    is_positive_safe
ready = record {
  some_item = refl;
  complete = (
    record {
      kind = refl;
      colour = refl;
      technique = refl;
      fabric = refl;
      sizes = refl;
      collar = refl;
    },
    tt,
  );
  art = refl;
  delivery = refl;
  priced = refl;
  payable = refl;
}

order-confirm : confirm_order day order input ≡ ok (confirmed day order input)
unfolding confirm_order require_actor confirmation_blockers items_blockers gaps_from item_gaps lacks
    is_blank is_space is_calendar_text is_date days_in_month read_digits is_digit is_positive_safe
order-confirm = refl

ana_named : is_blank (codes "ana") ≡ false
unfolding is_blank is_space
ana_named = refl

confirm_order-eq-ok_iff_example :
    (confirm_order day order input ≡ ok (confirmed day order input)) ↔ (
      (is_blank (codes "ana") ≡ false)
      × (pendente ≡ pendente)
      × IsReady ready_ficha (some 12990) (some pix)
      × (confirmed day order input ≡ confirmed day order input))
confirm_order-eq-ok_iff_example =
    confirm_order-eq-ok_iff day order input (confirmed day order input)

parse_brl_amount-format_brl_amount_example :
    (written_text : Text) × (format_brl_amount 482000 ≡ ok written_text)
    × (parse_brl_amount written_text ≡ ok 482000)
parse_brl_amount-format_brl_amount_example = parse_brl_amount-format_brl_amount 482000 refl

-- A dot before three digits, a comma before the cents; and one digit of cents stands for tens.
format_thousands : format_brl_amount 482000 ≡ ok (codes "4.820,00")
unfolding format_brl_amount put_groups digits_within
format_thousands = refl

parse_tens : parse_brl_amount (codes " 12,5 ") ≡ ok 1250
unfolding parse_brl_amount read groups is_digit is_space
parse_tens = refl

parse_dots : parse_brl_amount (codes "4820.00") ≡ err invalid_amount
unfolding parse_brl_amount read groups is_digit is_space
parse_dots = refl
