-- ===== src/Deals/Validation.antt =====
-- The inputs of the commands of `deal-command-service.js`, their validation and normalization.
use crm_silmer.Base.{
  leb, ◌==◌, nat_eq, text_eq, if◌then◌else◌, is_some, is_text, Result, err, ◌>>◌, guard, trim, ℕ,
  String, Bool, true, false, not, ◌&&◌, ◌||◌, Option, none, some,
}
use crm_silmer.Deals.{Direction, advance, retreat, DealError, validation_error, forbidden_error}

pub data ActorKind : Type 0 where
  human automation_executor other : ActorKind

pub record Actor : Type 0 where
  pub id : String
  pub kind : ActorKind
  pub function_name : Option String

pub record Input : Type 0 where
  pub actor : Actor
  pub deal_id : String
  pub correlation_id : String
  pub idempotency_key : String
  pub reason : String
  pub expected_version : ℕ

pub record TransitionInput : Type 0 where
  pub common : Input
  pub direction : Direction
  pub automation_epoch : Option ℕ
  pub conversation_id : Option String

unfoldable pub require_non_empty : String → String → Result DealError (Unit {0})
unfolding trim
require_non_empty value field = guard (not (trim value == "")) (validation_error field)

-- `Number.isSafeInteger`
abbrev pub is_safe : ℕ → Bool
is_safe n = leb n 9007199254740991

abbrev pub is_seller : Actor → Bool
is_seller a = elim a.kind [ human ↦ is_text a.function_name "Vendedor" | _ ↦ false ]

abbrev pub is_automation : ActorKind → Bool
is_automation automation_executor = true
is_automation _ = false

unfoldable pub validate_common : Input → Result DealError (Unit {0})
unfolding require_non_empty
validate_common input = do
  guard
      (is_seller input.actor
        || is_automation input.actor.kind && input.actor.id == "AUTOMATION_EXECUTOR")
      forbidden_error
  require_non_empty input.deal_id "dealId"
  require_non_empty input.correlation_id "correlationId"
  require_non_empty input.idempotency_key "idempotencyKey"
  require_non_empty input.reason "reason"
  require_non_empty input.actor.id "actor.id"
  guard (leb 1 input.expected_version && is_safe input.expected_version)
      (validation_error "expectedVersion")

abbrev pub is_advance : Direction → Bool
is_advance advance = true
is_advance retreat = false

abbrev require_epoch : Option ℕ → Result DealError (Unit {0})
require_epoch none = err (validation_error "automationEpoch")
require_epoch (some n) = guard (is_safe n) (validation_error "automationEpoch")

abbrev require_some : Option String → Result DealError (Unit {0})
require_some none = err (validation_error "conversationId")
require_some (some value) = require_non_empty value "conversationId"

unfoldable pub validate_transition : TransitionInput → Result DealError (Unit {0})
unfolding validate_common
validate_transition input = do
  validate_common input.common
  if is_automation input.common.actor.kind
      then (do
        guard (is_advance input.direction) forbidden_error
        require_epoch input.automation_epoch
        require_some input.conversation_id)
      else guard (not (is_some input.automation_epoch || is_some input.conversation_id))
          (validation_error "automationEpoch is only accepted for automation")

abbrev is_human : ActorKind → Bool
is_human human = true
is_human _ = false

unfoldable pub validate_loss : Input → Result DealError (Unit {0})
unfolding validate_common
validate_loss input = do validate_common input; guard (is_human input.actor.kind) forbidden_error

unfoldable pub normalize_common : Input → Input
unfolding trim
normalize_common input = record input {
  correlation_id = trim input.correlation_id;
  deal_id = trim input.deal_id;
  idempotency_key = trim input.idempotency_key;
  reason = trim input.reason;
}

abbrev trimmed : Option String → Option String
trimmed none = none
trimmed (some value) = some (trim value)

unfoldable pub normalize_transition : TransitionInput → TransitionInput
unfolding normalize_common trim
normalize_transition input = record input {
  common = normalize_common input.common;
  conversation_id = trimmed input.conversation_id;
}
