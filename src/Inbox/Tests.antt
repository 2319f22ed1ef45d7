-- ===== src/Inbox/Tests.antt =====
-- Runs of the inbox, and its theorems on them.
use crm_silmer.Base.{
  err, lookup, put, values, ℕ, String, ◌≡◌, refl, true, false, Option, none, some, List, [], ◌∷◌,
  map,
}
use crm_silmer.Inbox.{
  em_atendimento, encerrada, is_terminal, human, conflict_error, forbidden_error, Conversation,
  Inbox, exclusive,
}
use crm_silmer.Inbox.Inbounds.{
  Inbound, last_cycle, latest, opened, anchor, scope_of, receive_inbound, record_suggestion,
}
use crm_silmer.Inbox.Mutations.{
  Actor, Mutation, transition, takeover, send, kind_name, MutationInput, Runtime, check_closing,
  check_mutation, mutated, answer, mutate_conversation,
}
use crm_silmer.Inbox.Effects.{Operation, receives, mutates, step, run, Effect, step-Effect}
use crm_silmer.Inbox.Active.{IsValid, run-IsValid}
use crm_silmer.Inbox.Ended.{Kept, run-Kept}

abbrev empty_inbox : Inbox
empty_inbox = record { commands = []; conversations = []; messages = []; suggestions = [] }

abbrev inbound_from : String → String → Inbound
inbound_from identity id = record {
  provider = "wa";
  provider_account_id = "a";
  external_message_id = id;
  external_conversation_id = "x";
  contact_id = "c1";
  identity_id = identity;
  occurred_at = 5;
  content = "oi";
  type = "text";
}

abbrev person : Actor
person = record { id = "ana"; capabilities = [] }

abbrev command : Mutation → String → ℕ → MutationInput
command mutation key version = record {
  mutation = mutation;
  idempotency_key = key;
  fingerprint = key;
  conversation_id = "v1";
  expected_version = version;
  actor = person;
  correlation_id = "k";
  reason = "r";
}

abbrev at : ℕ → Runtime
at now = record { message_id = "m9"; now = now; pending_orders = 0; append_audit = λ _. true }

abbrev failing : Runtime
failing = record (at 9) { append_audit = λ _. false }

-- A conversation, a refused identity, a takeover, a reply, the end, a refused change, a new cycle.
abbrev operations : List Operation
operations =
    receives (inbound_from "i1" "m1") "v1" "n1"
    ∷ receives (inbound_from "i2" "m2") "v2" "n2"
    ∷ mutates (command takeover "t" 1) (at 6)
    ∷ mutates (command (send "ola" "text") "s" 2) (at 7)
    ∷ mutates (command (transition encerrada none true) "e" 3) (at 8)
    ∷ mutates (command takeover "u" 4) (at 9)
    ∷ receives (inbound_from "i1" "m3") "v3" "n3"
    ∷ []

abbrev open_inbox : Inbox
open_inbox = run empty_inbox (receives (inbound_from "i1" "m1") "v1" "n1" ∷ [])

abbrev closing_operations : List Operation
closing_operations =
    mutates (command takeover "t" 1) (at 6)
    ∷ mutates (command (transition encerrada none true) "e" 2) (at 8)
    ∷ mutates (command takeover "u" 3) (at 9)
    ∷ []

abbrev opened_conversation : Conversation
opened_conversation = opened (inbound_from "i1" "m1") (scope_of (inbound_from "i1" "m1")) "v1" []

run-cycles :
    map {B = String × ℕ × Option String × ℕ × ℕ}
      (λ (c : Conversation).
        (c.id, c.cycle_number, c.previous_conversation_id, c.version, c.automation_epoch))
      (values (run empty_inbox operations).conversations)
    ≡ ("v1", 1, none, 4, 2) ∷ ("v3", 2, some "v1", 1, 0) ∷ []
unfolding run step receive_inbound mutate_conversation exclusive anchor last_cycle latest lookup put
    values check_mutation check_closing mutated is_terminal answer kind_name
run-cycles = refl

close_unassigned :
    (mutate_conversation (command (transition encerrada none true) "e" 1) (at 8) open_inbox).0
    ≡ err (forbidden_error "Take over the conversation before closing it")
unfolding run step receive_inbound mutate_conversation exclusive anchor last_cycle latest lookup put
    values check_mutation check_closing kind_name
close_unassigned = refl

suggest_missing :
    (record_suggestion
      (record {
        source_message_id = "m1";
        proposed_stage = "p";
        conversation_id = "v9";
        question = "q";
        actor_id = "ana";
      })
      "g1"
      3
      open_inbox).0
    ≡ err (conflict_error "Conversation was not found")
unfolding run step receive_inbound record_suggestion exclusive anchor last_cycle latest lookup put
    values
suggest_missing = refl

empty_inbox-IsValid : IsValid empty_inbox.conversations
unfolding lookup
empty_inbox-IsValid = record {
  unique = tt;
  keyed = λ k c e. cc;
  one = λ j k c c' e e' o o' same. cc;
}

run-IsValid_example : IsValid (run empty_inbox operations).conversations
run-IsValid_example = run-IsValid empty_inbox operations empty_inbox-IsValid

step-Effect_example :
    Effect open_inbox (step open_inbox (mutates (command takeover "t" 1) (at 6))) none
step-Effect_example = step-Effect open_inbox (mutates (command takeover "t" 1) (at 6))

open_inbox-IsValid : IsValid open_inbox.conversations
open_inbox-IsValid =
    run-IsValid empty_inbox (receives (inbound_from "i1" "m1") "v1" "n1" ∷ []) empty_inbox-IsValid

open_inbox-lookup : lookup "v1" open_inbox.conversations ≡ some opened_conversation
unfolding run step receive_inbound exclusive anchor last_cycle latest lookup put values
open_inbox-lookup = refl

run-Kept_example : Kept (run open_inbox closing_operations).conversations "v1" opened_conversation
run-Kept_example =
    run-Kept open_inbox closing_operations "v1" opened_conversation (tt, (tt, (tt, tt)))
      open_inbox-IsValid open_inbox-lookup

abbrev taken_over : Conversation
taken_over = record opened_conversation {
  automation_state = human;
  automation_epoch = 1;
  state = em_atendimento;
  assigned_user_id = some "ana";
  updated_at = 6;
  version = 2;
}
