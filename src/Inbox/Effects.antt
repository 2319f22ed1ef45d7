-- ===== src/Inbox/Effects.antt =====
-- What an operation of the inbox does to the conversations.
use crm_silmer.Base.{
  text_eq, nat_eq, ◌==◌, Bool-cases, Option-cases, Result, ok, err, or_throw, >>=-eq-ok,
  or_throw-eq-ok, find, find_sound, find-keep, lookup, put, values, ℕ, ◌+◌, ◌≤◌, String, ◌≡◌, refl,
  sym, ◌∙◌, subst, ◌⊎◌, inl, inr, ◌&&◌, Option, none, some, List, [], ◌∷◌, arith, eq_iff,
}
use crm_silmer.Inbox.{assistant, human, InboxError, conflict_error, Conversation, Inbox}
use crm_silmer.Inbox.Inbounds.{
  Inbound, last_cycle, scoped, is_ongoing, opened, refreshed, message_key, scope_of,
  receive_inbound, SuggestionInput, record_suggestion,
}
use crm_silmer.Inbox.Mutations.{
  Mutation, transition, archive, unarchive, takeover, transfer, send, MutationInput, Runtime,
  check_mutation, mutated, audit_of, command_key, mutate_conversation,
}

pub data Operation : Type 0 where
  receives : Inbound → (conversation_id message_id : String) → Operation
  mutates : MutationInput → Runtime → Operation
  suggests : SuggestionInput → (id : String) (now : ℕ) → Operation

-- The maps after an operation, whether it answered or threw.
unfoldable pub step : Inbox → Operation → Inbox
step s (receives input conversation_id message_id) =
    (receive_inbound input conversation_id message_id s).1
step s (mutates input runtime) = (mutate_conversation input runtime s).1
step s (suggests input id now) = (record_suggestion input id now s).1

unfoldable pub run : Inbox → List Operation → Inbox
run s [] = s
run s (o ∷ os) = run (step s o) os

-- The conversations are as before, or one is opened where its scope has none that goes on, or one
-- that goes on is changed.
pub data Effect (s t : Inbox) (new : Option String) : Type 0 where
  idle : t.conversations ≡ s.conversations → Effect s t new
  opens :
      (c : Conversation)
      → t.conversations ≡ put c.id c s.conversations
      → find is_ongoing (scoped c.scope s) ≡ none
      → new ≡ some c.id
      → c.terminal_at ≡ none
      → c.automation_state ≡ assistant
      → c.cycle_number ≡ last_cycle (scoped c.scope s) + 1
      → Effect s t new
  refreshes :
      (c c' : Conversation)
      → t.conversations ≡ put c.id c' s.conversations
      → find is_ongoing (scoped c.scope s) ≡ some c
      → c'.id ≡ c.id
      → c'.scope ≡ c.scope
      → c'.terminal_at ≡ c.terminal_at
      → c'.automation_state ≡ c.automation_state
      → c'.automation_epoch ≡ c.automation_epoch
      → c'.version ≡ c.version + 1
      → Effect s t new
  changes :
      (id : String) (c c' : Conversation)
      → t.conversations ≡ put id c' s.conversations
      → lookup id s.conversations ≡ some c
      → c.terminal_at ≡ none
      → c'.id ≡ c.id
      → c'.scope ≡ c.scope
      → (c'.automation_state ≡ c.automation_state) ⊎ (c'.automation_state ≡ human)
      → c.automation_epoch ≤ c'.automation_epoch
      → c'.version ≡ c.version + 1
      → Effect s t new

record Mutated (c c' : Conversation) : Type 0 where
  id : c'.id ≡ c.id
  scope : c'.scope ≡ c.scope
  led : (c'.automation_state ≡ c.automation_state) ⊎ (c'.automation_state ≡ human)
  epoch : c.automation_epoch ≤ c'.automation_epoch
  version : c'.version ≡ c.version + 1

mutated-Mutated :
    (m : Mutation) (c : Conversation) (actor_id : String) (now : ℕ)
    → Mutated c (mutated m c actor_id now)
unfolding mutated
mutated-Mutated (transition state outcome acknowledge) c actor_id now = ground arith
mutated-Mutated archive c actor_id now = ground arith
mutated-Mutated unarchive c actor_id now = ground arith
mutated-Mutated takeover c actor_id now = ground arith
mutated-Mutated (transfer target) c actor_id now = ground arith
mutated-Mutated (send content type) c actor_id now = ground arith

check_mutation-eq-ok :
    (s : Inbox) (input : MutationInput) (runtime : Runtime) {c : Conversation}
    → check_mutation s input runtime ≡ ok c
    → (lookup input.conversation_id s.conversations ≡ some c) × (c.terminal_at ≡ none)
unfolding check_mutation
check_mutation-eq-ok s input runtime {c} h =
    let (d, found, h1) =
      >>=-eq-ok (or_throw (lookup input.conversation_id s.conversations) (conflict_error _)) _ h in
    ground (arith, or_throw-eq-ok (lookup input.conversation_id s.conversations) _ found)

-- The only conversation that a mutation writes is the one it checked, and only if the audit is
-- stored.
mutate_conversation-Effect :
    (s : Inbox) (input : MutationInput) (runtime : Runtime)
    → Effect s (step s (mutates input runtime)) none
unfolding step mutate_conversation
mutate_conversation-Effect s input runtime =
    elim (Option-cases (lookup (command_key input) s.commands)) [
      | inr (h, found) ↦ idle (ground arith)
      | inl fresh ↦ tried (check_mutation s input runtime) refl fresh
    ]
  where
    tried :
        (r : Result InboxError Conversation)
        → check_mutation s input runtime ≡ r
        → lookup (command_key input) s.commands ≡ none
        → Effect s (step s (mutates input runtime)) none
    tried (err e) checked fresh = idle (ground arith)
    tried (ok c) checked fresh =
        let (found, ongoing) = check_mutation-eq-ok s input runtime checked in
        let c' = mutated input.mutation c input.actor.id runtime.now in
        let m = mutated-Mutated input.mutation c input.actor.id runtime.now in
        elim (Bool-cases (runtime.append_audit (audit_of input c' runtime.now))) [
          | inr refused ↦ idle (ground (arith, fresh, checked))
          | inl stored ↦
              changes input.conversation_id c c' (ground (arith, fresh, checked)) found ongoing m.id
                m.scope m.led m.epoch m.version
        ]

pub scoped_found :
    (s : Inbox) (scope : String) (c : Conversation)
    → find is_ongoing (scoped scope s) ≡ some c
    → c.scope ≡ scope
scoped_found s scope c h =
    let both =
      find-keep is_ongoing (λ (c : Conversation). c.scope == scope) (values s.conversations) in
    let here =
      find_sound (λ (c : Conversation). c.scope == scope && is_ongoing c) (values s.conversations)
        (sym both ∙ h) in
    ground (arith, here, eq_iff c.scope scope)

rescoped :
    (s : Inbox) (scope : String) (c : Conversation)
    → find is_ongoing (scoped scope s) ≡ some c
    → find is_ongoing (scoped c.scope s) ≡ some c
rescoped s scope c h =
    subst (λ x. find is_ongoing (scoped x s) ≡ some c) (sym (scoped_found s scope c h)) h

receive_inbound-Effect :
    (s : Inbox) (input : Inbound) (id message_id : String)
    → Effect s (step s (receives input id message_id)) (some id)
unfolding step receive_inbound
receive_inbound-Effect s input id message_id =
    elim (Option-cases (lookup (message_key input) s.messages)) [
      | inr (r, found) ↦ idle (ground arith)
      | inl fresh ↦ placed (find is_ongoing others) refl fresh
    ]
  where
    others : List Conversation
    others = scoped (scope_of input) s

    placed :
        (o : Option Conversation)
        → find is_ongoing others ≡ o
        → lookup (message_key input) s.messages ≡ none
        → Effect s (step s (receives input id message_id)) (some id)
    placed none found fresh =
        opens (opened input (scope_of input) id others) (ground (arith, found, fresh)) found refl
          refl refl refl
    placed (some c) found fresh = elim (Bool-cases (c.identity_id == input.identity_id)) [
      | inr other ↦ idle (ground (arith, found, fresh))
      | inl same ↦
          refreshes c (refreshed input c) (ground (arith, found, fresh))
            (rescoped s (scope_of input) c found) refl refl refl refl refl refl
    ]

record_suggestion-Effect :
    (s : Inbox) (input : SuggestionInput) (id : String) (now : ℕ)
    → (step s (suggests input id now)).conversations ≡ s.conversations
unfolding step record_suggestion
record_suggestion-Effect s input id now = ground arith

-- The id that an operation may open a conversation with.
abbrev pub new_id : Operation → Option String
new_id (receives input conversation_id message_id) = some conversation_id
new_id _ = none

-- An operation leaves the conversations, opens one where its scope has none that goes on, or
-- changes one that goes on, by one version.
pub step-Effect : (s : Inbox) (o : Operation) → Effect s (step s o) (new_id o)
step-Effect s (receives input conversation_id message_id) =
    receive_inbound-Effect s input conversation_id message_id
step-Effect s (mutates input runtime) = mutate_conversation-Effect s input runtime
step-Effect s (suggests input id now) = idle (record_suggestion-Effect s input id now)
