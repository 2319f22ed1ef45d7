-- ===== src/Inbox/Replays.antt =====
-- Retries of a command and errors of the inbox.
use crm_silmer.Base.{
  Option-cases, Result, ok, err, restored, lookup, lookup-put, ◌≡◌, refl, inl, inr, some, arith,
  eq_iff,
}
use crm_silmer.Inbox.{InboxError, Conversation, Reply, Handled, Inbox}
use crm_silmer.Inbox.Mutations.{
  MutationInput, Runtime, check_mutation, command_key, attempt, replay, mutate_conversation,
}

exclusive-err :
    {A : Type 0} (s : Inbox) (m : Result InboxError A × Inbox) (e : InboxError)
    → (restored s m).0 ≡ err e
    → (restored s m).1 ≡ s
exclusive-err s (ok a, t) e h = cc
exclusive-err s (err x, t) e h = refl

-- An error, that of the audit included, leaves every map as it was.
pub mutate_conversation-err :
    (input : MutationInput) (runtime : Runtime) (s : Inbox) (e : InboxError)
    → (mutate_conversation input runtime s).0 ≡ err e
    → (mutate_conversation input runtime s).1 ≡ s
unfolding mutate_conversation
mutate_conversation-err input runtime s e h = exclusive-err s _ e h

exclusive-ok :
    {A : Type 0} (s t : Inbox) (m : Result InboxError A × Inbox) (a : A)
    → restored s m ≡ (ok a, t)
    → m ≡ (ok a, t)
exclusive-ok s t (ok b, u) a h = h
exclusive-ok s t (err x, u) a h = ground arith

-- What an answered command leaves under its key.
abbrev Answered : MutationInput → Inbox → Reply → Type 0
Answered input t r =
    (h : Handled) × (lookup (command_key input) t.commands ≡ some h)
    × (h.fingerprint ≡ input.fingerprint)
    × (h.result ≡ r)

replay-Answered :
    (input : MutationInput) (s t : Inbox) (r : Reply) (h : Handled)
    → lookup (command_key input) s.commands ≡ some h
    → replay input s h ≡ (ok r, t)
    → Answered input t r
replay-Answered input s t r h found e =
    (h, ground arith, ground (arith, eq_iff h.fingerprint input.fingerprint), ground arith)

attempt-Answered :
    (input : MutationInput) (runtime : Runtime) (s t : Inbox) (r : Reply)
    (m : Result InboxError Conversation)
    → attempt input runtime s m ≡ (ok r, t)
    → Answered input t r
attempt-Answered input runtime s t r (err x) e = ground arith
attempt-Answered input runtime s t r (ok c) e =
    let handled : Handled = record { fingerprint = input.fingerprint; result = r } in
    (
      handled,
      ground (
        arith,
        lookup-put (command_key input) (command_key input) handled s.commands,
        eq_iff (command_key input) (command_key input),
      ),
      refl,
      refl,
    )

mutate-Answered :
    (input : MutationInput) (runtime : Runtime) (s t : Inbox) (r : Reply)
    → mutate_conversation input runtime s ≡ (ok r, t)
    → Answered input t r
unfolding mutate_conversation
mutate-Answered input runtime s t r e =
    elim (Option-cases (lookup (command_key input) s.commands)) [
      | inr (h, found) ↦ replay-Answered input s t r h found (ground arith)
      | inl fresh ↦
          attempt-Answered input runtime s t r (check_mutation s input runtime) (ground arith)
    ]

-- A command that was answered is answered the same when it comes again, whatever the clock, the
-- pending orders and the audit say by then, and the maps stay.
pub mutate_conversation-replay :
    (input : MutationInput) (runtime later : Runtime) (s t : Inbox) (r : Reply)
    → mutate_conversation input runtime s ≡ (ok r, t)
    → mutate_conversation input later t ≡ (ok r, t)
unfolding mutate_conversation
mutate_conversation-replay input runtime later s t r e =
    let (h, found, same, result) = mutate-Answered input runtime s t r e in
    ground (arith, found, same, result, eq_iff h.fingerprint input.fingerprint)
