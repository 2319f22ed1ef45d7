-- ===== src/Inbox/Ended.antt =====
-- What later operations keep of a conversation.
use crm_silmer.Base.{
  text_eq, nat_eq, ◌==◌, Bool-cases, find_sound, Table, lookup, put, lookup-put, ◌≤◌, String, ◌≡◌,
  refl, sym, ◌∙◌, subst, inl, inr, false, Option, none, some, List, [], ◌∷◌, arith, eq_iff,
}
use crm_silmer.Inbox.{human, Conversation, Inbox}
use crm_silmer.Inbox.Inbounds.{scoped, is_ongoing}
use crm_silmer.Inbox.Effects.{
  Operation, step, run, Effect, idle, opens, refreshes, changes, new_id, step-Effect,
}
use crm_silmer.Inbox.Active.{IsValid, found_under_id, Effect-IsValid}

-- Each id that may open a conversation is new when its turn comes.
abbrev IsUnused : Inbox → Option String → Type 0
IsUnused s none = Unit
IsUnused s (some id) = lookup id s.conversations ≡ none

abbrev pub AreFresh : Inbox → List Operation → Type 0
AreFresh s [] = Unit
AreFresh s (o ∷ os) = IsUnused s (new_id o) × AreFresh (step s o) os

-- How a conversation may have moved on.
pub record Follows (c c' : Conversation) : Type 0 where
  pub final : is_ongoing c ≡ false → c' ≡ c
  pub led : c.automation_state ≡ human → c'.automation_state ≡ human
  pub epoch : c.automation_epoch ≤ c'.automation_epoch
  pub version : c.version ≤ c'.version
  pub scope : c'.scope ≡ c.scope

Follows-refl : (c : Conversation) → Follows c c
Follows-refl c = record {
  final = λ h. refl;
  led = λ h. h;
  epoch = omega arith;
  version = omega arith;
  scope = refl;
}

Follows-trans : {a b c : Conversation} → Follows a b → Follows b c → Follows a c
Follows-trans {a} {b} {c} f g = record {
  final = λ h. g.final (rw (f.final h) h) ∙ f.final h;
  led = λ h. g.led (f.led h);
  epoch = omega (arith, f.epoch, g.epoch);
  version = omega (arith, f.version, g.version);
  scope = g.scope ∙ f.scope;
}

abbrev pub Kept : Table Conversation → String → Conversation → Type 0
Kept t id c = (c' : Conversation) × (lookup id t ≡ some c') × Follows c c'

put-Kept :
    (t : Table Conversation) (k id : String) (c c' : Conversation) (g : Conversation)
    → lookup id t ≡ some g
    → lookup k t ≡ some c
    → Follows c c'
    → Kept (put k c' t) id g
put-Kept t k id c c' g found here f = elim (Bool-cases (k == id)) [
  | inl same ↦
      let e : g ≡ c = ground (arith, eq_iff k id) in
      (c', ground (arith, lookup-put k id c' t), subst (λ x. Follows x c') (sym e) f)
  | inr other ↦ (g, ground (arith, lookup-put k id c' t), Follows-refl g)
]

Effect-Kept :
    {s t : Inbox} {new : Option String} (id : String) (c : Conversation)
    → Effect s t new
    → IsUnused s new
    → IsValid s.conversations
    → lookup id s.conversations ≡ some c
    → Kept t.conversations id c
Effect-Kept id c (idle same) fresh v found = (c, rw same found, Follows-refl c)
Effect-Kept {s} id c (opens d same free new ongoing led cycle) fresh v found =
    let apart : lookup d.id s.conversations ≡ none = subst (IsUnused s) new fresh in
    (
      c,
      rw same (ground (arith, lookup-put d.id id d s.conversations, eq_iff d.id id)),
      Follows-refl c,
    )
Effect-Kept {s} id c (refreshes d d' same here own scope kept led epoch version) fresh v found =
    let place = found_under_id s d.scope d v here in
    let goes_on = find_sound is_ongoing (scoped d.scope s) here in
    rw same (
      put-Kept s.conversations d.id id d d' c found place (record {
        final = λ h. ground arith;
        led = λ h. led ∙ h;
        epoch = omega arith;
        version = omega arith;
        scope = scope;
      }))
Effect-Kept {s} id c (changes k d d' same here ongoing own scope led epoch version) fresh v found =
    rw same (
      put-Kept s.conversations k id d d' c found here (record {
        final = λ h. ground arith;
        led = λ h. ground arith;
        epoch = epoch;
        version = omega arith;
        scope = scope;
      }))

-- From valid conversations, whatever operations run with new ids, a conversation keeps its scope,
-- an ended one stays exactly as it was, one that people lead is not given back to the bot, and
-- versions and epochs only grow.
pub run-Kept :
    (s : Inbox) (os : List Operation) (id : String) (c : Conversation)
    → AreFresh s os
    → IsValid s.conversations
    → lookup id s.conversations ≡ some c
    → Kept (run s os).conversations id c
unfolding run
run-Kept s [] id c fresh v found = (c, found, Follows-refl c)
run-Kept s (o ∷ os) id c fresh v found =
    let (d, there, f) = Effect-Kept id c (step-Effect s o) fresh.0 v found in
    let (e, last, g) =
      run-Kept (step s o) os id d fresh.1 (Effect-IsValid (step-Effect s o) v) there in
    (e, last, Follows-trans f g)
