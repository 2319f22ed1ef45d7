-- ===== src/Contacts/Runs.antt =====
-- Any sequence of the repository's operations.
use crm_silmer.Base.{
  text_eq, nat_eq, ◌==◌, Bool-cases, Result, ok, err, restored, lookup, ℕ, String, ◌≡◌, refl, inl,
  inr, Bool, Option, none, some, List, [], ◌∷◌,
}
use crm_silmer.Contacts.{
  ContactError, Answer, Handled, Store, Inbound, identity_scope, resolved, resolve_or_create,
  resolve_inbound_identity,
}
use crm_silmer.Contacts.Merging.{
  MergeCommand, UnmergeCommand, AuditEvent, audit_event, command_replay, Merging, check_merge,
  moved_to, attempt_merge, merge_or_replay, merge_identity, Unmerging, check_unmerge,
  attempt_unmerge, unmerge_or_replay, unmerge_identity,
}
use crm_silmer.Contacts.Checks.{check_merge-eq-ok, check_unmerge-eq-ok}
use crm_silmer.Contacts.Anchored.{IsAnchored, with_identity-IsAnchored}
use crm_silmer.Contacts.Moved.{merged-IsAnchored, unmerged-IsAnchored}

pub data Operation : Type 0 where
  resolves : Inbound → (contact_id identity_id : String) (now : ℕ) → Operation
  merges : MergeCommand → (AuditEvent → Bool) → Operation
  unmerges : UnmergeCommand → (AuditEvent → Bool) → Operation

-- The maps after an operation, whether it answered or threw.
unfoldable pub step : Store → Operation → Store
step s (resolves input contact_id identity_id now) =
    (resolve_inbound_identity input contact_id identity_id now s).1
step s (merges c append_audit) = (merge_identity c append_audit s).1
step s (unmerges c append_audit) = (unmerge_identity c append_audit s).1

unfoldable pub run : Store → List Operation → Store
run s [] = s
run s (o ∷ os) = run (step s o) os

-- The ids that an operation may use for new records are not in use.
abbrev pub IsFresh : Store → Operation → Type 0
IsFresh s (resolves input contact_id identity_id now) =
    (lookup contact_id s.contacts ≡ none) × (lookup identity_id s.identities ≡ none)
IsFresh s (merges c append_audit) = lookup c.link_id s.links ≡ none
IsFresh s (unmerges c append_audit) = Unit

abbrev pub AreFresh : Store → List Operation → Type 0
AreFresh s [] = Unit
AreFresh s (o ∷ os) = IsFresh s o × AreFresh (step s o) os

resolve-IsAnchored :
    (s : Store) (input : Inbound) (contact_id id : String) (now : ℕ)
    → IsAnchored s
    → lookup contact_id s.contacts ≡ none
    → lookup id s.identities ≡ none
    → IsAnchored (step s (resolves input contact_id id now))
unfolding step resolve_inbound_identity resolve_or_create
resolve-IsAnchored s input contact_id id now a free free_identity =
    found (lookup (identity_scope input) s.identities_by_scope)
  where
    resolved-keeps : (r : Result ContactError Answer) → IsAnchored (restored s (r, s)).1
    resolved-keeps (ok r) = a
    resolved-keeps (err e) = a

    found :
        (o : Option String)
        → IsAnchored (restored s (resolve_or_create s input contact_id id now o)).1
    found (some known) = resolved-keeps (resolved s known)
    found none =
        with_identity-IsAnchored s input contact_id id (identity_scope input) now a free
          free_identity

replayed-keeps :
    (s : Store) (h : Handled) (fingerprint : String)
    → IsAnchored s
    → IsAnchored (restored s (command_replay s h fingerprint)).1
replayed-keeps s h fingerprint a = elim (Bool-cases (h.fingerprint == fingerprint)) [
  | inl same ↦ rw same a
  | inr differs ↦ rw differs a
]

merge-IsAnchored :
    (s : Store) (c : MergeCommand) (append_audit : AuditEvent → Bool)
    → IsAnchored s
    → lookup c.link_id s.links ≡ none
    → IsAnchored (step s (merges c append_audit))
unfolding step merge_identity
merge-IsAnchored s c append_audit a fresh = found (lookup c.idempotency_key s.merge_commands)
  where
    tried :
        (r : Result ContactError Merging)
        → check_merge s c ≡ r
        → IsAnchored (restored s (attempt_merge s c append_audit r)).1
    tried (err e) checked = a
    tried (ok m) checked =
        let i = moved_to m.target.id m.identity c.now in
        elim (Bool-cases (append_audit (audit_event "contact.identity.merged" c.stamp i))) [
          | inl stored ↦ rw stored (merged-IsAnchored s c m (check_merge-eq-ok s c checked) a fresh)
          | inr refused ↦ rw refused a
        ]

    found : (o : Option Handled) → IsAnchored (restored s (merge_or_replay s c append_audit o)).1
    found (some h) = replayed-keeps s h c.fingerprint a
    found none = tried (check_merge s c) refl

unmerge-IsAnchored :
    (s : Store) (c : UnmergeCommand) (append_audit : AuditEvent → Bool)
    → IsAnchored s
    → IsAnchored (step s (unmerges c append_audit))
unfolding step unmerge_identity
unmerge-IsAnchored s c append_audit a = found (lookup c.idempotency_key s.unmerge_commands)
  where
    tried :
        (r : Result ContactError Unmerging)
        → check_unmerge s c ≡ r
        → IsAnchored (restored s (attempt_unmerge s c append_audit r)).1
    tried (err e) checked = a
    tried (ok u) checked =
        let i = moved_to u.source.id u.identity c.now in
        elim (Bool-cases (append_audit (audit_event "contact.identity.unmerged" c.stamp i))) [
          | inl stored ↦ rw stored (unmerged-IsAnchored s c u (check_unmerge-eq-ok s c checked) a)
          | inr refused ↦ rw refused a
        ]

    found : (o : Option Handled) → IsAnchored (restored s (unmerge_or_replay s c append_audit o)).1
    found (some h) = replayed-keeps s h c.fingerprint a
    found none = tried (check_unmerge s c) refl

-- From an anchored store, any operations with new ids, answered or refused, lead to one where every
-- scope has an identity and every identity a contact, an active link holds its identity at its
-- target, and no identity has two active links.
pub run-IsAnchored :
    (s : Store) (os : List Operation) → AreFresh s os → IsAnchored s → IsAnchored (run s os)
unfolding run
run-IsAnchored s [] fresh a = a
run-IsAnchored s (resolves input contact_id id now ∷ os) fresh a =
    run-IsAnchored (step s (resolves input contact_id id now)) os fresh.1
      (resolve-IsAnchored s input contact_id id now a fresh.0.0 fresh.0.1)
run-IsAnchored s (merges c append_audit ∷ os) fresh a =
    run-IsAnchored (step s (merges c append_audit)) os fresh.1
      (merge-IsAnchored s c append_audit a fresh.0)
run-IsAnchored s (unmerges c append_audit ∷ os) fresh a =
    run-IsAnchored (step s (unmerges c append_audit)) os fresh.1
      (unmerge-IsAnchored s c append_audit a)
