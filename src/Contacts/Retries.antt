-- ===== src/Contacts/Retries.antt =====
-- Merges that come again with their key.
use crm_silmer.Base.{
  text_eq, nat_eq, ◌==◌, if◌then◌else◌, Bool-cases, Result, ok, err, map_ok, map_ok->>=, restored,
  lookup, lookup-put, ℕ, String, ◌≡◌, refl, sym, subst, inl, inr, Bool, Option, none, some, arith,
  eq_iff,
}
use crm_silmer.Contacts.{ContactError, conflict_error, Answer, Handled, Store, Outcome}
use crm_silmer.Contacts.Merging.{
  MergeCommand, AuditEvent, audit_event, Merging, check_merge, touched, moved_to, new_link,
  attempt_merge, merge_or_replay, merge_identity,
}
use crm_silmer.Contacts.Inputs.{required_string, normalize_human_command}
use crm_silmer.Contacts.Service.{MergeInput, with_checked, merge_command, merge}

-- What a merge that answers has kept under its key.
merge_identity-keeps :
    (s : Store) (c : MergeCommand) (append_audit : AuditEvent → Bool) (r : Answer)
    → (merge_identity c append_audit s).0 ≡ ok r
    → lookup c.idempotency_key (merge_identity c append_audit s).1.merge_commands
      ≡ some (record { fingerprint = c.fingerprint; result = r })
unfolding merge_identity
merge_identity-keeps s c append_audit r = found (lookup c.idempotency_key s.merge_commands) refl
  where
    tried :
        (x : Result ContactError Merging)
        → (restored s (attempt_merge s c append_audit x)).0 ≡ ok r
        → lookup c.idempotency_key (restored s (attempt_merge s c append_audit x)).1.merge_commands
          ≡ some (record { fingerprint = c.fingerprint; result = r })
    tried (err e) = λ h. cc
    tried (ok m) =
        let i = moved_to m.target.id m.identity c.now in
        elim (Bool-cases (append_audit (audit_event "contact.identity.merged" c.stamp i))) [
          | inl stored ↦ rw stored λ h. ground (
            arith,
            lookup-put c.idempotency_key c.idempotency_key
                (record {
                  fingerprint = c.fingerprint;
                  result = record {
                    contact = touched m.target c.now;
                    identity = i;
                    link = some (new_link c m);
                  };
                })
                s.merge_commands,
            eq_iff c.idempotency_key c.idempotency_key,
          )
          | inr refused ↦ rw refused λ h. cc
        ]

    found :
        (o : Option Handled)
        → lookup c.idempotency_key s.merge_commands ≡ o
        → (restored s (merge_or_replay s c append_audit o)).0 ≡ ok r
        → lookup c.idempotency_key
            (restored s (merge_or_replay s c append_audit o)).1.merge_commands
          ≡ some (record { fingerprint = c.fingerprint; result = r })
    found none e = tried (check_merge s c)
    found (some h) e = elim (Bool-cases (h.fingerprint == c.fingerprint)) [
      | inl same ↦ rw same λ answered. ground (arith, e, eq_iff h.fingerprint c.fingerprint)
      | inr differs ↦ rw differs λ answered. cc
    ]

-- After a merge has answered, a merge with its key answers the same when it has its fingerprint,
-- and is a conflict otherwise; either way the maps stay as they are.
pub merge_identity-again :
    (s : Store) (c c' : MergeCommand) (append_audit : AuditEvent → Bool) (r : Answer)
    → (merge_identity c append_audit s).0 ≡ ok r
    → c'.idempotency_key ≡ c.idempotency_key
    → let t = (merge_identity c append_audit s).1 in
      merge_identity c' append_audit t
      ≡ (if c.fingerprint == c'.fingerprint then (ok r, t) else (err conflict_error, t))
unfolding merge_identity
merge_identity-again s c c' append_audit r h same =
    let t = (merge_identity c append_audit s).1 in
    let kept = merge_identity-keeps s c append_audit r h in
    rw (same, kept)
      (elim (Bool-cases (c.fingerprint == c'.fingerprint)) [
        | inl e ↦ rw e refl
        | inr e ↦ rw e refl
      ])

-- The same input at another time.
abbrev later : String → ℕ → MergeCommand → MergeCommand
later link_id now c = record c { stamp = record c.stamp { now = now }; link_id = link_id }

merge_command-later :
    (sha256 : String → String) (input : MergeInput) (link_id link_id' : String) (now now' : ℕ)
    → merge_command sha256 input link_id' (some now')
      ≡ map_ok (later link_id' now') (merge_command sha256 input link_id (some now))
unfolding merge_command
merge_command-later sha256 input link_id link_id' now now' =
    map_ok->>= _ (normalize_human_command input.common) _ _ λ n.
      map_ok->>= _ (required_string input.identity_id 128) _ _
        λ i. map_ok->>= _ (required_string input.target_contact_id 128) _ _ λ t. refl

-- A merge that the service has answered, asked for again with the same input, whatever the new link
-- id and the clock are, answers the same and changes nothing.
pub merge-retry :
    (s : Store) (sha256 : String → String) (append_audit : AuditEvent → Bool) (input : MergeInput)
    (link_id link_id' : String) (now now' : ℕ) (r : Answer)
    → (merge sha256 append_audit input link_id (some now) s).0 ≡ ok r
    → let t = (merge sha256 append_audit input link_id (some now) s).1 in
      merge sha256 append_audit input link_id' (some now') t ≡ (ok r, t)
unfolding merge
merge-retry s sha256 append_audit input link_id link_id' now now' r =
    subst
      (λ x.
        (with_checked x₀ work s).0 ≡ ok r
        → with_checked x work (with_checked x₀ work s).1 ≡ (ok r, (with_checked x₀ work s).1))
      (sym (merge_command-later sha256 input link_id link_id' now now')) (tried x₀)
  where
    x₀ : Result ContactError MergeCommand
    x₀ = merge_command sha256 input link_id (some now)

    work : MergeCommand → Store → Outcome
    work c = merge_identity c append_audit

    tried :
        (x : Result ContactError MergeCommand)
        → (with_checked x work s).0 ≡ ok r
        → with_checked (map_ok (later link_id' now') x) work (with_checked x work s).1
          ≡ (ok r, (with_checked x work s).1)
    tried (err e) h = cc
    tried (ok c) h =
        let e = merge_identity-again s c (later link_id' now' c) append_audit r h refl in
        ground (arith, e, eq_iff c.fingerprint c.fingerprint)
