-- ===== src/Contacts/Undo.antt =====
-- A merge and the unmerge of its link.
use crm_silmer.Base.{
  Bool-cases, Result, ok, err, restored, lookup, put, lookup-put, ℕ, ◌+◌, String, ◌≡◌, refl, sym,
  ap, subst, inl, inr, Bool, true, none, some, arith, eq_iff,
}
use crm_silmer.Contacts.{ContactError, Contact, Identity, Answer, Store}
use crm_silmer.Contacts.Merging.{
  MergeCommand, UnmergeCommand, AuditEvent, audit_event, Merging, check_merge, touched, moved_to,
  new_link, merged, attempt_merge, merge_or_replay, merge_identity, Unmerging, check_unmerge,
  reverted_link, unmerged, commit_unmerge, unmerge_or_replay, unmerge_identity,
}
use crm_silmer.Contacts.Checks.{Merges, check_merge-eq-ok, Unmerges, check_unmerge-ok}
use crm_silmer.Contacts.Anchored.{IsAnchored}

-- What a merge that is new under its key has done when it answers.
pub record IsMerged (s t : Store) (c : MergeCommand) (m : Merging) : Type 0 where
  pub reads : Merges s c m
  pub contacts : t.contacts ≡ (merged s c m).contacts
  pub identities : t.identities ≡ (merged s c m).identities
  pub links : t.links ≡ (merged s c m).links
  pub unmerge_commands : t.unmerge_commands ≡ s.unmerge_commands

merge_identity-eq-ok :
    (s : Store) (c : MergeCommand) (append_audit : AuditEvent → Bool) (r : Answer)
    → lookup c.idempotency_key s.merge_commands ≡ none
    → (merge_identity c append_audit s).0 ≡ ok r
    → (m : Merging) × IsMerged s (merge_identity c append_audit s).1 c m
unfolding merge_identity
merge_identity-eq-ok s c append_audit r fresh =
    subst
      (λ o.
        (restored s (merge_or_replay s c append_audit o)).0 ≡ ok r
        → (m : Merging) × IsMerged s (restored s (merge_or_replay s c append_audit o)).1 c m)
      (sym fresh) (tried (check_merge s c) refl)
  where
    tried :
        (x : Result ContactError Merging)
        → check_merge s c ≡ x
        → (restored s (attempt_merge s c append_audit x)).0 ≡ ok r
        → (m : Merging) × IsMerged s (restored s (attempt_merge s c append_audit x)).1 c m
    tried (err e) checked = λ h. cc
    tried (ok m) checked =
        let i = moved_to m.target.id m.identity c.now in
        elim (Bool-cases (append_audit (audit_event "contact.identity.merged" c.stamp i))) [
          | inl stored ↦ rw stored λ h. (
            m,
            record {
              reads = check_merge-eq-ok s c checked;
              contacts = refl;
              identities = refl;
              links = refl;
              unmerge_commands = refl;
            },
          )
          | inr refused ↦ rw refused λ h. cc
        ]

-- The reads of the unmerge of that link.
abbrev undoing : MergeCommand → Merging → Unmerging
undoing c m = record {
  link = new_link c m;
  identity = moved_to m.target.id m.identity c.now;
  source = touched m.source c.now;
  target = touched m.target c.now;
}

undoing-Unmerges :
    (s t : Store) (c : MergeCommand) (d : UnmergeCommand) (m : Merging)
    → IsAnchored s
    → IsMerged s t c m
    → d.link_id ≡ c.link_id
    → d.expected_version ≡ c.expected_version + 1
    → Unmerges t d (undoing c m)
undoing-Unmerges s t c d m a w same next =
    let own = a.identity_ids c.identity_id m.identity w.reads.identity in
    let target_own = a.contact_ids c.target_contact_id m.target w.reads.target in
    let source_own = a.contact_ids m.identity.contact_id m.source w.reads.source in
    let put_source = put m.identity.contact_id (touched m.source c.now) s.contacts in
    record {
      link = ground (
        arith,
        same,
        w.links,
        lookup-put c.link_id c.link_id (new_link c m) s.links,
        eq_iff c.link_id c.link_id,
      );
      identity = ground (
        arith,
        own,
        w.identities,
        lookup-put c.identity_id c.identity_id (moved_to m.target.id m.identity c.now) s.identities,
        eq_iff c.identity_id c.identity_id,
      );
      source = ground (
        arith,
        source_own,
        target_own,
        w.contacts,
        w.reads.apart,
        lookup-put c.target_contact_id m.identity.contact_id (touched m.target c.now) put_source,
        lookup-put m.identity.contact_id m.identity.contact_id (touched m.source c.now) s.contacts,
        eq_iff m.identity.contact_id m.identity.contact_id,
        eq_iff m.identity.contact_id m.target.id,
        eq_iff c.target_contact_id m.identity.contact_id,
      );
      target = ground (
        arith,
        target_own,
        w.contacts,
        lookup-put c.target_contact_id c.target_contact_id (touched m.target c.now) put_source,
        eq_iff c.target_contact_id c.target_contact_id,
      );
      going = refl;
      version = ground (arith, w.reads.version);
    }

-- An unmerge that passes its checks under a new key answers when the audit stores its event.
unmerge_identity-ok :
    (s : Store) (c : UnmergeCommand) (append_audit : AuditEvent → Bool) (u : Unmerging)
    → lookup c.idempotency_key s.unmerge_commands ≡ none
    → check_unmerge s c ≡ ok u
    → ((e : AuditEvent) → append_audit e ≡ true)
    → (r : Answer) × ((unmerge_identity c append_audit s).0 ≡ ok r)
      × ((unmerge_identity c append_audit s).1.identities ≡ (unmerged s c u).identities)
unfolding unmerge_identity
unmerge_identity-ok s c append_audit u fresh checked stores =
    let i = moved_to u.source.id u.identity c.now in
    let r : Answer = record {
      contact = touched u.source c.now;
      identity = i;
      link = some (reverted_link u.link c);
    } in
    let e : unmerge_or_replay s c append_audit (lookup c.idempotency_key s.unmerge_commands)
        ≡ commit_unmerge s c append_audit u =
      ground (arith, fresh, checked) in
    let stored = stores (audit_event "contact.identity.unmerged" c.stamp i) in
    (r, rw (e, stored) refl, rw (e, stored) refl)

moved_back :
    (i : Identity) (id : String) (f : Contact) (now now' : ℕ)
    → f.id ≡ i.contact_id
    → moved_to f.id (moved_to id i now) now'
      ≡ record i { updated_at = now'; version = i.version + 2 }
moved_back i id f now now' h =
    rw h (ap (λ v. record i { updated_at = now'; version = v }) (omega arith))

-- From an anchored store, when a merge with a new command key and a new link id answers, the
-- unmerge of that link, at the identity's next version and with a new key of its own, answers too
-- once the audit stores its event, and it leaves the identity as it was before the merge: at the
-- contact that it came from, two versions later.
pub unmerge_identity-merge_identity :
    (s : Store) (c : MergeCommand) (d : UnmergeCommand) (append_audit : AuditEvent → Bool)
    (i : Identity) (r : Answer)
    → IsAnchored s
    → lookup c.identity_id s.identities ≡ some i
    → lookup c.idempotency_key s.merge_commands ≡ none
    → lookup d.idempotency_key s.unmerge_commands ≡ none
    → (merge_identity c append_audit s).0 ≡ ok r
    → d.link_id ≡ c.link_id
    → d.expected_version ≡ c.expected_version + 1
    → ((e : AuditEvent) → append_audit e ≡ true)
    → let t = (merge_identity c append_audit s).1 in
      (r' : Answer) × ((unmerge_identity d append_audit t).0 ≡ ok r')
      × (lookup c.identity_id (unmerge_identity d append_audit t).1.identities
          ≡ some (record i { updated_at = d.now; version = i.version + 2 }))
unmerge_identity-merge_identity s c d append_audit i r a found fresh fresh' h same next stores =
    let t = (merge_identity c append_audit s).1 in
    let (m, w) = merge_identity-eq-ok s c append_audit r fresh h in
    let u = undoing c m in
    let own = a.identity_ids c.identity_id m.identity w.reads.identity in
    let reads = undoing-Unmerges s t c d m a w same next in
    let (r', answered, left) =
      unmerge_identity-ok t d append_audit u (ground (arith, fresh', w.unmerge_commands))
        (check_unmerge-ok t d u reads refl) stores in
    let moved =
      moved_back m.identity m.target.id m.source c.now d.now
        (a.contact_ids m.identity.contact_id m.source w.reads.source) in
    let restored_identity = moved_to m.source.id (moved_to m.target.id m.identity c.now) d.now in
    let at_id = lookup-put m.identity.id c.identity_id restored_identity t.identities in
    (
      r',
      answered,
      rw left (
          ground (
            arith,
            own,
            found,
            w.reads.identity,
            at_id,
            eq_iff m.identity.id c.identity_id,
            moved,
          )),
    )
