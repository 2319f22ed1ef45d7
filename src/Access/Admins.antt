-- ===== src/Access/Admins.antt =====
-- The administrators.
use crm_silmer.Base.{
  text_eq, nat_eq, ◌==◌, Bool-cases, Result, ok, err, or_throw, >>=-eq-ok, guard-eq-ok,
  or_throw-eq-ok, lookup, put, lookup-put, ℕ, String, ◌≡◌, refl, inl, inr, Bool, true, false, ◌&&◌,
  some, List, [], ◌∷◌, ◌++◌, arith, eq_iff,
}
use crm_silmer.Access.{
  AccessError, forbidden, not_found, User, admin, is_admin, authorize, AuditEvent, State, Command,
  is_non_empty, validate, audit_event, audited, with_capability, without_capability, granted,
  grant_capability, revoked, revoke_capability,
}

pub record HasAdmin (s : State) : Type 0 where
  pub id : String
  pub user : User
  pub found : lookup id s.users ≡ some user
  pub is_admin_user : is_admin user ≡ true

pub data Operation : Type 0 where
  grants : Command → (AuditEvent → Bool) → Operation
  revokes : Command → (AuditEvent → Bool) → (now : ℕ) → Operation

unfoldable pub step : State → Operation → State
step s (grants c append_audit) = (grant_capability c append_audit s).1
step s (revokes c append_audit now) = (revoke_capability c append_audit now s).1

unfoldable pub run : State → List Operation → State
run s [] = s
run s (o ∷ os) = run (step s o) os

-- What `validate` has found: the actor is an administrator.
validate-eq-ok :
    (c : Command) (s : State) {target : User}
    → validate c s ≡ ok target
    → (actor : User) × (lookup c.actor_id s.users ≡ some actor)
      × (is_admin actor ≡ true)
      × (lookup c.target_id s.users ≡ some target)
      × (c.capability ≡ admin)
unfolding validate
validate-eq-ok c s {target} h =
    let (known, h1) = guard-eq-ok (c.capability == admin) _ _ h in
    let (texts, h2) =
      guard-eq-ok
        (is_non_empty c.actor_id
          && is_non_empty c.target_id
          && is_non_empty c.reason
          && is_non_empty c.correlation_id)
        _ _ h1 in
    let (actor, found, h3) = >>=-eq-ok (or_throw (lookup c.actor_id s.users) forbidden) _ h2 in
    let (may, h4) = guard-eq-ok (is_admin actor) _ _ h3 in
    (
      actor,
      or_throw-eq-ok (lookup c.actor_id s.users) forbidden found,
      may,
      or_throw-eq-ok (lookup c.target_id s.users) not_found h4,
      (eq_iff c.capability admin).0 known,
    )

-- The audit changes no user.
audited-users :
    (append_audit : AuditEvent → Bool) (e : AuditEvent) (s : State)
    → (audited append_audit e s).1.users ≡ s.users
audited-users append_audit e s = elim (Bool-cases (append_audit e)) [
  | inl stored ↦ rw stored refl
  | inr lost ↦ rw lost refl
]

-- A user that is an administrator is one after a row of another user was written.
other-HasAdmin :
    (s t : State) (id target_id : String) (user target : User)
    → lookup id s.users ≡ some user
    → is_admin user ≡ true
    → (id == target_id) ≡ false
    → t.users ≡ put target_id target s.users
    → HasAdmin t
other-HasAdmin s t id target_id user target found may differs e = record {
  id = id;
  user = user;
  found = ground (
    arith,
    e,
    found,
    lookup-put target_id id target s.users,
    eq_iff target_id id,
    eq_iff id target_id,
    differs,
  );
  is_admin_user = may;
}

granted-HasAdmin :
    (c : Command) (append_audit : AuditEvent → Bool) (s : State) (r : Result AccessError User)
    → validate c s ≡ r
    → HasAdmin s
    → HasAdmin (granted c append_audit s r).1
granted-HasAdmin c append_audit s (err e) h a = a
granted-HasAdmin c append_audit s (ok target) h a = elim (Bool-cases (c.actor_id == c.target_id)) [
  | inl same ↦ rw same a
  | inr differs ↦ rw differs (
      let (actor, found, may, there, known) = validate-eq-ok c s h in
      other-HasAdmin s _ c.actor_id c.target_id actor (with_capability c.capability target) found
        may differs
        (audited-users append_audit (audit_event "identity.capability.granted" c)
          (record s { users = put c.target_id (with_capability c.capability target) s.users })))
]

revoked-HasAdmin :
    (c : Command) (append_audit : AuditEvent → Bool) (now : ℕ) (s : State)
    (r : Result AccessError User)
    → validate c s ≡ r
    → HasAdmin s
    → HasAdmin (revoked c append_audit now s r).1
revoked-HasAdmin c append_audit now s (err e) h a = a
revoked-HasAdmin c append_audit now s (ok target) h a =
    let (actor, found, may, there, known) = validate-eq-ok c s h in
    elim (Bool-cases (c.capability == admin && c.actor_id == c.target_id)) [
      | inl own ↦ rw own a
      | inr allowed ↦ rw allowed (
          other-HasAdmin s _ c.actor_id c.target_id actor (without_capability c.capability target)
            found may (ground (arith, allowed, known, eq_iff c.capability admin))
            (audited-users append_audit (audit_event "identity.capability.revoked" c) (record s {
              users = put c.target_id (without_capability c.capability target) s.users;
              revoked_sessions = s.revoked_sessions ++ ((c.target_id, now) ∷ []);
            })))
    ]

-- Where there is an administrator, there is one after any grants and revocations, refused ones and
-- ones whose audit failed among them.
pub run-HasAdmin : (s : State) (os : List Operation) → HasAdmin s → HasAdmin (run s os)
unfolding run step grant_capability revoke_capability
run-HasAdmin s [] a = a
run-HasAdmin s (grants c append_audit ∷ os) a =
    run-HasAdmin (step s (grants c append_audit)) os
      (granted-HasAdmin c append_audit s (validate c s) refl a)
run-HasAdmin s (revokes c append_audit now ∷ os) a =
    run-HasAdmin (step s (revokes c append_audit now)) os
      (revoked-HasAdmin c append_audit now s (validate c s) refl a)

-- The actions of the automation and of the checkout are refused to every user and every assistant.
pub authorize-automation :
    (actor : User)
    → (authorize actor "order.intent" ≡ err forbidden)
      × (authorize actor "store.order.record" ≡ err forbidden)
unfolding authorize
authorize-automation actor = (ground arith, ground arith)
