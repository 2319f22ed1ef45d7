-- ===== src/Contacts/Checks.antt =====
-- What `mergeIdentity` and `unmergeIdentity` have read when their checks pass.
use crm_silmer.Base.{
  text_eq, nat_eq, ◌==◌, ok, or_throw, >>=-eq-ok, guard-eq-ok, or_throw-eq-ok, any, lookup, values,
  ◌≡◌, true, false, not, ◌&&◌, some, arith, eq_iff,
}
use crm_silmer.Contacts.{not_found, Store}
use crm_silmer.Contacts.Merging.{
  MergeCommand, UnmergeCommand, is_active, links_actively, Merging, check_merge, Unmerging,
  check_unmerge,
}

pub record Merges (s : Store) (c : MergeCommand) (m : Merging) : Type 0 where
  pub identity : lookup c.identity_id s.identities ≡ some m.identity
  pub target : lookup c.target_contact_id s.contacts ≡ some m.target
  pub source : lookup m.identity.contact_id s.contacts ≡ some m.source
  pub version : m.identity.version ≡ c.expected_version
  pub apart : (m.identity.contact_id == m.target.id) ≡ false
  pub free : any (links_actively m.identity.id) (values s.links) ≡ false

pub check_merge-eq-ok :
    (s : Store) (c : MergeCommand) {m : Merging} → check_merge s c ≡ ok m → Merges s c m
unfolding check_merge
check_merge-eq-ok s c {m} h =
    let (i, got, h1) = >>=-eq-ok (or_throw (lookup c.identity_id s.identities) not_found) _ h in
    let (t, found, h2) =
      >>=-eq-ok (or_throw (lookup c.target_contact_id s.contacts) not_found) _ h1 in
    let (fits, h3) =
      guard-eq-ok
        (i.version == c.expected_version
          && not (i.contact_id == t.id)
          && not (any (links_actively i.id) (values s.links)))
        _ _ h2 in
    let (f, from, h4) = >>=-eq-ok (or_throw (lookup i.contact_id s.contacts) not_found) _ h3 in
    record {
      identity = ground (arith, or_throw-eq-ok (lookup c.identity_id s.identities) _ got);
      target = ground (arith, or_throw-eq-ok (lookup c.target_contact_id s.contacts) _ found);
      source = ground (arith, or_throw-eq-ok (lookup i.contact_id s.contacts) _ from);
      version = ground arith;
      apart = ground arith;
      free = ground arith;
    }

pub record Unmerges (s : Store) (c : UnmergeCommand) (u : Unmerging) : Type 0 where
  pub link : lookup c.link_id s.links ≡ some u.link
  pub identity : lookup u.link.identity_id s.identities ≡ some u.identity
  pub source : lookup u.link.source_contact_id s.contacts ≡ some u.source
  pub target : lookup u.link.target_contact_id s.contacts ≡ some u.target
  pub going : is_active u.link.status ≡ true
  pub version : u.identity.version ≡ c.expected_version

pub check_unmerge-eq-ok :
    (s : Store) (c : UnmergeCommand) {u : Unmerging} → check_unmerge s c ≡ ok u → Unmerges s c u
unfolding check_unmerge
check_unmerge-eq-ok s c {u} h =
    let (l, got, h1) = >>=-eq-ok (or_throw (lookup c.link_id s.links) not_found) _ h in
    let (i, found, h2) = >>=-eq-ok (or_throw (lookup l.identity_id s.identities) not_found) _ h1 in
    let (f, from, h3) =
      >>=-eq-ok (or_throw (lookup l.source_contact_id s.contacts) not_found) _ h2 in
    let (t, to, h4) = >>=-eq-ok (or_throw (lookup l.target_contact_id s.contacts) not_found) _ h3 in
    record {
      link = ground (arith, or_throw-eq-ok (lookup c.link_id s.links) _ got);
      identity = ground (arith, or_throw-eq-ok (lookup l.identity_id s.identities) _ found);
      source = ground (arith, or_throw-eq-ok (lookup l.source_contact_id s.contacts) _ from);
      target = ground (arith, or_throw-eq-ok (lookup l.target_contact_id s.contacts) _ to);
      going = ground arith;
      version = ground arith;
    }

-- The same reads make the checks pass.
pub check_unmerge-ok :
    (s : Store) (c : UnmergeCommand) (u : Unmerging)
    → Unmerges s c u
    → u.identity.contact_id ≡ u.target.id
    → check_unmerge s c ≡ ok u
unfolding check_unmerge
check_unmerge-ok s c u w at_target =
    rw (w.link, w.identity, w.source, w.target)
      (ground (arith, w.going, w.version, eq_iff u.identity.contact_id u.target.id))
