-- ===== src/Contacts/Moved.antt =====
-- The anchors through a merge and its undoing.
use crm_silmer.Base.{lookup, lookup-put, any-false-at, ◌≡◌, none, arith, eq_iff}
use crm_silmer.Contacts.{Store}
use crm_silmer.Contacts.Merging.{
  MergeCommand, UnmergeCommand, links_actively, Merging, touched, moved_to, new_link, merged,
  Unmerging, reverted_link, unmerged,
}
use crm_silmer.Contacts.Checks.{Merges, Unmerges}
use crm_silmer.Contacts.Anchored.{IsAnchored, Known-put, Known-lookup, twice_ids, Known-twice}

pub merged-IsAnchored :
    (s : Store) (c : MergeCommand) (m : Merging)
    → Merges s c m
    → IsAnchored s
    → lookup c.link_id s.links ≡ none
    → IsAnchored (merged s c m)
merged-IsAnchored s c m w a fresh =
    let own = a.identity_ids c.identity_id m.identity w.identity in
    let target_own = a.contact_ids c.target_contact_id m.target w.target in
    let source_own = a.contact_ids m.identity.contact_id m.source w.source in
    let i = moved_to m.target.id m.identity c.now in
    let l = new_link c m in
    let kept =
      Known-twice s.contacts m.identity.contact_id c.target_contact_id (touched m.source c.now)
        (touched m.target c.now) a.contact_ids in
    record {
      contact_ids =
          twice_ids s.contacts m.identity.contact_id c.target_contact_id (touched m.source c.now)
            (touched m.target c.now) a.contact_ids source_own target_own;
      identity_ids = λ k d h. ground (
        arith,
        lookup-put c.identity_id k i s.identities,
        eq_iff c.identity_id k,
        a.identity_ids k d,
        own,
      );
      scoped = λ k id h. Known-put s.identities c.identity_id id i (a.scoped k id h);
      anchored = λ k d h. ground (
        arith,
        lookup-put c.identity_id k i s.identities,
        kept d.contact_id,
        Known-lookup s.contacts c.target_contact_id w.target,
        target_own,
        a.anchored k d,
      );
      sources = λ k g h. ground (
        arith,
        lookup-put c.link_id k l s.links,
        kept g.source_contact_id,
        Known-lookup s.contacts m.identity.contact_id w.source,
        source_own,
        a.sources k g,
      );
      linked = λ k g h. ground (
        arith,
        lookup-put c.link_id k l s.links,
        Known-put s.identities c.identity_id g.identity_id i,
        Known-lookup s.identities c.identity_id w.identity,
        own,
        a.linked k g,
      );
      held = λ k g d h going found. ground (
        arith,
        lookup-put c.link_id k l s.links,
        lookup-put c.identity_id g.identity_id i s.identities,
        eq_iff c.identity_id g.identity_id,
        eq_iff g.identity_id m.identity.id,
        eq_iff c.link_id k,
        any-false-at (links_actively m.identity.id) s.links k {v = g} w.free,
        own,
        a.held k g d,
      );
      single = λ j k g g' h h' going going' same. ground (
        arith,
        lookup-put c.link_id j l s.links,
        lookup-put c.link_id k l s.links,
        eq_iff c.link_id j,
        eq_iff c.link_id k,
        eq_iff g.identity_id m.identity.id,
        eq_iff g'.identity_id m.identity.id,
        any-false-at (links_actively m.identity.id) s.links j {v = g} w.free,
        any-false-at (links_actively m.identity.id) s.links k {v = g'} w.free,
        a.single j k g g',
      );
    }

pub unmerged-IsAnchored :
    (s : Store) (c : UnmergeCommand) (u : Unmerging)
    → Unmerges s c u
    → IsAnchored s
    → IsAnchored (unmerged s c u)
unmerged-IsAnchored s c u w a =
    let own = a.identity_ids u.link.identity_id u.identity w.identity in
    let target_own = a.contact_ids u.link.target_contact_id u.target w.target in
    let source_own = a.contact_ids u.link.source_contact_id u.source w.source in
    let i = moved_to u.source.id u.identity c.now in
    let l = reverted_link u.link c in
    let kept =
      Known-twice s.contacts u.link.source_contact_id u.link.target_contact_id
        (touched u.source c.now) (touched u.target c.now) a.contact_ids in
    record {
      contact_ids =
          twice_ids s.contacts u.link.source_contact_id u.link.target_contact_id
            (touched u.source c.now) (touched u.target c.now) a.contact_ids source_own target_own;
      identity_ids = λ k d h. ground (
        arith,
        lookup-put u.link.identity_id k i s.identities,
        eq_iff u.link.identity_id k,
        a.identity_ids k d,
        own,
      );
      scoped = λ k id h. Known-put s.identities u.link.identity_id id i (a.scoped k id h);
      anchored = λ k d h. ground (
        arith,
        lookup-put u.link.identity_id k i s.identities,
        kept d.contact_id,
        Known-lookup s.contacts u.link.source_contact_id w.source,
        source_own,
        a.anchored k d,
      );
      sources = λ k g h. ground (
        arith,
        lookup-put c.link_id k l s.links,
        kept g.source_contact_id,
        a.sources k g,
        a.sources c.link_id u.link w.link,
      );
      linked = λ k g h. ground (
        arith,
        lookup-put c.link_id k l s.links,
        Known-put s.identities u.link.identity_id g.identity_id i,
        a.linked k g,
        a.linked c.link_id u.link w.link,
      );
      held = λ k g d h going found. ground (
        arith,
        lookup-put c.link_id k l s.links,
        lookup-put u.link.identity_id g.identity_id i s.identities,
        eq_iff u.link.identity_id g.identity_id,
        eq_iff c.link_id k,
        a.single k c.link_id g u.link,
        w.going,
        w.link,
        a.held k g d,
      );
      single = λ j k g g' h h' going going' same. ground (
        arith,
        lookup-put c.link_id j l s.links,
        lookup-put c.link_id k l s.links,
        eq_iff c.link_id j,
        eq_iff c.link_id k,
        a.single j k g g',
      );
    }
