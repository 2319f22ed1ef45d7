-- ===== src/Contacts/Anchored.antt =====
-- The anchors of the identities: contacts, scopes and links.
use crm_silmer.Base.{
  is_some, Table, lookup, put, lookup-put, ℕ, String, ◌≡◌, true, none, some, arith, eq_iff,
}
use crm_silmer.Contacts.{
  Contact, Identity, Link, Store, Inbound, new_contact, new_identity, with_identity,
}
use crm_silmer.Contacts.Merging.{is_active}

abbrev pub Known {ℓ} : {V : Type ℓ} → Table V → String → Type 0
Known t k = is_some (lookup k t) ≡ true

-- Everything stands under its id; a scope has an identity, and an identity a contact; an active
-- link holds its identity at its target and knows both contacts; and an identity has one active
-- link.
pub record Anchors (contacts : Table Contact) (identities : Table Identity) (scopes : Table String)
    (links : Table Link) : Type 0 where
  pub contact_ids : (k : String) (c : Contact) → lookup k contacts ≡ some c → c.id ≡ k
  pub identity_ids : (k : String) (i : Identity) → lookup k identities ≡ some i → i.id ≡ k
  pub scoped : (k id : String) → lookup k scopes ≡ some id → Known identities id
  pub anchored :
      (k : String) (i : Identity) → lookup k identities ≡ some i → Known contacts i.contact_id
  pub sources :
      (k : String) (l : Link) → lookup k links ≡ some l → Known contacts l.source_contact_id
  pub linked : (k : String) (l : Link) → lookup k links ≡ some l → Known identities l.identity_id
  pub held :
      (k : String) (l : Link) (i : Identity)
      → lookup k links ≡ some l
      → is_active l.status ≡ true
      → lookup l.identity_id identities ≡ some i
      → i.contact_id ≡ l.target_contact_id
  pub single :
      (j k : String) (l l' : Link)
      → lookup j links ≡ some l
      → lookup k links ≡ some l'
      → is_active l.status ≡ true
      → is_active l'.status ≡ true
      → l.identity_id ≡ l'.identity_id
      → j ≡ k

abbrev pub IsAnchored : Store → Type 0
IsAnchored s = Anchors s.contacts s.identities s.identities_by_scope s.links

pub Known-put {ℓ} :
    {V : Type ℓ} (t : Table V) (k j : String) (v : V) → Known t j → Known (put k v t) j
Known-put t k j v h = ground (arith, lookup-put k j v t)

pub Known-put_self {ℓ} : {V : Type ℓ} (t : Table V) (k : String) (v : V) → Known (put k v t) k
Known-put_self t k v = ground (arith, lookup-put k k v t, eq_iff k k)

pub Known-lookup {ℓ} :
    {V : Type ℓ} (t : Table V) (k : String) {v : V} → lookup k t ≡ some v → Known t k
Known-lookup t k h = ground arith

pub with_identity-IsAnchored :
    (s : Store) (input : Inbound) (contact_id id scope : String) (now : ℕ)
    → IsAnchored s
    → lookup contact_id s.contacts ≡ none
    → lookup id s.identities ≡ none
    → IsAnchored
        (with_identity s (new_contact contact_id now) (new_identity input contact_id id now) scope)
with_identity-IsAnchored s input contact_id id scope now a free free_identity =
    let c = new_contact contact_id now in
    let i = new_identity input contact_id id now in
    record {
      contact_ids = λ k d h.
          ground
            (arith, lookup-put contact_id k c s.contacts, eq_iff contact_id k, a.contact_ids k d);
      identity_ids =
          λ k d h. ground (arith, lookup-put id k i s.identities, eq_iff id k, a.identity_ids k d);
      scoped = λ k d h. ground (
        arith,
        lookup-put scope k id s.identities_by_scope,
        lookup-put id d i s.identities,
        eq_iff id d,
        a.scoped k d,
      );
      anchored = λ k d h. ground (
        arith,
        lookup-put id k i s.identities,
        lookup-put contact_id d.contact_id c s.contacts,
        eq_iff contact_id d.contact_id,
        a.anchored k d,
      );
      sources = λ k l h. Known-put s.contacts contact_id l.source_contact_id c (a.sources k l h);
      linked = λ k l h. Known-put s.identities id l.identity_id i (a.linked k l h);
      held = λ k l d h going found. ground (
        arith,
        lookup-put id l.identity_id i s.identities,
        eq_iff id l.identity_id,
        a.linked k l h,
        a.held k l d h going,
      );
      single = a.single;
    }

module _ (t : Table Contact) (j k : String) (c d : Contact)
    (ids : (i : String) (g : Contact) → lookup i t ≡ some g → g.id ≡ i) where
  abbrev pub twice : Table Contact
  twice = put k d (put j c t)

  pub twice_ids :
      c.id ≡ j → d.id ≡ k → (i : String) (g : Contact) → lookup i twice ≡ some g → g.id ≡ i
  twice_ids own own' i g h =
      ground
        (arith, lookup-put k i d (put j c t), lookup-put j i c t, eq_iff k i, eq_iff j i, ids i g)

  pub Known-twice : (i : String) → Known t i → Known twice i
  Known-twice i h = Known-put (put j c t) k i d (Known-put t j i c h)
