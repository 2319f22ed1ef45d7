-- ===== src/Contacts.antt =====
-- modules/contacts/src/adapters/in-memory-contact-identity-repository.js: contacts, the channel
-- identities that people write from, and the links by which a person merges an identity into
-- another contact. Instants are milliseconds; the ids that `idFactory` makes, which are not empty,
-- the clock and whether the audit is stored are arguments of the commands.
pub mod Merging
pub mod Checks
pub mod Anchored
pub mod Moved
pub mod Runs
pub mod Undo
pub mod Inputs
pub mod Service
pub mod Retries
mod Tests
use crm_silmer.Base.{
  Result, ok, or_throw, ◌>>=◌, ◌>>◌, restored, Table, lookup, put, quote, json_array, ℕ, String,
  Bool, true, false, Option, none, some, [], ◌∷◌,
}

pub data ContactError : Type 0 where
  conflict_error not_found audit_failed forbidden_error validation_error clock_error : ContactError

pub record Contact : Type 0 where
  pub id : String
  pub provisional : Bool
  pub created_at : ℕ
  pub updated_at : ℕ
  pub version : ℕ

pub record Identity : Type 0 where
  pub id : String
  pub automatic_merge_allowed : Bool
  pub channel : String
  pub contact_id : String
  pub display_handle : Option String
  pub identity_kind : String
  pub phone_status : String
  pub provider : String
  pub provider_account_id : String
  pub created_at : ℕ
  pub updated_at : ℕ
  pub version : ℕ

pub data LinkStatus : Type 0 where
  active reverted : LinkStatus

pub record Link : Type 0 where
  pub id : String
  pub identity_id : String
  pub merged_at : ℕ
  pub merged_by : String
  pub source_contact_id : String
  pub status : LinkStatus
  pub target_contact_id : String
  pub reverted_at : Option ℕ
  pub reverted_by : Option String

pub record Answer : Type 0 where
  pub contact : Contact
  pub identity : Identity
  pub link : Option Link

pub record Handled : Type 0 where
  pub fingerprint : String
  pub result : Answer

pub record Store : Type 0 where
  pub contacts : Table Contact
  pub identities : Table Identity
  pub identities_by_scope : Table String
  pub links : Table Link
  pub merge_commands : Table Handled
  pub unmerge_commands : Table Handled

-- What a command returns or throws, and the maps that it leaves.
abbrev pub Outcome : Type 0
Outcome = Result ContactError Answer × Store

-- `#exclusive`: an error puts the snapshot back.
unfoldable pub exclusive : (Store → Outcome) → Store → Outcome
exclusive work s = restored s (work s)

-- An identity as `normalizeInboundIdentity` leaves it.
pub record Inbound : Type 0 where
  pub channel : String
  pub correlation_id : String
  pub display_handle : Option String
  pub external_identity_id : String
  pub identity_kind : String
  pub occurred_at : ℕ
  pub phone_status : String
  pub provider : String
  pub provider_account_id : String

-- `identityScope`
unfoldable pub identity_scope : Inbound → String
unfolding quote
identity_scope i = json_array (
    quote i.provider
    ∷ quote i.provider_account_id
    ∷ quote i.channel
    ∷ quote i.external_identity_id
    ∷ [])

unfoldable pub resolved : Store → String → Result ContactError Answer
resolved s identity_id = do
  identity ← or_throw (lookup identity_id s.identities) not_found
  contact ← or_throw (lookup identity.contact_id s.contacts) not_found
  ok (record { contact = contact; identity = identity; link = none })

abbrev pub new_contact : String → ℕ → Contact
new_contact id now = record {
  id = id;
  provisional = true;
  created_at = now;
  updated_at = now;
  version = 1;
}

abbrev pub new_identity : Inbound → String → String → ℕ → Identity
new_identity input contact_id id now = record {
  id = id;
  automatic_merge_allowed = false;
  channel = input.channel;
  contact_id = contact_id;
  display_handle = input.display_handle;
  identity_kind = input.identity_kind;
  phone_status = input.phone_status;
  provider = input.provider;
  provider_account_id = input.provider_account_id;
  created_at = now;
  updated_at = now;
  version = 1;
}

abbrev pub with_identity : Store → Contact → Identity → String → Store
with_identity s contact identity scope = record s {
  contacts = put contact.id contact s.contacts;
  identities = put identity.id identity s.identities;
  identities_by_scope = put scope identity.id s.identities_by_scope;
}

unfoldable pub resolve_or_create : Store → Inbound → String → String → ℕ → Option String → Outcome
unfolding resolved
resolve_or_create s input contact_id identity_id now (some id) = (resolved s id, s)
resolve_or_create s input contact_id identity_id now none =
    let contact = new_contact contact_id now in
    let identity = new_identity input contact_id identity_id now in
    (
      ok (record { contact = contact; identity = identity; link = none }),
      with_identity s contact identity (identity_scope input),
    )

unfoldable pub resolve_inbound_identity :
    Inbound → (contact_id identity_id : String) (now : ℕ) → Store → Outcome
unfolding exclusive
resolve_inbound_identity input contact_id identity_id now = exclusive λ s.
    resolve_or_create s input contact_id identity_id now
      (lookup (identity_scope input) s.identities_by_scope)
