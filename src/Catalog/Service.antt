-- ===== src/Catalog/Service.antt =====
-- modules/catalog/src/application/catalog-service.js over the versions that
-- modules/catalog/src/adapters/postgres-catalog-repository.js keeps. The database's transaction,
-- which leaves nothing when it throws, and the key on the ids are assumed; whether the audit
-- stores its event, the new id and the clock are arguments of a call. The entries of a version
-- keep the order that they were written in, where the queries put them in the order of their codes.
use crm_silmer.Base.{
  leb, text_eq, nat_eq, ◌==◌, if◌then◌else◌, ok, err, guard, or_throw, ◌>>=◌, ◌>>◌, any, find, trim,
  ℕ, ◌+◌, String, Bool, not, ◌&&◌, Option, none, some, List, [], ◌∷◌, ◌++◌,
}
use crm_silmer.Catalog.{
  validation_error, forbidden_error, conflict_error, port_error, Checked, Values, is_non_empty,
  Version, create_published_version, Selection, SelectionInput, create_selection,
}

pub record Actor : Type 0 where
  pub id : String
  pub capabilities : List String

pub record PublishInput : Type 0 where
  pub actor : Option Actor
  pub correlation_id : String
  pub reason : String
  pub values : Values

pub record AuditEvent : Type 0 where
  pub action : String
  pub actor : String
  pub correlation_id : String
  pub reason : String
  pub target_id : String
  pub version : ℕ

abbrev pub max : ℕ → ℕ → ℕ
max a b = if leb a b then b else a

-- The `reduce` of `publish`, and `MAX(number)` of the adapter's `append`.
unfoldable pub latest_from : ℕ → List Version → ℕ
latest_from n [] = n
latest_from n (v ∷ vs) = latest_from (max n v.number) vs

-- `assertPrivilegedActor`
unfoldable pub privileged : Option Actor → Checked Actor
privileged none = err forbidden_error
privileged (some a) = do
  guard (any (λ c. c == "COMMERCIAL_ADMIN") a.capabilities) forbidden_error
  ok a

-- `append` of the adapter: the version after the rows that are there.
unfoldable pub append : ℕ → Version → List Version → Checked (List Version)
unfolding latest_from
append expected v vs = do
  guard (latest_from 0 vs == expected) conflict_error
  guard (not (any (λ w. Version.id w == v.id) vs)) port_error
  ok (vs ++ (v ∷ []))

unfoldable pub published_event : PublishInput → Actor → Version → AuditEvent
unfolding trim
published_event input actor v = record {
  action = "catalog.version.published";
  actor = actor.id;
  correlation_id = input.correlation_id;
  reason = trim input.reason;
  target_id = v.id;
  version = v.number;
}

unfoldable pub next_version :
    PublishInput → Actor → (id : String) (now : ℕ) → List Version → Version
unfolding latest_from
next_version input actor id now vs = record {
  id = id;
  number = latest_from 0 vs + 1;
  published_at = now;
  published_by = actor.id;
  reason = input.reason;
  values = input.values;
}

-- What a transaction answers and the versions that it commits.
unfoldable pub publish :
    PublishInput
    → (id : String) (now : ℕ) → (AuditEvent → Bool)
    → List Version
    → Checked (Version × List Version)
publish input id now append_audit vs = do
  actor ← privileged input.actor
  guard (is_non_empty input.correlation_id && is_non_empty input.reason) validation_error
  published ← create_published_version (next_version input actor id now vs)
  versions ← append (latest_from 0 vs) published vs
  guard (append_audit (published_event input actor published)) port_error
  ok (published, versions)

-- `findById` reads a version's row and makes the version anew (`mapCatalog`).
unfoldable pub find_by_id : String → List Version → Checked Version
find_by_id id vs = do
  row ← or_throw (find (λ v. Version.id v == id) vs) validation_error
  create_published_version row

unfoldable pub select : SelectionInput → List Version → Checked Selection
select input vs = do
  guard (is_non_empty input.catalog_version_id) validation_error
  version ← find_by_id input.catalog_version_id vs
  create_selection version input
