-- ===== src/Configuration/History.antt =====
-- The versions that the service stores.
use crm_silmer.Base.{
  leb, nat_beq_iff, text_eq, nat_eq, ◌==◌, ok, err, >>=-eq-ok, ok-injective, guard-eq-ok, length,
  count, trim, trim-trim, ℕ, suc, String, ◌≡◌, refl, sym, ap, ◌∙◌, subst, Bool, true, false, ◌&&◌,
  Option, none, some, List, [], ◌∷◌, arith,
}
use crm_silmer.Configuration.{conflict_error, Checked, is_non_empty}
use crm_silmer.Configuration.Service.{
  Actor, Command, AuditEvent, privileged, has_metadata, find_current, version_of, next_version,
  created_event, create, read_channel_configuration,
}
use crm_silmer.Configuration.Versions.{
  normalize_values, Version, is_safe, create_version, ChannelConfiguration, channel_configuration,
}

-- Row by row from the newest: its number is the count of the rows, and it is a version that the
-- validation leaves as it is.
abbrev pub AreStored : List Version → Type 0
AreStored [] = Unit
AreStored (v ∷ vs) = (v.version ≡ suc (length vs)) × (create_version v ≡ ok v) × AreStored vs

find_current-AreStored :
    (vs : List Version)
    → AreStored vs
    → (o : Option Version) × (find_current vs ≡ ok o) × (version_of o ≡ length vs)
unfolding find_current
find_current-AreStored [] a = (none, refl, refl)
find_current-AreStored (v ∷ vs) a = (some v, rw a.1 refl, a.0)

is_non_empty-trim : (s : String) → is_non_empty (trim s) ≡ is_non_empty s
unfolding is_non_empty
is_non_empty-trim s = rw (trim-trim s) refl

create_version-eq-ok :
    (v w : Version)
    → create_version v ≡ ok w
    → (w ≡ record v { reason = trim v.reason }) × (create_version w ≡ ok w)
unfolding create_version
create_version-eq-ok v w h =
    let (test, h1) =
      guard-eq-ok
        (is_non_empty v.id
          && is_non_empty v.created_by
          && is_non_empty v.reason
          && leb 1 v.version
          && is_safe v.version)
        _ _ h in
    let (s, made, h2) = >>=-eq-ok (normalize_values v.values) _ h1 in
    let e = sym (ok-injective h2) in
    (
      e,
      subst (λ x. create_version x ≡ ok x) (sym e)
          (rw (is_non_empty-trim v.reason, test, made, trim-trim v.reason) refl),
    )

-- What a call that answers has found and committed.
pub create-eq-ok :
    (c : Command) (id : String) (now : ℕ) (append_audit : AuditEvent → Bool) (vs : List Version)
    {v : Version} {ws : List Version}
    → AreStored vs
    → create c id now append_audit vs ≡ ok (v, ws)
    → (c.expected_version ≡ length vs) × (ws ≡ v ∷ vs) × AreStored (v ∷ vs)
unfolding create next_version
create-eq-ok c id now append_audit vs {v} {ws} a h =
    let (actor, hp, h1) = >>=-eq-ok (privileged c.actor) _ h in
    let (fine, h2) = guard-eq-ok (has_metadata c) _ _ h1 in
    let (o, found, h3) = >>=-eq-ok (find_current vs) _ h2 in
    let (o', found', count) = find_current-AreStored vs a in
    let same : o ≡ o' = ok-injective (sym found ∙ found') in
    let (at, h4) = guard-eq-ok (c.expected_version == version_of o) _ _ h3 in
    let draft = next_version c actor id now (version_of o) in
    let (made, hm, h5) = >>=-eq-ok (create_version draft) _ h4 in
    let (stored, h6) = guard-eq-ok (append_audit (created_event c actor made)) _ _ h5 in
    let (e, again) = create_version-eq-ok draft made hm in
    let answered : made ≡ v = ap (λ x. x.0) (ok-injective h6) in
    let rows : made ∷ vs ≡ ws = ap (λ x. x.1) (ok-injective h6) in
    let n : version_of o ≡ length vs = ap version_of same ∙ count in
    (
      (nat_beq_iff c.expected_version (version_of o)).0 at ∙ n,
      sym rows ∙ ap (λ x. x ∷ vs) answered,
      (
        ap Version.version (sym answered ∙ e) ∙ ground (arith, n),
        subst (λ x. create_version x ≡ ok x) answered again,
        a,
      ),
    )

-- A call of `createVersion`, and the rows after several.
pub record Call : Type 0 where
  pub command : Command
  pub id : String
  pub now : ℕ
  pub append_audit : AuditEvent → Bool

abbrev committed : List Version → Checked (Version × List Version) → List Version
committed vs (err e) = vs
committed vs (ok (v, ws)) = ws

unfoldable pub run : List Version → List Call → List Version
run vs [] = vs
run vs (c ∷ cs) = run (committed vs (create c.command c.id c.now c.append_audit vs)) cs

committed-AreStored :
    (c : Call) (vs : List Version) (r : Checked (Version × List Version))
    → create c.command c.id c.now c.append_audit vs ≡ r
    → AreStored vs
    → AreStored (committed vs r)
committed-AreStored c vs (err e) h a = a
committed-AreStored c vs (ok (v, ws)) h a =
    let (at, rows, fine) = create-eq-ok c.command c.id c.now c.append_audit vs a h in
    subst AreStored (sym rows) fine

pub run-AreStored : (cs : List Call) (vs : List Version) → AreStored vs → AreStored (run vs cs)
unfolding run
run-AreStored [] vs a = a
run-AreStored (c ∷ cs) vs a =
    run-AreStored cs _
      (committed-AreStored c vs (create c.command c.id c.now c.append_audit vs) refl a)

channel_configuration-ok :
    (v : Version)
    → create_version v ≡ ok v
    → (k : ChannelConfiguration) × (channel_configuration v ≡ ok k) × (k.version ≡ v.version)
unfolding create_version channel_configuration
channel_configuration-ok v h =
    let (test, h1) =
      guard-eq-ok
        (is_non_empty v.id
          && is_non_empty v.created_by
          && is_non_empty v.reason
          && leb 1 v.version
          && is_safe v.version)
        _ _ h in
    let (s, made, h2) = >>=-eq-ok (normalize_values v.values) _ h1 in
    let bounds : leb 1 v.version && is_safe v.version ≡ true = ground (arith, test) in
    (
      record { channels = s.channels; feature_flags = s.feature_flags; version = v.version },
      rw (bounds, made) refl,
      refl,
    )

-- What the channels read: nothing, or a configuration with the number of a version.
abbrev pub read_version : Option ChannelConfiguration → ℕ
read_version none = 0
read_version (some k) = k.version

reads :
    (vs : List Version)
    → AreStored vs
    → (o : Option ChannelConfiguration) × (read_channel_configuration vs ≡ ok o)
      × (read_version o ≡ length vs)
unfolding read_channel_configuration find_current
reads [] a = (none, refl, refl)
reads (v ∷ vs) a =
    let (k, made, same) = channel_configuration-ok v a.1 in
    (some k, rw (a.1, made) refl, same ∙ a.0)

-- After any calls of `createVersion`, refused ones among them, the channels' configuration can be
-- read without an error, and its version is the number of the versions that were stored: there is
-- none before the first one.
pub read_channel_configuration-run :
    (cs : List Call)
    → (o : Option ChannelConfiguration) × (read_channel_configuration (run [] cs) ≡ ok o)
      × (read_version o ≡ length (run [] cs))
read_channel_configuration-run cs = reads (run [] cs) (run-AreStored cs [] tt)

-- Of two commands that expect one version, the second is a conflict once the first has been
-- answered, when its actor may publish and its texts and its number are fine.
pub create-conflict :
    (cs : List Call) (c c' : Call) (actor : Actor) {v : Version} {ws : List Version}
    → create c.command c.id c.now c.append_audit (run [] cs) ≡ ok (v, ws)
    → c'.command.expected_version ≡ c.command.expected_version
    → privileged c'.command.actor ≡ ok actor
    → has_metadata c'.command ≡ true
    → create c'.command c'.id c'.now c'.append_audit ws ≡ err conflict_error
unfolding create
create-conflict cs c c' actor {v} {ws} h same may fine =
    let vs = run [] cs in
    let (at, rows, a) =
      create-eq-ok c.command c.id c.now c.append_audit vs (run-AreStored cs [] tt) h in
    let (o, found, count) = find_current-AreStored ws (subst AreStored (sym rows) a) in
    let differ : (c'.command.expected_version == version_of o) ≡ false =
      ground (arith, at, count, rows, same) in
    rw (may, fine, found, differ) refl
