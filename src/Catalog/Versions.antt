-- ===== src/Catalog/Versions.antt =====
-- The versions that the service publishes.
use crm_silmer.Base.{
  text_eq, nat_eq, ◌==◌, ok, err, >>=-eq-ok, guard-eq-ok, length, any, any-append, All, All-append,
  values, trim, trim-trim, ℕ, suc, ◌+◌, String, ◌≡◌, refl, sym, subst, Bool, false, not, ◌&&◌, List,
  [], ◌∷◌, ◌++◌, arith, eq_iff,
}
use crm_silmer.Catalog.{
  Checked, is_non_empty, normalize_catalog_values, Version, is_number, create_published_version,
}
use crm_silmer.Catalog.Service.{
  PublishInput, AuditEvent, max, latest_from, privileged, append, published_event, next_version,
  publish,
}
use crm_silmer.Catalog.Entries.{normalize-eq-ok, normalize-ok}

-- The numbers count up by one from a first number.
abbrev pub Numbered : ℕ → List Version → Type 0
Numbered n [] = Unit
Numbered n (v ∷ vs) = (v.number ≡ n) × Numbered (suc n) vs

-- Each version is what `createPublishedCatalogVersion` leaves as it is, and no id stands twice.
abbrev pub AreDistinct : List Version → Type 0
AreDistinct [] = Unit
AreDistinct (v ∷ vs) = (any (λ w. Version.id w == v.id) vs ≡ false) × AreDistinct vs

pub record AreVersions (vs : List Version) : Type 0 where
  pub numbered : Numbered 1 vs
  pub distinct : AreDistinct vs
  pub made : All (λ v. create_published_version v ≡ ok v) vs

latest_from-Numbered :
    (n : ℕ) (vs : List Version) → Numbered (suc n) vs → latest_from n vs ≡ n + length vs
unfolding latest_from
latest_from-Numbered n [] h = omega arith
latest_from-Numbered n (v ∷ vs) h =
    let e : max n v.number ≡ suc n = ground (arith, h.0) in
    rw e (ground (arith, latest_from-Numbered (suc n) vs h.1))

Numbered-append :
    (n : ℕ) (vs : List Version) (v : Version)
    → Numbered n vs
    → v.number ≡ n + length vs
    → Numbered n (vs ++ (v ∷ []))
Numbered-append n [] v h e = (ground arith, tt)
Numbered-append n (w ∷ vs) v h e = (h.0, Numbered-append (suc n) vs v h.1 (ground arith))

AreDistinct-append :
    (vs : List Version) (v : Version)
    → AreDistinct vs
    → any (λ w. Version.id w == v.id) vs ≡ false
    → AreDistinct (vs ++ (v ∷ []))
AreDistinct-append [] v h e = (refl, tt)
AreDistinct-append (w ∷ vs) v h e = (
  ground (
    arith,
    any-append (λ u. Version.id u == w.id) vs (v ∷ []),
    eq_iff v.id w.id,
    eq_iff w.id v.id,
    h.0,
  ),
  AreDistinct-append vs v h.1 (ground arith),
)

is_non_empty-trim : (s : String) → is_non_empty (trim s) ≡ is_non_empty s
unfolding is_non_empty
is_non_empty-trim s = rw (trim-trim s) refl

create_published_version-eq-ok :
    (v w : Version)
    → create_published_version v ≡ ok w
    → (w ≡ record v { reason = trim v.reason }) × (create_published_version w ≡ ok w)
unfolding create_published_version
create_published_version-eq-ok v w h =
    let (test, h1) =
      guard-eq-ok
        (is_non_empty v.id
          && is_non_empty v.published_by
          && is_non_empty v.reason
          && is_number v.number)
        _ _ h in
    let (values, made, h2) = >>=-eq-ok (normalize_catalog_values v.values) _ h1 in
    let (c, same) = normalize-eq-ok v.values values made in
    let u = record v { reason = trim v.reason } in
    let e : w ≡ u = ground (arith, h2, same) in
    (
      e,
      subst (λ x. create_published_version x ≡ ok x) (sym e)
          (rw (is_non_empty-trim v.reason, test, normalize-ok v.values c, trim-trim v.reason) refl),
    )

pub append-eq-ok :
    (n : ℕ) (v : Version) (vs ws : List Version)
    → append n v vs ≡ ok ws
    → (any (λ w. Version.id w == v.id) vs ≡ false) × (ws ≡ vs ++ (v ∷ []))
unfolding append
append-eq-ok n v vs ws h =
    let (at, h1) = guard-eq-ok (latest_from 0 vs == n) _ _ h in
    let (free, h2) = guard-eq-ok (not (any (λ w. Version.id w == v.id) vs)) _ _ h1 in
    (ground arith, ground arith)

-- What a publication commits: the version last, at the next number.
pub publish-eq-ok :
    (input : PublishInput) (id : String) (now : ℕ) (append_audit : AuditEvent → Bool)
    (vs : List Version) {v : Version} {ws : List Version}
    → publish input id now append_audit vs ≡ ok (v, ws)
    → (v.number ≡ latest_from 0 vs + 1)
      × (create_published_version v ≡ ok v)
      × (any (λ w. Version.id w == v.id) vs ≡ false)
      × (ws ≡ vs ++ (v ∷ []))
unfolding publish next_version
publish-eq-ok input id now append_audit vs {v} {ws} h =
    let (actor, hp, h1) = >>=-eq-ok (privileged input.actor) _ h in
    let (fine, h2) =
      guard-eq-ok (is_non_empty input.correlation_id && is_non_empty input.reason) _ _ h1 in
    let draft = next_version input actor id now vs in
    let (made, hm, h3) = >>=-eq-ok (create_published_version draft) _ h2 in
    let (rows, ha, h4) = >>=-eq-ok (append (latest_from 0 vs) made vs) _ h3 in
    let (stored, h5) = guard-eq-ok (append_audit (published_event input actor made)) _ _ h4 in
    let (e, again) = create_published_version-eq-ok draft made hm in
    let (free, last) = append-eq-ok (latest_from 0 vs) made vs rows ha in
    let same : made ≡ v = ground arith in
    let same_rows : rows ≡ ws = ground arith in
    (
      ground (arith, e, same),
      subst (λ x. create_published_version x ≡ ok x) same again,
      subst (λ x. any (λ w. Version.id w == x.id) vs ≡ false) same free,
      ground (arith, same, same_rows, last),
    )

abbrev committed : List Version → Checked (Version × List Version) → List Version
committed vs (err e) = vs
committed vs (ok (v, ws)) = ws

All-last :
    (P : Version → Type 0) (vs : List Version) (v : Version)
    → All P vs
    → P v
    → All P (vs ++ (v ∷ []))
All-last P vs v h p = All-append P vs (v ∷ []) h (p, tt)

-- A call of `publish`, and the versions after several.
pub record Call : Type 0 where
  pub input : PublishInput
  pub id : String
  pub now : ℕ
  pub append_audit : AuditEvent → Bool

unfoldable pub run : List Version → List Call → List Version
run vs [] = vs
run vs (c ∷ cs) = run (committed vs (publish c.input c.id c.now c.append_audit vs)) cs

committed-AreVersions :
    (c : Call) (vs : List Version) (r : Checked (Version × List Version))
    → publish c.input c.id c.now c.append_audit vs ≡ r
    → AreVersions vs
    → AreVersions (committed vs r)
committed-AreVersions c vs (err e) h a = a
committed-AreVersions c vs (ok (v, ws)) h a =
    let (next, made, free, last) = publish-eq-ok c.input c.id c.now c.append_audit vs h in
    let n = latest_from-Numbered 0 vs a.numbered in
    subst AreVersions (sym last) (record {
      numbered = Numbered-append 1 vs v a.numbered (ground arith);
      distinct = AreDistinct-append vs v a.distinct free;
      made = All-last (λ w. create_published_version w ≡ ok w) vs v a.made made;
    })

-- Versions where the n-th has the number n, no two have one id, and each passes the validation
-- unchanged, are so again after any calls of `publish`, refused ones among them.
pub run-AreVersions :
    (cs : List Call) (vs : List Version) → AreVersions vs → AreVersions (run vs cs)
unfolding run
run-AreVersions [] vs a = a
run-AreVersions (c ∷ cs) vs a =
    run-AreVersions cs _
      (committed-AreVersions c vs (publish c.input c.id c.now c.append_audit vs) refl a)
