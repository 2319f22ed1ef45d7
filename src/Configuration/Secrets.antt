-- ===== src/Configuration/Secrets.antt =====
-- Where secrets could stand in the values: at the keys along the paths into them.
use crm_silmer.Base.{
  text_eq, nat_eq, ◌==◌, Bool-cases, ok, >>=-eq-ok, ok-injective, guard-eq-ok, any, values, ℕ, zero,
  suc, String, ◌≡◌, refl, ap, ◌∙◌, subst, inl, inr, Bool, true, false, ◌&&◌, Option, none, some,
  List, [], ◌∷◌, arith, eq_iff,
}
use crm_silmer.Base.Documents.{
  Json, bool, text, array, object, Items, nil, item, Fields, end, field, get, nth_item, has_exactly,
  PathStep, at_key, at_index, step_into,
}
use crm_silmer.Configuration.{
  is_secret, is_json_value, are_json_values, have_json_values, record_of, record_at, text_of,
  bool_of, is_non_empty, passes, is_fab, starts_with, includes_code, is_pix, is_recipient,
  are_templates, are_channels, is_off, are_feature_flags,
}
use crm_silmer.Configuration.Versions.{Sections, fields_of, normalize_values}

abbrev pub at_path : Json → List PathStep → Option Json
at_path j [] = some j
at_path j (s ∷ p) = elim (step_into s j) [ none ↦ none | some v ↦ at_path v p ]

abbrev pub names_secret : PathStep → Bool
names_secret (at_key k) = is_secret k
names_secret (at_index n) = false

get-IsJson :
    (k : String) (fs : Fields) {v : Json}
    → have_json_values fs ≡ true
    → get k fs ≡ some v
    → (is_secret k ≡ false) × (is_json_value v ≡ true)
unfolding have_json_values get
get-IsJson k end h e = cc
get-IsJson k (field j w fs) {v} h e = elim (Bool-cases (j == k)) [
  | inl here ↦ (subst (λ x. is_secret x ≡ false) ((eq_iff j k).0 here) (ground arith), ground arith)
  | inr there ↦ get-IsJson k fs {v = v} (ground arith) (ground arith)
]

nth_item-IsJson :
    (n : ℕ) (vs : Items) {v : Json}
    → are_json_values vs ≡ true
    → nth_item n vs ≡ some v
    → is_json_value v ≡ true
unfolding are_json_values
nth_item-IsJson n nil h e = cc
nth_item-IsJson zero (item w vs) h e = ground arith
nth_item-IsJson (suc n) (item w vs) h e = nth_item-IsJson n vs (ground arith) e

step_into-IsJson :
    (s : PathStep) (j : Json) {v : Json}
    → is_json_value j ≡ true
    → step_into s j ≡ some v
    → (names_secret s ≡ false) × (is_json_value v ≡ true)
unfolding is_json_value
step_into-IsJson (at_key k) (object fs) h e = get-IsJson k fs h e
step_into-IsJson (at_index n) (array vs) h e = (refl, nth_item-IsJson n vs h e)
step_into-IsJson s j h e = (cc, cc)

at_path-IsJson :
    (p : List PathStep) (j : Json) {v : Json}
    → is_json_value j ≡ true
    → at_path j p ≡ some v
    → any names_secret p ≡ false
at_path-IsJson [] j h = λ e. refl
at_path-IsJson (s ∷ p) j {v} h = found (step_into s j) refl λ w. at_path-IsJson p w {v = v}
  where
    found :
        (o : Option Json)
        → step_into s j ≡ o
        → ((w : Json) → is_json_value w ≡ true → at_path w p ≡ some v → any names_secret p ≡ false)
        → elim o [ none ↦ none | some w ↦ at_path w p ] ≡ some v
        → any names_secret (s ∷ p) ≡ false
    found none e deeper = λ t. cc
    found (some w) e deeper =
        λ t. let (own, rest) = step_into-IsJson s j h e in ground (arith, own, deeper w rest t)

-- What accepted values show: the checks that passed, section by section.
pub record Accepted (json : Json) (s : Sections) : Type 0 where
  pub values : json ≡ object s.values
  pub is_json : is_json_value json ≡ true
  pub pix : record_at "pix" s.values ≡ ok s.pix
  pub masked : is_pix s.pix ≡ true
  pub feature_flags : record_at "featureFlags" s.values ≡ ok s.feature_flags
  pub flags : are_feature_flags s.feature_flags ≡ true

test_right : (a b : Bool) → (a && b) ≡ true → b ≡ true
test_right a b h = ground arith

fields_of-eq-ok : (j : Json) {fs : Fields} → fields_of j ≡ ok fs → j ≡ object fs
fields_of-eq-ok (object gs) h = ground arith
fields_of-eq-ok j h = cc

pub normalize_values-eq-ok :
    (json : Json) {s : Sections} → normalize_values json ≡ ok s → Accepted json s
unfolding normalize_values
normalize_values-eq-ok json {s} h =
    let (values, hv, h1) = >>=-eq-ok (fields_of json) _ h in
    let (whole, h2) =
      guard-eq-ok
        (has_exactly ("channels" ∷ "fab" ∷ "featureFlags" ∷ "pix" ∷ "recipient" ∷ "templates" ∷ [])
            values
          && is_json_value json)
        _ _ h1 in
    let (fab, hf, h3) = >>=-eq-ok (record_at "fab" values) _ h2 in
    let (tf, h4) = guard-eq-ok (is_fab fab) _ _ h3 in
    let (pix, hp, h5) = >>=-eq-ok (record_at "pix" values) _ h4 in
    let (tp, h6) = guard-eq-ok (is_pix pix) _ _ h5 in
    let (recipient, hr, h7) = >>=-eq-ok (record_at "recipient" values) _ h6 in
    let (tr, h8) = guard-eq-ok (is_recipient recipient) _ _ h7 in
    let (templates, ht, h9) = >>=-eq-ok (record_at "templates" values) _ h8 in
    let (tt', h10) = guard-eq-ok (are_templates templates) _ _ h9 in
    let (channels, hc, h11) = >>=-eq-ok (record_at "channels" values) _ h10 in
    let (tc, h12) = guard-eq-ok (are_channels channels) _ _ h11 in
    let (flags, hl, h13) = >>=-eq-ok (record_at "featureFlags" values) _ h12 in
    let (tl, h14) = guard-eq-ok (are_feature_flags flags) _ _ h13 in
    subst (Accepted json) (ok-injective h14) (record {
      values = fields_of-eq-ok json hv;
      is_json = test_right _ _ whole;
      pix = hp;
      masked = tp;
      feature_flags = hl;
      flags = tl;
    })

record_of-eq-ok : (o : Option Json) {fs : Fields} → record_of o ≡ ok fs → o ≡ some (object fs)
record_of-eq-ok (some (object gs)) h = ground arith
record_of-eq-ok o h = cc

passes-text_of :
    (p : String → Bool) (o : Option Json)
    → passes p (text_of o) ≡ true
    → (r : String) × (o ≡ some (text r)) × (p r ≡ true)
passes-text_of p (some (text r)) h = (r, refl, h)
passes-text_of p o h = ("", cc, cc)

is_off-bool_of : (o : Option Json) → is_off (bool_of o) ≡ true → o ≡ some (bool false)
is_off-bool_of (some (bool false)) h = refl
is_off-bool_of o h = cc

at_path-get :
    (k : String) (fs : Fields) (p : List PathStep) {v : Json}
    → get k fs ≡ some v
    → at_path (object fs) (at_key k ∷ p) ≡ at_path v p
at_path-get k fs p h = ap (λ o. elim o [ none ↦ none | some w ↦ at_path w p ]) h

-- The key of a PIX section is a reference to a secret, and its other text is masked by a `*`.
pub record HidesKey (pix : Fields) : Type 0 where
  pub reference : String
  pub masked : String
  pub reference_at : get "keyReference" pix ≡ some (text reference)
  pub masked_at : get "maskedKey" pix ≡ some (text masked)
  pub is_reference : starts_with "secret://" reference ≡ true
  pub is_masked : includes_code 42 masked ≡ true

is_pix-HidesKey : (pix : Fields) → is_pix pix ≡ true → HidesKey pix
unfolding is_pix
is_pix-HidesKey pix h =
    let (r, at, fine) =
      passes-text_of (λ s. is_non_empty s && starts_with "secret://" s) (get "keyReference" pix)
        (ground arith) in
    let (m, at', fine') =
      passes-text_of (λ s. is_non_empty s && includes_code 42 s) (get "maskedKey" pix)
        (ground arith) in
    record {
      reference = r;
      masked = m;
      reference_at = at;
      masked_at = at';
      is_reference = ground (arith, fine);
      is_masked = ground (arith, fine');
    }

-- In values that pass `normalizeConfigurationValues`, no path leads through a key with the name of
-- a secret, the flag for the seller's commercial autonomy is there and off, and the PIX section
-- has a reference to its key and a masked text in place of the key.
pub normalize_values-hides :
    (json : Json) (s : Sections) (p : List PathStep) (v : Json)
    → normalize_values json ≡ ok s
    → at_path json p ≡ some v
    → (any names_secret p ≡ false)
      × (at_path json (at_key "featureFlags" ∷ at_key "vendedor_silmer_autonomia_comercial" ∷ [])
          ≡ some (bool false))
      × (at_path json (at_key "pix" ∷ []) ≡ some (object s.pix))
      × HidesKey s.pix
unfolding are_feature_flags
normalize_values-hides json s p v h e =
    let a = normalize_values-eq-ok json h in
    let pix = record_of-eq-ok (get "pix" s.values) a.pix in
    let flags = record_of-eq-ok (get "featureFlags" s.values) a.feature_flags in
    let off =
      is_off-bool_of (get "vendedor_silmer_autonomia_comercial" s.feature_flags)
        (ground (arith, a.flags)) in
    (
      at_path-IsJson p json a.is_json e,
      rw a.values (
          at_path-get "featureFlags" s.values (at_key "vendedor_silmer_autonomia_comercial" ∷ [])
            flags
          ∙ at_path-get "vendedor_silmer_autonomia_comercial" s.feature_flags [] off),
      rw a.values (at_path-get "pix" s.values [] pix),
      is_pix-HidesKey s.pix a.masked,
    )
