-- ===== src/Qualification/Apply.antt =====
-- `applyPatch`: the artwork, the logistics and the assessments, and the whole patch.
use crm_silmer.Base.{
  text_eq, nat_eq, ◌==◌, if◌then◌else◌, is_some, Result, ok, guard, ◌>>=◌, ◌>>◌, length, any, all,
  Table, lookup, put, decimal, ℕ, String, Bool, true, false, not, ◌||◌, Option, none, some, List,
  [], ◌∷◌, ◌++◌, map,
}
use crm_silmer.Qualification.{
  QualificationError, invalid, Entry, ArtworkSnapshot, Item, File, ArtworkStatus, not_applicable,
  Artwork, Mode, delivery, pickup, Logistics, Change, State,
}
use crm_silmer.Qualification.Registry.{Definition, resolve_field, has_item, is_applicable}
use crm_silmer.Qualification.Evaluate.{state_of}
use crm_silmer.Qualification.Patches.{
  ColorsPatch, LocationPatch, ArtworkPatch, LogisticsPatch, AssessmentPatch, Patch, Texts,
}
use crm_silmer.Qualification.Items.{
  or_else, map_option, value_or, map_from, filled, is_atomic, encrypt, encrypted, patch_order,
  patch_items,
}

module _ (texts : Texts) (deal_id : String) where
  abbrev empty_artwork : Artwork
  empty_artwork = record {
    catalog_snapshot = none;
    colors = [];
    files = [];
    locations = [];
    responsibility_envelope = none;
    status = none;
    technique_code = none;
  }

  -- `isNoApplication`
  abbrev is_no_application : Entry → Bool
  is_no_application t =
      texts.plain_capitals t.code == "SEM APLICACAO"
      || texts.plain_capitals t.name == "SEM APLICACAO"

  abbrev prints : Option ArtworkSnapshot → Bool
  prints none = false
  prints (some a) = elim a.technique [ none ↦ false | some t ↦ not (is_no_application t) ]

  abbrev has_model : Item → Bool
  has_model i = elim i.catalog_snapshot [ none ↦ false | some c ↦ is_some c.model ]

  abbrev patched_artwork : ArtworkPatch → Option ArtworkSnapshot → Artwork → Artwork
  unfolding decimal
  patched_artwork p snapshot a = record {
    catalog_snapshot = or_else snapshot a.catalog_snapshot;
    status = or_else p.status a.status;
    colors = value_or a.colors (
        map_option
          (map_from
            (λ n g. record {
              location_id = ColorsPatch.location_id g;
              values_envelope =
                  encrypt texts deal_id g.values_json ("artwork" ∷ "colors" ∷ decimal n ∷ []);
            })
            0)
          p.colors);
    files = value_or a.files p.files;
    locations = value_or a.locations (
        map_option
          (map (λ l. record {
            id = LocationPatch.id l;
            name_envelope = encrypt texts deal_id l.name ("artwork" ∷ "locations" ∷ l.id ∷ []);
          }))
          p.locations);
    responsibility_envelope =
        or_else (encrypted texts deal_id ("artwork" ∷ "responsibility" ∷ []) p.responsibility)
          a.responsibility_envelope;
    technique_code = elim snapshot [
      | none ↦ a.technique_code
      | some c ↦ or_else p.technique_code a.technique_code
    ];
  }

  abbrev no_print : ArtworkPatch → Option ArtworkSnapshot → Artwork
  no_print p snapshot = record empty_artwork {
    catalog_snapshot = snapshot;
    status = p.status;
    technique_code = p.technique_code;
  }

  abbrev is_no_print : Option ArtworkStatus → Bool
  is_no_print (some not_applicable) = true
  is_no_print _ = false

  unfoldable pub patch_artwork :
      Option ArtworkPatch
      → Option ArtworkSnapshot
      → List Item
      → Option Artwork
      → Result QualificationError (Option Artwork)
  unfolding patched_artwork
  patch_artwork none snapshot items artwork = ok artwork
  patch_artwork (some p) snapshot items artwork = do
    guard (is_atomic (is_some p.catalog_version_id ∷ is_some p.technique_code ∷ [])) invalid
    if is_no_print p.status
        then (do
          guard (not (prints snapshot || not (any has_model items))) invalid
          ok (some (no_print p snapshot)))
        else ok (some (patched_artwork p snapshot (value_or empty_artwork artwork)))

  abbrev empty_logistics : Logistics
  empty_logistics = record {
    desired_date = none;
    mode = none;
    address_envelope = none;
    city_envelope = none;
    pickup_location_envelope = none;
    purchase_profile_envelope = none;
    purpose_envelope = none;
  }

  -- A mode of delivery drops what belongs to the other one.
  abbrev with_mode : Option Mode → Logistics → Logistics
  with_mode none l = l
  with_mode (some delivery) l = record l { mode = some delivery; pickup_location_envelope = none }
  with_mode (some pickup) l = record l {
    mode = some pickup;
    address_envelope = none;
    city_envelope = none;
  }

  unfoldable pub patch_logistics : Option LogisticsPatch → Option Logistics → Option Logistics
  patch_logistics none logistics = logistics
  patch_logistics (some p) logistics =
      let l = with_mode p.mode (value_or empty_logistics logistics) in
      let enc : String → Option String → Option String =
        λ name. encrypted texts deal_id ("logistics" ∷ name ∷ []) in
      some (record l {
        desired_date = or_else p.desired_date l.desired_date;
        address_envelope = or_else (enc "address" p.address) l.address_envelope;
        city_envelope = or_else (enc "city" p.city) l.city_envelope;
        pickup_location_envelope =
            or_else (enc "pickupLocation" p.pickup_location) l.pickup_location_envelope;
        purchase_profile_envelope =
            or_else (enc "purchaseProfile" p.purchase_profile) l.purchase_profile_envelope;
        purpose_envelope = or_else (enc "purpose" p.purpose) l.purpose_envelope;
      })

  abbrev pub is_target : Option Definition → State → Bool
  is_target none s = false
  is_target (some d) s = is_applicable d s

  unfoldable pub patch_assessments :
      ℕ → List AssessmentPatch → State → Result QualificationError State
  unfolding decimal
  patch_assessments version [] s = ok s
  patch_assessments version (p ∷ ps) s = do
    guard (is_target (resolve_field p.field) s) invalid
    patch_assessments version ps (record s {
      assessments =
          s.assessments
          ++ (record {
            field = p.field;
            status = p.status;
            reason_envelope =
                encrypted texts deal_id
                  ("assessments" ∷ decimal (length s.assessments) ∷ "reason" ∷ [])
                  (filled p.reason);
            resulting_version = version;
          }
              ∷ []);
    })

abbrev pub files_of : Option Artwork → List File
files_of none = []
files_of (some a) = a.files

-- Every file belongs to an item.
abbrev pub has_items : List File → List Item → Bool
has_items files items = all (λ f. has_item (File.item_id f) items) files

unfoldable pub change_of : Texts → Patch → Change
unfolding decimal
change_of texts p = record {
  fields_fingerprint = p.fields_fingerprint;
  reason_code = p.reason_code;
  reason_detail_envelope =
      encrypted texts p.deal_id ("changes" ∷ decimal p.resulting_version ∷ "reasonDetail" ∷ [])
        (filled p.reason_detail);
  resulting_version = p.resulting_version;
}

unfoldable pub patched : Texts → Patch → State → Result QualificationError State
unfolding decimal
patched texts p s = do
  items ← patch_items texts p.deal_id (files_of s.artwork) p.items s.items
  artwork ← patch_artwork texts p.deal_id p.artwork p.artwork_snapshot items s.artwork
  t ← patch_assessments texts p.deal_id p.resulting_version p.assessments (record s {
    artwork = artwork;
    items = items;
    logistics = patch_logistics texts p.deal_id p.logistics s.logistics;
    observations = value_or s.observations (
        map_option (map_from (λ n o. encrypt texts p.deal_id o ("observations" ∷ decimal n ∷ [])) 0)
          p.observations);
    order = patch_order texts p.deal_id p.order s.order;
  })
  guard (has_items (files_of t.artwork) t.items) invalid
  ok (record t { changes = t.changes ++ (change_of texts p ∷ []) })

-- `applyPatch`: the states of the deals after it.
unfoldable pub apply_patch : Texts → Patch → Table State → Result QualificationError (Table State)
apply_patch texts p states = do
  next ← patched texts p (state_of (lookup p.deal_id states))
  ok (put p.deal_id next states)
