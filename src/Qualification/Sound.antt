-- ===== src/Qualification/Sound.antt =====
-- The items and the artwork's files of the deals.
use crm_silmer.Base.{
  text_eq, nat_eq, ◌==◌, Bool-cases, ok, >>=-eq-ok, ok-injective, guard-eq-ok, after, after-keeps,
  any, Table, lookup, put, lookup-put, ℕ, String, ◌≡◌, refl, sym, ap, subst, inl, inr, true, false,
  not, ◌||◌, Option, some, List, [], ◌∷◌, arith, eq_iff,
}
use crm_silmer.Qualification.{Snapshot, Item, File, State}
use crm_silmer.Qualification.Registry.{resolve_field, has_item}
use crm_silmer.Qualification.Evaluate.{state_of}
use crm_silmer.Qualification.Patches.{ItemPatch, AssessmentPatch, Patch, Texts}
use crm_silmer.Qualification.Items.{patched_item, place, remove_item, is_item_atomic, patch_items}
use crm_silmer.Qualification.Apply.{
  patch_artwork, is_target, patch_assessments, files_of, has_items, patched, apply_patch,
}

-- No two items have one id.
abbrev pub AreDistinct : List Item → Type 0
AreDistinct [] = Unit
AreDistinct (i ∷ items) = (has_item i.id items ≡ false) × AreDistinct items

pub record IsSound (s : State) : Type 0 where
  pub distinct : AreDistinct s.items
  pub anchored : has_items (files_of s.artwork) s.items ≡ true

module _ (texts : Texts) (deal_id : String) where
  has_item-place :
      (p : ItemPatch) (snapshot : Option Snapshot) (items : List Item) (j : String)
      → has_item j (place texts deal_id p snapshot items) ≡ (has_item j items || p.id == j)
  unfolding place patched_item
  has_item-place p snapshot [] j = ground arith
  has_item-place p snapshot (i ∷ items) j =
      ground
        (arith, eq_iff i.id p.id, eq_iff i.id j, eq_iff p.id j, has_item-place p snapshot items j)

  place-AreDistinct :
      (p : ItemPatch) (snapshot : Option Snapshot) (items : List Item)
      → AreDistinct items
      → AreDistinct (place texts deal_id p snapshot items)
  unfolding place patched_item
  place-AreDistinct p snapshot [] d = (refl, tt)
  place-AreDistinct p snapshot (i ∷ items) d = elim (Bool-cases (i.id == p.id)) [
    | inl same ↦ rw same d
    | inr differs ↦ rw differs (
      ground (arith, has_item-place p snapshot items i.id, eq_iff i.id p.id, eq_iff p.id i.id),
      place-AreDistinct p snapshot items d.1,
    )
  ]

  has_item-remove_item :
      (id j : String) (items : List Item)
      → has_item j items ≡ false
      → has_item j (remove_item texts deal_id id items) ≡ false
  unfolding remove_item
  has_item-remove_item id j [] h = refl
  has_item-remove_item id j (i ∷ items) h = ground (arith, has_item-remove_item id j items)

  remove_item-AreDistinct :
      (id : String) (items : List Item)
      → AreDistinct items
      → AreDistinct (remove_item texts deal_id id items)
  unfolding remove_item
  remove_item-AreDistinct id [] d = tt
  remove_item-AreDistinct id (i ∷ items) d = elim (Bool-cases (i.id == id)) [
    | inl same ↦ rw same d.1
    | inr differs ↦
        rw differs (has_item-remove_item id i.id items d.0, remove_item-AreDistinct id items d.1)
  ]

  patch_items-AreDistinct :
      (files : List File) (ps : List (ItemPatch × Option Snapshot)) (items : List Item)
      {next : List Item}
      → AreDistinct items
      → patch_items texts deal_id files ps items ≡ ok next
      → AreDistinct next
  unfolding patch_items place patched_item
  patch_items-AreDistinct files [] items d = λ h. subst AreDistinct (ok-injective h) d
  patch_items-AreDistinct files ((p, snapshot) ∷ ps) items {next} d = elim (Bool-cases p.removes) [
    | inl removes ↦ rw removes λ h.
        patch_items-AreDistinct files ps (remove_item texts deal_id p.id items)
          (remove_item-AreDistinct p.id items d)
          (guard-eq-ok (not (any (λ f. File.item_id f == p.id) files)) _ _ h).1
    | inr keeps ↦ rw keeps λ h.
        patch_items-AreDistinct files ps (place texts deal_id p snapshot items)
          (place-AreDistinct p snapshot items d)
          (guard-eq-ok (is_item_atomic texts deal_id p) _ _ h).1
  ]

  pub patch_assessments-keeps :
      (version : ℕ) (ps : List AssessmentPatch) (s : State) {t : State}
      → patch_assessments texts deal_id version ps s ≡ ok t
      → (t.items ≡ s.items) × (t.artwork ≡ s.artwork)
  unfolding patch_assessments
  patch_assessments-keeps version [] s h =
      (ap State.items (sym (ok-injective h)), ap State.artwork (sym (ok-injective h)))
  patch_assessments-keeps version (p ∷ ps) s h =
      patch_assessments-keeps version ps _
        (guard-eq-ok (is_target texts deal_id (resolve_field p.field) s) _ _ h).1

-- What a patch that is applied leaves of the items and the files.
pub patched-IsSound :
    (texts : Texts) (p : Patch) (s : State) {t : State}
    → AreDistinct s.items
    → patched texts p s ≡ ok t
    → IsSound t
unfolding patched
patched-IsSound texts p s {t} d h =
    let (items, hi, h1) =
      >>=-eq-ok (patch_items texts p.deal_id (files_of s.artwork) p.items s.items) _ h in
    let (artwork, ha, h2) =
      >>=-eq-ok (patch_artwork texts p.deal_id p.artwork p.artwork_snapshot items s.artwork) _ h1 in
    let (u, hu, h3) =
      >>=-eq-ok (patch_assessments texts p.deal_id p.resulting_version p.assessments _) _ h2 in
    let (files, h4) = guard-eq-ok (has_items (files_of u.artwork) u.items) _ _ h3 in
    let kept = patch_assessments-keeps texts p.deal_id p.resulting_version p.assessments _ hu in
    let distinct =
      patch_items-AreDistinct texts p.deal_id (files_of s.artwork) p.items s.items d hi in
    subst IsSound (ok-injective h4)
      (record { distinct = subst AreDistinct (sym kept.0) distinct; anchored = files })

-- The states after several patches, applied or refused.
unfoldable pub run : Texts → List Patch → Table State → Table State
run texts [] states = states
run texts (p ∷ ps) states = run texts ps (after states (apply_patch texts p states))

abbrev pub AreSound : Table State → Type 0
AreSound states = (deal_id : String) → IsSound (state_of (lookup deal_id states))

apply_patch-AreSound :
    (texts : Texts) (p : Patch) (states t : Table State)
    → AreSound states
    → apply_patch texts p states ≡ ok t
    → AreSound t
unfolding apply_patch
apply_patch-AreSound texts p states t a h deal_id =
    let s = state_of (lookup p.deal_id states) in
    let (next, made, h1) = >>=-eq-ok (patched texts p s) _ h in
    let sound = patched-IsSound texts p s (a p.deal_id).distinct made in
    let e = lookup-put p.deal_id deal_id next states in
    subst (λ x. IsSound (state_of (lookup deal_id x))) (ok-injective h1)
      (elim (Bool-cases (p.deal_id == deal_id)) [
        | inl same ↦
            let found : some next ≡ lookup deal_id (put p.deal_id next states) =
              ground (arith, e, same) in
            subst (λ o. IsSound (state_of o)) found sound
        | inr differs ↦
            let found : lookup deal_id states ≡ lookup deal_id (put p.deal_id next states) =
              ground (arith, e, differs) in
            subst (λ o. IsSound (state_of o)) found (a deal_id)
      ])

-- Where no deal has two items with one id, and every file of a deal's artwork belongs to one of its
-- items, this is so after any patches, refused ones among them.
pub run-AreSound :
    (texts : Texts) (ps : List Patch) (states : Table State)
    → AreSound states
    → AreSound (run texts ps states)
unfolding run
run-AreSound texts [] states a = a
run-AreSound texts (p ∷ ps) states a = run-AreSound texts ps _ (
    after-keeps AreSound states (apply_patch texts p states)
      (λ t h. apply_patch-AreSound texts p states t a h) a)
