-- ===== src/Qualification/Patches.antt =====
-- The inputs of `applyPatch`. A field that is not in a patch is `none`.
use crm_silmer.Base.{Table, ℕ, String, Bool, Option, List}
use crm_silmer.Qualification.{
  Snapshot, ArtworkSnapshot, File, ArtworkStatus, Mode, AssessmentStatus,
}

pub record LinePatch : Type 0 where
  pub duplicate_size_reason : Option String
  pub quantity : ℕ
  pub size : String

pub record ItemPatch : Type 0 where
  pub id : String
  pub removes : Bool
  pub catalog_version_id : Option String
  pub product_code : Option String
  pub model_code : Option String
  pub fabrics : Option (List String)
  pub estimated_quantity : Option ℕ
  pub colors : Option (Table String)
  pub grade : Option (List LinePatch)

pub record OrderPatch : Type 0 where
  pub commercial_intent : Option Bool
  pub customer : Option String
  pub name : Option String

-- A group of colors has its values as the text that `JSON.stringify` makes of them.
pub record ColorsPatch : Type 0 where
  pub location_id : String
  pub values_json : String

pub record LocationPatch : Type 0 where
  pub id : String
  pub name : String

pub record ArtworkPatch : Type 0 where
  pub catalog_version_id : Option String
  pub technique_code : Option String
  pub status : Option ArtworkStatus
  pub colors : Option (List ColorsPatch)
  pub files : Option (List File)
  pub locations : Option (List LocationPatch)
  pub responsibility : Option String

pub record LogisticsPatch : Type 0 where
  pub desired_date : Option String
  pub mode : Option Mode
  pub address : Option String
  pub city : Option String
  pub pickup_location : Option String
  pub purchase_profile : Option String
  pub purpose : Option String

pub record AssessmentPatch : Type 0 where
  pub field : String
  pub reason : Option String
  pub status : AssessmentStatus

-- `fields`, and the rest of an input; an item's snapshot stands by its patch.
pub record Patch : Type 0 where
  pub deal_id : String
  pub order : Option OrderPatch
  pub items : List (ItemPatch × Option Snapshot)
  pub artwork : Option ArtworkPatch
  pub artwork_snapshot : Option ArtworkSnapshot
  pub logistics : Option LogisticsPatch
  pub observations : Option (List String)
  pub assessments : List AssessmentPatch
  pub fields_fingerprint : String
  pub reason_code : String
  pub reason_detail : Option String
  pub resulting_version : ℕ

-- The cipher, `toLocaleLowerCase('pt-BR')`, and a technique's text without diacritics, with spaces
-- for its hyphens and in capitals.
pub record Texts : Type 0 where
  pub encrypt : (value scope : String) → String
  pub lower_case : String → String
  pub plain_capitals : String → String
