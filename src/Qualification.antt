-- ===== src/Qualification.antt =====
-- The state of modules/qualification/src/in-memory-qualification-repository.js, which `applyPatch`
-- writes and the gates read. An envelope is what the cipher makes of a text.
pub mod Registry
pub mod Gates
pub mod Evaluate
pub mod Patches
pub mod Items
pub mod Apply
pub mod Sound
pub mod Blocked
mod Tests
use crm_silmer.Base.{Table, ℕ, String, Bool, Option, none, List, [], ◌∷◌}

pub data QualificationError : Type 0 where
  invalid : QualificationError

pub record Entry : Type 0 where
  pub code : String
  pub name : String

-- What the catalog gives for an item and for the artwork of a patch.
pub record Snapshot : Type 0 where
  pub model : Option Entry
  pub materials : List Entry

pub record ArtworkSnapshot : Type 0 where
  pub technique : Option Entry

pub record OrderState : Type 0 where
  pub commercial_intent : Option Bool
  pub customer_envelope : Option String
  pub name_envelope : Option String

pub record Fabric : Type 0 where
  pub code : String
  pub snapshot : Option Entry

pub record GradeLine : Type 0 where
  pub duplicate_size_reason_envelope : Option String
  pub quantity : ℕ
  pub size_envelope : String
  pub size_lookup : String

pub record Item : Type 0 where
  pub id : String
  pub catalog_snapshot : Option Snapshot
  pub colors : Table String
  pub estimated_quantity : Option ℕ
  pub fabrics : List Fabric
  pub grade : List GradeLine
  pub model_code : Option String
  pub product_code : Option String

pub record ColorGroup : Type 0 where
  pub location_id : String
  pub values_envelope : String

pub record File : Type 0 where
  pub id : String
  pub item_id : String

pub record Location : Type 0 where
  pub id : String
  pub name_envelope : String

pub data ArtworkStatus : Type 0 where
  not_applicable ready pending : ArtworkStatus

pub record Artwork : Type 0 where
  pub catalog_snapshot : Option ArtworkSnapshot
  pub colors : List ColorGroup
  pub files : List File
  pub locations : List Location
  pub responsibility_envelope : Option String
  pub status : Option ArtworkStatus
  pub technique_code : Option String

pub data Mode : Type 0 where
  delivery pickup : Mode

pub record Logistics : Type 0 where
  pub desired_date : Option String
  pub mode : Option Mode
  pub address_envelope : Option String
  pub city_envelope : Option String
  pub pickup_location_envelope : Option String
  pub purchase_profile_envelope : Option String
  pub purpose_envelope : Option String

-- `pendente`, `divergente`, `nao_aplicavel` and the other statuses of an assessment.
pub data AssessmentStatus : Type 0 where
  open_status divergent set_aside settled : AssessmentStatus

pub record Assessment : Type 0 where
  pub field : String
  pub status : AssessmentStatus
  pub reason_envelope : Option String
  pub resulting_version : ℕ

pub record Change : Type 0 where
  pub fields_fingerprint : String
  pub reason_code : String
  pub reason_detail_envelope : Option String
  pub resulting_version : ℕ

pub record State : Type 0 where
  pub assessments : List Assessment
  pub artwork : Option Artwork
  pub changes : List Change
  pub items : List Item
  pub logistics : Option Logistics
  pub observations : List String
  pub order : Option OrderState

-- `emptyQualificationState`
abbrev pub empty_state : State
empty_state = record {
  assessments = [];
  artwork = none;
  changes = [];
  items = [];
  logistics = none;
  observations = [];
  order = none;
}

-- `PIECE_COLORS`
abbrev pub piece_colors : List String
piece_colors = "front" ∷ "back" ∷ "rightSleeve" ∷ "leftSleeve" ∷ "collarTrim" ∷ "sleeveTrim" ∷ []
