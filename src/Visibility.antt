-- ===== src/Visibility.antt =====
-- apps/api/src/modules/visibility/visibility.resolver.ts: which persons a viewer sees, and which of
-- their fields. The context of the viewer is an argument.
use tftsp.Common.{
  ℕ, Bool, true, false, Option, none, some, List, [], ◌∷◌, ◌&&◌, ◌||◌, not, if◌then◌else◌, ltb, mem,
  Text, is_some,
}
use tftsp.Domain.{Gender, male, female}
use tftsp.Database.{Person}
pub mod Secrecy
pub mod Assigned
pub mod Bypass
pub mod Context
pub mod Fuel
pub mod Subtrees
pub mod Viewer
mod Examples
mod ViewerExamples

pub data ScopeKind : Type 0 where
  tribe_scope unit_scope direct_scope empty_scope : ScopeKind

pub data WomenDisplay : Type 0 where
  under_father with_siblings under_husband hidden : WomenDisplay

-- a row of `visibility_settings`, as far as the resolver reads it
pub record VisibilitySettings : Type 0 where
  pub show_deceased : Bool
  pub show_minors : Bool
  pub show_photos : Bool
  pub show_birth_dates : Bool
  pub women_display : WomenDisplay

pub record ViewerContext : Type 0 where
  pub bypass_policies : Bool
  pub scope : ScopeKind
  pub unit_ids : List ℕ
  pub direct_person_ids : List ℕ
  pub settings : VisibilitySettings

-- a person as the resolver lets it through; a deleted key is `none`
pub record Projection : Type 0 where
  pub id : ℕ
  pub full_name : Text
  pub first_name : Text
  pub father_name : Option Text
  pub grandfather_name : Option Text
  pub family_name : Option Text
  pub laqab : Option Text
  pub gender : Gender
  pub birth_date : Option (Option ℕ)
  pub birth_place : Option Text
  pub death_date : Option ℕ
  pub is_deceased : Bool
  pub father_id : Option ℕ
  pub mother_id : Option ℕ
  pub tribal_unit_id : Option ℕ
  pub profession : Option Text
  pub biography : Option Text
  pub photo_key : Option (Option Text)
  pub version : ℕ
  pub created_by : ℕ
  pub import_batch_id : Option ℕ
  pub deleted_at : Option ℕ

abbrev unit_in : List ℕ → Option ℕ → Bool
unit_in units none = false
unit_in units (some u) = mem u units

-- `inScope`
unfoldable pub in_scope : ViewerContext → ℕ → Person → Bool
in_scope ctx id p = elim ctx.scope [
  | tribe_scope ↦ true
  | unit_scope ↦ unit_in ctx.unit_ids p.tribal_unit_id
  | direct_scope ↦ mem id ctx.direct_person_ids
  | empty_scope ↦ false
]

-- `isMinor`; the first argument is the instant eighteen years ago
abbrev pub is_minor : ℕ → Option ℕ → Bool
is_minor eighteen none = false
is_minor eighteen (some birth) = ltb eighteen birth

abbrev pub is_hidden : WomenDisplay → Bool
is_hidden hidden = true
is_hidden _ = false

abbrev pub is_female : Gender → Bool
is_female female = true
is_female male = false

-- the policies of the tribe on who is shown to a viewer who is no administrator
unfoldable pub passes_policies : ViewerContext → ℕ → ℕ → Person → Bool
passes_policies ctx eighteen id p =
    if not ctx.settings.show_deceased && p.is_deceased
    then false
    else if not ctx.settings.show_minors && is_minor eighteen p.birth_date
    then false
    else if is_hidden ctx.settings.women_display
        && (is_female p.gender && not (mem id ctx.direct_person_ids))
    then false
    else true

-- `isVisible`
unfoldable pub is_visible : ViewerContext → ℕ → ℕ → Person → Bool
unfolding in_scope passes_policies
is_visible ctx eighteen id p =
    if not (in_scope ctx id p)
    then false
    else if ctx.bypass_policies
    then true
    else passes_policies ctx eighteen id p

-- a key that is deleted unless the test holds
abbrev kept_if : {A : Type 0} → Bool → A → Option A
kept_if true a = some a
kept_if false a = none

-- `redact`
unfoldable pub redact : ViewerContext → ℕ → Person → Projection
redact ctx id p = record {
  id = id;
  full_name = p.full_name;
  first_name = p.first_name;
  father_name = p.father_name;
  grandfather_name = p.grandfather_name;
  family_name = p.family_name;
  laqab = p.laqab;
  gender = p.gender;
  birth_date = kept_if (ctx.bypass_policies || ctx.settings.show_birth_dates) p.birth_date;
  birth_place = p.birth_place;
  death_date = p.death_date;
  is_deceased = p.is_deceased;
  father_id = p.father_id;
  mother_id = p.mother_id;
  tribal_unit_id = p.tribal_unit_id;
  profession = p.profession;
  biography = p.biography;
  photo_key = kept_if (ctx.bypass_policies || ctx.settings.show_photos) p.photo_key;
  version = p.version;
  created_by = p.created_by;
  import_batch_id = p.import_batch_id;
  deleted_at = p.deleted_at;
}

-- `filterPersons`, of rows with their identifiers
unfoldable pub filter_persons : ViewerContext → ℕ → List (ℕ × Person) → List Projection
unfolding is_visible redact
filter_persons ctx eighteen [] = []
filter_persons ctx eighteen (row ∷ rows) =
    let rest = filter_persons ctx eighteen rows in
    if is_visible ctx eighteen row.0 row.1 then redact ctx row.0 row.1 ∷ rest else rest

-- `resolveOne`
unfoldable pub resolve_one : ViewerContext → ℕ → ℕ → Option Person → Option Projection
unfolding is_visible redact
resolve_one ctx eighteen id none = none
resolve_one ctx eighteen id (some p) =
    if is_visible ctx eighteen id p then some (redact ctx id p) else none
