-- ===== src/Patches/Objects.antt =====
-- json-patch.ts `patchToFieldObject`: the last operation on a field decides.
use tftsp.Common.{
  ◌≡◌, refl, ap, ◌∙◌, false, Option, none, some, List, [], ◌∷◌, if◌then◌else◌, text_eq, text_eq_iff,
  is_empty, Text, arith,
}
use tftsp.Patches.{
  Json, Fields, end, field, JsonPatchOp, get_field, set_field, field_of, new_value, fields_from,
  patch_to_field_object,
}

pub get_field-set_field :
    (j k : Text) (v : Json) (fs : Fields)
    → get_field j (set_field k v fs) ≡ (if text_eq k j then some v else get_field j fs)
unfolding get_field set_field
get_field-set_field j k v end = refl
get_field-set_field j k v (field i w rest) =
    ground
      (arith, text_eq_iff k j, text_eq_iff i k, text_eq_iff i j, get_field-set_field j k v rest)

-- what the patch says of a field: the value of the last operation on it
abbrev pub last_value : Text → List JsonPatchOp → Option Json
last_value k [] = none
last_value k (o ∷ patch) = elim (last_value k patch) [
  | some v ↦ some v
  | none ↦ if text_eq (field_of o) k then some (new_value o) else none
]

abbrev pub or_first : Option Json → Option Json → Option Json
or_first none old = old
or_first (some v) old = some v

fields_from-get :
    (k : Text) (acc : Fields) (patch : List JsonPatchOp)
    → is_empty k ≡ false
    → get_field k (fields_from acc patch) ≡ or_first (last_value k patch) (get_field k acc)
unfolding fields_from
fields_from-get k acc [] h = refl
fields_from-get k acc (o ∷ patch) h =
    fields_from-get k
      (if is_empty (field_of o) then acc else set_field (field_of o) (new_value o) acc) patch h
    ∙ ground (
      arith,
      get_field-set_field k (field_of o) (new_value o) acc,
      text_eq_iff (field_of o) k,
      ap is_empty {x = field_of o} {y = k},
    )

-- For a name that is not empty: the field of the object is the value of the last operation on it (null
-- for a removal), and a field that no operation names is absent.
pub get_field-patch_to_field_object :
    (k : Text) (patch : List JsonPatchOp)
    → is_empty k ≡ false
    → get_field k (patch_to_field_object patch) ≡ last_value k patch
unfolding patch_to_field_object
get_field-patch_to_field_object k patch h =
    fields_from-get k end patch h ∙ unfold get_field in ground arith
