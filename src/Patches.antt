-- ===== src/Patches.antt =====
-- apps/api/src/common/util/json-patch.ts: the patch that a change request carries. JSON values here
-- are scalars, identifiers (strings in the source) and objects; arrays are left out.
pub mod Pointers
pub mod Objects
mod Examples
use tftsp.Common.{
  ℕ, ◌≡◌, refl, Bool, true, false, ◌&&◌, ◌||◌, not, Option, none, some, List, [], ◌∷◌, ◌++◌, map,
  if◌then◌else◌, ◌==◌, Text, text_eq, is_empty, starts_with, text, M, return, throw, throw_if, ◌>>◌,
  bad_request, cr_invalid_patch, all,
}

mutual
  pub data Json : Type 0 where
    null : Json
    bool : Bool → Json
    num : ℕ → Json
    str : Text → Json
    uuid : ℕ → Json
    obj : Fields → Json

  -- the properties of an object, in the order of their insertion
  pub data Fields : Type 0 where
    end : Fields
    field : Text → Json → Fields → Fields

pub data Op : Type 0 where
  add remove replace : Op

-- `JsonPatchOp`; the value of a `remove` is not read
pub record JsonPatchOp : Type 0 where
  pub op : Op
  pub path : Text
  pub value : Json

-- `object[key]`
unfoldable pub get_field : Text → Fields → Option Json
get_field key end = none
get_field key (field k v rest) = if text_eq k key then some v else get_field key rest

-- `object[key] = value`
unfoldable pub set_field : Text → Json → Fields → Fields
set_field key value end = field key value end
set_field key value (field k v rest) =
    if text_eq k key then field k value rest else field k v (set_field key value rest)

-- `delete object[key]`
unfoldable pub delete_field : Text → Fields → Fields
delete_field key end = end
delete_field key (field k v rest) =
    let later = delete_field key rest in if text_eq k key then later else field k v later

-- One pass of `segment.replace(/~d/g, c)`: the flag says that a tilde was read and not yet written.
abbrev emit : ℕ → ℕ → Bool → ℕ → Text
emit d c false x = if x == 126 then [] else x ∷ []
emit d c true x = if x == d then c ∷ [] else if x == 126 then 126 ∷ [] else 126 ∷ (x ∷ [])

abbrev pending : ℕ → Bool → ℕ → Bool
pending d false x = x == 126
pending d true x = if x == d then false else x == 126

unfoldable pub replace_escape : ℕ → ℕ → Bool → Text → Text
replace_escape d c false [] = []
replace_escape d c true [] = 126 ∷ []
replace_escape d c tilde (x ∷ s) = emit d c tilde x ++ replace_escape d c (pending d tilde x) s

-- `decodeSegment`: first `~1` for a slash, then `~0` for a tilde
unfoldable pub decode_segment : Text → Text
unfolding replace_escape
decode_segment segment = replace_escape 48 126 false (replace_escape 49 47 false segment)

-- `s.split('/')`, with the current part
unfoldable pub split_slash : Text → Text → List Text
split_slash part [] = part ∷ []
split_slash part (c ∷ s) = elim (c == 47) [
  | true ↦ part ∷ split_slash [] s
  | false ↦ split_slash (part ++ c ∷ []) s
]

abbrev pub drop_first : List Text → List Text
drop_first [] = []
drop_first (_ ∷ parts) = parts

-- `path.split('/').slice(1).map(decodeSegment)`
unfoldable pub segments : Text → List Text
unfolding split_slash decode_segment
segments path = map decode_segment (drop_first (split_slash [] path))

-- `path.split('/')[1] ?? ''`
abbrev pub second_or_empty : List Text → Text
second_or_empty [] = []
second_or_empty (_ ∷ []) = []
second_or_empty (_ ∷ (s ∷ _)) = s

-- the top-level field that an operation writes
unfoldable pub field_of : JsonPatchOp → Text
unfolding split_slash decode_segment
field_of o = decode_segment (second_or_empty (split_slash [] o.path))

abbrev pub new_value : JsonPatchOp → Json
new_value o = elim o.op [ remove ↦ null | _ ↦ o.value ]

-- the loop of `patchToFieldObject`
unfoldable pub fields_from : Fields → List JsonPatchOp → Fields
unfolding field_of set_field
fields_from acc [] = acc
fields_from acc (o ∷ patch) =
    fields_from (if is_empty (field_of o) then acc else set_field (field_of o) (new_value o) acc)
      patch

unfoldable pub patch_to_field_object : List JsonPatchOp → Fields
unfolding fields_from
patch_to_field_object patch = fields_from end patch

abbrev pub fields_in : Option Json → Fields
fields_in (some (obj fs)) = fs
fields_in _ = end

abbrev pub write_leaf : JsonPatchOp → Text → Fields → Fields
write_leaf o leaf fs = elim o.op [ remove ↦ delete_field leaf fs | _ ↦ set_field leaf o.value fs ]

-- the walk of `applyJsonPatch` down one path: what is no object on the way becomes an empty one
unfoldable pub apply_at : JsonPatchOp → Text → List Text → Fields → Fields
unfolding get_field set_field delete_field
apply_at o key [] fs = write_leaf o key fs
apply_at o key (next ∷ rest) fs =
    set_field key (obj (apply_at o next rest (fields_in (get_field key fs)))) fs

unfoldable pub apply_op : {S : Type 0} → JsonPatchOp → Fields → M S Fields
unfolding segments apply_at
apply_op o fs = elim (segments o.path) [
  | [] ↦ throw (bad_request cr_invalid_patch)
  | key ∷ rest ↦ return (apply_at o key rest fs)
]

-- what `assertValidPatch` reads of an element of the request body
pub record RawOp : Type 0 where
  pub op : Option Text
  pub path : Option Text

abbrev is_known_op : Option Text → Bool
is_known_op none = false
is_known_op (some s) =
    text_eq s (text "add") || (text_eq s (text "remove") || text_eq s (text "replace"))

abbrev starts_with_slash : Option Text → Bool
starts_with_slash none = false
starts_with_slash (some s) = starts_with 47 s

-- `assertValidPatch`; `none` is a body that is no array
unfoldable pub assert_valid_patch : {S : Type 0} → Option (List RawOp) → M S (Unit {0})
assert_valid_patch none = throw (bad_request cr_invalid_patch)
assert_valid_patch (some []) = throw (bad_request cr_invalid_patch)
assert_valid_patch (some (o ∷ ops)) =
    throw_if (not (all (λ r. is_known_op r.op && starts_with_slash r.path) (o ∷ ops)))
      (bad_request cr_invalid_patch)
