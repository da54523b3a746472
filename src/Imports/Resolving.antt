-- ===== src/Imports/Resolving.antt =====
-- import-parse.service.ts: the references of the rows, first inside the file, then against the names
-- on record, and the search for duplicates. The two raw queries for names are parameters.
use tftsp.Common.{
  ℕ, Option, none, some, List, [], ◌∷◌, ◌++◌, ◌&&◌, not, is_some, if◌then◌else◌, Text,
}
use tftsp.Domain.{Gender}
use tftsp.Persons.Writes.{is_male}
use tftsp.Imports.{RowWork, RowError, Column, RowErrorKey, find_ref}
use tftsp.Imports.Parsing.{cell, ref_target, is_ref}

abbrev pub push_error : Column → RowErrorKey → RowWork → RowWork
push_error column message w = record w {
  errors = w.errors ++ record { column = column; message = message } ∷ [];
}

abbrev not_found_key : Column → RowErrorKey
not_found_key Column.mother_column = RowErrorKey.mother_not_found
not_found_key _ = RowErrorKey.father_not_found

-- `inFileTarget`: the target, and the errors that it pushes
unfoldable pub in_file_target : Option Text → List RowWork → Column → Option Text × List RowError
unfolding ref_target
in_file_target value works column = elim (cell value) [
  | none ↦ (none, [])
  | some v ↦ elim (ref_target v) [
    | none ↦ (none, [])
    | some target ↦ elim (find_ref (λ (w : RowWork). w.row_ref) target works) [
      | some _ ↦ (some target, [])
      | none ↦ (none, record { column = column; message = not_found_key column } ∷ [])
    ]
  ]
]

-- one round of `resolveInFile`
unfoldable pub resolve_row : List RowWork → RowWork → RowWork
unfolding in_file_target
resolve_row works w =
    let (father, e) = in_file_target w.raw.father_ref works Column.father_column in
    let (mother, e') = in_file_target w.raw.mother_ref works Column.mother_column in
    let (spouse, e'') = in_file_target w.raw.spouse_ref works Column.spouse_column in
    record w {
      father_in_file = father;
      mother_in_file = mother;
      spouse_in_file = spouse;
      errors = w.errors ++ (e ++ (e' ++ e''));
    }

abbrev pub resolve_rows : List RowWork → List RowWork → List RowWork
resolve_rows all_rows [] = []
resolve_rows all_rows (w ∷ works) = resolve_row all_rows w ∷ resolve_rows all_rows works

unfoldable pub resolve_in_file : List RowWork → List RowWork
unfolding resolve_row
resolve_in_file works = resolve_rows works works

-- the queries `findByName` and `similarPersons` of the tenant's persons, for a name and a clan
pub record NameSearch : Type 0 where
  pub by_name : Text → Option Text → List (ℕ × Gender)
  pub similar : Text → Option Text → List ℕ

-- `resolveDbParent` for a father
unfoldable pub resolve_father : List (ℕ × Gender) → RowWork → RowWork
resolve_father [] w = push_error Column.father_column RowErrorKey.father_not_found w
resolve_father ((id, gender) ∷ []) w =
    record (if is_male gender
      then w
      else push_error Column.father_column RowErrorKey.father_not_male w) {
        resolved_father = some id;
      }
resolve_father (_ ∷ (_ ∷ _)) w = push_error Column.father_column RowErrorKey.ambiguous_ref w

-- `resolveDbParent` for a mother
unfoldable pub resolve_mother : List (ℕ × Gender) → RowWork → RowWork
resolve_mother [] w = push_error Column.mother_column RowErrorKey.mother_not_found w
resolve_mother ((id, gender) ∷ []) w =
    record (if is_male gender
      then push_error Column.mother_column RowErrorKey.mother_not_female w
      else w) { resolved_mother = some id }
resolve_mother (_ ∷ (_ ∷ _)) w = push_error Column.mother_column RowErrorKey.ambiguous_ref w

-- a spouse who is not found is no error
unfoldable pub resolve_spouse : List (ℕ × Gender) → RowWork → RowWork
resolve_spouse [] w = w
resolve_spouse ((id, _) ∷ []) w = record w { resolved_spouse = some id }
resolve_spouse (_ ∷ (_ ∷ _)) w = push_error Column.spouse_column RowErrorKey.ambiguous_ref w

-- the name to look up: a value that is no reference and was not resolved in the file
unfoldable pub plain_name : Option Text → Option Text → Option Text
unfolding is_ref
plain_name value in_file = elim (cell value) [
  | none ↦ none
  | some v ↦ if not (is_some in_file) && not (is_ref v) then some v else none
]

abbrev with_matches :
    NameSearch → Option Text → (List (ℕ × Gender) → RowWork → RowWork) → RowWork → RowWork
with_matches search none f w = w
with_matches search (some name) f w = f (search.by_name name w.clan) w

-- one round of `resolveAgainstDb`
unfoldable pub resolve_names : NameSearch → RowWork → RowWork
unfolding resolve_father resolve_mother resolve_spouse plain_name
resolve_names search w =
    let w₁ = with_matches search (plain_name w.raw.father_ref w.father_in_file) resolve_father w in
    let w₂ = with_matches search (plain_name w.raw.mother_ref w.mother_in_file) resolve_mother w₁ in
    with_matches search (plain_name w.raw.spouse_ref w.spouse_in_file) resolve_spouse w₂

unfoldable pub resolve_against_db : NameSearch → List RowWork → List RowWork
unfolding resolve_names
resolve_against_db search [] = []
resolve_against_db search (w ∷ works) = resolve_names search w ∷ resolve_against_db search works

abbrev first_id : List ℕ → Option ℕ
first_id [] = none
first_id (id ∷ _) = some id

-- one round of `duplicateCheck`
unfoldable pub check_duplicate : NameSearch → RowWork → RowWork
check_duplicate search w = elim w.errors [
  | _ ∷ _ ↦ w
  | [] ↦ elim (cell w.raw.full_name) [
    | none ↦ w
    | some name ↦ elim (first_id (search.similar name w.clan)) [
      | none ↦ w
      | some id ↦ record w { duplicate_of = some id }
    ]
  ]
]

unfoldable pub duplicate_check : NameSearch → List RowWork → List RowWork
unfolding check_duplicate
duplicate_check search [] = []
duplicate_check search (w ∷ works) = check_duplicate search w ∷ duplicate_check search works
