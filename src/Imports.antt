-- ===== src/Imports.antt =====
-- apps/api/src/modules/imports: the rows of a spreadsheet on their way into the tree. A batch is
-- parsed and checked (Parsing, Resolving, Cycles), previewed and submitted (Service), and applied
-- when its change request is published (Ordering, Applying).
use tftsp.Common.{
  ℕ, ◌+◌, Bool, true, false, Option, none, some, List, [], ◌∷◌, any, is_empty, is_some,
  if◌then◌else◌, Text, Table, text_eq, length,
}
use tftsp.Domain.{Gender}
pub mod Applying
pub mod Cycles
mod BatchExamples
mod Examples
pub mod Ordering
pub mod Parsing
pub mod Pipeline
pub mod Publication
pub mod Resolving
pub mod Rollback
pub mod Samples
pub mod Service
pub mod Transfer

-- `ImportBatchStatus`
pub data BatchStatus : Type 0 where
  uploaded parsing validating resolving preview : BatchStatus
  submitted published rejected rolled_back failed : BatchStatus

-- `ImportRowStatus`
pub data RowStatus : Type 0 where
  valid error duplicate_candidate ambiguous : RowStatus

-- `ImportRowDecision`
pub data Decision : Type 0 where
  new merge ignore : Decision

-- the columns of the template that an error can be about
pub data Column : Type 0 where
  row_ref_column full_name_column gender_column father_column mother_column : Column
  birth_date_column death_date_column spouse_column : Column

-- `ROW_ERROR`
pub data RowErrorKey : Type 0 where
  row_ref_required full_name_required invalid_gender invalid_date father_not_found : RowErrorKey
  mother_not_found father_not_male mother_not_female cycle ambiguous_ref : RowErrorKey

-- `ImportRowError`
pub record RowError : Type 0 where
  pub column : Column
  pub message : RowErrorKey

-- the cells of a row, by the columns of the template
pub record RawRow : Type 0 where
  pub row_ref : Option Text
  pub full_name : Option Text
  pub gender : Option Text
  pub father_ref : Option Text
  pub mother_ref : Option Text
  pub birth_date : Option Text
  pub death_date : Option Text
  pub branch : Option Text
  pub clan : Option Text
  pub family : Option Text
  pub spouse_ref : Option Text
  pub laqab : Option Text
  pub profession : Option Text
  pub phone : Option Text
  pub notes : Option Text

-- a row while the batch is parsed, without the score of its duplicate
pub record RowWork : Type 0 where
  pub row_number : ℕ
  pub row_ref : Text
  pub raw : RawRow
  pub errors : List RowError
  pub gender : Option Gender
  pub clan : Option Text
  pub father_in_file : Option Text
  pub mother_in_file : Option Text
  pub spouse_in_file : Option Text
  pub resolved_father : Option ℕ
  pub resolved_mother : Option ℕ
  pub resolved_spouse : Option ℕ
  pub duplicate_of : Option ℕ

-- a row of `import_rows`
pub record ImportRow : Type 0 where
  pub id : ℕ
  pub batch_id : ℕ
  pub row_ref : Text
  pub row_number : ℕ
  pub raw : RawRow
  pub status : RowStatus
  pub errors : List RowError
  pub resolved_father : Option ℕ
  pub resolved_mother : Option ℕ
  pub resolved_spouse : Option ℕ
  pub duplicate_of : Option ℕ
  pub decision : Decision
  pub merge_target : Option ℕ
  pub created_person : Option ℕ

-- `ImportBatchCounts`
pub record Counts : Type 0 where
  pub total : ℕ
  pub valid : ℕ
  pub error : ℕ
  pub duplicate_candidate : ℕ
  pub ambiguous : ℕ
  pub created : ℕ
  pub merged : ℕ
  pub ignored : ℕ

abbrev pub empty_counts : Counts
empty_counts = record {
  total = 0;
  valid = 0;
  error = 0;
  duplicate_candidate = 0;
  ambiguous = 0;
  created = 0;
  merged = 0;
  ignored = 0;
}

-- a row of `import_batches`
pub record ImportBatch : Type 0 where
  pub status : BatchStatus
  pub progress : ℕ
  pub counts : Counts
  pub change_request : Option ℕ
  pub created_by : ℕ

abbrev pub is_ambiguous_error : RowError → Bool
is_ambiguous_error e = elim e.message [ ambiguous_ref ↦ true | _ ↦ false ]

abbrev has_errors : List RowError → Bool
has_errors [] = false
has_errors (_ ∷ _) = true

-- `deriveStatus` of the service, and `rowStatus` of the parser, which has the same text
unfoldable pub derive_status : List RowError → Option ℕ → RowStatus
derive_status errors duplicate_of =
    if any is_ambiguous_error errors
    then RowStatus.ambiguous
    else if has_errors errors
    then RowStatus.error
    else if is_some duplicate_of
    then RowStatus.duplicate_candidate
    else RowStatus.valid

unfoldable pub row_status : RowWork → RowStatus
unfolding derive_status
row_status w = derive_status w.errors w.duplicate_of

-- one row more of a status
abbrev pub count_status : RowStatus → Counts → Counts
count_status RowStatus.valid c = record c { valid = c.valid + 1 }
count_status RowStatus.error c = record c { error = c.error + 1 }
count_status RowStatus.duplicate_candidate c = record c {
  duplicate_candidate = c.duplicate_candidate + 1;
}
count_status RowStatus.ambiguous c = record c { ambiguous = c.ambiguous + 1 }

abbrev count_rows_from : Counts → List RowWork → Counts
count_rows_from c [] = c
count_rows_from c (w ∷ works) = count_rows_from (count_status (row_status w) c) works

-- `counts`
unfoldable pub counts : List RowWork → Counts
unfolding row_status
counts works = count_rows_from (record empty_counts { total = length works }) works

-- `new Map(rows.map((r) => [r.rowRef, r])).get(ref)`: of rows with the same reference the last
abbrev pub find_ref {ℓ} : {A : Type ℓ} → (A → Text) → Text → List A → Option A
find_ref ref_of r [] = none
find_ref ref_of r (w ∷ works) = elim (find_ref ref_of r works) [
  | none ↦ if text_eq (ref_of w) r then some w else none
  | some later ↦ some later
]
