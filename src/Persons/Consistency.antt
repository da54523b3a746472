-- ===== src/Persons/Consistency.antt =====
-- What holds of the live data between two transactions, and what a successful call of
-- persons.service.ts did to the rows.
use tftsp.Common.{
  ℕ, ◌≤◌, ◌≡◌, sym, ◌∙◌, Bool, true, not, ◌&&◌, Option, none, some, if◌then◌else◌, ◌==◌, mem,
  Bool-cases, arith, row_passes, ok, bad_request, throw_if, require, parent_not_found,
  father_must_be_male, mother_must_be_female, Text, trim, is_empty, length, all, inl, inr, bind-ok,
  throw_if-ok, require-ok,
}
use tftsp.Database.{Person, Env, Db, is_live, find_live}
use tftsp.Lineage.Moves.{IsClosure, FathersLive}
use tftsp.Persons.Fields.{or_invalid, is_digit, update_date, parse_partial_date}
use tftsp.Persons.Writes.{is_male, validate_parents, validate_father, validate_mother}

-- who is on record and not deleted
abbrev pub live : (ℕ → Option Person) → ℕ → Bool
live at x = row_passes is_live (at x)

abbrev pub father_in_row : Option Person → Option ℕ
father_in_row none = none
father_in_row (some p) = if is_live p then p.father_id else none

-- the father of a live person
abbrev pub father_of : (ℕ → Option Person) → ℕ → Option ℕ
father_of at x = father_in_row (at x)

pub record IsConsistent (db : Db) : Type 0 where
  pub closure : IsClosure (live db.persons.at) (father_of db.persons.at) db.closures
  pub fathers : FathersLive (live db.persons.at) (father_of db.persons.at)
  pub listed : (x : ℕ) (p : Person) → db.persons.at x ≡ some p → mem x db.persons.ids ≡ true
  pub fresh : (x : ℕ) → db.next_id ≤ x → db.persons.at x ≡ none

pub at_of_find : (db : Db) (x : ℕ) {p : Person} → find_live db x ≡ some p → db.persons.at x ≡ some p
at_of_find db x h = ground arith

-- validation reads and does not write
validate_father-ok :
    (f : Option ℕ) (db : Db) {u : Unit {0}} {s : Db}
    → validate_father f db ≡ (ok u, s)
    → (s ≡ db) × ((x : ℕ) → f ≡ some x → live db.persons.at x ≡ true)
unfolding validate_father
validate_father-ok none db h = (ground arith, λ x e. cc)
validate_father-ok (some f) db h =
    let (father, s₁, found, checked) =
      bind-ok (require (find_live db f) (bad_request parent_not_found) db)
        (λ father. throw_if (not (is_male father.gender)) (bad_request father_must_be_male)) h in
    let (here, same) = require-ok (find_live db f) _ db found in
    let (_, same') = throw_if-ok _ _ s₁ checked in (sym (same ∙ same'), λ x e. ground arith)

validate_mother-ok :
    (m : Option ℕ) (db : Db) {u : Unit {0}} {s : Db} → validate_mother m db ≡ (ok u, s) → s ≡ db
unfolding validate_mother
validate_mother-ok none db h = ground arith
validate_mother-ok (some m) db h =
    let (mother, s₁, found, checked) =
      bind-ok (require (find_live db m) (bad_request parent_not_found) db)
        (λ mother. throw_if (is_male mother.gender) (bad_request mother_must_be_female)) h in
    sym ((require-ok (find_live db m) _ db found).1 ∙ (throw_if-ok _ _ s₁ checked).1)

pub validate_parents-ok :
    (f m : Option ℕ) (db : Db) {u : Unit {0}} {s : Db}
    → validate_parents f m db ≡ (ok u, s)
    → (s ≡ db) × ((x : ℕ) → f ≡ some x → live db.persons.at x ≡ true)
unfolding validate_parents
validate_parents-ok f m db {u} {s} h =
    let (v, s₁, first, second) = bind-ok (validate_father f db) (λ _. validate_mother m) h in
    let (same, alive) = validate_father-ok f db first in
    (validate_mother-ok m s₁ second ∙ same, alive)

pub or_invalid-ok :
    (o : Option ℕ) (db : Db) {d : Option ℕ} {s : Db} → or_invalid o db ≡ (ok d, s) → s ≡ db
or_invalid-ok none db h = cc
or_invalid-ok (some d) db h = ground arith

pub parse_partial_date-ok :
    (env : Env) (value : Option Text) (db : Db) {d : Option ℕ} {s : Db}
    → parse_partial_date env value db ≡ (ok d, s)
    → s ≡ db
unfolding parse_partial_date
parse_partial_date-ok env none db h = ground arith
parse_partial_date-ok env (some value) db {d} {s} h = elim (Bool-cases (is_empty (trim value))) [
  | inl e ↦ ground arith
  | inr e ↦ elim (Bool-cases (length (trim value) == 4 && all is_digit (trim value))) [
    | inl e' ↦ ground arith
    | inr e' ↦ or_invalid-ok (env.date_of (trim value)) db (rw (e, e') at h)
  ]
]

pub update_date-ok :
    (env : Env) (value : Option (Option Text)) (old : Option ℕ) (db : Db) {d : Option ℕ} {s : Db}
    → update_date env value old db ≡ (ok d, s)
    → s ≡ db
unfolding update_date
update_date-ok env none old db h = ground arith
update_date-ok env (some value) old db h = parse_partial_date-ok env value db h
