-- ===== src/Unions/Couples.antt =====
-- unions.service.ts: what a successful call did to the unions on record.
use tftsp.Common.{
  ℕ, ◌≡◌, sym, ◌∙◌, subst, true, false, Option, none, some, ◌==◌, ◌||◌, not, if◌then◌else◌, arith,
  ok, bind-ok, require-ok, throw_if-ok, throw_if, require, bad_request, not_found, person_not_found,
  invalid_union_genders, union_already_ended,
}
use tftsp.Domain.{active, UnionStatus}
use tftsp.Database.{Env, Db, Person, Union, AuditAction, find_live, union_create}
use tftsp.Persons.Fields.{parse_partial_date}
use tftsp.Persons.Writes.{is_male}
use tftsp.Persons.Consistency.{parse_partial_date-ok}
use tftsp.Unions.{
  CreateUnionDto, EndUnionDto, assert_valid_couple, insert_union, create, find_union, end_union,
  is_active_union,
}

-- both partners are on record, he is a man and she is a woman
pub record IsCouple (db : Db) (husband_id wife_id : ℕ) : Type 0 where
  pub husband : Person
  pub wife : Person
  pub husband_found : find_live db husband_id ≡ some husband
  pub wife_found : find_live db wife_id ≡ some wife
  pub husband_male : is_male husband.gender ≡ true
  pub wife_female : is_male wife.gender ≡ false

assert_valid_couple-ok :
    (h w : ℕ) (db : Db) {u : Unit {0}} {s : Db}
    → assert_valid_couple h w db ≡ (ok u, s)
    → (s ≡ db) × IsCouple db h w
unfolding assert_valid_couple
assert_valid_couple-ok h w db e =
    let (husband, s₁, f₁, e₁) =
      bind-ok (require (find_live db h) (not_found person_not_found) db) _ e in
    let (here₁, same₁) = require-ok (find_live db h) (not_found person_not_found) db f₁ in
    let (wife, s₂, f₂, e₂) =
      bind-ok (require (find_live db w) (not_found person_not_found) s₁) _ e₁ in
    let (here₂, same₂) = require-ok (find_live db w) (not_found person_not_found) s₁ f₂ in
    let (genders, same₃) =
      throw_if-ok (not (is_male husband.gender) || is_male wife.gender)
        (bad_request invalid_union_genders) s₂ e₂ in
    (
      sym (same₁ ∙ (same₂ ∙ same₃)),
      record {
        husband = husband;
        wife = wife;
        husband_found = here₁;
        wife_found = here₂;
        husband_male = ground arith;
        wife_female = ground arith;
      },
    )

insert_union-ok :
    (action : AuditAction) (h w : ℕ) (date : Option ℕ) (db : Db) {id : ℕ} {s : Db}
    → insert_union action h w date db ≡ (ok id, s)
    → (id ≡ db.next_id)
      × (s.persons ≡ db.persons)
      × ((x : ℕ)
          → s.unions.at x ≡ (
              if db.next_id == x
              then some (record {
                husband_id = h;
                wife_id = w;
                marriage_date = date;
                status = active;
                end_date = none;
                end_reason = none;
              })
              else db.unions.at x))
unfolding insert_union
insert_union-ok action h w date db e = (ground arith, ground arith, λ x. ground arith)

-- A successful `create` is of a man and a woman on record, changes no person, and adds one active union
-- of the two under a fresh identifier, leaving the others as they were.
pub create-ok :
    (env : Env) (dto : CreateUnionDto) (db : Db) {id : ℕ} {s : Db}
    → create env dto db ≡ (ok id, s)
    → IsCouple db dto.husband_id dto.wife_id
      × (id ≡ db.next_id)
      × (s.persons ≡ db.persons)
      × ((date : Option ℕ) × ((x : ℕ)
            → s.unions.at x ≡ (
                if db.next_id == x
                then some (record {
                  husband_id = dto.husband_id;
                  wife_id = dto.wife_id;
                  marriage_date = date;
                  status = active;
                  end_date = none;
                  end_reason = none;
                })
                else db.unions.at x)))
unfolding create
create-ok env dto db {id} {s} e =
    let (_, s₁, valid, e₁) = bind-ok (assert_valid_couple dto.husband_id dto.wife_id db) _ e in
    let (same₁, couple) = assert_valid_couple-ok dto.husband_id dto.wife_id db valid in
    let (date, s₂, d, e₂) = bind-ok (parse_partial_date env dto.marriage_date s₁) _ e₁ in
    let same : s₂ ≡ db = parse_partial_date-ok env dto.marriage_date s₁ d ∙ same₁ in
    let run =
      subst (λ t. insert_union union_create dto.husband_id dto.wife_id date t ≡ (ok id, s)) same
        e₂ in
    let (fresh, persons, rows) =
      insert_union-ok union_create dto.husband_id dto.wife_id date db run in
    (couple, fresh, persons, (date, rows))

-- A successful end of a union is of an active union on record, gives it the status asked for, keeps its
-- partners, and stores the row that it returns.
pub end_union-ok :
    (env : Env) (id : ℕ) (status : UnionStatus) (dto : EndUnionDto) (action : AuditAction) (db : Db)
    {u : Union} {s : Db}
    → end_union env id status dto action db ≡ (ok u, s)
    → (before : Union) × (db.unions.at id ≡ some before)
      × (is_active_union before.status ≡ true)
      × (u.status ≡ status)
      × (u.husband_id ≡ before.husband_id)
      × (u.wife_id ≡ before.wife_id)
      × (s.unions.at id ≡ some u)
unfolding end_union
end_union-ok env id status dto action db {u} {s} e =
    let (before, s₁, f, e₁) = bind-ok (find_union id db) _ e in
    let (_, s₂, g, e₂) =
      bind-ok (throw_if (not (is_active_union before.status)) (bad_request union_already_ended) s₁)
        _ e₁ in
    let (was_active, same₂) =
      throw_if-ok (not (is_active_union before.status)) (bad_request union_already_ended) s₁ g in
    let (end_date, s₃, d, e₃) = bind-ok (parse_partial_date env (some dto.end_date) s₂) _ e₂ in
    (before, found f, ground arith, ground arith, ground arith, ground arith, ground arith)
  where
    found :
        {before : Union} {t : Db}
        → find_union id db ≡ (ok before, t)
        → db.unions.at id ≡ some before
    found q = unfold find_union in ground arith
