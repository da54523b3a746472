-- ===== src/Persons/Creating.antt =====
-- persons.service.ts `createInTx`: what it leaves behind, and that the live data stays consistent.
use tftsp.Common.{
  subst₂, throw_if, conflict, duplicate_candidates, or_else, ℕ, ◌+◌, ◌≡◌, refl, sym, ◌∙◌, subst,
  fun_ext, true, not, ◌&&◌, Option, some, [], ◌∷◌, ◌==◌, mem, or-join, Bool-cases, inl, inr, any,
  any-append, arith, insert_row, ok, bind-ok, throw_if-ok,
}
use tftsp.Database.{Person, Env, Db, is_live}
use tftsp.Lineage.{on_create}
use tftsp.Lineage.Chain.{update}
use tftsp.Lineage.Moves.{FathersLive}
use tftsp.Lineage.Writes.{on_create-IsClosure, FathersLive-create}
use tftsp.Persons.Fields.{CreatePersonDto, parse_partial_date, new_person, build_full_name}
use tftsp.Persons.Writes.{
  validate_parents, create_in_tx, insert_in_tx, insert_person, has_duplicates,
}
use tftsp.Persons.Consistency.{
  IsConsistent, live, father_of, validate_parents-ok, parse_partial_date-ok,
}

-- what a successful call did: one new live row under a fresh identifier, and the closure grown by it
pub record Inserted (new : Person) (id : ℕ) (db db' : Db) : Type 0 where
  pub fresh_id : id ≡ db.next_id
  pub next : db'.next_id ≡ db.next_id + 1
  pub rows : db'.persons ≡ insert_row db.next_id new db.persons
  pub closures : db'.closures ≡ on_create db.next_id new.father_id db.closures

insert_in_tx-ok :
    (new : Person) (db : Db) {id : ℕ} {db' : Db}
    → insert_in_tx new db ≡ (ok id, db')
    → Inserted new id db db'
unfolding insert_in_tx insert_person
insert_in_tx-ok new db h = record {
  fresh_id = ground arith;
  next = ground arith;
  rows = ground arith;
  closures = ground arith;
}

-- the new row, the father that it names
pub record Created (dto : CreatePersonDto) (id : ℕ) (db db' : Db) : Type 0 where
  pub new : Person
  pub father : new.father_id ≡ dto.father_id
  pub alive : is_live new ≡ true
  pub inserted : Inserted new id db db'
  pub father_alive : (x : ℕ) → dto.father_id ≡ some x → live db.persons.at x ≡ true

pub create_in_tx-ok :
    (env : Env) (dto : CreatePersonDto) (o b : Option ℕ) (db : Db) {id : ℕ} {db' : Db}
    → create_in_tx env dto o b db ≡ (ok id, db')
    → Created dto id db db'
unfolding create_in_tx
create_in_tx-ok env dto o b db {id} {db'} h =
    let (_, s₁, valid, h₁) = bind-ok (validate_parents dto.father_id dto.mother_id db) _ h in
    let (same₁, alive) = validate_parents-ok dto.father_id dto.mother_id db valid in
    let full_name =
      build_full_name dto.first_name dto.father_name dto.grandfather_name dto.family_name in
    let (_, s₂, dup, h₂) =
      bind-ok
        (throw_if (not dto.confirm_duplicate && has_duplicates env full_name dto.tribal_unit_id s₁)
          (conflict duplicate_candidates) s₁)
        _ h₁ in
    let (_, same₂) = throw_if-ok _ _ s₁ dup in
    let (birth, s₃, b₃, h₃) = bind-ok (parse_partial_date env dto.birth_date s₂) _ h₂ in
    let same₃ = parse_partial_date-ok env dto.birth_date s₂ b₃ in
    let (death, s₄, b₄, h₄) = bind-ok (parse_partial_date env dto.death_date s₃) _ h₃ in
    let same₄ = parse_partial_date-ok env dto.death_date s₃ b₄ in
    let same : s₄ ≡ db = same₄ ∙ (same₃ ∙ (sym same₂ ∙ same₁)) in
    let new =
      new_person env dto full_name birth death (or_else o (or_else env.user_id env.tenant_id)) b in
    record {
      new = new;
      father = unfold new_person in refl;
      alive = unfold new_person in refl;
      inserted = subst (λ s. Inserted new id s db') same (insert_in_tx-ok new s₄ h₄);
      father_alive = alive;
    }

module _ {dto : CreatePersonDto} {id : ℕ} {db db' : Db} (made : Created dto id db db') where
  open made use {new, father, alive, inserted, father_alive}

  created_live : live db'.persons.at ≡ update (live db.persons.at) db.next_id true
  created_live = fun_ext (λ x. rw inserted.rows (ground arith))

  created_father :
      father_of db'.persons.at ≡ update (father_of db.persons.at) db.next_id dto.father_id
  created_father = fun_ext (λ x. rw inserted.rows (ground (arith, father, alive)))

  created_listed :
      ((x : ℕ) (p : Person) → db.persons.at x ≡ some p → mem x db.persons.ids ≡ true)
      → (x : ℕ) (p : Person) → db'.persons.at x ≡ some p
      → mem x db'.persons.ids ≡ true
  created_listed old x p e =
      rw (inserted.rows, any-append)
        (elim (Bool-cases (db.next_id == x)) [
          | inl q ↦
              or-join (mem x db.persons.ids) (any (λ y. y == x) (db.next_id ∷ []))
                (inr (ground arith))
          | inr q ↦
              or-join (mem x db.persons.ids) (any (λ y. y == x) (db.next_id ∷ []))
                (inl (old x p (rw (inserted.rows, q) at e)))
        ])

  -- the live data stays consistent
  pub Created-IsConsistent : IsConsistent db → IsConsistent db'
  Created-IsConsistent c = record {
    closure =
        rw (created_live, created_father, inserted.closures, father)
          (on_create-IsClosure c.closure c.fathers db.next_id dto.father_id
            (rw (c.fresh db.next_id (omega arith))) father_alive);
    fathers =
        subst₂ (λ l f. FathersLive l f) (sym created_live) (sym created_father)
          (FathersLive-create db.next_id dto.father_id c.fathers father_alive);
    listed = created_listed c.listed;
    fresh = λ x h.
        rw inserted.rows (ground (arith, c.fresh x (omega (arith, inserted.next)), inserted.next));
  }

-- A create of a person that succeeds on consistent data leaves consistent data.
pub create_in_tx-IsConsistent :
    (env : Env) (dto : CreatePersonDto) (o b : Option ℕ) (db : Db) {id : ℕ} {db' : Db}
    → IsConsistent db
    → create_in_tx env dto o b db ≡ (ok id, db')
    → IsConsistent db'
create_in_tx-IsConsistent env dto o b db c h =
    Created-IsConsistent (create_in_tx-ok env dto o b db h) c
