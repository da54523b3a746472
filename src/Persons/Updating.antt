-- ===== src/Persons/Updating.antt =====
-- persons.service.ts `updateInTx`: what a successful call leaves behind, and that the live data
-- stays consistent.
use tftsp.Common.{
  ℕ, ◌≤◌, ◌≡◌, ◌⊎◌, refl, sym, ap, ◌∙◌, subst, subst₂, fun_ext, true, false, not, ◌&&◌, Option,
  none, some, ◌==◌, ==_iff, opt_eq, opt_eq_iff, is_some, mem, Bool-cases, inl, inr, arith, set_row,
  ok, bind-ok, throw_if, throw_if-ok, require, require-ok, not_found, bad_request, person_not_found,
  self_ancestry,
}
use tftsp.Database.{Person, Env, Db, find_live}
use tftsp.Lineage.{Closure, on_father_change}
use tftsp.Lineage.Chain.{update}
use tftsp.Lineage.Moves.{IsClosure, FathersLive}
use tftsp.Lineage.Writes.{on_father_change-IsClosure, FathersLive-update}
use tftsp.Persons.Fields.{UpdatePersonDto, update_date, updated_person, given}
use tftsp.Persons.Writes.{
  validate_parents, change_father, move_if_changed, update_with_version, write_update, update_in_tx,
  named_parent,
}
use tftsp.Persons.Consistency.{
  IsConsistent, at_of_find, live, father_of, validate_parents-ok, update_date-ok,
}

-- what the lineage part does to the closure
abbrev pub Moved : ℕ → UpdatePersonDto → Person → Closure → Closure → Type 0
Moved id dto before t t' =
    ((given dto.father_id before.father_id ≡ before.father_id) × (t' ≡ t))
    ⊎ ((dto.father_id ≡ some (given dto.father_id before.father_id))
        × (on_father_change id (given dto.father_id before.father_id) t ≡ some t'))

change_father-ok :
    (id : ℕ) (f : Option ℕ) (db : Db) {u : Unit {0}} {db' : Db}
    → change_father id f db ≡ (ok u, db')
    → (on_father_change id f db.closures ≡ some db'.closures)
      × (db'.persons ≡ db.persons)
      × (db'.next_id ≡ db.next_id)
unfolding change_father
change_father-ok id f db h =
    let (moved, s, found, rest) =
      bind-ok (require (on_father_change id f db.closures) (bad_request self_ancestry) db) _ h in
    let (is_moved, same) = require-ok _ _ db found in (ground arith, ground arith, ground arith)

given_changed :
    (field : Option (Option ℕ)) (old : Option ℕ)
    → (is_some field && not (opt_eq (given field old) old)) ≡ false
    → given field old ≡ old
given_changed none old h = refl
given_changed (some f) old h = (opt_eq_iff f old).0 (ground arith)

given_named :
    (field : Option (Option ℕ)) (old : Option ℕ)
    → (is_some field && not (opt_eq (given field old) old)) ≡ true
    → field ≡ some (given field old)
given_named none old h = cc
given_named (some f) old h = refl

move_if_changed-ok :
    (id : ℕ) (dto : UpdatePersonDto) (before : Person) (db : Db) {u : Unit {0}} {db' : Db}
    → move_if_changed id dto before db ≡ (ok u, db')
    → Moved id dto before db.closures db'.closures
      × (db'.persons ≡ db.persons)
      × (db'.next_id ≡ db.next_id)
unfolding move_if_changed
move_if_changed-ok id dto before db {u} {db'} h =
    elim (Bool-cases (
      is_some dto.father_id
      && not (opt_eq (given dto.father_id before.father_id) before.father_id))) [
        | inl e ↦
            let (moved, rows, next) =
              change_father-ok id (given dto.father_id before.father_id) db (rw e at h) in
            (inr (given_named dto.father_id before.father_id e, moved), rows, next)
        | inr e ↦
            let same : db ≡ db' = ap (λ r. r.1) (rw e at h) in
            (
              inl (given_changed dto.father_id before.father_id e, ap (λ d. d.closures) (sym same)),
              ap (λ d. d.persons) (sym same),
              ap (λ d. d.next_id) (sym same),
            )
      ]

write_update-ok :
    (id expected : ℕ) (new : Person) (db : Db) {u : Unit {0}} {db' : Db}
    → write_update id expected new db ≡ (ok u, db')
    → (db'.persons ≡ set_row id new db.persons)
      × (db'.closures ≡ db.closures)
      × (db'.next_id ≡ db.next_id)
unfolding write_update update_with_version
write_update-ok id expected new db h = (ground arith, ground arith, ground arith)

-- what a successful call did: the row, its parents, the closure
pub record Updated (id : ℕ) (dto : UpdatePersonDto) (db db' : Db) : Type 0 where
  pub before : Person
  pub new : Person
  pub found : find_live db id ≡ some before
  pub father : new.father_id ≡ given dto.father_id before.father_id
  pub kept : new.deleted_at ≡ before.deleted_at
  pub rows : db'.persons ≡ set_row id new db.persons
  pub next : db'.next_id ≡ db.next_id
  pub moved : Moved id dto before db.closures db'.closures
  pub father_alive : (x : ℕ) → named_parent dto.father_id ≡ some x → live db.persons.at x ≡ true

pub update_in_tx-ok :
    (env : Env) (id : ℕ) (dto : UpdatePersonDto) (db : Db) {u : Unit {0}} {db' : Db}
    → update_in_tx env id dto db ≡ (ok u, db')
    → Updated id dto db db'
unfolding update_in_tx
update_in_tx-ok env id dto db {u} {db'} h =
    let (before, s₀, read, h₀) =
      bind-ok (require (find_live db id) (not_found person_not_found) db) _ h in
    let (found, same₀) = require-ok _ _ db read in
    let next_father = given dto.father_id before.father_id in
    let next_mother = given dto.mother_id before.mother_id in
    let (_, s₁, valid, h₁) =
      bind-ok (validate_parents (named_parent dto.father_id) (named_parent dto.mother_id) s₀) _
        h₀ in
    let (same₁, alive) =
      validate_parents-ok (named_parent dto.father_id) (named_parent dto.mother_id) s₀ valid in
    let (_, s₂, own, h₂) =
      bind-ok
        (throw_if (is_some dto.mother_id && opt_eq next_mother (some id))
          (bad_request self_ancestry) s₁)
        _ h₁ in
    let (_, same₂) = throw_if-ok _ _ s₁ own in
    let (_, s₃, lineage, h₃) = bind-ok (move_if_changed id dto before s₂) _ h₂ in
    let (moved, rows₃, next₃) = move_if_changed-ok id dto before s₂ lineage in
    let (birth, s₄, b₄, h₄) = bind-ok (update_date env dto.birth_date before.birth_date s₃) _ h₃ in
    let same₄ = update_date-ok env dto.birth_date before.birth_date s₃ b₄ in
    let (death, s₅, b₅, h₅) = bind-ok (update_date env dto.death_date before.death_date s₄) _ h₄ in
    let same₅ = update_date-ok env dto.death_date before.death_date s₄ b₅ in
    let new = updated_person env before dto next_father next_mother birth death in
    let (rows, closures, next) = write_update-ok id dto.version new s₅ h₅ in
    let start : s₂ ≡ db = sym same₂ ∙ (same₁ ∙ sym same₀) in
    let end : s₅ ≡ s₃ = same₅ ∙ same₄ in
    record {
      before = before;
      new = new;
      found = found;
      father = unfold updated_person in refl;
      kept = unfold updated_person in refl;
      rows =
          rows
          ∙ ap (set_row id new) (ap (λ s. s.persons) end ∙ (rows₃ ∙ ap (λ s. s.persons) start));
      next = next ∙ (ap (λ s. s.next_id) end ∙ (next₃ ∙ ap (λ s. s.next_id) start));
      moved =
          subst₂ (λ t t'. Moved id dto before t t') (ap (λ s. s.closures) start)
            (sym (closures ∙ ap (λ s. s.closures) end)) moved;
      father_alive = λ x e. subst (λ s. live s.persons.at x ≡ true) (sym same₀) (alive x e);
    }

module _ {id : ℕ} {dto : UpdatePersonDto} {db db' : Db} (made : Updated id dto db db') where
  open made use {before, new, found, father, kept, rows, next, moved, father_alive}

  updated_alive : live db.persons.at id ≡ true
  updated_alive = ground arith

  updated_live : live db'.persons.at ≡ live db.persons.at
  updated_live = fun_ext (λ x. rw rows (ground arith))

  updated_father :
      father_of db'.persons.at
      ≡ update (father_of db.persons.at) id (given dto.father_id before.father_id)
  updated_father = fun_ext (λ x. rw rows (ground (arith, father, kept)))

  -- the father on record before
  father_before : father_of db.persons.at id ≡ before.father_id
  father_before = ground arith

  unchanged_father :
      given dto.father_id before.father_id ≡ before.father_id
      → father_of db'.persons.at ≡ father_of db.persons.at
  unchanged_father same =
      updated_father
      ∙ (ap (update (father_of db.persons.at) id) (same ∙ sym father_before)
          ∙ fun_ext (λ x. elim (Bool-cases (id == x)) [
            | inl e ↦ rw e (ap (father_of db.persons.at) ((==_iff id x).0 e))
            | inr e ↦ rw e
          ]))

  named_alive :
      dto.father_id ≡ some (given dto.father_id before.father_id)
      → (m : ℕ) → given dto.father_id before.father_id ≡ some m
      → live db.persons.at m ≡ true
  named_alive named m e = father_alive m (ground arith)

  Updated-IsClosure :
      IsConsistent db → IsClosure (live db.persons.at) (father_of db'.persons.at) db'.closures
  Updated-IsClosure c = elim moved [
    | inl (same, closures) ↦
        subst₂ (λ f t. IsClosure (live db.persons.at) f t) (sym (unchanged_father same))
          (sym closures) c.closure
    | inr (named, closures) ↦
        subst (λ f. IsClosure (live db.persons.at) f db'.closures) (sym updated_father)
          (on_father_change-IsClosure c.closure c.fathers id (given dto.father_id before.father_id)
            updated_alive (named_alive named) closures)
  ]

  Updated-fathers : IsConsistent db → FathersLive (live db.persons.at) (father_of db'.persons.at)
  Updated-fathers c = elim moved [
    | inl (same, closures) ↦
        subst (λ f. FathersLive (live db.persons.at) f) (sym (unchanged_father same)) c.fathers
    | inr (named, closures) ↦
        subst (λ f. FathersLive (live db.persons.at) f) (sym updated_father)
          (FathersLive-update id (given dto.father_id before.father_id) c.fathers updated_alive
            (named_alive named))
  ]

  -- the live data stays consistent
  pub Updated-IsConsistent : IsConsistent db → IsConsistent db'
  Updated-IsConsistent c = record {
    closure =
        subst (λ l. IsClosure l (father_of db'.persons.at) db'.closures) (sym updated_live)
          (Updated-IsClosure c);
    fathers =
        subst (λ l. FathersLive l (father_of db'.persons.at)) (sym updated_live)
          (Updated-fathers c);
    listed = λ x p e. rw rows (elim (Bool-cases (id == x)) [
      | inl q ↦ subst (λ y. mem y db.persons.ids ≡ true) ((==_iff id x).0 q) (row_listed c)
      | inr q ↦ c.listed x p (rw (rows, q) at e)
    ]);
    fresh = λ x h. rw rows (elim (Bool-cases (id == x)) [
      | inl q ↦
          let empty : db.persons.at id ≡ none =
            c.fresh id
              (subst (λ y. db.next_id ≤ y) (sym ((==_iff id x).0 q)) (omega (arith, next))) in
          absurd (cc (at_of_find db id found))
      | inr q ↦ rw q (c.fresh x (omega (arith, next)))
    ]);
  }
    where
      row_listed : IsConsistent db → mem id db.persons.ids ≡ true
      row_listed k = k.listed id before (at_of_find db id found)

-- An update of a person that succeeds on consistent data leaves consistent data.
pub update_in_tx-IsConsistent :
    (env : Env) (id : ℕ) (dto : UpdatePersonDto) (db : Db) {u : Unit {0}} {db' : Db}
    → IsConsistent db
    → update_in_tx env id dto db ≡ (ok u, db')
    → IsConsistent db'
update_in_tx-IsConsistent env id dto db c h =
    Updated-IsConsistent (update_in_tx-ok env id dto db h) c
