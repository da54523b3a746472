-- ===== src/TribalUnits/Links.antt =====
-- tribal-units.service.ts: the units that others name.
use tftsp.Common.{
  ℕ, ◌≡◌, refl, sym, ap, subst, ◌∙◌, true, false, Option, none, some, List, ◌==◌, ==_refl, mem,
  is_some, if◌then◌else◌, Bool-cases, Option-cases, inl, inr, arith, Table, ok, fail, or_else,
  Exception, not_found, tribal_unit_not_found, ◌⊎◌,
}
use tftsp.Database.{Db, Person, TribalUnit}
use tftsp.Rbac.Guard.{climbs_to, parent_of}
use tftsp.Rbac.Scope.{climbs_to_loops}
use tftsp.ChangeRequests.PublishUnit.{delete_unit, cleared}
use tftsp.TribalUnits.{
  CreateTribalUnitDto, UpdateTribalUnitDto, find_unit, check_parent, create_tribal_unit,
  update_tribal_unit, remove_tribal_unit, updated_unit, given_parent,
}

-- a unit that is named, if one is, is on record
abbrev pub OnRecord : (ℕ → Option TribalUnit) → Option ℕ → Type 0
OnRecord units named = (y : ℕ) → named ≡ some y → is_some (units y) ≡ true

pub record IsLinked (db : Db) : Type 0 where
  pub parents : (x : ℕ) (u : TribalUnit) → db.units.at x ≡ some u → OnRecord db.units.at u.parent_id
  pub members :
      (x : ℕ) (p : Person) → db.persons.at x ≡ some p → OnRecord db.units.at p.tribal_unit_id

with_row : (units : ℕ → Option TribalUnit) (id : ℕ) (u : TribalUnit) → ℕ → Option TribalUnit
with_row units id u x = if id == x then some u else units x

more :
    (units : ℕ → Option TribalUnit) (id : ℕ) (u : TribalUnit) (y : ℕ)
    → is_some (units y) ≡ true
    → is_some (with_row units id u y) ≡ true
unfolding with_row
more units id u y h = elim (Bool-cases (id == y)) [
  | inl q ↦ ground (arith, q)
  | inr q ↦ ground (arith, q, h)
]

-- a row written whose parent is on record
write-IsLinked :
    (db db' : Db) (id : ℕ) (u : TribalUnit)
    → IsLinked db
    → OnRecord db.units.at u.parent_id
    → db'.units.at ≡ with_row db.units.at id u
    → db'.persons ≡ db.persons
    → IsLinked db'
unfolding with_row
write-IsLinked db db' id u c named units persons = record {
  parents = λ x v e y f.
      subst (λ (a : ℕ → Option TribalUnit). is_some (a y) ≡ true) (sym units)
        (more db.units.at id u y
          (old x v (subst (λ (a : ℕ → Option TribalUnit). a x ≡ some v) units e) y f));
  members = λ x p e y f.
      subst (λ (a : ℕ → Option TribalUnit). is_some (a y) ≡ true) (sym units)
        (more db.units.at id u y
          (c.members x p (subst (λ (t : Table Person). t.at x ≡ some p) persons e) y f));
}
  where
    old :
        (x : ℕ) (v : TribalUnit)
        → (if id == x then some u else db.units.at x) ≡ some v
        → OnRecord db.units.at v.parent_id
    old x v e = elim (Bool-cases (id == x)) [
      | inl q ↦
          let same : u ≡ v = ground (arith, q, e) in
          subst (λ (w : TribalUnit). OnRecord db.units.at w.parent_id) same named
      | inr q ↦ c.parents x v (ground (arith, q, e))
    ]

-- the check of a parent reads only, and passes where the parent is on record
check_parent-ok :
    (parent : Option ℕ) (db : Db)
    → ((check_parent parent db ≡ (ok tt, db)) × OnRecord db.units.at parent)
      ⊎ ((e : Exception) × (check_parent parent db ≡ (fail e, db)))
unfolding check_parent find_unit
check_parent-ok none db = inl (refl, λ y e. cc)
check_parent-ok (some p) db = elim (Option-cases (db.units.at p)) [
  | inl e ↦ inr (not_found tribal_unit_not_found, rw e refl)
  | inr (u, e) ↦ inl (
    rw e refl,
    λ y f. let same : p ≡ y = cc in subst (λ z. is_some (db.units.at z) ≡ true) same (ap is_some e),
  )
]

create-IsLinked :
    (dto : CreateTribalUnitDto) (db : Db) → IsLinked db → IsLinked (create_tribal_unit dto db).1
unfolding create_tribal_unit with_row
create-IsLinked dto db c = elim (check_parent-ok dto.parent_id db) [
  | inr (x, e) ↦ rw e c
  | inl (e, named) ↦ rw e (
      write-IsLinked db _ db.next_id
        (record {
          parent_id = dto.parent_id;
          unit_type = dto.unit_type;
          name_ar = dto.name_ar;
          name_en = dto.name_en;
        })
        c named refl refl)
]

updated_parent :
    (units : ℕ → Option TribalUnit) (given : Option (Option ℕ)) (before : Option ℕ)
    → OnRecord units (given_parent given)
    → OnRecord units before
    → OnRecord units (or_else given before)
updated_parent units none before g b = b
updated_parent units (some p) before g b = g

update-IsLinked :
    (id : ℕ) (dto : UpdateTribalUnitDto) (db : Db)
    → IsLinked db
    → IsLinked (update_tribal_unit id dto db).1
unfolding update_tribal_unit find_unit with_row
update-IsLinked id dto db c = elim (Option-cases (db.units.at id)) [
  | inl e ↦ rw e c
  | inr (before, e) ↦ elim (check_parent-ok (given_parent dto.parent_id) db) [
    | inr (x, f) ↦ rw e (rw f c)
    | inl (f, named) ↦ rw e (
        rw f (
          write-IsLinked db _ id (updated_unit dto before) c
            (updated_parent db.units.at dto.parent_id before.parent_id named
              (c.parents id before e))
            refl refl))
  ]
]

cleared-some :
    (id : ℕ) (o : Option ℕ) (y : ℕ) → cleared id o ≡ some y → (o ≡ some y) × ((id == y) ≡ false)
cleared-some id none y e = cc
cleared-some id (some x) y e = elim (Bool-cases (x == id)) [
  | inl q ↦ ground (arith, q, e)
  | inr q ↦ (ground (arith, q, e), ground (arith, q, e))
]

-- a unit that is not the removed one is still there
still :
    (db : Db) (id y : ℕ)
    → (id == y) ≡ false
    → is_some (db.units.at y) ≡ true
    → is_some ((delete_unit id db).units.at y) ≡ true
unfolding delete_unit
still db id y q h = elim (Option-cases (db.units.at y)) [
  | inl e ↦ cc
  | inr (u, e) ↦ ground (arith, q, e)
]

unit-before :
    (db : Db) (id x : ℕ) (v : TribalUnit)
    → (delete_unit id db).units.at x ≡ some v
    → (u : TribalUnit) × (db.units.at x ≡ some u) × (v.parent_id ≡ cleared id u.parent_id)
unfolding delete_unit
unit-before db id x v e = elim (Bool-cases (id == x)) [
  | inl q ↦ ground (arith, q, e)
  | inr q ↦ elim (Option-cases (db.units.at x)) [
    | inl f ↦ ground (arith, q, e, f)
    | inr (u, f) ↦
        let same : record u { parent_id = cleared id u.parent_id } ≡ v = ground (arith, q, e, f) in
        (u, f, ap (λ (w : TribalUnit). w.parent_id) (sym same))
  ]
]

person-before :
    (db : Db) (id x : ℕ) (v : Person)
    → (delete_unit id db).persons.at x ≡ some v
    → (p : Person) × (db.persons.at x ≡ some p) × (v.tribal_unit_id ≡ cleared id p.tribal_unit_id)
unfolding delete_unit
person-before db id x v e = elim (Option-cases (db.persons.at x)) [
  | inl f ↦ ground (arith, e, f)
  | inr (p, f) ↦
      let same : record p { tribal_unit_id = cleared id p.tribal_unit_id } ≡ v =
        ground (arith, e, f) in
      (p, f, ap (λ (w : Person). w.tribal_unit_id) (sym same))
]

pub delete_unit-IsLinked : (id : ℕ) (db : Db) → IsLinked db → IsLinked (delete_unit id db)
delete_unit-IsLinked id db c = record {
  parents = λ x v e y f.
      let (u, here, same) = unit-before db id x v e in
      let (named, other) = cleared-some id u.parent_id y (sym same ∙ f) in
      still db id y other (c.parents x u here y named);
  members = λ x v e y f.
      let (p, here, same) = person-before db id x v e in
      let (named, other) = cleared-some id p.tribal_unit_id y (sym same ∙ f) in
      still db id y other (c.members x p here y named);
}

remove-IsLinked : (id : ℕ) (db : Db) → IsLinked db → IsLinked (remove_tribal_unit id db).1
unfolding remove_tribal_unit find_unit
remove-IsLinked id db c = elim (Option-cases (db.units.at id)) [
  | inl e ↦ rw e c
  | inr (u, e) ↦
      rw e (
        let k = delete_unit-IsLinked id db c in record { parents = k.parents; members = k.members })
]

-- Whatever the calls of the service answer, they keep that each unit named as a parent of a unit or by
-- a person is on record.
pub writes-IsLinked :
    (db : Db)
    → IsLinked db
    → ((dto : CreateTribalUnitDto) → IsLinked (create_tribal_unit dto db).1)
      × ((id : ℕ) (dto : UpdateTribalUnitDto) → IsLinked (update_tribal_unit id dto db).1)
      × ((id : ℕ) → IsLinked (remove_tribal_unit id db).1)
writes-IsLinked db c = (
  (λ dto. create-IsLinked dto db c),
  (λ id dto. update-IsLinked id dto db c),
  λ id. remove-IsLinked id db c,
)

-- A change that makes a unit on record its own parent succeeds, and from then on the walk of the policy
-- guard from that unit, outside the scope, does not end with any fuel.
pub update_tribal_unit-loops :
    (id : ℕ) (u : TribalUnit) (dto : UpdateTribalUnitDto) (db : Db) (scope : List ℕ)
    → db.units.at id ≡ some u
    → dto.parent_id ≡ some (some id)
    → mem id scope ≡ false
    → (fuel : ℕ)
    → ((update_tribal_unit id dto db).0 ≡ ok tt)
      × (climbs_to (parent_of (update_tribal_unit id dto db).1.units) scope fuel (some id) ≡ none)
unfolding update_tribal_unit find_unit check_parent
update_tribal_unit-loops id u dto db scope e p m fuel =
    let own : parent_of (update_tribal_unit id dto db).1.units id ≡ some id =
      ground (arith, e, p, ==_refl id) in
    (
      ground (arith, e, p),
      climbs_to_loops (parent_of (update_tribal_unit id dto db).1.units) scope id own m fuel,
    )
