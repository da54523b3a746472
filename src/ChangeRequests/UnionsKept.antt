-- ===== src/ChangeRequests/UnionsKept.antt =====
-- change-request.publisher.ts `applyUnion` and `applyTribalUnit`: neither touches the tree of persons.
use tftsp.Common.{
  return, row_passes, map_option, ◌∙◌, text, Text, trim, ℕ, ◌≡◌, ◌≤◌, refl, Option, none, some,
  arith, fun_ext, subst, sym, ap, Bool-cases, inl, inr, bind-Keeps, throw_if-Keeps, require-Keeps,
  Keeps, require, throw_if, plain_error, is_some, Option-cases, subst₂,
}
use tftsp.Domain.{ChangeOperation, create, update, delete}
use tftsp.Database.{Env, Db, Union, TribalUnit, Person, is_live}
use tftsp.Patches.{Fields, Json, patch_to_field_object, get_field}
use tftsp.Lineage.Moves.{FathersLive}
use tftsp.Persons.Consistency.{IsConsistent, live, father_of, father_in_row}
use tftsp.Persons.Fields.{or_invalid, parse_partial_date, update_date}
use tftsp.ChangeRequests.Readers.{flat, as_id, as_text, read_union_status, read_unit_type}
use tftsp.ChangeRequests.Requests.{ChangeRequest, applied}
use tftsp.ChangeRequests.PublishUnion.{
  apply_union, create_union, update_union, change_union, person_key, union_operation,
  union_on_record,
}
use tftsp.ChangeRequests.PublishUnit.{
  apply_tribal_unit, create_unit, update_unit, change_unit, delete_unit, cleared, dangling,
  tribal_unit_operation, tribal_unit_on_record,
}

-- the tree of persons is the same, and the identifiers have only grown
pub record SameTree (db db' : Db) : Type 0 where
  pub ids : db'.persons.ids ≡ db.persons.ids
  pub lives : live db'.persons.at ≡ live db.persons.at
  pub fathers : father_of db'.persons.at ≡ father_of db.persons.at
  pub gone : (x : ℕ) → db.persons.at x ≡ none → db'.persons.at x ≡ none
  pub kept :
      (x : ℕ) (p : Person) → db'.persons.at x ≡ some p → (q : Person) × (db.persons.at x ≡ some q)
  pub closures : db'.closures ≡ db.closures
  pub next : db.next_id ≤ db'.next_id

pub SameTree-refl : (db : Db) → SameTree db db
SameTree-refl db = record {
  ids = refl;
  lives = refl;
  fathers = refl;
  gone = λ x e. e;
  kept = λ x p e. (p, e);
  closures = refl;
  next = omega arith;
}

pub SameTree-IsConsistent : {db db' : Db} → SameTree db db' → IsConsistent db → IsConsistent db'
SameTree-IsConsistent {db} {db'} same c = record {
  closure = rw (same.lives, same.fathers, same.closures) c.closure;
  fathers = subst₂ (λ l f. FathersLive l f) (sym same.lives) (sym same.fathers) c.fathers;
  listed = λ x p e. let (q, f) = same.kept x p e in rw same.ids (c.listed x q f);
  fresh = λ x e. same.gone x (c.fresh x (omega (arith, same.next)));
}

parse_partial_date-same :
    (env : Env) (o : Option Text) (s : Db) → (parse_partial_date env o s).1 ≡ s
unfolding parse_partial_date
parse_partial_date-same env none s = refl
parse_partial_date-same env (some value) s =
    ground (arith, or_invalid-same (env.date_of (trim value)))
  where
    or_invalid-same : (o : Option ℕ) → (or_invalid {S = Db} o s).1 ≡ s
    or_invalid-same none = refl
    or_invalid-same (some d) = refl

module _ (P : Db → Type 0) (env : Env) where
  parse_partial_date-Keeps : (o : Option Text) → Keeps P (parse_partial_date env o)
  parse_partial_date-Keeps o s p = subst P (sym (parse_partial_date-same env o s)) p

  update_date-Keeps : (o : Option (Option Text)) (old : Option ℕ) → Keeps P (update_date env o old)
  unfolding update_date
  update_date-Keeps none old s p = p
  update_date-Keeps (some value) old s p = parse_partial_date-Keeps value s p

  person_key-Keeps : (json : Option Json) → Keeps P (person_key json)
  unfolding person_key
  person_key-Keeps json =
      bind-Keeps P (require (flat (flat (as_id json))) plain_error) _ (require-Keeps P _ _)
        (λ id s p. elim (Bool-cases (is_some (s.persons.at id))) [
          | inl e ↦ ground (arith, p)
          | inr e ↦ ground (arith, p)
        ])

-- a write that leaves persons and closures alone
pub grown :
    {db : Db} (s t : Db)
    → t.persons ≡ s.persons
    → t.closures ≡ s.closures
    → s.next_id ≤ t.next_id
    → SameTree db s
    → SameTree db t
grown s t persons closures next same = record {
  ids = ap (λ x. x.ids) persons ∙ same.ids;
  lives = ap (λ x. live x.at) persons ∙ same.lives;
  fathers = ap (λ x. father_of x.at) persons ∙ same.fathers;
  gone = λ x e. rw persons (same.gone x e);
  kept = λ x p e. same.kept x p (rw persons at e);
  closures = closures ∙ same.closures;
  next = omega (arith, same.next, next);
}

module _ (db : Db) (env : Env) (fs : Fields) where
  abbrev Same : Db → Type 0
  Same = SameTree db

  create_union-Keeps : Keeps (SameTree db) (create_union env fs)
  unfolding create_union
  create_union-Keeps =
      bind-Keeps Same (require (as_text (get_field (text "marriageDate") fs)) plain_error) _
        (require-Keeps Same _ _)
        (λ date.
          bind-Keeps Same (parse_partial_date env (flat date)) _
            (parse_partial_date-Keeps Same env (flat date))
            (λ married.
              bind-Keeps Same (person_key (get_field (text "husbandId") fs)) _
                (person_key-Keeps Same env _)
                (λ husband.
                  bind-Keeps Same (person_key (get_field (text "wifeId") fs)) _
                    (person_key-Keeps Same env _)
                    (λ wife s p. grown s _ refl refl (omega arith) p))))

  update_union-Keeps : (id : ℕ) (before : Union) → Keeps Same (update_union env fs id before)
  unfolding update_union
  update_union-Keeps id before =
      bind-Keeps Same (require (as_text (get_field (text "marriageDate") fs)) plain_error) _
        (require-Keeps Same _ _)
        (λ married.
          bind-Keeps Same (update_date env married before.marriage_date) _
            (update_date-Keeps Same env married _)
            (λ married_at.
              bind-Keeps Same (require (as_text (get_field (text "endDate") fs)) plain_error) _
                (require-Keeps Same _ _)
                (λ end.
                  bind-Keeps Same (update_date env end before.end_date) _
                    (update_date-Keeps Same env end _)
                    (λ ended_at.
                      bind-Keeps Same
                        (require (read_union_status (get_field (text "status") fs)) plain_error) _
                        (require-Keeps Same _ _)
                        (λ status.
                          bind-Keeps Same
                            (require (as_text (get_field (text "endReason") fs)) plain_error) _
                            (require-Keeps Same _ _)
                            (λ reason s p. grown s _ refl refl (omega arith) p))))))

  change_union-Keeps :
      (op : ChangeOperation) (id : ℕ) (before : Union)
      → Keeps Same (change_union env op fs id before)
  unfolding change_union
  change_union-Keeps delete id before s p = grown s _ refl refl (omega arith) p
  change_union-Keeps create id before s₀ p₀ =
      bind-Keeps Same (update_union env fs id before) (λ _. return (applied (some id)))
        (update_union-Keeps id before) (λ u s p. p) s₀ p₀
  change_union-Keeps update id before s₀ p₀ =
      bind-Keeps Same (update_union env fs id before) (λ _. return (applied (some id)))
        (update_union-Keeps id before) (λ u s p. p) s₀ p₀

  create_unit-Keeps : Keeps Same (create_unit env fs)
  unfolding create_unit
  create_unit-Keeps =
      bind-Keeps Same (require (as_id (get_field (text "parentId") fs)) plain_error) _
        (require-Keeps Same _ _)
        (λ parent.
          bind-Keeps Same (require (read_unit_type (get_field (text "unitType") fs)) plain_error) _
            (require-Keeps Same _ _)
            (λ type.
              bind-Keeps Same (require type plain_error) _ (require-Keeps Same _ _)
                (λ given_type s p.
                  bind-Keeps Same (throw_if (dangling (flat parent) s) plain_error) _
                    (throw_if-Keeps Same _ _) (λ u t q. grown t _ refl refl (omega arith) q) s p)))

  update_unit-Keeps : (id : ℕ) (before : TribalUnit) → Keeps Same (update_unit env fs id before)
  unfolding update_unit
  update_unit-Keeps id before =
      bind-Keeps Same (require (as_id (get_field (text "parentId") fs)) plain_error) _
        (require-Keeps Same _ _)
        (λ parent.
          bind-Keeps Same (require (read_unit_type (get_field (text "unitType") fs)) plain_error) _
            (require-Keeps Same _ _)
            (λ type s p.
              bind-Keeps Same (throw_if (dangling (flat parent) s) plain_error) _
                (throw_if-Keeps Same _ _) (λ u t q. grown t _ refl refl (omega arith) q) s p))

-- the persons of a deleted unit lose their unit and nothing else
delete_unit-SameTree : (id : ℕ) {db : Db} (s : Db) → SameTree db s → SameTree db (delete_unit id s)
unfolding delete_unit
delete_unit-SameTree id s same = record {
  ids = same.ids;
  lives = fun_ext (λ x. go_live (s.persons.at x)) ∙ same.lives;
  fathers = fun_ext (λ x. go_father (s.persons.at x)) ∙ same.fathers;
  gone = λ x e. rw (same.gone x e) refl;
  kept = λ x p e. elim (Option-cases (s.persons.at x)) [
    | inl f ↦ ground arith
    | inr (q, f) ↦ same.kept x q f
  ];
  closures = same.closures;
  next = same.next;
}
  where
    unset : Person → Person
    unset p = record p { tribal_unit_id = cleared id p.tribal_unit_id }

    go_live : (o : Option Person) → row_passes is_live (map_option unset o) ≡ row_passes is_live o
    go_live none = refl
    go_live (some p) = refl

    go_father : (o : Option Person) → father_in_row (map_option unset o) ≡ father_in_row o
    go_father none = refl
    go_father (some p) = refl

module _ (db : Db) (env : Env) where
  change_unit-Keeps :
      (op : ChangeOperation) (fs : Fields) (id : ℕ) (before : TribalUnit)
      → Keeps (SameTree db) (change_unit env op fs id before)
  unfolding change_unit
  change_unit-Keeps delete fs id before s p =
      grown (delete_unit id s) _ refl refl (omega arith) (delete_unit-SameTree id s p)
  change_unit-Keeps create fs id before s₀ p₀ =
      bind-Keeps (SameTree db) (update_unit env fs id before) (λ _. return (applied (some id)))
        (update_unit-Keeps db env fs id before) (λ u s p. p) s₀ p₀
  change_unit-Keeps update fs id before s₀ p₀ =
      bind-Keeps (SameTree db) (update_unit env fs id before) (λ _. return (applied (some id)))
        (update_unit-Keeps db env fs id before) (λ u s p. p) s₀ p₀

  pub apply_union-Keeps : (cr : ChangeRequest) → Keeps (SameTree db) (apply_union env cr)
  unfolding apply_union
  apply_union-Keeps cr = go cr.operation
    where
      recorded : (target : Option ℕ) → Keeps (SameTree db) (union_on_record env cr target)
      recorded none s p = p
      recorded (some id) s p = elim (Option-cases (s.unions.at id)) [
        | inl e ↦ rw (e, union_on_record) p
        | inr (before, e) ↦
            rw (e, union_on_record)
              (change_union-Keeps db env (patch_to_field_object cr.patch) cr.operation id before s
                p)
      ]

      go : (op : ChangeOperation) → Keeps (SameTree db) (union_operation env cr op)
      go create = create_union-Keeps db env (patch_to_field_object cr.patch)
      go update = recorded cr.target_id
      go delete = recorded cr.target_id

  pub apply_tribal_unit-Keeps :
      (cr : ChangeRequest) → Keeps (SameTree db) (apply_tribal_unit env cr)
  unfolding apply_tribal_unit
  apply_tribal_unit-Keeps cr = go cr.operation
    where
      recorded : (target : Option ℕ) → Keeps (SameTree db) (tribal_unit_on_record env cr target)
      recorded none s p = p
      recorded (some id) s p = elim (Option-cases (s.units.at id)) [
        | inl e ↦ rw (e, tribal_unit_on_record) p
        | inr (before, e) ↦
            rw (e, tribal_unit_on_record)
              (change_unit-Keeps cr.operation (patch_to_field_object cr.patch) id before s p)
      ]

      go : (op : ChangeOperation) → Keeps (SameTree db) (tribal_unit_operation env cr op)
      go create = create_unit-Keeps db env (patch_to_field_object cr.patch)
      go update = recorded cr.target_id
      go delete = recorded cr.target_id
