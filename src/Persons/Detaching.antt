-- ===== src/Persons/Detaching.antt =====
-- `lineage.onSoftDelete` on the rows and the closure: the loop over the children, then the removal.
use tftsp.Common.{
  filter, ℕ, ◌≡◌, refl, sym, ap, ◌∙◌, subst, fun_ext, Bool, true, false, ◌&&◌, Option, none, some,
  List, [], ◌∷◌, if◌then◌else◌, ◌==◌, opt_eq, opt_eq_iff, mem, Option-cases, inl, inr, arith,
  row_passes, mem-select_ids, update_row-at, update_row-ids, map_option,
}
use tftsp.Database.{Person, Db, is_live}
use tftsp.Lineage.{detach_children, on_soft_delete, remove_person_rows}
use tftsp.Lineage.Chain.{update}
use tftsp.Lineage.Moves.{IsClosure}
use tftsp.Lineage.Writes.{cut_all, AllLive, on_soft_delete-IsClosure}
use tftsp.Persons.Writes.{
  direct_children, detach_child, detach_all, lineage_soft_delete, without_father,
}
use tftsp.Persons.Consistency.{IsConsistent, live, father_of}

-- what the loop over the children does to the rows
pub record Detached (children : List ℕ) (db db' : Db) : Type 0 where
  pub same_live : live db'.persons.at ≡ live db.persons.at
  pub cut : father_of db'.persons.at ≡ cut_all (father_of db.persons.at) children
  pub closures : db'.closures ≡ detach_children children db.closures
  pub ids : db'.persons.ids ≡ db.persons.ids
  pub next : db'.next_id ≡ db.next_id
  pub present :
      (x : ℕ) (p : Person) → db'.persons.at x ≡ some p → (q : Person) × (db.persons.at x ≡ some q)

detach_child-at :
    (child : ℕ) (db : Db) (x : ℕ)
    → (detach_child child db).persons.at x
      ≡ (if child == x then map_option without_father (db.persons.at x) else db.persons.at x)
unfolding detach_child
detach_child-at child db x = update_row-at without_father child db.persons x

detach_child-present :
    (child : ℕ) (db : Db) (x : ℕ) (p : Person)
    → (detach_child child db).persons.at x ≡ some p
    → (q : Person) × (db.persons.at x ≡ some q)
detach_child-present child db x p h = elim (Option-cases (db.persons.at x)) [
  | inl e ↦
      let gone : (detach_child child db).persons.at x ≡ none =
        detach_child-at child db x ∙ ground arith in
      cc
  | inr (q, e) ↦ (q, e)
]

detach_child-live :
    (child : ℕ) (db : Db) → live (detach_child child db).persons.at ≡ live db.persons.at
detach_child-live child db = fun_ext (λ x. rw detach_child-at (ground arith))

detach_child-father :
    (child : ℕ) (db : Db)
    → father_of (detach_child child db).persons.at ≡ update (father_of db.persons.at) child none
detach_child-father child db = fun_ext (λ x. rw detach_child-at (ground arith))

detach_child-ids : (child : ℕ) (db : Db) → (detach_child child db).persons.ids ≡ db.persons.ids
unfolding detach_child
detach_child-ids child db = update_row-ids without_father child db.persons

pub detach_all-Detached :
    (children : List ℕ) (db : Db) → Detached children db (detach_all children db)
unfolding detach_all detach_children
detach_all-Detached [] db = record {
  same_live = refl;
  cut = refl;
  closures = refl;
  ids = refl;
  next = refl;
  present = λ x p e. (p, e);
}
detach_all-Detached (child ∷ children) db =
    let d = detach_child child db in
    let ih = detach_all-Detached children d in
    record {
      same_live = ih.same_live ∙ detach_child-live child db;
      cut = ih.cut ∙ ap (λ f. cut_all f children) (detach_child-father child db);
      closures = ih.closures ∙ refl;
      ids = ih.ids ∙ detach_child-ids child db;
      next = ih.next;
      present = λ x p e. let (q, f) = ih.present x p e in detach_child-present child db x q f;
    }

pub cut_all-some :
    (children : List ℕ) (father : ℕ → Option ℕ) (x p : ℕ)
    → cut_all father children x ≡ some p
    → (father x ≡ some p) × (mem x children ≡ false)
cut_all-some [] father x p h = (h, refl)
cut_all-some (child ∷ children) father x p h =
    let (e, out) = cut_all-some children (update father child none) x p h in
    (ground arith, ground arith)

-- the query finds every child, so none is left after the loop
pub direct_children_complete :
    (db : Db) (id x : ℕ)
    → ((y : ℕ) (p : Person) → db.persons.at y ≡ some p → mem y db.persons.ids ≡ true)
    → father_of db.persons.at x ≡ some id
    → mem x (direct_children db id) ≡ true
unfolding direct_children
direct_children_complete db id x listed h = elim (Option-cases (db.persons.at x)) [
  | inl e ↦ cc (rw e at h)
  | inr (p, e) ↦
      let found : mem x db.persons.ids ≡ true = listed x p e in
      mem-select_ids (λ q. is_live q && opt_eq q.father_id (some id)) db.persons.at x db.persons.ids
      ∙ ground (arith, opt_eq_iff p.father_id (some id))
]

mem_of_live :
    (at : ℕ → Option Person) (test : Person → Bool) (xs : List ℕ)
    → AllLive (live at) (filter (λ x. row_passes (λ p. is_live p && test p) (at x)) xs)
mem_of_live at test [] = tt
mem_of_live at test (x ∷ xs) = ground (arith, mem_of_live at test xs)

pub lineage_soft_delete-IsClosure :
    (id : ℕ) (db : Db)
    → IsConsistent db
    → let children = direct_children db id in
      IsClosure
        (update (live db.persons.at) id false)
        (update (cut_all (father_of db.persons.at) children) id none)
        (lineage_soft_delete id db).closures
unfolding lineage_soft_delete direct_children on_soft_delete
lineage_soft_delete-IsClosure id db c =
    let children = direct_children db id in
    subst
      (λ t.
        IsClosure (update (live db.persons.at) id false)
          (update (cut_all (father_of db.persons.at) children) id none) (remove_person_rows id t))
      (sym (detach_all-Detached children db).closures)
      (on_soft_delete-IsClosure id children (father_of db.persons.at) db.closures c.closure
        c.fathers (mem_of_live db.persons.at (λ p. opt_eq p.father_id (some id)) db.persons.ids)
        (λ x h.
          let (e, out) = cut_all-some children (father_of db.persons.at) x id h in
          let within : mem x children ≡ true = direct_children_complete db id x c.listed e in cc))
