-- ===== src/Persons/Deleting.antt =====
-- persons.service.ts `softDeleteInTx`: the children become roots, the person leaves the closure, and
-- the live data stays consistent.
use tftsp.Common.{
  ℕ, ◌≡◌, sym, ap, ◌∙◌, subst, subst₂, fun_ext, true, false, none, some, if◌then◌else◌, ◌==◌,
  ==_iff, mem, Bool-cases, Option-cases, inl, inr, arith, row_passes, update_row, update_row-at,
  update_row-ids, map_option, ok, bind-ok, require, require-ok, not_found, person_not_found,
}
use tftsp.Database.{Person, Env, Db, is_live, find_live}
use tftsp.Lineage.Chain.{update}
use tftsp.Lineage.Moves.{IsClosure, FathersLive}
use tftsp.Lineage.Writes.{cut_all}
use tftsp.Persons.Writes.{
  direct_children, detach_all, lineage_soft_delete, soft_delete_in_tx, deleted,
}
use tftsp.Persons.Consistency.{IsConsistent, live, father_of, father_in_row}
use tftsp.Persons.Detaching.{
  Detached, detach_all-Detached, cut_all-some, direct_children_complete,
  lineage_soft_delete-IsClosure,
}

-- what a successful call did
record Deleted (id : ℕ) (db db' : Db) : Type 0 where
  before : Person
  stamp : ℕ
  found : find_live db id ≡ some before
  rows : db'.persons ≡ update_row (deleted stamp) id (lineage_soft_delete id db).persons
  closures : db'.closures ≡ (lineage_soft_delete id db).closures
  next : db'.next_id ≡ (lineage_soft_delete id db).next_id

soft_delete_in_tx-ok :
    (env : Env) (id : ℕ) (db : Db) {u : Unit {0}} {db' : Db}
    → soft_delete_in_tx env id db ≡ (ok u, db')
    → Deleted id db db'
unfolding soft_delete_in_tx
soft_delete_in_tx-ok env id db h =
    let (before, s, read, rest) =
      bind-ok (require (find_live db id) (not_found person_not_found) db) _ h in
    let (found, same) = require-ok _ _ db read in
    record {
      before = before;
      stamp = env.now;
      found = found;
      rows = ground arith;
      closures = ground arith;
      next = ground arith;
    }

module _ {id : ℕ} {db db' : Db} (gone : Deleted id db db') where
  open gone use {before, stamp, found, rows, closures, next}

  loop : Detached (direct_children db id) db (detach_all (direct_children db id) db)
  loop = detach_all-Detached (direct_children db id) db

  deleted_at :
      (x : ℕ)
      → db'.persons.at x ≡ (
          if id == x
          then map_option (deleted stamp) ((detach_all (direct_children db id) db).persons.at x)
          else (detach_all (direct_children db id) db).persons.at x)
  unfolding lineage_soft_delete
  deleted_at x =
      ap (λ t. t.at x) rows
      ∙ update_row-at (deleted stamp) id (detach_all (direct_children db id) db).persons x

  deleted_live : live db'.persons.at ≡ update (live db.persons.at) id false
  deleted_live =
      fun_ext
        (λ x. ap (row_passes is_live) (deleted_at x) ∙ ground (arith, ap (λ l. l x) loop.same_live))

  deleted_father :
      father_of db'.persons.at
      ≡ update (cut_all (father_of db.persons.at) (direct_children db id)) id none
  deleted_father =
      fun_ext (λ x. ap father_in_row (deleted_at x) ∙ ground (arith, ap (λ g. g x) loop.cut))

  -- nobody who is live still has the deleted person as father
  deleted_fathers :
      IsConsistent db
      → FathersLive
          (update (live db.persons.at) id false)
          (update (cut_all (father_of db.persons.at) (direct_children db id)) id none)
  deleted_fathers c d m e = elim (Bool-cases (id == d)) [
    | inl q ↦ cc (rw q at e)
    | inr q ↦
        let (e', out) =
          cut_all-some (direct_children db id) (father_of db.persons.at) d m (rw q at e) in
        let (alive_d, alive_m) = c.fathers d m e' in
        (
          rw q alive_d,
          elim (Bool-cases (id == m)) [
            | inl q' ↦
                let within : mem d (direct_children db id) ≡ true =
                  direct_children_complete db id d c.listed
                    (e' ∙ ap some (sym ((==_iff id m).0 q'))) in
                cc
            | inr q' ↦ rw q' alive_m
          ],
        )
  ]

  deleted_present :
      (x : ℕ) (p : Person) → db'.persons.at x ≡ some p → (q : Person) × (db.persons.at x ≡ some q)
  deleted_present x p e =
      elim (Option-cases ((detach_all (direct_children db id) db).persons.at x)) [
        | inl n ↦ let none_left : db'.persons.at x ≡ none = deleted_at x ∙ ground arith in cc
        | inr (q, f) ↦ loop.present x q f
      ]

  deleted_ids : db'.persons.ids ≡ db.persons.ids
  unfolding lineage_soft_delete
  deleted_ids =
      ap (λ t. t.ids) rows
      ∙ (update_row-ids (deleted stamp) id (detach_all (direct_children db id) db).persons
          ∙ loop.ids)

  deleted_next : db'.next_id ≡ db.next_id
  unfolding lineage_soft_delete
  deleted_next = next ∙ loop.next

  -- the live data stays consistent
  Deleted-IsConsistent : IsConsistent db → IsConsistent db'
  Deleted-IsConsistent c = record {
    closure =
        subst (λ l. IsClosure l (father_of db'.persons.at) db'.closures) (sym deleted_live)
          (subst₂ (λ f t. IsClosure (update (live db.persons.at) id false) f t) (sym deleted_father)
            (sym closures) (lineage_soft_delete-IsClosure id db c));
    fathers =
        subst₂ (λ l f. FathersLive l f) (sym deleted_live) (sym deleted_father) (deleted_fathers c);
    listed = λ x p e.
        let (q, f) = deleted_present x p e in
        subst (λ ids. mem x ids ≡ true) (sym deleted_ids) (c.listed x q f);
    fresh = λ x h. elim (Option-cases (db'.persons.at x)) [
      | inl n ↦ n
      | inr (p, e) ↦
          let (q, f) = deleted_present x p e in
          let n : db.persons.at x ≡ none = c.fresh x (omega (arith, deleted_next)) in cc
    ];
  }

-- A soft delete of a person that succeeds on consistent data leaves consistent data.
pub soft_delete_in_tx-IsConsistent :
    (env : Env) (id : ℕ) (db : Db) {u : Unit {0}} {db' : Db}
    → IsConsistent db
    → soft_delete_in_tx env id db ≡ (ok u, db')
    → IsConsistent db'
soft_delete_in_tx-IsConsistent env id db c h =
    Deleted-IsConsistent (soft_delete_in_tx-ok env id db h) c
