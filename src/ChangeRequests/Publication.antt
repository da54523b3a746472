-- ===== src/ChangeRequests/Publication.antt =====
-- change-request.publisher.ts: publishing leaves the live data consistent.
use tftsp.Common.{
  set_row, ℕ, ◌≡◌, refl, false, Option, none, some, ◌==◌, arith, ok, fail, bind-ok, Option-cases,
  require-ok, require, plain_error, subst, ap, Bool-cases, inl, inr, Result, return-ok,
}
use tftsp.Domain.{
  ReviewDecision, published, ChangeTargetType, person, union, tribal_unit, import_batch,
  ChangeOperation, create, update, delete,
}
use tftsp.Database.{Env, Db, find_live}
use tftsp.Patches.{Fields, patch_to_field_object}
use tftsp.Persons.Consistency.{IsConsistent}
use tftsp.Persons.Creating.{create_in_tx-IsConsistent}
use tftsp.Persons.Updating.{update_in_tx-IsConsistent}
use tftsp.Persons.Deleting.{soft_delete_in_tx-IsConsistent}
use tftsp.Persons.Writes.{create_in_tx}
use tftsp.ChangeRequests.Readers.{read_create_person, read_update_person}
use tftsp.ChangeRequests.Requests.{ChangeRequest, PublishOutcome, applied, in_conflict}
use tftsp.ChangeRequests.Publisher.{apply, apply_to}
use tftsp.ChangeRequests.Store.{upsert_review, Store, put_db, on_db, notify, record_decision}
use tftsp.ChangeRequests.Service.{Ports, is_import}
use tftsp.ChangeRequests.Review.{review, publish, announce, after, publish_change}
use tftsp.ChangeRequests.Calls.{IsApart, announce-Keeps}
use tftsp.ChangeRequests.Outcomes.{conclude-published, Published, publish_change-ok}
use tftsp.ChangeRequests.Reviewing.{review-ok, with_decision}
use tftsp.ChangeRequests.UnionsKept.{
  SameTree, grown, SameTree-IsConsistent, apply_union-Keeps, apply_tribal_unit-Keeps, SameTree-refl,
}
use tftsp.ChangeRequests.PublishPerson.{
  apply_person, person_operation, create_person, change_person, write_person, catch_race, is_race,
}

-- an outcome `applied` comes from a write that did not throw
catch_race-applied :
    (target : Option ℕ) (r : Result (Unit {0}) × Db) {x : Option ℕ} {db' : Db}
    → catch_race target r ≡ (ok (applied x), db')
    → r ≡ (ok tt, db')
catch_race-applied target (ok tt, db) h = ground arith
catch_race-applied target (fail e, db) h = elim (Bool-cases (is_race e)) [ inl y ↦ cc | inr y ↦ cc ]

module _ (env : Env) {db : Db} (good : IsConsistent db) {db' : Db} where
  write_person-IsConsistent :
      (op : ChangeOperation) (fs : Fields) (target version : ℕ)
      → write_person env op fs target version db ≡ (ok tt, db')
      → IsConsistent db'
  unfolding write_person
  write_person-IsConsistent update fs target version h =
      let (dto, s, got, h₁) =
        bind-ok (require (read_update_person fs version) plain_error db) _ h in
      let same = (require-ok (read_update_person fs version) plain_error db got).1 in
      update_in_tx-IsConsistent env target dto s (subst IsConsistent same good) h₁
  write_person-IsConsistent create fs target version h =
      soft_delete_in_tx-IsConsistent env target db good h
  write_person-IsConsistent delete fs target version h =
      soft_delete_in_tx-IsConsistent env target db good h

  create_person-IsConsistent :
      (author : ℕ) (fs : Fields) {o : PublishOutcome}
      → create_person env author fs db ≡ (ok o, db')
      → IsConsistent db'
  unfolding create_person
  create_person-IsConsistent author fs h =
      let (dto, s, got, h₁) = bind-ok (require (read_create_person fs) plain_error db) _ h in
      let same = (require-ok (read_create_person fs) plain_error db got).1 in
      let (id, s₂, made, h₂) = bind-ok (create_in_tx env dto (some author) none s) _ h₁ in
      subst IsConsistent (return-ok h₂).1
        (create_in_tx-IsConsistent env dto (some author) none s (subst IsConsistent same good) made)

  change_person-IsConsistent :
      (cr : ChangeRequest) (target base x : Option ℕ)
      → change_person env cr target base db ≡ (ok (applied x), db')
      → IsConsistent db'
  unfolding change_person
  change_person-IsConsistent cr none base x h = cc
  change_person-IsConsistent cr (some target) none x h = cc
  change_person-IsConsistent cr (some target) (some version) x h =
      elim (Option-cases (find_live db target)) [
        | inl e ↦ cc
        | inr (current, e) ↦ elim (Bool-cases (current.version == version)) [
          | inl q ↦
              let fs = patch_to_field_object cr.patch in
              write_person-IsConsistent cr.operation fs target version (
                catch_race-applied (some target)
                  (write_person env cr.operation fs target version db) {x = x} (ground arith))
          | inr q ↦ ground arith
        ]
      ]

  apply_person-IsConsistent :
      (cr : ChangeRequest) (x : Option ℕ)
      → apply_person env cr db ≡ (ok (applied x), db')
      → IsConsistent db'
  unfolding apply_person
  apply_person-IsConsistent cr x h = go cr.operation h
    where
      go :
          (op : ChangeOperation)
          → person_operation env cr op db ≡ (ok (applied x), db')
          → IsConsistent db'
      go create e = create_person-IsConsistent cr.created_by (patch_to_field_object cr.patch) e
      go update e = change_person-IsConsistent cr cr.target_id cr.base_version x e
      go delete e = change_person-IsConsistent cr cr.target_id cr.base_version x e

  -- A request that is applied leaves consistent live data consistent, whatever it is about.
  pub apply-IsConsistent :
      (cr : ChangeRequest) (x : Option ℕ)
      → apply env cr db ≡ (ok (applied x), db')
      → IsConsistent db'
  unfolding apply
  apply-IsConsistent cr x h = go cr.target_type h
    where
      go : (t : ChangeTargetType) → apply_to env cr t db ≡ (ok (applied x), db') → IsConsistent db'
      go person e = apply_person-IsConsistent cr x e
      go union e =
          subst IsConsistent (ap (λ y. y.1) e)
            (SameTree-IsConsistent (apply_union-Keeps db env cr db (SameTree-refl db)) good)
      go tribal_unit e =
          subst IsConsistent (ap (λ y. y.1) e)
            (SameTree-IsConsistent (apply_tribal_unit-Keeps db env cr db (SameTree-refl db)) good)
      go import_batch e = cc

-- what is told and counted afterwards does not touch the tree, nor the requests
pub tree-IsApart : (db : Db) → IsApart (λ s. SameTree db s.db)
unfolding notify record_decision
tree-IsApart db = record {
  told = λ user type id s c. c;
  counted = λ user verdict s c. c;
  audited = λ action id s c. grown s.db _ refl refl (omega arith) c;
}

module _ (ports : Ports) (env : Env) (id : ℕ) (cr : ChangeRequest) where
  on_db-ok :
      (s : Store) {o : PublishOutcome} {s' : Store}
      → on_db (apply env cr) s ≡ (ok o, s')
      → apply env cr s.db ≡ (ok o, s'.db)
  on_db-ok s {o} {s'} h = go (apply env cr s.db) h
    where
      go : (r : Result PublishOutcome × Db) → put_db s r ≡ (ok o, s') → r ≡ (ok o, s'.db)
      go (ok a, db) e = ground arith
      go (fail x, db) e = cc

  published-IsConsistent :
      {s : Store} {r : ChangeRequest} {s' : Store}
      → IsConsistent s.db
      → Published ports env id cr s r s'
      → r.status ≡ published
      → IsConsistent s'.db
  published-IsConsistent {s} {r} {s'} good done e = go done.outcome done.run done.row done.left
    where
      go :
          (o : PublishOutcome)
          → on_db (apply env cr) s ≡ (ok o, done.middle)
          → r ≡ after ports env o done.old
          → announce ports env id cr o
              (record (done.middle) { requests = set_row id r done.middle.requests })
            ≡ (ok tt, s')
          → IsConsistent s'.db
      go (applied x) run row left =
          let marked = record (done.middle) { requests = set_row id r done.middle.requests } in
          subst IsConsistent (ap (λ y. y.1.db) left) (
            SameTree-IsConsistent
              (announce-Keeps (λ t. SameTree marked.db t.db) (tree-IsApart marked.db) ports env id
                cr (applied x) marked (SameTree-refl marked.db))
              (apply-IsConsistent env good cr x (on_db-ok s run)))
      go in_conflict run row left = cc

  -- A publication that marks its request as published leaves consistent live data consistent.
  pub publish_change-IsConsistent :
      (s : Store) {r : ChangeRequest} {s' : Store}
      → IsConsistent s.db
      → publish_change ports env id cr s ≡ (ok r, s')
      → r.status ≡ published
      → IsConsistent s'.db
  publish_change-IsConsistent s good h e =
      published-IsConsistent good (publish_change-ok ports env id cr s h) e

-- A successful review of a request that is not about an import batch, whose row is published, leaves
-- consistent live data consistent.
pub review-IsConsistent :
    (ports : Ports) (env : Env) (id : ℕ) (d : ReviewDecision) (user : ℕ) (s : Store)
    {r : ChangeRequest} {s' : Store}
    → ((cr : ChangeRequest) → s.requests.at id ≡ some cr → is_import cr.target_type ≡ false)
    → IsConsistent s.db
    → review ports env id d user s ≡ (ok r, s')
    → r.status ≡ published
    → IsConsistent s'.db
unfolding publish upsert_review
review-IsConsistent ports env id d user s {r} {s'} other good h e =
    let done = review-ok ports env id d user s h in
    let decided = with_decision id d user s in
    let (_, _, run) = conclude-published ports env id done.cr decided d done.concluded e in
    let no_import = other done.cr done.found in
    let changed : publish_change ports env id done.cr decided ≡ (ok r, s') =
      ground (arith, no_import, run) in
    publish_change-IsConsistent ports env id done.cr decided
      (SameTree-IsConsistent (grown s.db decided.db refl refl (omega arith) (SameTree-refl s.db))
        good)
      changed e
