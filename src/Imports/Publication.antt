-- ===== src/Imports/Publication.antt =====
-- change-request.service.ts with import-apply.service.ts in the place of its importer.
use tftsp.Common.{
  Exception, Option, ℕ, Bool, true, some, ◌≡◌, refl, subst, arith, ok, Result, Keeps, bind-Keeps,
  Bool-cases, Option-cases, inl, inr, return,
}
use tftsp.Domain.{ReviewDecision, published}
use tftsp.Database.{Env}
use tftsp.Persons.Consistency.{IsConsistent}
use tftsp.ChangeRequests.Requests.{ChangeRequest}
use tftsp.ChangeRequests.Store.{Store, notify, record_decision, update_request, upsert_review}
use tftsp.ChangeRequests.Service.{Ports, is_import}
use tftsp.ChangeRequests.Review.{review, publish, publish_import, publish_change, announce_import}
use tftsp.ChangeRequests.Calls.{IsApart, announce_import-Keeps}
use tftsp.ChangeRequests.Outcomes.{conclude-published}
use tftsp.ChangeRequests.Reviewing.{review-ok, with_decision}
use tftsp.ChangeRequests.UnionsKept.{grown, SameTree-IsConsistent, SameTree-refl}
use tftsp.ChangeRequests.Publication.{publish_change-IsConsistent}
use tftsp.ChangeRequests.Quorum.{IsReviewed}
use tftsp.ChangeRequests.Reviews.{LeavesReviews}
use tftsp.Imports.Applying.{publish_batch, on_batch_rejected}
use tftsp.Imports.Applying.Frames.{Closed, publish_batch-Keeps, on_batch_rejected-Keeps}
use tftsp.Imports.Applying.Keeping.{publish_batch-IsConsistent}

-- the importer of the application, with the visibility of persons and the failures of calls left open
abbrev pub import_ports : Env → (Store → ℕ → ℕ → Bool) → (Store → Option Exception) → Ports
import_ports env sees refuses = record {
  has_importer = true;
  publish_batch = λ id cr. publish_batch env cr;
  on_batch_rejected = λ id cr. on_batch_rejected cr;
  sees = sees;
  refuses = refuses;
}

reviews-Closed : Closed IsReviewed
reviews-Closed = record {
  under_db = λ s d c. record { once = c.once; other = c.other };
  under_rows = λ s t c. record { once = c.once; other = c.other };
  under_batches = λ s f id c. record { once = c.once; other = c.other };
}

-- The importer of the application keeps what the service asks of an importer: one decision at most of
-- a user on a request, and none on an own one.
pub import_ports-LeavesReviews :
    (env : Env) (sees : Store → ℕ → ℕ → Bool) (refuses : Store → Option Exception)
    → LeavesReviews (import_ports env sees refuses)
import_ports-LeavesReviews env sees refuses = record {
  publishing = λ id cr. publish_batch-Keeps IsReviewed reviews-Closed env cr;
  rejecting = λ id cr. on_batch_rejected-Keeps IsReviewed reviews-Closed cr;
}

abbrev HasTree : Store → Type 0
HasTree s = IsConsistent s.db

tree_here-IsApart : IsApart HasTree
unfolding notify record_decision
tree_here-IsApart = record {
  told = λ user type id s c. c;
  counted = λ user verdict s c. c;
  audited = λ action id s c. record {
    closure = c.closure;
    fathers = c.fathers;
    listed = c.listed;
    fresh = c.fresh;
  };
}

module _ (env : Env) (sees : Store → ℕ → ℕ → Bool) (refuses : Store → Option Exception) (id : ℕ)
    (cr : ChangeRequest) where
  update-Keeps : (f : ChangeRequest → ChangeRequest) → Keeps HasTree (update_request id f)
  unfolding update_request
  update-Keeps f s c = elim (Option-cases (s.requests.at id)) [
    | inl e ↦ rw (e, update_request) c
    | inr (r, e) ↦ rw (e, update_request) c
  ]

  publish_import-Keeps : Keeps HasTree (publish_import (import_ports env sees refuses) env id cr)
  unfolding publish_import
  publish_import-Keeps =
      let mark =
        λ (r : ChangeRequest). record r { status = published; published_at = some env.now } in
      bind-Keeps HasTree (publish_batch env cr) _ (λ s c. publish_batch-IsConsistent env cr s c)
        (λ _. bind-Keeps HasTree (update_request id mark) _ (update-Keeps mark) (λ r.
          bind-Keeps HasTree (announce_import (import_ports env sees refuses) env id cr)
            (λ _. return r)
            (announce_import-Keeps HasTree tree_here-IsApart (import_ports env sees refuses) env id
              cr)
            (λ _ s c. c)))

  publish-IsConsistent :
      (s : Store) {r : ChangeRequest} {s' : Store}
      → IsConsistent s.db
      → publish (import_ports env sees refuses) env id cr s ≡ (ok r, s')
      → r.status ≡ published
      → IsConsistent s'.db
  unfolding publish
  publish-IsConsistent s {r} {s'} c h e = elim (Bool-cases (is_import cr.target_type)) [
    | inl i ↦
        let run : publish_import (import_ports env sees refuses) env id cr s ≡ (ok r, s') =
          ground (arith, h, i) in
        subst (λ (x : Result ChangeRequest × Store). HasTree x.1) run (publish_import-Keeps s c)
    | inr i ↦
        let run : publish_change (import_ports env sees refuses) env id cr s ≡ (ok r, s') =
          ground (arith, h, i) in
        publish_change-IsConsistent (import_ports env sees refuses) env id cr s c run e
  ]

-- A successful review whose row is published, of a request for a person, a union, a tribal unit or an
-- import batch, leaves consistent live data consistent.
pub review_all-IsConsistent :
    (env : Env) (sees : Store → ℕ → ℕ → Bool) (refuses : Store → Option Exception) (id : ℕ)
    (d : ReviewDecision) (user : ℕ) (s : Store) {r : ChangeRequest} {s' : Store}
    → IsConsistent s.db
    → review (import_ports env sees refuses) env id d user s ≡ (ok r, s')
    → r.status ≡ published
    → IsConsistent s'.db
unfolding upsert_review
review_all-IsConsistent env sees refuses id d user s {r} {s'} good h e =
    let done = review-ok (import_ports env sees refuses) env id d user s h in
    let decided = with_decision id d user s in
    let (_, _, run) =
      conclude-published (import_ports env sees refuses) env id done.cr decided d done.concluded
        e in
    publish-IsConsistent env sees refuses id done.cr decided
      (SameTree-IsConsistent (grown s.db decided.db refl refl (omega arith) (SameTree-refl s.db))
        good)
      run e
