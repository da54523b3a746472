-- ===== src/ChangeRequests/Quorum.antt =====
-- change-request.repository.ts `upsertReview` and `approvalsCount`: who is counted.
use tftsp.Common.{
  ℕ, suc, ◌≡◌, ◌≤◌, refl, sym, subst, true, false, some, List, [], ◌∷◌, ◌&&◌, ◌||◌, ◌==◌, ==_iff,
  not, any, mem, if◌then◌else◌, length, count_by, arith, ok, Bool-cases, inl, inr,
}
use tftsp.Domain.{ReviewDecision, published}
use tftsp.Database.{Env}
use tftsp.ChangeRequests.Requests.{ChangeRequest}
use tftsp.ChangeRequests.Store.{
  Store, Review, upsert, same_review, is_approve, approvals_count, upsert_review,
}
use tftsp.ChangeRequests.Service.{Ports}
use tftsp.ChangeRequests.Review.{review}
use tftsp.ChangeRequests.Reviewing.{review-ok, review-quorum, with_decision}

-- the reviewers who approve of a request
abbrev pub approvers : ℕ → List Review → List ℕ
approvers id [] = []
approvers id (r ∷ rows) =
    let rest = approvers id rows in
    if (r.request == id) && is_approve r.decision then r.reviewer ∷ rest else rest

length-approvers :
    (id : ℕ) (rows : List Review)
    → length (approvers id rows) ≡ count_by (λ r. (r.request == id) && is_approve r.decision) rows
length-approvers id [] = refl
length-approvers id (r ∷ rows) = ground (arith, length-approvers id rows)

approvers_once :
    (id u : ℕ) (rows : List Review)
    → count_by (λ x. x == u) (approvers id rows) ≤ count_by (same_review id u) rows
approvers_once id u [] = omega arith
approvers_once id u (r ∷ rows) = ground (arith, approvers_once id u rows)

mem-approvers :
    (id u : ℕ) (rows : List Review)
    → mem u (approvers id rows) ≡ true
    → any (same_review id u) rows ≡ true
mem-approvers id u [] h = cc
mem-approvers id u (r ∷ rows) h = ground (arith, mem-approvers id u rows)

-- Every user has one decision at most on a request, and none on an own one.
pub record IsReviewed (s : Store) : Type 0 where
  pub once : (id u : ℕ) → count_by (same_review id u) s.reviews ≤ 1
  pub other :
      (id : ℕ) (cr : ChangeRequest)
      → s.requests.at id ≡ some cr
      → any (same_review id cr.created_by) s.reviews ≡ false

upsert-any :
    (id u : ℕ) (d : ReviewDecision) (id' u' : ℕ) (rows : List Review)
    → any (same_review id' u') (upsert id u d rows)
      ≡ (((id == id') && (u == u')) || any (same_review id' u') rows)
upsert-any id u d id' u' [] = ground arith
upsert-any id u d id' u' (r ∷ rows) = ground (arith, upsert-any id u d id' u' rows)

upsert-count :
    (id u : ℕ) (d : ReviewDecision) (id' u' : ℕ) (rows : List Review)
    → count_by (same_review id' u') (upsert id u d rows) ≡ (
        if ((id == id') && (u == u')) && not (any (same_review id u) rows)
        then suc (count_by (same_review id' u') rows)
        else count_by (same_review id' u') rows)
upsert-count id u d id' u' [] = ground arith
upsert-count id u d id' u' (r ∷ rows) = ground (arith, upsert-count id u d id' u' rows)

none_counted :
    (id u : ℕ) (rows : List Review)
    → any (same_review id u) rows ≡ false
    → count_by (same_review id u) rows ≡ 0
none_counted id u [] h = refl
none_counted id u (r ∷ rows) h = ground (arith, none_counted id u rows)

module _ (id : ℕ) (d : ReviewDecision) (user : ℕ) (s : Store) (cr : ChangeRequest)
    (found : s.requests.at id ≡ some cr) (not_own : (cr.created_by == user) ≡ false)
    (c : IsReviewed s) where
  decided_once : (i u : ℕ) → count_by (same_review i u) (upsert id user d s.reviews) ≤ 1
  decided_once i u =
      elim (Bool-cases (((id == i) && (user == u)) && not (any (same_review id user) s.reviews))) [
        | inl e ↦
            let none_yet : any (same_review id user) s.reviews ≡ false = ground arith in
            let same : (id ≡ i) × (user ≡ u) = ground arith in
            let zero : count_by (same_review i u) s.reviews ≡ 0 =
              subst (λ x. count_by (same_review x u) s.reviews ≡ 0) same.0
                (subst (λ y. count_by (same_review id y) s.reviews ≡ 0) same.1
                  (none_counted id user s.reviews none_yet)) in
            rw (upsert-count id user d i u s.reviews, e) (omega (arith, zero))
        | inr e ↦ rw (upsert-count id user d i u s.reviews, e) (c.once i u)
      ]

  decided_by_other :
      (i : ℕ) (x : ChangeRequest)
      → s.requests.at i ≡ some x
      → any (same_review i x.created_by) (upsert id user d s.reviews) ≡ false
  decided_by_other i x e =
      rw (upsert-any id user d i x.created_by s.reviews, c.other i x e)
        (elim (Bool-cases (id == i)) [
          | inl q ↦
              let at_id : s.requests.at id ≡ some x = rw ((==_iff id i).0 q) e in
              let author : x.created_by ≡ cr.created_by = ground arith in
              ground (arith, author, not_own)
          | inr q ↦ ground (arith, q)
        ])

  -- A decision by another user than the author keeps that.
  pub with_decision-IsReviewed : IsReviewed (with_decision id d user s)
  unfolding upsert_review
  with_decision-IsReviewed = record { once = decided_once; other = decided_by_other }

-- Where every user has one decision at most on a request and none on an own one: where a review publishes,
-- the users who approve, as they are once its decision is stored, are at least as many as the settings ask
-- for, nobody stands twice among them, and the author does not stand among them.
pub review-approvers :
    (ports : Ports) (env : Env) (id : ℕ) (d : ReviewDecision) (user : ℕ) (s : Store)
    {r : ChangeRequest} {s' : Store}
    → IsReviewed s
    → review ports env id d user s ≡ (ok r, s')
    → r.status ≡ published
    → (cr : ChangeRequest) × (s.requests.at id ≡ some cr)
      × (s.settings.approvals_required ≤ length (approvers id (with_decision id d user s).reviews))
      × ((u : ℕ) → count_by (λ x. x == u) (approvers id (with_decision id d user s).reviews) ≤ 1)
      × (mem cr.created_by (approvers id (with_decision id d user s).reviews) ≡ false)
unfolding approvals_count upsert_review
review-approvers ports env id d user s c h e =
    let done = review-ok ports env id d user s h in
    let (_, enough) = review-quorum ports env id d user s h e in
    let decided = with_decision-IsReviewed id d user s done.cr done.found done.not_own c in
    let rows = (with_decision id d user s).reviews in
    (
      done.cr,
      done.found,
      subst (λ n. s.settings.approvals_required ≤ n) (sym (length-approvers id rows)) enough,
      λ u. omega (arith, approvers_once id u rows, decided.once id u),
      elim (Bool-cases (mem done.cr.created_by (approvers id rows))) [
        | inl m ↦
            let reviewed = mem-approvers id done.cr.created_by rows m in
            let own = decided.other id done.cr done.found in cc
        | inr m ↦ m
      ],
    )
