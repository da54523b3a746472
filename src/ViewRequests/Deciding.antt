-- ===== src/ViewRequests/Deciding.antt =====
-- view-request.service.ts: the view requests between two calls, and after a decision.
use tftsp.Common.{
  ℕ, ◌≤◌, ◌≡◌, ◌≢◌, ◌⊎◌, inl, inr, refl, sym, ap, subst, ◌∙◌, true, false, Option, none, some, List,
  [], ◌∷◌, ◌==◌, ==_iff, is_some, if◌then◌else◌, Bool-cases, arith, Table,
}
use tftsp.Domain.{viewer}
use tftsp.Database.{Env}
use tftsp.ViewRequests.{
  Site, ViewRequest, ViewRequestStatus, ViewerGrant, is_waiting, new_view_request,
  CreateViewRequestDto,
}
use tftsp.ViewRequests.Lifecycle.{
  Call, Calls, done, call, after_call, Effect, nothing, entered, granted, refused, call-Effect,
}

-- membership in a list
abbrev pub Within : ViewerGrant → List ViewerGrant → Type 0
Within g [] = ⊥
Within g (h ∷ grants) = (g ≡ h) ⊎ Within g grants

-- the grant of a viewer's role for a time that stands behind an approved request
pub record Backing (r : ViewRequest) (grants : List ViewerGrant) : Type 0 where
  pub grant : ViewerGrant
  pub there : Within grant grants
  pub user : r.granted_user ≡ some grant.user_id
  pub until : r.valid_to ≡ grant.valid_to
  pub limited : is_some grant.valid_to ≡ true
  pub tenant : grant.tenant_id ≡ r.tenant_id
  pub role : grant.role ≡ viewer

Backing-cons :
    (r : ViewRequest) (g : ViewerGrant) (grants : List ViewerGrant)
    → Backing r grants
    → Backing r (g ∷ grants)
Backing-cons r g grants b = record {
  grant = b.grant;
  there = inr b.there;
  user = b.user;
  until = b.until;
  limited = b.limited;
  tenant = b.tenant;
  role = b.role;
}

-- the row of an approved request has a grant behind it, that of any other names no user
abbrev pub RowIsFair : List ViewerGrant → ViewRequest → Type 0
RowIsFair grants r =
    (r.status ≡ ViewRequestStatus.approved → Backing r grants)
    × (r.status ≢ ViewRequestStatus.approved → r.granted_user ≡ none)

pub record IsFair (s : Site) : Type 0 where
  pub fresh : (x : ℕ) → s.next_id ≤ x → s.requests.at x ≡ none
  pub rows : (x : ℕ) (r : ViewRequest) → s.requests.at x ≡ some r → RowIsFair s.grants r

RowIsFair-cons :
    (g : ViewerGrant) (grants : List ViewerGrant) (r : ViewRequest)
    → RowIsFair grants r
    → RowIsFair (g ∷ grants) r
RowIsFair-cons g grants r (f, n) = ((λ e. Backing-cons r g grants (f e)), n)

new-RowIsFair :
    (tenant : ℕ) (dto : CreateViewRequestDto) (grants : List ViewerGrant)
    → RowIsFair grants (new_view_request tenant dto)
new-RowIsFair tenant dto grants = ((λ e. cc), λ n. refl)

-- the rows of a table with one row replaced
set-rows :
    (P : ViewRequest → Type 0) (at : ℕ → Option ViewRequest) (id : ℕ) (new : ViewRequest)
    → P new
    → ((x : ℕ) (r : ViewRequest) → at x ≡ some r → P r)
    → (x : ℕ) (r : ViewRequest) → (if id == x then some new else at x) ≡ some r
    → P r
set-rows P at id new p old x r e = elim (Bool-cases (id == x)) [
  | inl q ↦ subst P (ground (arith, q, e)) p
  | inr q ↦ old x r (ground (arith, q, e))
]

Effect-IsFair : {s t : Site} → Effect s t → IsFair s → IsFair t
Effect-IsFair nothing f = f
Effect-IsFair {s} {t} (entered tenant dto rows next grants) f = record {
  fresh = λ x h. rw rows (ground (arith, f.fresh x (omega (arith, next)), h, next));
  rows = λ x r e.
      subst (λ l. RowIsFair l r) (sym grants)
        (set-rows (RowIsFair s.grants) s.requests.at s.next_id (new_view_request tenant dto)
          (new-RowIsFair tenant dto s.grants) f.rows x r
          (sym (ap (λ (t : Table ViewRequest). t.at x) rows) ∙ e));
}
Effect-IsFair {s} {t}
      (granted id r r' g here waiting same status user until limited tenant role rows next grants)
      f =
    record {
      fresh = λ x h. rw rows (ground (arith, f.fresh x (omega (arith, next)), h, here));
      rows = λ x v e.
          subst (λ l. RowIsFair l v) (sym grants)
            (set-rows (RowIsFair (g ∷ s.grants)) s.requests.at id r'
              (
                (λ e. record {
                  grant = g;
                  there = inl refl;
                  user = user;
                  until = until;
                  limited = limited;
                  tenant = tenant ∙ sym same;
                  role = role;
                }),
                λ n. absurd (n status),
              )
              (λ x v e. RowIsFair-cons g s.grants v (f.rows x v e)) x v
              (sym (ap (λ (t : Table ViewRequest). t.at x) rows) ∙ e));
    }
Effect-IsFair {s} {t} (refused id r r' here waiting status user rows next grants) f = record {
  fresh = λ x h. rw rows (ground (arith, f.fresh x (omega (arith, next)), h, here));
  rows = λ x v e.
      subst (λ l. RowIsFair l v) (sym grants)
        (set-rows (RowIsFair s.grants) s.requests.at id r'
          (
            (λ e. let clash = sym status ∙ e in cc (clash)),
            λ n. user ∙ (f.rows id r here).1 (λ e. let clash = sym waiting ∙ e in cc (clash)),
          )
          f.rows x v (sym (ap (λ (t : Table ViewRequest). t.at x) rows) ∙ e));
}

-- a decided row stays where a waiting one is replaced
untouched :
    (at : ℕ → Option ViewRequest) (id : ℕ) (v v' : ViewRequest) (x : ℕ) (r : ViewRequest)
    → at id ≡ some v
    → v.status ≡ ViewRequestStatus.pending
    → at x ≡ some r
    → is_waiting r.status ≡ false
    → (if id == x then some v' else at x) ≡ some r
untouched at id v v' x r here waiting e d = elim (Bool-cases (id == x)) [
  | inl q ↦
      let there : at id ≡ some r = ap at ((==_iff id x).0 q) ∙ e in
      let both : v ≡ r = cc in
      let p : is_waiting r.status ≡ true =
        subst (λ (w : ViewRequest). is_waiting w.status ≡ true) both (ap is_waiting waiting) in
      cc
  | inr q ↦ ground (arith, q, e)
]

-- a row that was decided survives a call
Effect-decided :
    {s t : Site}
    → Effect s t
    → IsFair s
    → (x : ℕ) (r : ViewRequest) → s.requests.at x ≡ some r
    → is_waiting r.status ≡ false
    → t.requests.at x ≡ some r
Effect-decided nothing f x r e d = e
Effect-decided {s} {t} (entered tenant dto rows next grants) f x r e d =
    elim (Bool-cases (s.next_id == x)) [
      | inl q ↦ let absent = f.fresh x (ground (arith, q)) in cc
      | inr q ↦ ap (λ (t : Table ViewRequest). t.at x) rows ∙ ground (arith, q, e)
    ]
Effect-decided {s} {t}
      (granted id v v' g here waiting same status user until limited tenant role rows next grants) f
      x r e d =
    ap (λ (t : Table ViewRequest). t.at x) rows
    ∙ untouched s.requests.at id v v' x r here waiting e d
Effect-decided {s} {t} (refused id v v' here waiting status user rows next grants) f x r e d =
    ap (λ (t : Table ViewRequest). t.at x) rows
    ∙ untouched s.requests.at id v v' x r here waiting e d

-- Between two calls each approved request has a viewer's role behind it that ends at its date, in the
-- tenant of the request, and no other request names a user: calls keep this, whatever they answer.
pub after_call-IsFair : (env : Env) (c : Call) (s : Site) → IsFair s → IsFair (after_call env c s)
after_call-IsFair env c s f = Effect-IsFair (call-Effect env c s) f

-- A decision is final: whatever calls follow, a request that was approved or rejected stays as it is.
pub decided-stays :
    {s t : Site}
    → Calls s t
    → IsFair s
    → (x : ℕ) (r : ViewRequest) → s.requests.at x ≡ some r
    → is_waiting r.status ≡ false
    → t.requests.at x ≡ some r
decided-stays done f x r e d = e
decided-stays (call {s = s} {u = u} env c same rest) f x r e d =
    let next = after_call-IsFair env c s f in
    let kept = Effect-decided (call-Effect env c s) f x r e d in
    decided-stays rest (subst IsFair same next) x r
      (ap (λ (v : Site). v.requests.at x) (sym same) ∙ kept) d
