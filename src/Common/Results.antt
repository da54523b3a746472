-- ===== src/Common/Results.antt =====
-- apps/api/src/common/errors: the keys of errors and the exception that services throw, as a result
-- type, and the monad of code that reads and writes the database and may throw.
use Prim.Native.Nat.{ℕ}
use mathlib.Core.Path.{◌≡◌, refl}
use mathlib.Core.Logic.{◌⊎◌, inl, inr}
use mathlib.Core.Bool.{Bool, true, false}
use mathlib.Core.Option.{Option, none, some}
use native.Mathlib.Omega.{arith}

-- `ErrorKeys`
pub data ErrorKey : Type 0 where
  invalid_credentials account_locked weak_password invalid_refresh_token : ErrorKey
  refresh_token_reused no_tenant_membership unauthorized_key forbidden_key : ErrorKey
  grant_expired : ErrorKey
  tenant_not_found tenant_slug_taken tenant_suspended email_taken : ErrorKey
  person_not_found version_conflict duplicate_candidates father_must_be_male : ErrorKey
  mother_must_be_female self_ancestry parent_not_found : ErrorKey
  union_not_found union_already_ended invalid_union_genders : ErrorKey
  tribal_unit_not_found : ErrorKey
  change_request_not_found cr_invalid_state cr_not_owner cr_cannot_review_own : ErrorKey
  cr_target_required cr_invalid_patch cr_already_reviewed : ErrorKey
  import_not_found import_row_not_found import_invalid_state : ErrorKey
  import_unsupported_format import_file_too_large import_no_file : ErrorKey
  import_plan_limit_exceeded import_has_errors import_rollback_blocked : ErrorKey
  import_nothing_to_import : ErrorKey
  view_request_not_found view_request_invalid_state view_request_id_required : ErrorKey
  view_request_valid_to_required view_request_tenant_slug_required : ErrorKey
  upload_no_file upload_file_too_large upload_unsupported_type upload_svg_rejected : ErrorKey
  subscription_plan_limit_reached subscription_not_found document_not_found : ErrorKey
  contribution_too_many_pending contribution_viewer_not_allowed export_failed : ErrorKey
  validation_failed not_found_key internal : ErrorKey

-- `AppException` without its details, and a plain `Error`
pub data Exception : Type 0 where
  app_exception : ErrorKey → ℕ → Exception
  plain_error : Exception

abbrev pub bad_request : ErrorKey → Exception
bad_request key = app_exception key 400

abbrev pub unauthorized : ErrorKey → Exception
unauthorized key = app_exception key 401

abbrev pub forbidden : ErrorKey → Exception
forbidden key = app_exception key 403

abbrev pub not_found : ErrorKey → Exception
not_found key = app_exception key 404

abbrev pub conflict : ErrorKey → Exception
conflict key = app_exception key 409

pub data Result (A : Type 0) : Type 0 where
  ok : A → Result A
  fail : Exception → Result A

-- What a call leaves behind: its result, and the state, also where it throws.
abbrev pub M : Type 0 → Type 0 → Type 0
M S A = S → Result A × S

abbrev pub bind_result : {S A B : Type 0} → Result A × S → (A → M S B) → Result B × S
bind_result (ok a, s) f = f a s
bind_result (fail e, s) f = (fail e, s)

infixl 5 ◌>>=◌ ◌>>◌
abbrev pub ◌>>=◌ : {S A B : Type 0} → M S A → (A → M S B) → M S B
◌>>=◌ m f s = bind_result (m s) f

abbrev pub ◌>>◌ : {S B : Type 0} → M S (Unit {0}) → M S B → M S B
◌>>◌ m k s = bind_result (m s) (λ _. k)

abbrev pub return : {S A : Type 0} → A → M S A
return a s = (ok a, s)

abbrev pub throw : {S A : Type 0} → Exception → M S A
throw e s = (fail e, s)

abbrev pub get : {S : Type 0} → M S S
get s = (ok s, s)

abbrev pub modify : {S : Type 0} → (S → S) → M S (Unit {0})
modify f s = (ok tt, f s)

-- `if (test) throw e`
abbrev pub throw_if : {S : Type 0} → Bool → Exception → M S (Unit {0})
throw_if true e s = (fail e, s)
throw_if false e s = (ok tt, s)

-- the value, or an exception where there is none
abbrev pub require : {S A : Type 0} → Option A → Exception → M S A
require none e s = (fail e, s)
require (some a) e s = (ok a, s)

-- A database transaction: what it wrote is undone when it throws.
abbrev pub commit_or_rollback : {S A : Type 0} → S → Result A × S → Result A × S
commit_or_rollback old (ok a, s) = (ok a, s)
commit_or_rollback old (fail e, s) = (fail e, old)

abbrev pub transaction : {S A : Type 0} → M S A → M S A
transaction m s = commit_or_rollback s (m s)

-- What a successful chain of calls was made of.
pub bind-ok :
    {S A B : Type 0} (r : Result A × S) (f : A → M S B) {b : B} {s' : S}
    → bind_result r f ≡ (ok b, s')
    → (a : A) × (s : S) × (r ≡ (ok a, s)) × (f a s ≡ (ok b, s'))
bind-ok (ok a, s) f h = (a, s, refl, h)
bind-ok (fail e, s) f h = cc

-- What a chain of calls that throws was made of.
pub bind-fail :
    {S A B : Type 0} (r : Result A × S) (f : A → M S B) {e : Exception} {s' : S}
    → bind_result r f ≡ (fail e, s')
    → (r ≡ (fail e, s')) ⊎ ((a : A) × (s : S) × (r ≡ (ok a, s)) × (f a s ≡ (fail e, s')))
bind-fail (ok a, s) f h = inr (a, s, refl, h)
bind-fail (fail x, s) f h = inl (ground arith)

pub return-ok : {S A : Type 0} {a b : A} {s s' : S} → return a s ≡ (ok b, s') → (a ≡ b) × (s ≡ s')
return-ok h = (ground arith, ground arith)

-- The end of a chain that gives back what an earlier step computed.
pub finish-ok :
    {S A : Type 0} (r : Result (Unit {0}) × S) {a b : A} {s' : S}
    → bind_result r (λ _. return a) ≡ (ok b, s')
    → (a ≡ b) × (r ≡ (ok tt, s'))
finish-ok (ok tt, s) h = (ground arith, ground arith)
finish-ok (fail e, s) h = cc

pub throw_if-ok :
    {S : Type 0} (b : Bool) (e : Exception) (s : S) {u : Unit {0}} {s' : S}
    → throw_if b e s ≡ (ok u, s')
    → (b ≡ false) × (s ≡ s')
throw_if-ok true e s h = cc
throw_if-ok false e s h = (refl, ground arith)

pub require-ok :
    {S A : Type 0} (o : Option A) (e : Exception) (s : S) {a : A} {s' : S}
    → require o e s ≡ (ok a, s')
    → (o ≡ some a) × (s ≡ s')
require-ok none e s h = cc
require-ok (some x) e s h = (ground arith, ground arith)

-- A successful transaction is a successful run of its body.
pub transaction-ok :
    {S A : Type 0} (m : M S A) (s : S) {a : A} {s' : S}
    → transaction m s ≡ (ok a, s')
    → m s ≡ (ok a, s')
transaction-ok {S} {A} m s {a} {s'} h = go (m s) h
  where
    go : (r : Result A × S) → commit_or_rollback s r ≡ (ok a, s') → r ≡ (ok a, s')
    go (ok b, t) e = e
    go (fail x, t) e = cc

-- A transaction that throws leaves everything as it was.
pub transaction-fail :
    {S A : Type 0} (m : M S A) (s : S) {e : Exception} {s' : S}
    → transaction m s ≡ (fail e, s')
    → s' ≡ s
transaction-fail {S} {A} m s {e} {s'} h = go (m s) h
  where
    go : (r : Result A × S) → commit_or_rollback s r ≡ (fail e, s') → s' ≡ s
    go (ok b, t) x = cc
    go (fail y, t) x = ground arith

pub transaction-threw :
    {S A : Type 0} (m : M S A) (s : S) {e : Exception} {s' : S}
    → transaction m s ≡ (fail e, s')
    → (m s).0 ≡ fail e
transaction-threw {S} {A} m s {e} {s'} h = go (m s) h
  where
    go : (r : Result A × S) → commit_or_rollback s r ≡ (fail e, s') → r.0 ≡ fail e
    go (ok b, t) x = cc
    go (fail y, t) x = ground arith

-- Code that keeps a property of the state, whatever its result is.
module _ {S : Type 0} (P : S → Type 0) where
  abbrev pub Keeps : {A : Type 0} → M S A → Type 0
  Keeps m = (s : S) → P s → P (m s).1

  pub bind-Keeps :
      {A B : Type 0} (m : M S A) (f : A → M S B)
      → Keeps m
      → ((a : A) → Keeps (f a))
      → Keeps (λ s. bind_result (m s) f)
  bind-Keeps {A} {B} m f first then s p = go (m s) (first s p)
    where
      go : (r : Result A × S) → P r.1 → P (bind_result r f).1
      go (ok a, t) q = then a t q
      go (fail e, t) q = q

  pub throw_if-Keeps : (b : Bool) (e : Exception) → Keeps (throw_if b e)
  throw_if-Keeps true e s p = p
  throw_if-Keeps false e s p = p

  pub require-Keeps : {A : Type 0} (o : Option A) (e : Exception) → Keeps (require o e)
  require-Keeps none e s p = p
  require-Keeps (some a) e s p = p

  pub transaction-Keeps : {A : Type 0} (m : M S A) → Keeps m → Keeps (transaction m)
  transaction-Keeps {A} m kept s p = go (m s) (kept s p)
    where
      go : (r : Result A × S) → P r.1 → P (commit_or_rollback s r).1
      go (ok a, t) q = q
      go (fail e, t) q = p
