-- ===== src/Rbac/Reaching.antt =====
-- common/guards/policy.guard.ts: which assignments give a permission, and which reach the unit of a request.
use tftsp.Common.{
  ℕ, ◌≡◌, ◌≤◌, refl, Bool, true, false, Option, none, some, List, [], ◌∷◌, any, filter, arith,
  Bool-cases, Option-cases, inl, inr, ok, Table, ◌==◌, mem, not, is_some, subst,
}
use tftsp.Domain.{includes_role}
use tftsp.Database.{TribalUnit}
use tftsp.Rbac.{Permission, permission_matrix, Assignment, ScopeCheck, no_scope, tribal_unit_scope}
use tftsp.Rbac.Guard.{
  check_matching, Route, target_unit, parent_of, unit_ids, scope_result, check_tribal_unit_scope,
}
use tftsp.Rbac.Scope.{IsUnder, itself, climbs_to_sound}

-- an assignment that is one of the rows
pub data Stands (a : Assignment) : List Assignment → Type 0 where
  first : {rows : List Assignment} → Stands a (a ∷ rows)
  later : {b : Assignment} {rows : List Assignment} → Stands a rows → Stands a (b ∷ rows)

-- an assignment that gives the permission to the user in the tenant now
pub record Gives (tenant now user : ℕ) (permission : Permission) (a : Assignment) : Type 0 where
  pub of_tenant : a.tenant_id ≡ tenant
  pub of_user : a.user_id ≡ user
  pub started : a.valid_from ≤ now
  pub not_ended : (end : ℕ) → a.valid_to ≡ some end → now ≤ end
  pub by_matrix : includes_role (permission_matrix permission) a.role ≡ true

-- an assignment that reaches the unit of the request: it is for the whole tenant, or the request names no
-- unit, or it is for that unit or one that this unit is below
pub data Reaches (route : Route) (units : Table TribalUnit) (a : Assignment) : Type 0 where
  whole_tenant : a.tribal_unit_id ≡ none → Reaches route units a
  no_unit : route.body_unit ≡ none → route.param_unit ≡ none → Reaches route units a
  inside :
      (x y : ℕ)
      → target_unit route.body_unit route.param_unit ≡ some x
      → a.tribal_unit_id ≡ some y
      → IsUnder (parent_of units) x y
      → Reaches route units a

pub Stands-filter :
    (f : Assignment → Bool) (rows : List Assignment) {a : Assignment}
    → Stands a (filter f rows)
    → Stands a rows × (f a ≡ true)
Stands-filter f [] s = elim s [ ]
Stands-filter f (x ∷ xs) {a} s = elim (Bool-cases (f x)) [
  | inl e ↦ go (λ t. Stands-filter f xs t) e (subst (Stands a) (rw e refl) s)
  | inr e ↦ let (t, g) = Stands-filter f xs (subst (Stands a) (rw e refl) s) in (later t, g)
]
  where
    go :
        {a : Assignment}
        → (Stands a (filter f xs) → Stands a xs × (f a ≡ true))
        → f x ≡ true
        → Stands a (x ∷ filter f xs)
        → Stands a (x ∷ xs) × (f a ≡ true)
    go rest e first = (first, e)
    go rest e (later t) = let (u, g) = rest t in (later u, g)

any-Stands :
    (f : Assignment → Bool) (rows : List Assignment)
    → any f rows ≡ true
    → (a : Assignment) × Stands a rows × (f a ≡ true)
any-Stands f [] h = cc
any-Stands f (x ∷ xs) h = elim (Bool-cases (f x)) [
  | inl e ↦ (x, first, e)
  | inr e ↦ let (a, s, g) = any-Stands f xs (ground arith) in (a, later s, g)
]

unit_ids-Stands :
    (rows : List Assignment) (y : ℕ)
    → mem y (unit_ids rows) ≡ true
    → (a : Assignment) × Stands a rows × (a.tribal_unit_id ≡ some y)
unit_ids-Stands [] y h = cc
unit_ids-Stands (a ∷ rows) y h = elim (Option-cases a.tribal_unit_id) [
  | inl e ↦ let (b, s, g) = unit_ids-Stands rows y (ground arith) in (b, later s, g)
  | inr (u, e) ↦ elim (Bool-cases (y == u)) [
    | inl q ↦ (a, first, ground arith)
    | inr q ↦ let (b, s, g) = unit_ids-Stands rows y (ground arith) in (b, later s, g)
  ]
]

target_unit-none :
    (body param : Option ℕ) → target_unit body param ≡ none → (body ≡ none) × (param ≡ none)
target_unit-none none param h = (refl, h)
target_unit-none (some x) param h = cc

scope_result-ok : (r : Option Bool) → scope_result r ≡ some (ok true) → r ≡ some true
scope_result-ok none h = cc
scope_result-ok (some true) h = refl
scope_result-ok (some false) h = cc

module _ (route : Route) (units : Table TribalUnit) (fuel : ℕ) where
  -- what the check of the scope finds: a row that reaches the unit of the request
  check_tribal_unit_scope-Reaches :
      (m : Assignment) (rows : List Assignment)
      → Stands m rows
      → check_tribal_unit_scope rows route units fuel ≡ some true
      → (a : Assignment) × Stands a rows × Reaches route units a
  unfolding check_tribal_unit_scope
  check_tribal_unit_scope-Reaches m rows some_row h =
      elim (Bool-cases (any (λ a. not (is_some a.tribal_unit_id)) rows)) [
        | inl e ↦
            let (a, s, g) = any-Stands (λ a. not (is_some a.tribal_unit_id)) rows e in
            (a, s, whole_tenant (ground arith))
        | inr e ↦ elim (Option-cases (target_unit route.body_unit route.param_unit)) [
          | inl t ↦
              let (b, p) = target_unit-none route.body_unit route.param_unit t in
              (m, some_row, no_unit b p)
          | inr (x, t) ↦ elim (Bool-cases (mem x (unit_ids rows))) [
            | inl q ↦ let (a, s, g) = unit_ids-Stands rows x q in (a, s, inside x x t g itself)
            | inr q ↦
                let (y, n, u) =
                  climbs_to_sound (parent_of units) (unit_ids rows) fuel x
                    (ground (arith, h, e, t, q)) in
                let (a, s, g) = unit_ids-Stands rows y n in (a, s, inside x y t g u)
          ]
        ]
      ]

  -- a row that holds the permission, within the scope that is asked for
  pub check_matching-Reaches :
      (scope : ScopeCheck) (rows : List Assignment)
      → check_matching route scope units fuel rows ≡ some (ok true)
      → (a : Assignment) × Stands a rows × (scope ≡ tribal_unit_scope → Reaches route units a)
  unfolding check_matching
  check_matching-Reaches scope [] h = cc
  check_matching-Reaches no_scope (m ∷ rows) h = (m, first, λ e. cc)
  check_matching-Reaches tribal_unit_scope (m ∷ rows) h =
      let passed : check_tribal_unit_scope (m ∷ rows) route units fuel ≡ some true =
        scope_result-ok _ h in
      let (a, s, r) = check_tribal_unit_scope-Reaches m (m ∷ rows) first passed in (a, s, λ e. r)
