-- ===== src/Subscriptions.antt =====
-- apps/api/src/modules/subscriptions: the caps of the plans (plan-limits.ts) and their enforcement
-- (plan-limit.service.ts), with the creation of a person that asks for it (persons.service.ts).
use tftsp.Common.{
  ℕ, ◌+◌, ◌≤◌, ◌≡◌, refl, sym, ap, subst, ◌∙◌, Bool, true, false, Option, none, some, ◌&&◌,
  if◌then◌else◌, ltb, M, ok, return, throw_if, forbidden, subscription_plan_limit_reached,
  count_rows, transaction, transaction-ok, mem, fail, count_rows-insert_row, ◌>>◌, arith, bind-ok,
  throw_if-ok, or_else,
}
use tftsp.Domain.{PlanTier, free, basic, professional, enterprise}
use tftsp.Database.{Env, Db, is_live}
use tftsp.Persons.Fields.{CreatePersonDto}
use tftsp.Persons.Writes.{create_in_tx}
use tftsp.Persons.Consistency.{IsConsistent}
use tftsp.Persons.Creating.{create_in_tx-IsConsistent, create_in_tx-ok}
mod Examples

-- `PLAN_LIMITS`
abbrev pub plan_limits : PlanTier → Option ℕ
plan_limits free = some 500
plan_limits basic = some 5000
plan_limits professional = some 25000
plan_limits enterprise = none

-- `tierOf`, for the tier of the row of the tenant, if it has one
abbrev pub tier_of : Option PlanTier → PlanTier
tier_of subscription = or_else subscription free

-- `maxPersons`
abbrev pub max_persons : Option PlanTier → Option ℕ
max_persons subscription = plan_limits (tier_of subscription)

-- `personCount`
abbrev pub person_count : Db → ℕ
person_count db = count_rows is_live db.persons

-- `assertCanAddPersons`
unfoldable pub assert_can_add_persons : Option PlanTier → ℕ → M Db (Unit {0})
assert_can_add_persons subscription n db = elim (max_persons subscription) [
  | none ↦ (ok tt, db)
  | some max ↦
      throw_if (ltb max (person_count db + n)) (forbidden subscription_plan_limit_reached) db
]

-- `PersonsService.create`
unfoldable pub create_person : Env → Option PlanTier → CreatePersonDto → M Db ℕ
unfolding assert_can_add_persons create_in_tx
create_person env subscription dto = do
  assert_can_add_persons subscription 1
  transaction (create_in_tx env dto none none)

-- Where the cap of a plan is used up a person is refused, and nothing is written.
pub create_person-full :
    (env : Env) (subscription : Option PlanTier) (dto : CreatePersonDto) (db : Db) (max : ℕ)
    → max_persons subscription ≡ some max
    → max ≤ person_count db
    → create_person env subscription dto db ≡ (fail (forbidden subscription_plan_limit_reached), db)
unfolding create_person assert_can_add_persons
create_person-full env subscription dto db max cap full = ground (arith, cap)

-- Under a plan with a cap and on consistent data, where the next identifier was not issued before: a
-- person that is created is one more, the count of live persons is within the cap and the data is
-- consistent.
pub create_person-le-max :
    (env : Env) (subscription : Option PlanTier) (dto : CreatePersonDto) (db : Db) (max : ℕ)
    {id : ℕ} {db' : Db}
    → max_persons subscription ≡ some max
    → IsConsistent db
    → mem db.next_id db.persons.ids ≡ false
    → create_person env subscription dto db ≡ (ok id, db')
    → (person_count db' ≡ person_count db + 1) × (person_count db' ≤ max) × IsConsistent db'
unfolding create_person assert_can_add_persons
create_person-le-max env subscription dto db max {id} {db'} cap c fresh h =
    let (u, s, checked, made) =
      bind-ok (assert_can_add_persons subscription 1 db)
        (λ _. transaction (create_in_tx env dto none none)) h in
    let test : throw_if (ltb max (person_count db + 1)) (forbidden subscription_plan_limit_reached)
          db
        ≡ (ok u, s) =
      ground (arith, checked, cap) in
    let (below, same) = throw_if-ok (ltb max (person_count db + 1)) _ db test in
    let run : create_in_tx env dto none none db ≡ (ok id, db') =
      subst (λ (t : Db). create_in_tx env dto none none t ≡ (ok id, db')) (sym same)
        (transaction-ok (create_in_tx env dto none none) s made) in
    let done = create_in_tx-ok env dto none none db run in
    let counted : person_count db' ≡ person_count db + 1 =
      ap (count_rows is_live) done.inserted.rows
      ∙ (count_rows-insert_row is_live db.next_id done.new db.persons fresh ∙ rw done.alive refl) in
    (counted, ground (arith, below, counted), create_in_tx-IsConsistent env dto none none db c run)
