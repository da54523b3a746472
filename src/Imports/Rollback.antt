-- ===== src/Imports/Rollback.antt =====
-- import.service.ts `rollback`: the rows left behind, and the closure table.
use tftsp.Common.{
  ℕ, ◌+◌, ◌-◌, ◌≡◌, ◌≤◌, ◌<◌, refl, sym, ap, subst, ◌∙◌, Bool, true, false, not, ◌&&◌, ◌||◌, Option,
  none, some, List, [], ◌∷◌, mem, length, ltb, Bool-cases, Option-cases, inl, inr, arith,
  row_passes, select_ids, mem-select_ids, map_option, ok, fail, Result, Keeps, bind-Keeps,
  throw_if-Keeps, require-Keeps, bind_result, throw_if, bad_request, not_found,
  import_invalid_state, import_not_found, ◌>>◌,
}
use tftsp.Database.{Env, Db, Person, is_live}
use tftsp.Lineage.{Closure}
use tftsp.Lineage.Chain.{Chain, here, up}
use tftsp.Lineage.Moves.{FathersLive, deepest, has-deepest}
use tftsp.Lineage.Rebuild.{rebuild}
use tftsp.Lineage.Rebuild.Closing.{rebuild-IsClosure}
use tftsp.Persons.Consistency.{IsConsistent, live, father_of, father_in_row}
use tftsp.ChangeRequests.Store.{Store, on_db, put_db}
use tftsp.Imports.Service.{
  opt_mem, delete_member, delete_batch, blockers, batch_person_ids, dependent_children,
  rebuild_closure, roll_back_tree, rollback, batch_in, find_batch, is_status, mark_rolled_back,
}
use tftsp.Imports.{BatchStatus}

abbrev in_batch : ℕ → Person → Bool
in_batch id p = opt_mem p.import_batch_id (id ∷ [])

-- a live person emptied the deletion was live and is the same
deleted-live :
    (now id : ℕ) (o : Option Person)
    → row_passes is_live (map_option (delete_member now id) o) ≡ true
    → (row_passes is_live o ≡ true)
      × (row_passes (in_batch id) o ≡ false)
      × (map_option (delete_member now id) o ≡ o)
deleted-live now id none h = cc
deleted-live now id (some p) h = elim (Bool-cases (is_live p && in_batch id p)) [
  | inl e ↦ ground arith
  | inr e ↦ ground arith
]

kept-live :
    (now id : ℕ) (o : Option Person)
    → row_passes is_live o ≡ true
    → row_passes (in_batch id) o ≡ false
    → map_option (delete_member now id) o ≡ o
kept-live now id none h k = cc
kept-live now id (some p) h k = ground arith

deleted-father :
    (now id : ℕ) (o : Option Person) {f : ℕ}
    → father_in_row (map_option (delete_member now id) o) ≡ some f
    → (row_passes is_live o ≡ true)
      × (row_passes (in_batch id) o ≡ false)
      × (father_in_row o ≡ some f)
      × (map_option (delete_member now id) o ≡ o)
deleted-father now id none h = cc
deleted-father now id (some p) h = elim (Bool-cases (is_live p && in_batch id p)) [
  | inl e ↦ ground arith
  | inr e ↦ ground arith
]

length-zero : {A : Type 0} (xs : List A) → length xs ≡ 0 → xs ≡ []
length-zero [] h = refl
length-zero (x ∷ xs) h = absurd (omega arith)

points_at : List ℕ → Person → Bool
points_at batch r = is_live r && (opt_mem r.father_id batch || opt_mem r.mother_id batch)

passes-points_at :
    (batch : List ℕ) (o : Option Person) (f : ℕ)
    → father_in_row o ≡ some f
    → mem f batch ≡ true
    → row_passes (points_at batch) o ≡ true
unfolding points_at
passes-points_at batch none f e m = cc
passes-points_at batch (some p) f e m = ground arith

-- a parent of a live person outside the batch is outside of it
parent-outside :
    (db : Db) (id x f : ℕ)
    → length (dependent_children db (batch_person_ids db id)) ≡ 0
    → mem x db.persons.ids ≡ true
    → row_passes (in_batch id) (db.persons.at x) ≡ false
    → father_in_row (db.persons.at x) ≡ some f
    → mem f db.persons.ids ≡ true
    → row_passes (in_batch id) (db.persons.at f) ≡ false
unfolding points_at
parent-outside db id x f none_left listed outside e known =
    elim (Bool-cases (row_passes (in_batch id) (db.persons.at f))) [
      | inr q ↦ q
      | inl q ↦
          let batch = batch_person_ids db id in
          let own : mem f batch ≡ true =
            mem-select_ids (in_batch id) db.persons.at f db.persons.ids
            ∙ ground (arith, q, known) in
          let passes = passes-points_at batch (db.persons.at x) f e own in
          let found : mem x (select_ids (points_at batch) db.persons) ≡ true =
            mem-select_ids (points_at batch) db.persons.at x db.persons.ids
            ∙ ground (arith, passes, listed) in
          let other : mem x batch ≡ false =
            mem-select_ids (in_batch id) db.persons.at x db.persons.ids ∙ ground (arith, outside) in
          let kept : mem x (dependent_children db batch) ≡ true =
            mem-select_ids (λ (y : ℕ). not (mem y batch)) some x
              (select_ids (points_at batch) db.persons)
            ∙ ground (arith, other, found) in
          let empty : dependent_children db batch ≡ [] =
            length-zero (dependent_children db batch) none_left in
          cc (kept, empty)
    ]

module _ (now id : ℕ) (db : Db) (c : IsConsistent db) (free : blockers db id ≡ 0) where
  abbrev emptied : Db
  emptied = delete_batch now id db

  listed-live : (x : ℕ) → live db.persons.at x ≡ true → mem x db.persons.ids ≡ true
  listed-live x h = elim (Option-cases (db.persons.at x)) [
    | inl e ↦ cc
    | inr (p, e) ↦ c.listed x p e
  ]

  emptied-FathersLive : FathersLive (live emptied.persons.at) (father_of emptied.persons.at)
  emptied-FathersLive d m e =
      let (alive, outside, same, row) = deleted-father now id (db.persons.at d) e in
      let known = (c.fathers d m same).1 in
      let m_outside =
        parent-outside db id d m (omega arith) (listed-live d alive) outside same
          (listed-live m known) in
      (
        ap (row_passes is_live) row ∙ alive,
        ap (row_passes is_live) (kept-live now id (db.persons.at m) known m_outside) ∙ known,
      )

  emptied-Chain :
      {d a k : ℕ}
      → Chain (father_of emptied.persons.at) d a k
      → Chain (father_of db.persons.at) d a k
  emptied-Chain here = here
  emptied-Chain {d} (up e rest) =
      let (_, _, same, _) = deleted-father now id (db.persons.at d) e in
      up same (emptied-Chain rest)

  emptied-bound :
      (d a k : ℕ)
      → live emptied.persons.at d ≡ true
      → Chain (father_of emptied.persons.at) d a k
      → k ≤ deepest db.closures
  emptied-bound d a k alive chain = has-deepest db.closures a d k (
      c.closure.complete a d k (deleted-live now id (db.persons.at d) alive).0
        (emptied-Chain chain))

  emptied-listed :
      (x : ℕ) (p : Person) → emptied.persons.at x ≡ some p → mem x emptied.persons.ids ≡ true
  emptied-listed x p e = elim (Option-cases (db.persons.at x)) [
    | inl missing ↦ ground (arith, missing)
    | inr (q, there) ↦ c.listed x q there
  ]

  emptied-live-listed :
      (x : ℕ) → live emptied.persons.at x ≡ true → mem x emptied.persons.ids ≡ true
  emptied-live-listed x h = listed-live x (deleted-live now id (db.persons.at x) h).0

  emptied-fresh : (x : ℕ) → emptied.next_id ≤ x → emptied.persons.at x ≡ none
  emptied-fresh x h = ap (map_option (delete_member now id)) (c.fresh x h)

  rebuilt :
      (bound : ℕ)
      → deepest db.closures ≤ bound
      → (t : Closure) × (rebuild
            (live emptied.persons.at)
            (father_of emptied.persons.at)
            (bound + 1)
            emptied.persons.ids
          ≡ some t)
        × IsConsistent (record emptied { closures = t })
  rebuilt bound enough =
      let (t, e, good) =
        rebuild-IsClosure (live emptied.persons.at) (father_of emptied.persons.at)
          emptied.persons.ids bound emptied-FathersLive emptied-live-listed
          (λ d a k alive chain. omega (arith, emptied-bound d a k alive chain)) in
      (
        t,
        e,
        record {
          closure = good;
          fathers = emptied-FathersLive;
          listed = emptied-listed;
          fresh = emptied-fresh;
        },
      )

module _ (env : Env) (id : ℕ) where
  -- With nothing outside the batch that depends on it, a rollback of consistent live data ends, given a
  -- round more than the deepest row of the closure table: the live persons of the batch are deleted, the
  -- other tables of the tenant stay, and the closure table is again that of the fathers on record.
  pub roll_back_tree_succeeds :
      (fuel : ℕ) (db : Db)
      → IsConsistent db
      → blockers db id ≡ 0
      → deepest db.closures < fuel
      → (t : Closure) × (roll_back_tree env fuel id db
          ≡ (ok tt, record (delete_batch env.now id db) { closures = t }))
        × IsConsistent (record (delete_batch env.now id db) { closures = t })
  unfolding roll_back_tree rebuild_closure
  roll_back_tree_succeeds fuel db c free enough =
      let (t, e, good) = rebuilt env.now id db c free (fuel - 1) (omega arith) in
      let more : fuel - 1 + 1 ≡ fuel = omega arith in
      let e' =
        subst
          (λ n.
            rebuild (live (delete_batch env.now id db).persons.at)
              (father_of (delete_batch env.now id db).persons.at) n db.persons.ids
            ≡ some t)
          more e in
      (t, ground (arith, e', free), good)

  pub roll_back_tree-IsConsistent :
      (fuel : ℕ) (db : Db)
      → deepest db.closures < fuel
      → IsConsistent db
      → IsConsistent (roll_back_tree env fuel id db).1
  roll_back_tree-IsConsistent fuel db enough c = elim (Bool-cases (ltb 0 (blockers db id))) [
    | inl blocked ↦
        let same : (roll_back_tree env fuel id db).1 ≡ db =
          unfold roll_back_tree in ground (arith, blocked) in
        subst IsConsistent (sym same) c
    | inr free ↦
        let (t, e, good) = roll_back_tree_succeeds fuel db c (ground (arith, free)) enough in
        subst IsConsistent (sym (ap (λ (r : Result (Unit {0}) × Db). r.1) e)) good
  ]

  batch_in-Keeps : (P : Store → Type 0) (status : BatchStatus) → Keeps P (batch_in status id)
  unfolding batch_in find_batch
  batch_in-Keeps P status =
      bind-Keeps P (find_batch id)
        (λ batch. throw_if (not (is_status status batch.status)) (bad_request import_invalid_state))
        (λ s p. require-Keeps P (s.batches.at id) (not_found import_not_found) s p)
        (λ batch.
          throw_if-Keeps P (not (is_status status batch.status)) (bad_request import_invalid_state))

  -- A rollback, refused or done, leaves consistent live data consistent, where the query of the closure
  -- table has a round more than the deepest row.
  pub rollback-IsConsistent :
      (fuel : ℕ) (s : Store)
      → deepest s.db.closures < fuel
      → IsConsistent s.db
      → IsConsistent (rollback env fuel id s).1.db
  unfolding rollback
  rollback-IsConsistent fuel s enough c =
      let P = λ (t : Store). (deepest t.db.closures < fuel) × IsConsistent t.db in
      go (batch_in BatchStatus.published id s)
        (batch_in-Keeps P BatchStatus.published s (enough, c))
    where
      finish :
          (r : Result (Unit {0}) × Db)
          → IsConsistent r.1
          → (t : Store) → IsConsistent (bind_result (put_db t r) (λ _. mark_rolled_back id)).1.db
      finish (ok u, d) k t = record {
        closure = k.closure;
        fathers = k.fathers;
        listed = k.listed;
        fresh = k.fresh;
      }
      finish (fail e, d) k t = k

      go :
          (r : Result (Unit {0}) × Store)
          → (deepest r.1.db.closures < fuel) × IsConsistent r.1.db
          → IsConsistent
              (bind_result r (λ _. on_db (roll_back_tree env fuel id) >> mark_rolled_back id)).1.db
      go (ok u, t) (deep, k) =
          finish (roll_back_tree env fuel id t.db) (roll_back_tree-IsConsistent fuel t.db deep k) t
      go (fail e, t) (deep, k) = k
