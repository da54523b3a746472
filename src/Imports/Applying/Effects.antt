-- ===== src/Imports/Applying/Effects.antt =====
-- import-apply.service.ts: what a publication of a batch keeps of the store, whatever comes of it, and
-- what its counts say.
use tftsp.Common.{
  ◌>>◌, ◌∙◌, Text, ℕ, ◌+◌, ◌≡◌, refl, sym, ap, subst, Bool, true, false, Option, none, some, List,
  [], ◌∷◌, ok, Result, M, bind_result, if◌then◌else◌, Bool-cases, Option-cases, inl, inr, arith,
  bind-ok,
}
use tftsp.Database.{Env, Db, find_live}
use tftsp.Persons.Consistency.{IsConsistent}
use tftsp.Persons.Creating.{create_in_tx-IsConsistent}
use tftsp.Persons.Updating.{update_in_tx-IsConsistent}
use tftsp.Persons.Writes.{create_in_tx}
use tftsp.ChangeRequests.Store.{put_db}
use tftsp.Imports.Transfer.{merge_dto, create_dto}
use tftsp.Imports.{RawRow, ImportRow}
use tftsp.Imports.Applying.{
  father_for, mother_for, count, add_person, mark_created, Applying, put_store, on_tree,
  is_appliable, merge_target, merge_into, apply_merge, apply_create, apply_row, apply_rows,
}

abbrev pub tree : Applying → Db
tree w = w.store.db

-- a call that, where it succeeds, keeps the tree consistent
abbrev pub Succeeds : {A : Type 0} → M Applying A → Type 0
Succeeds {A} m =
    (a : A) (w w' : Applying) → IsConsistent (tree w) → m w ≡ (ok a, w') → IsConsistent (tree w')

bind-Succeeds :
    {A B : Type 0} (m : M Applying A) (f : A → M Applying B)
    → Succeeds m
    → ((a : A) → Succeeds (f a))
    → Succeeds (λ s. bind_result (m s) f)
bind-Succeeds m f first next b w w' c h =
    let (a, w₁, e, rest) = bind-ok (m w) f h in next a b w₁ w' (first a w w₁ c e) rest

-- a call that writes no person and no closure row
quiet-Succeeds :
    {A : Type 0} (m : M Applying A) → ((w : Applying) → tree (m w).1 ≡ tree w) → Succeeds m
quiet-Succeeds m quiet a w w' c h =
    let same : tree (m w).1 ≡ tree w' = ap (λ (r : Result _ × Applying). tree r.1) h in
    subst IsConsistent (sym (quiet w) ∙ same) c

on_tree-Succeeds :
    {A : Type 0} (m : M Db A)
    → ((a : A) (db db' : Db) → IsConsistent db → m db ≡ (ok a, db') → IsConsistent db')
    → Succeeds (on_tree m)
on_tree-Succeeds {A} m kept a w w' c h = go (m w.store.db) refl h
  where
    go :
        (r : Result A × Db)
        → m w.store.db ≡ r
        → put_store w (put_db w.store r) ≡ (ok a, w')
        → IsConsistent (tree w')
    go (r, db) e q =
        let same : db ≡ tree w' = ap (λ (x : Result A × Applying). tree x.1) q in
        let done : r ≡ ok a = ap (λ (x : Result A × Applying). x.0) q in
        subst IsConsistent same (kept a w.store.db db c (e ∙ ap (λ (x : Result A). (x, db)) done))

module _ (env : Env) (id created_by : ℕ) (unit_by_name : Text → Option ℕ) where
  merge_into-IsConsistent :
      (target : ℕ) (raw : RawRow) (father mother : Option ℕ) (a : Unit {0}) (db db' : Db)
      → IsConsistent db
      → merge_into env id created_by unit_by_name target raw father mother db ≡ (ok a, db')
      → IsConsistent db'
  unfolding merge_into
  merge_into-IsConsistent target raw father mother a db db' c h =
      elim (Option-cases (find_live db target)) [
        | inl e ↦ subst IsConsistent (ground (arith, e, h)) c
        | inr (current, e) ↦
            update_in_tx-IsConsistent env target
              (merge_dto unit_by_name current.version raw father mother) db c (ground (arith, e, h))
      ]

  apply_merge-Succeeds :
      (row : ImportRow) (target : ℕ)
      → Succeeds (apply_merge env id created_by unit_by_name row target)
  unfolding apply_merge
  apply_merge-Succeeds row target a w w' c h =
      let m =
        merge_into env id created_by unit_by_name target row.raw (father_for w.people row)
          (mother_for w.people row) in
      bind-Succeeds (on_tree m)
        (λ _. count (λ n. record n { merged = n.merged + 1 }) >> add_person row.row_ref target)
        (on_tree-Succeeds m (
          merge_into-IsConsistent target row.raw (father_for w.people row)
            (mother_for w.people row)))
        (λ _.
          bind-Succeeds (count (λ n. record n { merged = n.merged + 1 }))
            (λ _. add_person row.row_ref target) (quiet-Succeeds _ (λ v. refl))
            (λ _. quiet-Succeeds _ (λ v. refl)))
        a w w' c h

  apply_create-Succeeds :
      (row : ImportRow) → Succeeds (apply_create env id created_by unit_by_name row)
  unfolding apply_create
  apply_create-Succeeds row a w w' c h =
      let dto =
        create_dto unit_by_name row.raw (father_for w.people row) (mother_for w.people row) in
      let m = create_in_tx env dto (some created_by) (some id) in
      bind-Succeeds (on_tree m)
        (λ person.
          count (λ n. record n { created = n.created + 1 })
          >> (add_person row.row_ref person >> mark_created row.id person))
        (on_tree-Succeeds m
          (λ p db db' k e. create_in_tx-IsConsistent env dto (some created_by) (some id) db k e))
        (λ person.
          bind-Succeeds (count (λ n. record n { created = n.created + 1 }))
            (λ _. add_person row.row_ref person >> mark_created row.id person)
            (quiet-Succeeds _ (λ v. refl))
            (λ _.
              bind-Succeeds (add_person row.row_ref person) (λ _. mark_created row.id person)
                (quiet-Succeeds _ (λ v. refl)) (λ _. quiet-Succeeds _ (λ v. refl))))
        a w w' c h

  -- a row by its two tests
  abbrev pub choose : ImportRow → Applying → Bool → Option ℕ → Result (Unit {0}) × Applying
  choose row w b t =
      (if b
          then elim t [
            | some target ↦ apply_merge env id created_by unit_by_name row target
            | none ↦ apply_create env id created_by unit_by_name row
          ]
          else count (λ n. record n { ignored = n.ignored + 1 }))
        w

  pub apply_row-ignored :
      (row : ImportRow) (w : Applying)
      → is_appliable row ≡ false
      → apply_row env id created_by unit_by_name row w
        ≡ count (λ n. record n { ignored = n.ignored + 1 }) w
  unfolding apply_row
  apply_row-ignored row w e = ap (λ b. choose row w b (merge_target row)) e

  pub apply_row-applied :
      (row : ImportRow) (w : Applying) (t : Option ℕ)
      → is_appliable row ≡ true
      → merge_target row ≡ t
      → apply_row env id created_by unit_by_name row w ≡ choose row w true t
  unfolding apply_row
  apply_row-applied row w t e f =
      ap (λ b. choose row w b (merge_target row)) e ∙ ap (choose row w true) f

  apply_row-Succeeds : (row : ImportRow) → Succeeds (apply_row env id created_by unit_by_name row)
  apply_row-Succeeds row a w w' c h = elim (Bool-cases (is_appliable row)) [
    | inr e ↦
        quiet-Succeeds (count (λ n. record n { ignored = n.ignored + 1 })) (λ v. refl) a w w' c
          (sym (apply_row-ignored row w e) ∙ h)
    | inl e ↦ elim (Option-cases (merge_target row)) [
      | inl t ↦ apply_create-Succeeds row a w w' c (sym (apply_row-applied row w none e t) ∙ h)
      | inr (target, t) ↦
          apply_merge-Succeeds row target a w w' c
            (sym (apply_row-applied row w (some target) e t) ∙ h)
    ]
  ]

  pub apply_rows-Succeeds :
      (rows : List ImportRow) → Succeeds (apply_rows env id created_by unit_by_name rows)
  unfolding apply_rows
  apply_rows-Succeeds [] a w w' c h =
      subst IsConsistent (ap (λ (r : Result (Unit {0}) × Applying). tree r.1) h) c
  apply_rows-Succeeds (row ∷ rows) a w w' c h =
      bind-Succeeds (apply_row env id created_by unit_by_name row)
        (λ _. apply_rows env id created_by unit_by_name rows) (apply_row-Succeeds row)
        (λ _. apply_rows-Succeeds rows) a w w' c h
