-- ===== src/Lineage/Writes.antt =====
-- The write helpers of lineage.service.ts keep the closure table exact: a person is added, gets
-- another father, or is removed while its children become roots.
use tftsp.Common.{
  ℕ, ◌≡◌, refl, sym, subst, fun_ext, ◌∙◌, ◌≢◌, inl, inr, Bool, true, false, not, ◌||◌, Option, none,
  some, List, [], ◌∷◌, ◌==◌, ==_iff, Bool-cases, Option-cases, and-split, or-split, or-join, arith,
}
use tftsp.Lineage.{
  Closure, row, move_subtree, insert_self, remove_person_rows, on_create, on_father_change,
  detach_children, on_soft_delete, would_create_cycle,
}
use tftsp.Lineage.Chain.{Chain, here, up, update, update_self, update_ne, cut_sound}
use tftsp.Lineage.Rows.{has, is_row, has-insert_self, has-remove_person_rows}
use tftsp.Lineage.Moves.{
  IsClosure, FathersLive, Chain-live, move_subtree-none-IsClosure, move_subtree-some-IsClosure,
  would_create_cycle_iff,
}

-- a father function is unchanged where the entry that is cut is empty
pub cut_root : (father : ℕ → Option ℕ) (p : ℕ) → father p ≡ none → update father p none ≡ father
cut_root father p root = fun_ext (λ x. elim (Bool-cases (p == x)) [
  | inl e ↦ let q : p ≡ x = (==_iff p x).0 e in rw e (rw q at (sym root))
  | inr e ↦ rw e
])

update-true : (live : ℕ → Bool) (p x : ℕ) → live x ≡ true → update live p true x ≡ true
update-true live p x h = ground arith

pub FathersLive-cut :
    {live : ℕ → Bool} {father : ℕ → Option ℕ} (p : ℕ)
    → FathersLive live father
    → FathersLive live (update father p none)
FathersLive-cut {father} p fl d m e = elim (Bool-cases (p == d)) [
  | inl q ↦ cc (rw q at e)
  | inr q ↦ fl d m (rw q at e)
]

-- a live person gets a father who is live, or none
pub FathersLive-update :
    {live : ℕ → Bool} {father : ℕ → Option ℕ} (p : ℕ) (f : Option ℕ)
    → FathersLive live father
    → live p ≡ true
    → ((m : ℕ) → f ≡ some m → live m ≡ true)
    → FathersLive live (update father p f)
FathersLive-update {live} p f fl alive alive_f d m e = elim (Bool-cases (p == d)) [
  | inl q ↦
      let q' : p ≡ d = (==_iff p d).0 q in
      (subst (λ x. live x ≡ true) q' alive, alive_f m (rw q at e))
  | inr q ↦ fl d m (rw q at e)
]

pub FathersLive-create :
    {live : ℕ → Bool} {father : ℕ → Option ℕ} (p : ℕ) (f : Option ℕ)
    → FathersLive live father
    → ((m : ℕ) → f ≡ some m → live m ≡ true)
    → FathersLive (update live p true) (update father p f)
FathersLive-create {live} {father} p f fl alive_f =
    FathersLive-update p f
      (λ d m e. (update-true live p d (fl d m e).0, update-true live p m (fl d m e).1))
      (update_self live p true) (λ m e. update-true live p m (alive_f m e))

root_of_dead :
    {live : ℕ → Bool} {father : ℕ → Option ℕ} (p : ℕ)
    → FathersLive live father
    → live p ≡ false
    → father p ≡ none
root_of_dead {father} p fl dead = elim (Option-cases (father p)) [
  | inl e ↦ e
  | inr (m, e) ↦ absurd (cc (fl p m e).0)
]

Chain-of_root :
    {father : ℕ → Option ℕ} {d a k : ℕ} → father d ≡ none → Chain father d a k → (d ≡ a) × (k ≡ 0)
Chain-of_root root here = (refl, refl)
Chain-of_root root (up e c) = cc

module _ {live : ℕ → Bool} {father : ℕ → Option ℕ} {t : Closure} (c : IsClosure live father t)
    (fl : FathersLive live father) where
  insert_self-IsClosure :
      (p : ℕ) → live p ≡ false → IsClosure (update live p true) father (insert_self p t)
  insert_self-IsClosure p dead = record {
    sound = λ a d k h.
        elim (or-split (has t a d k) (is_row a d k (row p p 0)) (rw has-insert_self at h)) [
          | inl old ↦ let (alive, chain) = c.sound a d k old in (update-true live p d alive, chain)
          | inr new ↦
              let at_p : (p ≡ a) × (p ≡ d) × (0 ≡ k) = ground arith in
              (
                rw (sym at_p.1) (update_self live p true),
                subst (λ x. Chain father d x k) (sym at_p.1 ∙ at_p.0)
                    (subst (λ n. Chain father d d n) at_p.2 here),
              )
        ];
    complete = λ a d k alive chain. rw has-insert_self (elim (Bool-cases (p == d)) [
      | inl e ↦
          let q : p ≡ d = (==_iff p d).0 e in
          let root : father d ≡ none = subst (λ x. father x ≡ none) q (root_of_dead p fl dead) in
          let (same, zero_depth) = Chain-of_root root chain in
          or-join (has t a d k) (is_row a d k (row p p 0)) (inr (ground arith))
      | inr e ↦
          or-join (has t a d k) (is_row a d k (row p p 0))
            (inl (c.complete a d k (rw e at alive) chain))
    ]);
  }

  -- Where the table is the closure of the father relation, only live persons have fathers and fathers are
  -- live: a person who is not live yet, without a father or with a live one, turns the table into the
  -- closure of the relation with that person in it.
  pub on_create-IsClosure :
      (p : ℕ) (f : Option ℕ)
      → live p ≡ false
      → ((m : ℕ) → f ≡ some m → live m ≡ true)
      → IsClosure (update live p true) (update father p f) (on_create p f t)
  unfolding on_create
  on_create-IsClosure p none dead alive_f =
      subst (λ g. IsClosure (update live p true) g (insert_self p t))
        (sym (cut_root father p (root_of_dead p fl dead))) (insert_self-IsClosure p dead)
  on_create-IsClosure p (some f) dead alive_f =
      move_subtree-some-IsClosure (insert_self-IsClosure p dead) p f
        (λ d m e. (update-true live p d (fl d m e).0, update-true live p m (fl d m e).1))
        (update_self live p true) (update-true live p f (alive_f f refl))
        (λ above. cc (Chain-live fl (alive_f f refl) above.1))

  -- Where the table is the closure of the father relation, only live persons have fathers and fathers are
  -- live: a change of the father of a live person, to nobody or to a live person, that is not refused
  -- gives the closure of the father relation with that change.
  pub on_father_change-IsClosure :
      (p : ℕ) (f : Option ℕ) {t' : Closure}
      → live p ≡ true
      → ((m : ℕ) → f ≡ some m → live m ≡ true)
      → on_father_change p f t ≡ some t'
      → IsClosure live (update father p f) t'
  unfolding on_father_change
  on_father_change-IsClosure p none alive alive_f e =
      subst (λ s. IsClosure live (update father p none) s) (ground arith)
        (move_subtree-none-IsClosure c p fl alive)
  on_father_change-IsClosure p (some f) alive alive_f e =
      elim (Bool-cases (would_create_cycle t p f)) [
        | inl cycle ↦ cc (rw cycle at e)
        | inr free ↦
            subst (λ s. IsClosure live (update father p (some f)) s) (ground arith)
              (move_subtree-some-IsClosure c p f fl alive (alive_f f refl)
                (λ above. cc ((would_create_cycle_iff c p f (alive_f f refl)).1 above)))
      ]

-- the fathers after the children in the list have become roots
abbrev pub cut_all : (ℕ → Option ℕ) → List ℕ → ℕ → Option ℕ
cut_all father [] = father
cut_all father (child ∷ children) = cut_all (update father child none) children

abbrev pub AllLive : (ℕ → Bool) → List ℕ → Type 0
AllLive live [] = Unit {0}
AllLive live (x ∷ xs) = (live x ≡ true) × AllLive live xs

pub detach_children-IsClosure :
    {live : ℕ → Bool} (children : List ℕ) (father : ℕ → Option ℕ) (t : Closure)
    → IsClosure live father t
    → FathersLive live father
    → AllLive live children
    → IsClosure live (cut_all father children) (detach_children children t)
unfolding detach_children
detach_children-IsClosure [] father t c fl alive = c
detach_children-IsClosure (child ∷ children) father t c fl alive =
    detach_children-IsClosure children (update father child none) (move_subtree child none t)
      (move_subtree-none-IsClosure c child fl alive.0) (FathersLive-cut child fl) alive.1

-- no chain from another person ends at `p`, who has no children
childless_end :
    {father : ℕ → Option ℕ} {p d a k : ℕ}
    → ((x : ℕ) → father x ≢ some p)
    → d ≢ p
    → Chain father d a k
    → (a ≢ p) × Chain (update father p none) d a k
childless_end childless ne here = (ne, here)
childless_end {father} {p} childless ne (up {d} {m} e c) =
    let (end, rest) = childless_end childless (λ q. childless d (rw q at e)) c in
    (end, up (update_ne father p d none (λ q. ne (sym q)) ∙ e) rest)

module _ {live : ℕ → Bool} {father : ℕ → Option ℕ} {t : Closure} (c : IsClosure live father t) where
  -- a person without children is removed
  pub remove_person_rows-IsClosure :
      (p : ℕ)
      → ((x : ℕ) → father x ≢ some p)
      → IsClosure (update live p false) (update father p none) (remove_person_rows p t)
  remove_person_rows-IsClosure p childless = record {
    sound = λ a d k h.
        let kept : (not (a == p || d == p) ≡ true) × (has t a d k ≡ true) =
          and-split _ _ (rw has-remove_person_rows at h) in
        let ne : d ≢ p = λ q. ground (arith, (==_iff d p).1 q) in
        let (alive, chain) = c.sound a d k kept.1 in
        (update_ne live p d false (λ q. ne (sym q)) ∙ alive, (childless_end childless ne chain).1);
    complete = λ a d k alive chain.
        let ne : d ≢ p = λ q. cc (sym (update_self live p false) ∙ (rw q at alive)) in
        let alive' : live d ≡ true = sym (update_ne live p d false (λ q. ne (sym q))) ∙ alive in
        let old : Chain father d a k = cut_sound father p chain in
        let ne_a : a ≢ p = (childless_end childless ne old).0 in
        rw (has-remove_person_rows, c.complete a d k alive' old)
          (elim (Bool-cases (a == p)) [
            | inl e ↦ absurd (ne_a ((==_iff a p).0 e))
            | inr e ↦ elim (Bool-cases (d == p)) [
              | inl e' ↦ absurd (ne ((==_iff d p).0 e'))
              | inr e' ↦ rw (e, e')
            ]
          ]);
  }

-- a person is removed after its children have become roots
pub on_soft_delete-IsClosure :
    {live : ℕ → Bool} (p : ℕ) (children : List ℕ) (father : ℕ → Option ℕ) (t : Closure)
    → IsClosure live father t
    → FathersLive live father
    → AllLive live children
    → ((x : ℕ) → cut_all father children x ≢ some p)
    → IsClosure
        (update live p false)
        (update (cut_all father children) p none)
        (on_soft_delete p children t)
unfolding on_soft_delete
on_soft_delete-IsClosure p children father t c fl alive childless =
    remove_person_rows-IsClosure (detach_children-IsClosure children father t c fl alive) p
      childless
