-- ===== src/Lineage/Moves.antt =====
-- The closure table stands for the chains of fathers, and every write helper of
-- lineage.service.ts keeps it so.
use tftsp.Common.{
  ℕ, suc, ◌+◌, ◌≤◌, ◌≡◌, subst, ◌↔◌, inl, inr, Bool, true, not, ◌&&◌, Option, none, some, [], ◌∷◌,
  ◌==◌, ==_iff, Bool-cases, and-split, or-split, or-join, any, arith,
}
use tftsp.Lineage.{
  Closure, in_subtree, would_create_cycle, strip_links, graft_links, cross_join, move_subtree,
}
use tftsp.Lineage.Chain.{
  Chain, here, up, Above, update, update_self, update_twice, Chain-repeat, Chain-start, graft_mono,
  cut_sound, cut_stays_below, cut_complete, graft_sound, graft_complete,
}
use tftsp.Lineage.Rows.{
  has, is_row, has-append, in_subtree-has, has-in_subtree, has-strip_links, cross_join_sound,
  cross_join_complete,
}

-- The rows are exactly the chains of fathers that start at a live person.
pub record IsClosure (live : ℕ → Bool) (father : ℕ → Option ℕ) (t : Closure) : Type 0 where
  pub sound : (a d k : ℕ) → has t a d k ≡ true → (live d ≡ true) × Chain father d a k
  pub complete : (a d k : ℕ) → live d ≡ true → Chain father d a k → has t a d k ≡ true

-- Only live persons have a father on record, and the father is live.
abbrev pub FathersLive : (ℕ → Bool) → (ℕ → Option ℕ) → Type 0
FathersLive live father = (d m : ℕ) → father d ≡ some m → (live d ≡ true) × (live m ≡ true)

-- the largest depth in the table
abbrev pub deepest : Closure → ℕ
deepest [] = 0
deepest (r ∷ t) = r.depth + deepest t

pub has-deepest : (t : Closure) (a d k : ℕ) → has t a d k ≡ true → k ≤ deepest t
unfolding has
has-deepest [] a d k h = cc
has-deepest (r ∷ t) a d k h = elim (or-split (is_row a d k r) (any (is_row a d k) t) h) [
  | inl e ↦ ground arith
  | inr e ↦ omega (arith, has-deepest t a d k e)
]

pub Chain-live :
    {live : ℕ → Bool} {father : ℕ → Option ℕ} {d a k : ℕ}
    → FathersLive live father
    → live d ≡ true
    → Chain father d a k
    → live a ≡ true
Chain-live fl alive here = alive
Chain-live fl alive (up {d} {m} e c) = Chain-live fl (fl d m e).1 c

module _ {live : ℕ → Bool} {father : ℕ → Option ℕ} {t : Closure} (c : IsClosure live father t) where
  -- Where the table is the closure of the father relation, no live person is above himself on the male line.
  pub IsClosure-acyclic : (p : ℕ) → live p ≡ true → (n : ℕ) → ¬ Chain father p p (suc n)
  IsClosure-acyclic p h n cycle =
      let (k, long) = Chain-repeat (suc (deepest t)) cycle in
      let bound : suc (deepest t) + k ≤ deepest t =
        has-deepest t p p (suc (deepest t) + k) (c.complete p p (suc (deepest t) + k) h long) in
      omega arith

  pub in_subtree_iff : (p x : ℕ) → (in_subtree t p x ≡ true) ↔ ((live x ≡ true) × Above father x p)
  in_subtree_iff p x = (
    (λ h.
        let (k, found) = in_subtree-has t p x h in
        let (alive, chain) = c.sound p x k found in (alive, (k, chain))),
    λ h. has-in_subtree t p x h.1.0 (c.complete p x h.1.0 h.0 h.1.1),
  )

  strip_forth :
      (p a d k : ℕ)
      → live p ≡ true
      → has (strip_links p t) a d k ≡ true
      → (live d ≡ true) × Chain (update father p none) d a k
  strip_forth p a d k alive h =
      let kept : (not (in_subtree t p d && not (in_subtree t p a)) ≡ true) × (has t a d k ≡ true) =
        and-split _ _ (rw has-strip_links at h) in
      let (alive_d, chain) = c.sound a d k kept.1 in
      (
        alive_d,
        cut_complete father p (IsClosure-acyclic p alive) chain (λ above.
            let below : in_subtree t p d ≡ true = (in_subtree_iff p d).1 (alive_d, above) in
            ((in_subtree_iff p a).0 (ground arith)).1),
      )

  strip_back :
      (p a d k : ℕ)
      → FathersLive live father
      → live d ≡ true
      → Chain (update father p none) d a k
      → has (strip_links p t) a d k ≡ true
  strip_back p a d k fl alive chain =
      let whole : has t a d k ≡ true = c.complete a d k alive (cut_sound father p chain) in
      rw (has-strip_links, whole)
        (elim (Bool-cases (in_subtree t p d)) [
          | inl e ↦
              let end : in_subtree t p a ≡ true = (in_subtree_iff p a).1 (
                Chain-live fl alive (cut_sound father p chain),
                cut_stays_below father p chain ((in_subtree_iff p d).0 e).1,
              ) in
              ground arith
          | inr e ↦ ground arith
        ])

  strip_links-IsClosure :
      (p : ℕ)
      → FathersLive live father
      → live p ≡ true
      → IsClosure live (update father p none) (strip_links p t)
  strip_links-IsClosure p fl alive = record {
    sound = λ a d k. strip_forth p a d k alive;
    complete = λ a d k. strip_back p a d k fl;
  }

  graft_forth :
      (p f a d k : ℕ)
      → father p ≡ none
      → has (graft_links p f t) a d k ≡ true
      → (live d ≡ true) × Chain (update father p (some f)) d a k
  unfolding graft_links
  graft_forth p f a d k root h =
      elim (or-split (has t a d k) (has (cross_join f p t t) a d k) (rw has-append at h)) [
        | inl e ↦ let (alive, chain) = c.sound a d k e in (alive, graft_mono father p f root chain)
        | inr e ↦
            let (i, j, top, low, s) = cross_join_sound f p t t a d k e in
            let (_, above) = c.sound a f i top in
            let (alive, below) = c.sound p d j low in
            (alive, graft_sound father p f root (i, j, above, below, s))
      ]

  graft_back :
      (p f a d k : ℕ)
      → live f ≡ true
      → ¬ Above father f p
      → live d ≡ true
      → Chain (update father p (some f)) d a k
      → has (graft_links p f t) a d k ≡ true
  unfolding graft_links
  graft_back p f a d k alive_f free alive chain = rw has-append (
      or-join (has t a d k) (has (cross_join f p t t) a d k)
        (elim (graft_complete father p f free chain) [
          | inl old ↦ inl (c.complete a d k alive old)
          | inr new ↦
              let (i, j, above, below, s) = new in
              inr (
                cross_join_complete f p t t a d k
                  (i, j, c.complete a f i alive_f above, c.complete p d j alive below, s))
        ]))

  graft_links-IsClosure :
      (p f : ℕ)
      → father p ≡ none
      → live f ≡ true
      → ¬ Above father f p
      → IsClosure live (update father p (some f)) (graft_links p f t)
  graft_links-IsClosure p f root alive_f free = record {
    sound = λ a d k. graft_forth p f a d k root;
    complete = λ a d k. graft_back p f a d k alive_f free;
  }

  -- Where the table is the closure of the father relation: the cycle check on a live candidate answers yes
  -- exactly where the person is on the male line of the candidate, or is the candidate.
  pub would_create_cycle_iff :
      (p f : ℕ) → live f ≡ true → (would_create_cycle t p f ≡ true) ↔ Above father f p
  unfolding would_create_cycle
  would_create_cycle_iff p f alive = elim (Bool-cases (p == f)) [
    | inl e ↦ ((λ h. (0, Chain-start ((==_iff p f).0 e) here)), λ h. rw e)
    | inr e ↦ (
      (λ h. ((in_subtree_iff p f).0 (rw e at h)).1),
      λ h. rw e ((in_subtree_iff p f).1 (alive, h)),
    )
  ]

  -- `p` becomes a root
  pub move_subtree-none-IsClosure :
      (p : ℕ)
      → FathersLive live father
      → live p ≡ true
      → IsClosure live (update father p none) (move_subtree p none t)
  unfolding move_subtree
  move_subtree-none-IsClosure = strip_links-IsClosure

module _ {live : ℕ → Bool} {father : ℕ → Option ℕ} {t : Closure} (c : IsClosure live father t) where
  -- `p` gets the father `f`, who is not below `p`
  pub move_subtree-some-IsClosure :
      (p f : ℕ)
      → FathersLive live father
      → live p ≡ true
      → live f ≡ true
      → ¬ Above father f p
      → IsClosure live (update father p (some f)) (move_subtree p (some f) t)
  unfolding move_subtree
  move_subtree-some-IsClosure p f fl alive alive_f free =
      let cut : IsClosure live (update father p none) (strip_links p t) =
        strip_links-IsClosure c p fl alive in
      subst (λ g. IsClosure live g (graft_links p f (strip_links p t)))
        (update_twice father p none (some f))
        (graft_links-IsClosure cut p f (update_self father p none) alive_f
          (λ h. free (h.0, cut_sound father p h.1)))
