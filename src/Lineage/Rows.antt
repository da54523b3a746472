-- ===== src/Lineage/Rows.antt =====
-- What each statement of lineage.repository.ts does to the set of rows of the closure table.
use tftsp.Common.{
  ℕ, ◌+◌, ◌≡◌, refl, ap, ◌∙◌, inl, inr, Bool, true, not, ◌&&◌, ◌||◌, [], ◌∷◌, ◌++◌, ◌==◌, ==_refl,
  Bool-cases, or-split, or-join, any, filter, any-append, arith,
}
use tftsp.Lineage.{
  ClosureRow, Closure, row, in_subtree, strip_links, graft_under, cross_join, insert_self,
  remove_person_rows,
}

abbrev pub is_row : ℕ → ℕ → ℕ → ClosureRow → Bool
is_row a d k r = r.ancestor == a && (r.descendant == d && r.depth == k)

-- the table has the row (a, d, k)
unfoldable pub has : Closure → ℕ → ℕ → ℕ → Bool
has t a d k = any (is_row a d k) t

pub is_row-eq : (a d k : ℕ) (r : ClosureRow) → is_row a d k r ≡ true → r ≡ row a d k
is_row-eq a d k r h = ground arith

pub has-append : (s t : Closure) (a d k : ℕ) → has (s ++ t) a d k ≡ (has s a d k || has t a d k)
unfolding has
has-append s t a d k = any-append (is_row a d k) s t

pub has-filter :
    (q : ClosureRow → Bool) (t : Closure) (a d k : ℕ)
    → has (filter q t) a d k ≡ (q (row a d k) && has t a d k)
unfolding has
has-filter q [] a d k = ground arith
has-filter q (r ∷ t) a d k = elim (Bool-cases (is_row a d k r)) [
  | inl e ↦ ground (arith, has-filter q t a d k, ap q (is_row-eq a d k r e))
  | inr e ↦ ground (arith, has-filter q t a d k)
]

pub in_subtree-has :
    (t : Closure) (p x : ℕ) → in_subtree t p x ≡ true → (k : ℕ) × (has t p x k ≡ true)
unfolding in_subtree has
in_subtree-has [] p x h = cc
in_subtree-has (r ∷ t) p x h = elim (Bool-cases (r.ancestor == p && r.descendant == x)) [
  | inl e ↦ (r.depth, ground (arith, ==_refl r.depth))
  | inr e ↦ let (k, found) = in_subtree-has t p x (ground arith) in (k, ground arith)
]

pub has-in_subtree : (t : Closure) (p x k : ℕ) → has t p x k ≡ true → in_subtree t p x ≡ true
unfolding in_subtree has
has-in_subtree [] p x k h = cc
has-in_subtree (r ∷ t) p x k h = ground (arith, has-in_subtree t p x k)

-- statement A keeps a row unless it leads from the subtree of `p` out of it
pub has-strip_links :
    (p : ℕ) (t : Closure) (a d k : ℕ)
    → has (strip_links p t) a d k
      ≡ (not (in_subtree t p d && not (in_subtree t p a)) && has t a d k)
unfolding strip_links
has-strip_links p t a d k =
    has-filter (λ r. not (in_subtree t p r.descendant && not (in_subtree t p r.ancestor))) t a d k

pub has-insert_self :
    (p : ℕ) (t : Closure) (a d k : ℕ)
    → has (insert_self p t) a d k ≡ (has t a d k || is_row a d k (row p p 0))
unfolding insert_self has
has-insert_self p t a d k = ground (arith, any-append (is_row a d k) t (row p p 0 ∷ []))

pub has-remove_person_rows :
    (p : ℕ) (t : Closure) (a d k : ℕ)
    → has (remove_person_rows p t) a d k ≡ (not (a == p || d == p) && has t a d k)
unfolding remove_person_rows
has-remove_person_rows p t a d k =
    has-filter (λ r. not (r.ancestor == p || r.descendant == p)) t a d k

-- the rows of the cross join: an upper part that ends at the new father, a lower part from `p`
abbrev pub Crossing : Closure → Closure → ℕ → ℕ → ℕ → ℕ → ℕ → Type 0
Crossing t all f p a d k =
    (i : ℕ) × (j : ℕ) × (has t a f i ≡ true) × (has all p d j ≡ true) × (k ≡ i + j + 1)

graft_under_sound :
    (super : ClosureRow) (p : ℕ) (all : Closure) (a d k : ℕ)
    → has (graft_under super p all) a d k ≡ true
    → (j : ℕ) × (super.ancestor ≡ a) × (has all p d j ≡ true) × (k ≡ super.depth + j + 1)
unfolding graft_under has
graft_under_sound super p [] a d k h = cc
graft_under_sound super p (sub ∷ all) a d k h =
    elim (Bool-cases (
      sub.ancestor == p
      && is_row a d k (row super.ancestor sub.descendant (super.depth + sub.depth + 1)))) [
        | inl e ↦ (sub.depth, ground arith, ground (arith, ==_refl sub.depth), ground arith)
        | inr e ↦
            let (j, top, low, s) = graft_under_sound super p all a d k (ground arith) in
            (j, top, ground arith, s)
      ]

graft_under_complete :
    (super : ClosureRow) (p : ℕ) (all : Closure) (d j : ℕ)
    → has all p d j ≡ true
    → has (graft_under super p all) super.ancestor d (super.depth + j + 1) ≡ true
unfolding graft_under has
graft_under_complete super p [] d j h = cc
graft_under_complete super p (sub ∷ all) d j h =
    ground (arith, graft_under_complete super p all d j)

pub has-cons :
    (r : ClosureRow) (t : Closure) (a d k : ℕ) → has (r ∷ t) a d k ≡ (is_row a d k r || has t a d k)
unfolding has
has-cons r t a d k = refl

Crossing-there :
    (r : ClosureRow) (t all : Closure) (f p a d k : ℕ)
    → Crossing t all f p a d k
    → Crossing (r ∷ t) all f p a d k
Crossing-there r t all f p a d k (i, j, top, low, s) =
    (i, j, has-cons r t a f i ∙ or-join (is_row a f i r) (has t a f i) (inr top), low, s)

Crossing-here :
    (super : ClosureRow) (t all : Closure) (f p a d k : ℕ)
    → (super.descendant == f) ≡ true
    → has (graft_under super p all) a d k ≡ true
    → Crossing (super ∷ t) all f p a d k
Crossing-here super t all f p a d k e h =
    let (j, top, low, s) = graft_under_sound super p all a d k h in
    (super.depth, j, has-cons super t a f super.depth ∙ ground (arith, ==_refl super.depth), low, s)

pub cross_join_sound :
    (f p : ℕ) (all t : Closure) (a d k : ℕ)
    → has (cross_join f p all t) a d k ≡ true
    → Crossing t all f p a d k
unfolding cross_join
cross_join_sound f p all [] a d k h = unfold has in cc
cross_join_sound f p all (super ∷ t) a d k h = elim (Bool-cases (super.descendant == f)) [
  | inl e ↦
      elim (or-split (has (graft_under super p all) a d k) (has (cross_join f p all t) a d k)
        (rw (e, has-append) at h)) [
          | inl g ↦ Crossing-here super t all f p a d k e g
          | inr g ↦ Crossing-there super t all f p a d k (cross_join_sound f p all t a d k g)
        ]
  | inr e ↦ Crossing-there super t all f p a d k (cross_join_sound f p all t a d k (rw e at h))
]

pub cross_join_complete :
    (f p : ℕ) (all t : Closure) (a d k : ℕ)
    → Crossing t all f p a d k
    → has (cross_join f p all t) a d k ≡ true
unfolding cross_join
cross_join_complete f p all [] a d k (i, j, top, low, s) = unfold has in cc
cross_join_complete f p all (super ∷ t) a d k (i, j, top, low, s) =
    elim (or-split (is_row a f i super) (has t a f i) (rw has-cons at top)) [
      | inl e ↦
          let here : (super.descendant == f) ≡ true = ground arith in
          let whole : has (graft_under super p all) a d k ≡ true =
            ground (arith, graft_under_complete super p all d j low) in
          rw (here, has-append)
            (or-join (has (graft_under super p all) a d k) (has (cross_join f p all t) a d k)
              (inl whole))
      | inr e ↦
          let whole : has (cross_join f p all t) a d k ≡ true =
            cross_join_complete f p all t a d k (i, j, e, low, s) in
          ground (arith, has-append (graft_under super p all) (cross_join f p all t) a d k)
    ]
