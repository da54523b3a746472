-- ===== src/Lineage/Rebuild/Rounds.antt =====
-- lineage.repository.ts `rebuildForTenant`: the rounds of its recursive query.
use tftsp.Common.{
  ◌∙◌, ℕ, zero, suc, ◌+◌, ◌≤◌, ◌<◌, ◌≡◌, refl, sym, ap, subst, Bool, true, Option, none, some, List,
  [], ◌∷◌, ◌++◌, ◌&&◌, ◌==◌, ==_iff, mem, arith, Bool-cases, Option-cases, inl, inr, or-split,
}
use tftsp.Lineage.{Closure, ClosureRow, row}
use tftsp.Lineage.Chain.{Chain, here, up, Chain-append, Chain-depth}
use tftsp.Lineage.Rows.{is_row, is_row-eq, has, has-append}
use tftsp.Lineage.Moves.{FathersLive}
use tftsp.Lineage.Rebuild.{self_rows, first_level, next_level, prepend, rounds}

module _ (live : ℕ → Bool) (father : ℕ → Option ℕ) where
  -- a row above depth 0 of the closure
  abbrev pub Good : ClosureRow → Type 0
  Good r = (live r.descendant ≡ true) × Chain father r.descendant r.ancestor r.depth

  abbrev pub AllGood : Closure → Type 0
  AllGood [] = Unit {0}
  AllGood (r ∷ t) = Good r × AllGood t

  pub AllGood-has : (t : Closure) (a d k : ℕ) → AllGood t → has t a d k ≡ true → Good (row a d k)
  unfolding has
  AllGood-has [] a d k g h = cc
  AllGood-has (r ∷ t) a d k (g, gs) h = elim (or-split (is_row a d k r) (has t a d k) h) [
    | inl e ↦ subst Good (is_row-eq a d k r e) g
    | inr e ↦ AllGood-has t a d k gs e
  ]

  pub AllGood-append : (s t : Closure) → AllGood s → AllGood t → AllGood (s ++ t)
  AllGood-append [] t g h = h
  AllGood-append (r ∷ s) t (g, gs) h = (g, AllGood-append s t gs h)

  pub first_level-AllGood :
      FathersLive live father → (ids : List ℕ) → AllGood (first_level father ids)
  first_level-AllGood fl [] = tt
  first_level-AllGood fl (x ∷ ids) = elim (Option-cases (father x)) [
    | inl e ↦ rw (e, AllGood) (first_level-AllGood fl ids)
    | inr (f, e) ↦ rw (e, AllGood) (((fl x f e).0, up e here), first_level-AllGood fl ids)
  ]

  pub next_level-AllGood : (t : Closure) → AllGood t → AllGood (next_level father t)
  next_level-AllGood [] g = tt
  next_level-AllGood (r ∷ t) (g, gs) = elim (Option-cases (father r.ancestor)) [
    | inl e ↦ rw (e, AllGood) (next_level-AllGood t gs)
    | inr (f, e) ↦
        rw (e, AllGood)
          ((g.0, Chain-depth (omega arith) (Chain-append g.1 (up e here))), next_level-AllGood t gs)
  ]

  pub prepend-some :
      (rows : Closure) (o : Option Closure) {t : Closure}
      → prepend rows o ≡ some t
      → (rest : Closure) × (o ≡ some rest) × (t ≡ rows ++ rest)
  prepend-some rows none h = cc
  prepend-some rows (some rest) h = (rest, refl, cc)

  pub rounds-AllGood :
      (fuel : ℕ) (rows : Closure) {t : Closure}
      → AllGood rows
      → rounds father fuel rows ≡ some t
      → AllGood t
  unfolding rounds
  rounds-AllGood fuel [] {t} g h =
      let none_left : [] ≡ t = ground (arith, h) in subst AllGood none_left g
  rounds-AllGood zero (r ∷ rows) g h = cc
  rounds-AllGood (suc fuel) (r ∷ rows) g h =
      let (rest, e, same) =
        prepend-some (r ∷ rows) (rounds father fuel (next_level father (r ∷ rows))) h in
      subst AllGood (sym same) (
        AllGood-append (r ∷ rows) rest g
          (rounds-AllGood fuel (next_level father (r ∷ rows)) (next_level-AllGood (r ∷ rows) g) e))

  pub has-next_level :
      (t : Closure) (m f d k : ℕ)
      → father m ≡ some f
      → has t m d k ≡ true
      → has (next_level father t) f d (k + 1) ≡ true
  unfolding has
  has-next_level [] m f d k e h = cc
  has-next_level (r ∷ t) m f d k e h = elim (or-split (is_row m d k r) (has t m d k) h) [
    | inl q ↦
        let named : father r.ancestor ≡ some f =
          ap (λ (x : ClosureRow). father x.ancestor) (is_row-eq m d k r q) ∙ e in
        ground (arith, named, q)
    | inr q ↦ ground (arith, has-next_level t m f d k e q)
  ]

  pub has-rounds :
      (fuel : ℕ) (rows : Closure) {t : Closure} (a d k : ℕ)
      → rounds father fuel rows ≡ some t
      → has rows a d k ≡ true
      → has t a d k ≡ true
  unfolding rounds
  has-rounds fuel [] a d k e h = subst (λ x. has x a d k ≡ true) (ground (arith, e)) h
  has-rounds zero (r ∷ rows) a d k e h = cc
  has-rounds (suc fuel) (r ∷ rows) {t} a d k e h =
      let (rest, q, same) =
        prepend-some (r ∷ rows) (rounds father fuel (next_level father (r ∷ rows))) e in
      subst (λ x. has x a d k ≡ true) (sym same)
        (ground (arith, has-append (r ∷ rows) rest a d k, h))

  pub rounds-step :
      (fuel : ℕ) (rows : Closure) {t : Closure} (m d k : ℕ)
      → rounds father fuel rows ≡ some t
      → has rows m d k ≡ true
      → (fuel' : ℕ) × (rest : Closure) × (rounds father fuel' (next_level father rows) ≡ some rest)
        × (t ≡ rows ++ rest)
  unfolding rounds has
  rounds-step fuel [] m d k e h = cc
  rounds-step zero (r ∷ rows) m d k e h = cc
  rounds-step (suc fuel) (r ∷ rows) m d k e h =
      let (rest, q, same) =
        prepend-some (r ∷ rows) (rounds father fuel (next_level father (r ∷ rows))) e in
      (fuel, rest, q, same)

  pub rounds_complete :
      {m a i : ℕ}
      → Chain father m a i
      → (fuel : ℕ) (rows t : Closure) (d k : ℕ) → rounds father fuel rows ≡ some t
      → has rows m d k ≡ true
      → has t a d (k + i) ≡ true
  rounds_complete {m} here fuel rows t d k e h =
      subst (λ n. has t m d n ≡ true) (omega arith) (has-rounds fuel rows m d k e h)
  rounds_complete {m} {a} (up {m = f} {k = j} q c) fuel rows t d k e h =
      let (fuel', rest, run, same) = rounds-step fuel rows m d k e h in
      let later =
        rounds_complete c fuel' (next_level father rows) rest d (k + 1) run
          (has-next_level rows m f d k q h) in
      let sum : k + 1 + j ≡ k + suc j = omega arith in
      subst (λ n. has t a d n ≡ true) sum
        (subst (λ x. has x a d (k + 1 + j) ≡ true) (sym same)
          (ground (arith, has-append rows rest a d (k + 1 + j), later)))

  pub has-first_level :
      (ids : List ℕ) (d f : ℕ)
      → father d ≡ some f
      → mem d ids ≡ true
      → has (first_level father ids) f d 1 ≡ true
  unfolding has
  has-first_level [] d f e m = cc
  has-first_level (x ∷ ids) d f e m = elim (Bool-cases (x == d)) [
    | inl q ↦
        let named : father x ≡ some f = ap father ((==_iff x d).0 q) ∙ e in ground (arith, named, q)
    | inr q ↦ ground (arith, q, has-first_level ids d f e (ground (arith, q, m)))
  ]

  pub has-self_rows :
      (ids : List ℕ) (a d k : ℕ)
      → has (self_rows live ids) a d k ≡ (live d && (mem d ids && (a == d && k == 0)))
  unfolding has
  has-self_rows [] a d k = ground arith
  has-self_rows (x ∷ ids) a d k = elim (Bool-cases (x == d)) [
    | inl q ↦
        let same = ap live ((==_iff x d).0 q) in ground (arith, q, same, has-self_rows ids a d k)
    | inr q ↦ ground (arith, q, has-self_rows ids a d k)
  ]

  -- the rows of a round have the depth of the round
  abbrev pub AllDepth : ℕ → Closure → Type 0
  AllDepth n [] = Unit {0}
  AllDepth n (r ∷ t) = (r.depth ≡ n) × AllDepth n t

  pub first_level-AllDepth : (ids : List ℕ) → AllDepth 1 (first_level father ids)
  first_level-AllDepth [] = tt
  first_level-AllDepth (x ∷ ids) = elim (Option-cases (father x)) [
    | inl e ↦ rw (e, AllDepth) (first_level-AllDepth ids)
    | inr (f, e) ↦ rw (e, AllDepth) (refl, first_level-AllDepth ids)
  ]

  pub next_level-AllDepth :
      (n : ℕ) (t : Closure) → AllDepth n t → AllDepth (n + 1) (next_level father t)
  next_level-AllDepth n [] g = tt
  next_level-AllDepth n (r ∷ t) (g, gs) = elim (Option-cases (father r.ancestor)) [
    | inl e ↦ rw (e, AllDepth) (next_level-AllDepth n t gs)
    | inr (f, e) ↦ rw (e, AllDepth) (ap (λ m. m + 1) g, next_level-AllDepth n t gs)
  ]

  -- where no chain of a live person is longer than a bound, the rounds end
  pub rounds_ends :
      (bound : ℕ)
      → ((d a k : ℕ) → live d ≡ true → Chain father d a k → k ≤ bound)
      → (fuel n : ℕ) (rows : Closure) → bound < fuel + n
      → AllDepth n rows
      → AllGood rows
      → (t : Closure) × (rounds father fuel rows ≡ some t)
  unfolding rounds
  rounds_ends bound short fuel n [] h depth good = ([], refl)
  rounds_ends bound short zero n (r ∷ rows) h depth good =
      let k = short r.descendant r.ancestor r.depth good.0.0 good.0.1 in
      absurd (omega (arith, k, depth.0))
  rounds_ends bound short (suc fuel) n (r ∷ rows) h depth good =
      let (rest, e) =
        rounds_ends bound short fuel (n + 1) (next_level father (r ∷ rows)) (omega arith)
          (next_level-AllDepth n (r ∷ rows) depth) (next_level-AllGood (r ∷ rows) good) in
      ((r ∷ rows) ++ rest, ap (prepend (r ∷ rows)) e)
