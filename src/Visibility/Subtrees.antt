-- ===== src/Visibility/Subtrees.antt =====
-- visibility.resolver.ts `expandSubtrees`: the queue finds the anchors and everything below them.
use tftsp.Common.{
  ◌↔◌, ℕ, zero, suc, ◌≡◌, sym, subst, true, some, List, [], ◌∷◌, ◌++◌, ◌||◌, mem, any-append, arith,
  ==_iff, ◌==◌, Bool-cases, inl, inr, or-split,
}
use tftsp.Visibility.Context.{expand}

-- the unit is an anchor or below one
pub data Reached (children : ℕ → List ℕ) (anchors : List ℕ) : ℕ → Type 0 where
  anchor : {x : ℕ} → mem x anchors ≡ true → Reached children anchors x
  child :
      {x y : ℕ}
      → Reached children anchors x
      → mem y (children x) ≡ true
      → Reached children anchors y

abbrev pub AllReached : (ℕ → List ℕ) → List ℕ → List ℕ → Type 0
AllReached children anchors ids = (x : ℕ) → mem x ids ≡ true → Reached children anchors x

-- what was seen has its children seen or waiting
abbrev pub Closing : (ℕ → List ℕ) → List ℕ → List ℕ → Type 0
Closing children queue result =
    (x y : ℕ)
    → mem x result ≡ true
    → mem y (children x) ≡ true
    → (mem y result || mem y queue) ≡ true

module _ (children : ℕ → List ℕ) (anchors : List ℕ) where
  queue-Reached :
      (id : ℕ) (queue : List ℕ)
      → AllReached children anchors (id ∷ queue)
      → AllReached children anchors (queue ++ children id)
  queue-Reached id queue q x m =
      elim (or-split (mem x queue) (mem x (children id)) (rw any-append at m)) [
        | inl w ↦ q x (ground (arith, w))
        | inr w ↦ child (q id (ground arith)) w
      ]

  result-Reached :
      (id : ℕ) (result : List ℕ)
      → Reached children anchors id
      → AllReached children anchors result
      → AllReached children anchors (id ∷ result)
  result-Reached id result here r x m = elim (Bool-cases (id == x)) [
    | inl e ↦ subst (λ y. Reached children anchors y) ((==_iff id x).0 e) here
    | inr e ↦ r x (ground arith)
  ]

  -- only anchors and what is below them
  pub expand_sound :
      (fuel : ℕ) (queue result : List ℕ) {found : List ℕ}
      → AllReached children anchors queue
      → AllReached children anchors result
      → expand children fuel queue result ≡ some found
      → AllReached children anchors found
  unfolding expand
  expand_sound zero [] result q r h x m = r x (ground (arith, h))
  expand_sound zero (id ∷ queue) result q r h x m = cc
  expand_sound (suc fuel) [] result q r h x m = r x (ground (arith, h))
  expand_sound (suc fuel) (id ∷ queue) result {found} q r h x m =
      elim (Bool-cases (mem id result)) [
        | inl e ↦
            let next : expand children fuel queue result ≡ some found = ground (arith, h) in
            expand_sound fuel queue result (λ y w. q y (ground (arith, w))) r next x m
        | inr e ↦
            let next : expand children fuel (queue ++ children id) (id ∷ result) ≡ some found =
              ground (arith, h) in
            expand_sound fuel (queue ++ children id) (id ∷ result) (queue-Reached id queue q)
              (result-Reached id result (q id (ground arith)) r) next x m
      ]

module _ (children : ℕ → List ℕ) where
  drop_seen :
      (id : ℕ) (queue result : List ℕ)
      → mem id result ≡ true
      → Closing children (id ∷ queue) result
      → Closing children queue result
  drop_seen id queue result e c x y m w = elim (Bool-cases (id == y)) [
    | inl q ↦
        let seen : mem y result ≡ true = subst (λ z. mem z result ≡ true) ((==_iff id y).0 q) e in
        ground (arith, seen)
    | inr q ↦ ground (arith, c x y m w)
  ]

  add_seen :
      (id : ℕ) (queue result : List ℕ)
      → Closing children (id ∷ queue) result
      → Closing children (queue ++ children id) (id ∷ result)
  add_seen id queue result c x y m w = elim (Bool-cases (id == x)) [
    | inl q ↦
        let mine : mem y (children id) ≡ true =
          subst (λ z. mem y (children z) ≡ true) (sym ((==_iff id x).0 q)) w in
        rw any-append (ground (arith, mine))
    | inr q ↦
        let old : mem x result ≡ true = ground arith in rw any-append (ground (arith, c x y old w))
  ]

  -- what waits or was seen is found
  expand_keeps :
      (fuel : ℕ) (queue result : List ℕ) {found : List ℕ}
      → expand children fuel queue result ≡ some found
      → (x : ℕ) → (mem x result || mem x queue) ≡ true
      → mem x found ≡ true
  unfolding expand
  expand_keeps zero [] result h x m = ground (arith, h)
  expand_keeps zero (id ∷ queue) result h x m = cc
  expand_keeps (suc fuel) [] result h x m = ground (arith, h)
  expand_keeps (suc fuel) (id ∷ queue) result {found} h x m = elim (Bool-cases (mem id result)) [
    | inl e ↦
        let next : expand children fuel queue result ≡ some found = ground (arith, h) in
        expand_keeps fuel queue result next x (elim (Bool-cases (id == x)) [
          | inl q ↦
              let seen : mem x result ≡ true =
                subst (λ z. mem z result ≡ true) ((==_iff id x).0 q) e in
              ground (arith, seen)
          | inr q ↦ ground (arith, m)
        ])
    | inr e ↦
        let next : expand children fuel (queue ++ children id) (id ∷ result) ≡ some found =
          ground (arith, h) in
        expand_keeps fuel (queue ++ children id) (id ∷ result) next x
          (rw any-append (ground (arith, m)))
  ]

  -- what is found has its children found
  expand_closes :
      (fuel : ℕ) (queue result : List ℕ) {found : List ℕ}
      → Closing children queue result
      → expand children fuel queue result ≡ some found
      → Closing children [] found
  unfolding expand
  expand_closes zero [] result {found} c h = subst (λ z. Closing children [] z) (ground arith) c
  expand_closes zero (id ∷ queue) result c h = λ x y m w. cc
  expand_closes (suc fuel) [] result {found} c h =
      subst (λ z. Closing children [] z) (ground arith) c
  expand_closes (suc fuel) (id ∷ queue) result {found} c h = elim (Bool-cases (mem id result)) [
    | inl e ↦
        let next : expand children fuel queue result ≡ some found = ground (arith, h) in
        expand_closes fuel queue result (drop_seen id queue result e c) next
    | inr e ↦
        let next : expand children fuel (queue ++ children id) (id ∷ result) ≡ some found =
          ground (arith, h) in
        expand_closes fuel (queue ++ children id) (id ∷ result) (add_seen id queue result c) next
  ]

-- A search from the anchors that ends finds exactly the anchors and what is below them.
pub expand_iff :
    (children : ℕ → List ℕ) (anchors : List ℕ) (fuel : ℕ) {found : List ℕ}
    → expand children fuel anchors [] ≡ some found
    → (x : ℕ) → (mem x found ≡ true) ↔ Reached children anchors x
expand_iff children anchors fuel {found} h x = (
  (λ m. expand_sound children anchors fuel anchors [] (λ y w. anchor w) (λ y w. cc) h x m),
  λ reached. go reached,
)
  where
    start : Closing children anchors []
    start y z m w = cc

    go : {y : ℕ} → Reached children anchors y → mem y found ≡ true
    go (anchor w) = expand_keeps children fuel anchors [] h _ (ground (arith, w))
    go (child {x = y} {y = z} before w) =
        let closed = expand_closes children fuel anchors [] start h in
        let found_too = closed y z (go before) w in ground (arith, found_too)
