-- ===== src/Lineage/Chain.antt =====
-- What the closure table stands for: chains of fathers. A father function gives the father of a
-- person, if there is one on record.
use tftsp.Common.{
  ℕ, zero, suc, ◌+◌, ◌≡◌, refl, sym, fun_ext, subst, ◌≢◌, ◌⊎◌, inl, inr, Option, none, some, ◌==◌,
  ==_iff, ==_refl, if◌then◌else◌, Bool-cases, arith,
}

-- `Chain father d a k`: the k-th father of `d`, counted along the male line, is `a`.
pub data Chain (father : ℕ → Option ℕ) : ℕ → ℕ → ℕ → Type 0 where
  here : {d : ℕ} → Chain father d d zero
  up : {d m a k : ℕ} → father d ≡ some m → Chain father m a k → Chain father d a (suc k)

-- `a` is on the male line above `d`, or is `d`
abbrev pub Above : (ℕ → Option ℕ) → ℕ → ℕ → Type 0
Above father d a = (k : ℕ) × Chain father d a k

-- a function on identifiers with one entry replaced
abbrev pub update {ℓ} : {A : Type ℓ} → (ℕ → A) → ℕ → A → ℕ → A
update g p v x = if p == x then v else g x

module _ {ℓ} {A : Type ℓ} (g : ℕ → A) (p : ℕ) where
  pub update_self : (v : A) → update g p v p ≡ v
  update_self v = rw (==_refl p)

  pub update_ne : (x : ℕ) (v : A) → p ≢ x → update g p v x ≡ g x
  update_ne x v h = elim (Bool-cases (p == x)) [
    | inl e ↦ absurd (h ((==_iff p x).0 e))
    | inr e ↦ rw e
  ]

  pub update_twice : (v w : A) → update (update g p v) p w ≡ update g p w
  update_twice v w = fun_ext (λ x. ground arith)

same_father : {o : Option ℕ} {m n : ℕ} → o ≡ some m → o ≡ some n → m ≡ n
same_father h k = cc

module _ {father : ℕ → Option ℕ} where
  pub Chain-depth : {d a k l : ℕ} → k ≡ l → Chain father d a k → Chain father d a l
  Chain-depth {d} {a} e c = subst (λ n. Chain father d a n) e c

  pub Chain-start : {d e a k : ℕ} → d ≡ e → Chain father d a k → Chain father e a k
  Chain-start {a} {k} e c = subst (λ x. Chain father x a k) e c

  pub Chain-append :
      {d m a j i : ℕ} → Chain father d m j → Chain father m a i → Chain father d a (i + j)
  Chain-append here c = Chain-depth (omega arith) c
  Chain-append (up e b) c = Chain-depth (omega arith) (up e (Chain-append b c))

  -- a chain that is not empty goes through the father of its start
  pub Chain-step : {d m a k : ℕ} → father d ≡ some m → d ≢ a → Chain father d a k → Above father m a
  Chain-step e n here = absurd (n refl)
  Chain-step {a} e n (up {k = j} e' c) = (j, Chain-start (same_father e' e) c)

  pub Chain-extend : {d m a : ℕ} → father d ≡ some m → Above father m a → Above father d a
  Chain-extend e (k, c) = (suc k, up e c)

  -- a cycle through `p` gives chains from `p` to itself of every multiple of its length
  pub Chain-repeat :
      {p n : ℕ} (m : ℕ) → Chain father p p (suc n) → (k : ℕ) × Chain father p p (m + k)
  Chain-repeat zero c = (0, Chain-depth (omega arith) here)
  Chain-repeat {n} (suc m) c =
      let (k, longer) = Chain-repeat m c in
      (k + n, Chain-depth (omega arith) (Chain-append c longer))

-- Detaching `p` from its father.
module _ (father : ℕ → Option ℕ) (p : ℕ) where
  cut_step : {d m : ℕ} → update father p none d ≡ some m → (p ≢ d) × (father d ≡ some m)
  cut_step {d} e = ((λ q. ground arith), ground arith)

  pub cut_sound : {d a k : ℕ} → Chain (update father p none) d a k → Chain father d a k
  cut_sound here = here
  cut_sound (up e c) = up (cut_step e).1 (cut_sound c)

  -- after the cut, a chain from below `p` ends below `p`
  pub cut_stays_below :
      {d a k : ℕ} → Chain (update father p none) d a k → Above father d p → Above father a p
  cut_stays_below here below = below
  cut_stays_below (up e c) (j, below) =
      let (ne, e') = cut_step e in cut_stays_below c (Chain-step e' (λ q. ne (sym q)) below)

  -- a chain that does not leave the part below `p` is kept, if `p` is on no cycle
  pub cut_complete :
      {d a k : ℕ}
      → ((n : ℕ) → ¬ Chain father p p (suc n))
      → Chain father d a k
      → (Above father d p → Above father a p)
      → Chain (update father p none) d a k
  cut_complete acyclic here stays = here
  cut_complete acyclic (up {d} {m} {k} e c) stays = elim (Bool-cases (p == d)) [
    | inl q ↦
        let q' : p ≡ d = (==_iff p d).0 q in
        let (i, back) = stays (0, Chain-start q' here) in
        absurd (
          acyclic (i + k)
            (Chain-start (sym q') (Chain-depth (omega arith) (Chain-append (up e c) back))))
    | inr q ↦ up (rw q e) (cut_complete acyclic c (λ above. stays (Chain-extend e above)))
  ]

-- Giving `p`, which has no father, the father `f`, who is not below `p`.
module _ (father : ℕ → Option ℕ) (p f : ℕ) where
  -- the chains that go from below `p` through `p` and its new father
  abbrev pub Joined : ℕ → ℕ → ℕ → Type 0
  Joined d a k = (i : ℕ) × (j : ℕ) × Chain father f a i × Chain father d p j × (k ≡ i + j + 1)

  pub graft_mono :
      {d a k : ℕ} → father p ≡ none → Chain father d a k → Chain (update father p (some f)) d a k
  graft_mono root here = here
  graft_mono root (up {d} e c) = elim (Bool-cases (p == d)) [
    | inl q ↦ let q' : p ≡ d = (==_iff p d).0 q in cc
    | inr q ↦ up (rw q e) (graft_mono root c)
  ]

  pub graft_sound :
      {d a k : ℕ} → father p ≡ none → Joined d a k → Chain (update father p (some f)) d a k
  graft_sound root (i, j, above, below, e) = Chain-depth (omega (arith, e)) (
      Chain-append (graft_mono root below)
        (up (update_self father p (some f)) (graft_mono root above)))

  -- one more step below `p`
  join_up :
      {d m a k : ℕ}
      → father d ≡ some m
      → Chain father m a k ⊎ Joined m a k
      → Chain father d a (suc k) ⊎ Joined d a (suc k)
  join_up e (inl c) = inl (up e c)
  join_up e (inr (i, j, above, below, s)) = inr (i, suc j, above, up e below, omega arith)

  -- the step from `p` to its new father
  join_at :
      {a k : ℕ}
      → ¬ Above father f p
      → Chain father f a k ⊎ Joined f a k
      → Chain father p a (suc k) ⊎ Joined p a (suc k)
  join_at {k} free (inl c) = inr (k, 0, c, here, omega arith)
  join_at free (inr (i, j, above, below, s)) = absurd (free (j, below))

  pub graft_complete :
      {d a k : ℕ}
      → ¬ Above father f p
      → Chain (update father p (some f)) d a k
      → Chain father d a k ⊎ Joined d a k
  graft_complete free here = inl here
  graft_complete free (up {d} {m} {a} {k} e c) = elim (Bool-cases (p == d)) [
    | inl q ↦
        let q' : p ≡ d = (==_iff p d).0 q in
        let m' : m ≡ f = ground arith in
        subst (λ x. Chain father x a (suc k) ⊎ Joined x a (suc k)) q'
          (join_at free (subst (λ x. Chain father x a k ⊎ Joined x a k) m' (graft_complete free c)))
    | inr q ↦ join_up (ground arith) (graft_complete free c)
  ]
