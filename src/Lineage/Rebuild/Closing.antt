-- ===== src/Lineage/Rebuild/Closing.antt =====
-- lineage.repository.ts `rebuildForTenant`: the table that it leaves.
use tftsp.Common.{
  ◌∙◌, ℕ, zero, suc, ◌+◌, ◌≤◌, ◌≡◌, refl, sym, subst, Bool, true, Option, some, List, ◌++◌, ◌&&◌,
  ◌||◌, ◌==◌, filter, mem, arith, inl, inr, or-split,
}
use tftsp.Lineage.{Closure}
use tftsp.Lineage.Chain.{Chain, here, up}
use tftsp.Lineage.Rows.{has, has-append, has-filter}
use tftsp.Lineage.Moves.{IsClosure, FathersLive, Chain-live}
use tftsp.Lineage.Rebuild.{self_rows, first_level, rounds, rebuild}
use tftsp.Lineage.Rebuild.Rounds.{
  AllGood, AllGood-has, first_level-AllGood, rounds-AllGood, rounds_complete, has-first_level,
  has-self_rows, first_level-AllDepth, rounds_ends,
}

module _ (live : ℕ → Bool) (father : ℕ → Option ℕ) where
  has-rebuilt :
      (ids : List ℕ) (anc : Closure) (a d k : ℕ)
      → has (self_rows live ids ++ filter (λ r. live r.ancestor) anc) a d k
        ≡ ((live d && (mem d ids && (a == d && k == 0))) || (live a && has anc a d k))
  has-rebuilt ids anc a d k =
      let self = has-self_rows live father ids a d k in
      let kept = has-filter (λ r. live r.ancestor) anc a d k in
      let both = has-append (self_rows live ids) (filter (λ r. live r.ancestor) anc) a d k in cc

  sound :
      (ids : List ℕ) (anc : Closure)
      → AllGood live father anc
      → (a d k : ℕ) → has (self_rows live ids ++ filter (λ r. live r.ancestor) anc) a d k ≡ true
      → (live d ≡ true) × Chain father d a k
  sound ids anc good a d k h =
      elim (or-split (live d && (mem d ids && (a == d && k == 0))) (live a && has anc a d k)
        (sym (has-rebuilt ids anc a d k) ∙ h)) [
          | inl e ↦
              let same : a ≡ d = ground (arith, e) in
              let none_up : zero ≡ k = ground (arith, e) in
              (
                ground (arith, e),
                subst (λ n. Chain father d a n) none_up
                    (subst (λ x. Chain father d x zero) (sym same) here),
              )
          | inr e ↦ AllGood-has live father anc a d k good (ground (arith, e))
        ]

  complete :
      (ids : List ℕ) (anc : Closure) (fuel : ℕ)
      → FathersLive live father
      → ((d : ℕ) → live d ≡ true → mem d ids ≡ true)
      → rounds father fuel (first_level father ids) ≡ some anc
      → (a d k : ℕ) → live d ≡ true
      → Chain father d a k
      → has (self_rows live ids ++ filter (λ r. live r.ancestor) anc) a d k ≡ true
  complete ids anc fuel fl listed run a d zero alive here =
      has-rebuilt ids anc d d 0 ∙ ground (arith, alive, listed d alive)
  complete ids anc fuel fl listed run a d k alive (up {m = f} {k = j} e c) =
      let found =
        rounds_complete live father c fuel (first_level father ids) anc d 1 run
          (has-first_level live father ids d f e (listed d alive)) in
      let deep : 1 + j ≡ suc j = omega arith in
      let found' = subst (λ n. has anc a d n ≡ true) deep found in
      has-rebuilt ids anc a d (suc j) ∙ ground (arith, found', Chain-live fl (fl d f e).1 c)

  -- Where only live persons have fathers, fathers are live, every live person is listed and no chain of
  -- fathers is longer than a bound: with a round more than that the rebuilding ends, and gives the
  -- closure of the father relation.
  pub rebuild-IsClosure :
      (ids : List ℕ) (bound : ℕ)
      → FathersLive live father
      → ((d : ℕ) → live d ≡ true → mem d ids ≡ true)
      → ((d a k : ℕ) → live d ≡ true → Chain father d a k → k ≤ bound)
      → (t : Closure) × (rebuild live father (bound + 1) ids ≡ some t) × IsClosure live father t
  unfolding rebuild
  rebuild-IsClosure ids bound fl listed short =
      let good = first_level-AllGood live father fl ids in
      let (anc, run) =
        rounds_ends live father bound short (bound + 1) 1 (first_level father ids) (omega arith)
          (first_level-AllDepth live father ids) good in
      let all_good = rounds-AllGood live father (bound + 1) (first_level father ids) good run in
      (
        self_rows live ids ++ filter (λ r. live r.ancestor) anc,
        rw run refl,
        record {
          sound = λ a d k h. sound ids anc all_good a d k h;
          complete = λ a d k alive c. complete ids anc (bound + 1) fl listed run a d k alive c;
        },
      )
