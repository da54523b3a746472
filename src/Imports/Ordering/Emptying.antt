-- ===== src/Imports/Ordering/Emptying.antt =====
-- import-apply.service.ts `topologicalOrder`: the steps of the queue.
use tftsp.Common.{
  and-split, ==_iff, List-cases, is_some-witness, ℕ, zero, suc, ◌+◌, ◌-◌, ◌≤◌, ◌<◌, ◌≡◌, inl, inr,
  refl, sym, subst, ap, ◌∙◌, true, false, some, List, [], ◌∷◌, ◌++◌, arith, Text, text_eq,
  Bool-cases, is_some, length, ◌==◌, filter,
}
use tftsp.Imports.{ImportRow}
use tftsp.Imports.Cycles.{mem_text}
use tftsp.Imports.Cycles.Paths.{Text-cases, text_eq_refl}
use tftsp.Imports.Ordering.{
  row_of, refs, edges, Kahn, release, children, take_ref, run_queue, start_queue, indegree,
}
use tftsp.Imports.Ordering.Edges.{
  times, times-mem, release-degree, release-keeps, release-mem, release-zero, release-pushes,
  release-length, pending, pending_all, indegree-pending, pending-children, pending_all-children,
  pending-seen,
}
use tftsp.Imports.Ordering.Parents.{
  ParentsFirst, ParentsFirst-push, mem-filter, mem-refs, children-there, refs-push, row_of-ref,
  row_of-push, row_of-push_self, has_edge-edges,
}

module _ (rows : List ImportRow) where
  abbrev pub all_edges : List (Text × Text)
  all_edges = edges rows rows

  -- what holds between two rounds of the loop over the queue
  pub record Inv (k : Kahn) : Type 0 where
    pub counted : (r : Text) → k.degree r ≡ pending all_edges k.seen r
    pub ready : (r : Text) → mem_text r k.queue ≡ true → k.degree r ≡ 0
    pub there : (r : Text) → mem_text r k.queue ≡ true → is_some (row_of rows r) ≡ true
    pub waits :
        (r : Text)
        → is_some (row_of rows r) ≡ true
        → mem_text r k.seen ≡ false
        → k.degree r ≡ 0
        → mem_text r k.queue ≡ true
    pub seen_rows : (r : Text) → mem_text r k.seen ≡ mem_text r (refs k.ordered)
    pub first : ParentsFirst rows [] k.ordered
    pub same_rows :
        (r : Text) → mem_text r (refs k.ordered) ≡ true → row_of k.ordered r ≡ row_of rows r

  unfoldable pub work : Kahn → ℕ
  work k = length k.queue + pending_all all_edges k.seen

  skip-Inv :
      (k : Kahn) (ref : Text) (queue : List Text)
      → k.queue ≡ ref ∷ queue
      → mem_text ref k.seen ≡ true
      → Inv k
      → Inv (record k { queue = queue })
  skip-Inv k ref queue e m i = record {
    counted = i.counted;
    ready = λ r w. i.ready r (rw e (ground (arith, w)));
    there = λ r w. i.there r (rw e (ground (arith, w)));
    waits = λ r t u z.
        let on_queue : mem_text r (ref ∷ queue) ≡ true =
          subst (λ q. mem_text r q ≡ true) e (i.waits r t u z) in
        elim (Text-cases ref r) [
          | inl q ↦
              let seen : mem_text r k.seen ≡ true = subst (λ v. mem_text v k.seen ≡ true) q m in cc
          | inr q ↦ ground (arith, on_queue, q)
        ];
    seen_rows = i.seen_rows;
    first = i.first;
    same_rows = i.same_rows;
  }

  module _ (k : Kahn) (ref : Text) (queue : List Text) (e : k.queue ≡ ref ∷ queue)
      (m : mem_text ref k.seen ≡ false) (w : ImportRow) (here : row_of rows ref ≡ some w)
      (i : Inv k) where
    abbrev released : List Text
    released = children all_edges ref

    degree_zero : k.degree ref ≡ 0
    degree_zero = i.ready ref (rw e (ground (arith, text_eq_refl ref)))

    taken : Kahn
    taken = record {
      degree = (release released k.degree queue).0;
      queue = (release released k.degree queue).1;
      seen = ref ∷ k.seen;
      ordered = k.ordered ++ w ∷ [];
    }

    take_ref-taken : take_ref rows all_edges ref queue k ≡ taken
    unfolding take_ref taken
    take_ref-taken = rw here refl

    taken_degree : (r : Text) → taken.degree r ≡ k.degree r - times r released
    unfolding taken
    taken_degree r = release-degree released k.degree queue r

    taken_ready : (r : Text) → mem_text r taken.queue ≡ true → taken.degree r ≡ 0
    unfolding taken
    taken_ready r n = elim (release-zero released k.degree queue r n) [
      | inl old ↦
          let zero_before = i.ready r (rw e (ground (arith, old))) in
          omega (arith, zero_before, release-degree released k.degree queue r)
      | inr le ↦ omega (arith, le, release-degree released k.degree queue r)
    ]

    taken_waits :
        (r : Text)
        → is_some (row_of rows r) ≡ true
        → mem_text r (ref ∷ k.seen) ≡ false
        → taken.degree r ≡ 0
        → mem_text r taken.queue ≡ true
    unfolding taken
    taken_waits r t u z =
        let le : k.degree r ≤ times r released =
          omega (arith, z, release-degree released k.degree queue r) in
        elim (times-mem r released) [
          | inr child ↦ release-pushes released k.degree queue r child le
          | inl no_child ↦
              let on_queue : mem_text r (ref ∷ queue) ≡ true =
                subst (λ q. mem_text r q ≡ true) e
                  (i.waits r t (ground (arith, u)) (omega (arith, le, no_child))) in
              release-keeps released k.degree queue r (ground (arith, on_queue, u))
        ]

    same_ref : w.row_ref ≡ ref
    same_ref = row_of-ref rows ref here

    taken_seen : (r : Text) → mem_text r taken.seen ≡ mem_text r (refs taken.ordered)
    unfolding taken
    taken_seen r =
        let old = i.seen_rows r in
        let pushed = refs-push k.ordered w r in
        let named : text_eq w.row_ref r ≡ text_eq ref r = ap (λ u. text_eq u r) same_ref in
        ground (arith, old, pushed, named)

    taken_first : ParentsFirst rows [] taken.ordered
    unfolding taken
    taken_first =
        let unseen : mem_text w.row_ref (refs k.ordered) ≡ false =
          subst (λ u. mem_text u (refs k.ordered) ≡ false) (sym same_ref)
            (sym (i.seen_rows ref) ∙ m) in
        let none_pending : pending all_edges k.seen ref ≡ 0 = sym (i.counted ref) ∙ degree_zero in
        ParentsFirst-push rows [] k.ordered w refl unseen
          (λ q p.
            sym (i.seen_rows q)
            ∙ pending-seen all_edges k.seen q ref none_pending
                (has_edge-edges rows rows ref q here p))
          i.first

    taken_rows :
        (r : Text) → mem_text r (refs taken.ordered) ≡ true → row_of taken.ordered r ≡ row_of rows r
    unfolding taken
    taken_rows r n = elim (Text-cases w.row_ref r) [
      | inl q ↦
          let own = row_of-push_self k.ordered w in
          subst (λ u. row_of (k.ordered ++ w ∷ []) u ≡ row_of rows u) q
            (own ∙ sym (subst (λ u. row_of rows u ≡ some w) (sym same_ref) here))
      | inr q ↦
          let before : mem_text r (refs k.ordered) ≡ true =
            ground (arith, n, q, refs-push k.ordered w r) in
          row_of-push k.ordered w r q ∙ i.same_rows r before
    ]

    taken-Inv : Inv taken
    unfolding taken
    taken-Inv = record {
      counted = λ r. omega (
        arith,
        i.counted r,
        release-degree released k.degree queue r,
        pending-children all_edges k.seen ref r m,
      );
      ready = taken_ready;
      there = λ r n. elim (Bool-cases (mem_text r queue)) [
        | inl old ↦ i.there r (rw e (ground (arith, old)))
        | inr new ↦
            children-there rows rows ref r
              (ground (arith, new, release-mem released k.degree queue r n))
      ];
      waits = taken_waits;
      seen_rows = taken_seen;
      first = taken_first;
      same_rows = taken_rows;
    }

    taken-work : work taken + 1 ≤ work k
    unfolding taken work
    taken-work =
        let before : length k.queue ≡ length queue + 1 = ap length e ∙ omega arith in
        omega (
          arith,
          before,
          release-length released k.degree queue,
          pending_all-children all_edges k.seen ref m,
        )

  pub record Runs (k : Kahn) (fuel : ℕ) : Type 0 where
    pub last : Kahn
    pub ends : run_queue rows all_edges fuel k ≡ some last
    pub inv : Inv last
    pub empty : last.queue ≡ []

  run-skip :
      (fuel : ℕ) (k : Kahn) (ref : Text) (queue : List Text)
      → k.queue ≡ ref ∷ queue
      → mem_text ref k.seen ≡ true
      → run_queue rows all_edges (suc fuel) k
        ≡ run_queue rows all_edges fuel (record k { queue = queue })
  unfolding run_queue
  run-skip fuel k ref queue e m = rw (e, run_queue) (rw m refl)

  run-take :
      (fuel : ℕ) (k : Kahn) (ref : Text) (queue : List Text)
      → k.queue ≡ ref ∷ queue
      → mem_text ref k.seen ≡ false
      → run_queue rows all_edges (suc fuel) k
        ≡ run_queue rows all_edges fuel (take_ref rows all_edges ref queue k)
  unfolding run_queue
  run-take fuel k ref queue e m = rw (e, run_queue) (rw m refl)

  run-end : (fuel : ℕ) (k : Kahn) → k.queue ≡ [] → run_queue rows all_edges (suc fuel) k ≡ some k
  unfolding run_queue
  run-end fuel k e = ground (arith, e)

  pub run_queue-Runs : (fuel : ℕ) (k : Kahn) → Inv k → work k < fuel → Runs k fuel
  unfolding work
  run_queue-Runs zero k i h = absurd (omega arith)
  run_queue-Runs (suc fuel) k i h = elim (List-cases k.queue) [
    | inl e ↦ record { last = k; ends = run-end fuel k e; inv = i; empty = e }
    | inr (ref, queue, e) ↦
        let longer : length k.queue ≡ length queue + 1 = ap length e ∙ omega arith in
        elim (Bool-cases (mem_text ref k.seen)) [
          | inl m ↦
              let r =
                run_queue-Runs fuel (record k { queue = queue }) (skip-Inv k ref queue e m i)
                  (omega (arith, h, longer)) in
              record {
                last = r.last;
                ends = run-skip fuel k ref queue e m ∙ r.ends;
                inv = r.inv;
                empty = r.empty;
              }
          | inr m ↦
              let on_queue : mem_text ref k.queue ≡ true =
                rw e (ground (arith, text_eq_refl ref)) in
              let (w, here) = is_some-witness (row_of rows ref) (i.there ref on_queue) in
              let same = take_ref-taken k ref queue e m w here i in
              let r =
                run_queue-Runs fuel (taken k ref queue e m w here i)
                  (taken-Inv k ref queue e m w here i)
                  (omega (arith, h, taken-work k ref queue e m w here i)) in
              record {
                last = r.last;
                ends =
                    run-take fuel k ref queue e m
                    ∙ (ap (run_queue rows all_edges fuel) same ∙ r.ends);
                inv = r.inv;
                empty = r.empty;
              }
        ]
  ]

  pub start-Inv : Inv (start_queue rows)
  unfolding start_queue
  start-Inv = record {
    counted = λ r. indegree-pending all_edges r;
    ready = λ r m. ground (arith, passed r m);
    there = λ r m. ground (arith, passed r m, mem-refs rows r);
    waits = λ r t u z.
        ground
          (arith, mem-filter (λ v. indegree all_edges v == 0) (refs rows) r, t, z, mem-refs rows r);
    seen_rows = λ r. refl;
    first = tt;
    same_rows = λ r m. cc;
  }
    where
      passed :
          (r : Text)
          → mem_text r (filter (λ v. indegree all_edges v == 0) (refs rows)) ≡ true
          → (indegree all_edges r ≡ 0) × (mem_text r (refs rows) ≡ true)
      passed r m =
          let (zero_degree, listed) =
            and-split (indegree all_edges r == 0) (mem_text r (refs rows)) (
              subst (λ b. b ≡ true) (mem-filter (λ v. indegree all_edges v == 0) (refs rows) r)
                m) in
          ((==_iff _ _).0 zero_degree, listed)
