-- ===== src/Imports/Ordering/Edges.antt =====
-- import-apply.service.ts `topologicalOrder`: counts of the parents that are still to come, and what
-- the loop over the children of a row does to them.
use tftsp.Common.{
  ◌≢◌, not, and-split, length-append, ℕ, ◌+◌, ◌-◌, ◌≤◌, ◌≡◌, ◌⊎◌, inl, inr, refl, sym, subst, ap,
  Bool, true, false, List, [], ◌∷◌, ◌++◌, ◌||◌, ◌&&◌, any, any-append, arith, Text, text_eq,
  text_eq_iff, Bool-cases, if◌then◌else◌, ◌==◌, length,
}
use tftsp.Imports.Cycles.{mem_text}
use tftsp.Imports.Cycles.Paths.{Text-cases, text_eq_refl}
use tftsp.Imports.Ordering.{release, lower, children, indegree}

-- how often a reference is in a list
abbrev pub times : Text → List Text → ℕ
times r [] = 0
times r (c ∷ cs) = (if text_eq c r then 1 else 0) + times r cs

pub times-mem : (r : Text) (cs : List Text) → times r cs ≡ 0 ⊎ (mem_text r cs ≡ true)
times-mem r [] = inl refl
times-mem r (c ∷ cs) = elim (Bool-cases (text_eq c r)) [
  | inl e ↦ inr (ground (arith, e))
  | inr e ↦ elim (times-mem r cs) [
    | inl z ↦ inl (ground (arith, e, z))
    | inr m ↦ inr (ground (arith, m))
  ]
]

pub release-degree :
    (cs : List Text) (degree : Text → ℕ) (queue : List Text) (r : Text)
    → (release cs degree queue).0 r ≡ degree r - times r cs
unfolding release
release-degree [] degree queue r = omega arith
release-degree (c ∷ cs) degree queue r = ground (
  arith,
  release-degree cs (lower c degree) (if lower c degree c == 0 then queue ++ c ∷ [] else queue) r,
)

pub release-keeps :
    (cs : List Text) (degree : Text → ℕ) (queue : List Text) (r : Text)
    → mem_text r queue ≡ true
    → mem_text r (release cs degree queue).1 ≡ true
unfolding release
release-keeps [] degree queue r m = m
release-keeps (c ∷ cs) degree queue r m =
    release-keeps cs (lower c degree) (if lower c degree c == 0 then queue ++ c ∷ [] else queue) r
      (ground (arith, m, any-append (λ s. text_eq s r) queue (c ∷ [])))

pub release-mem :
    (cs : List Text) (degree : Text → ℕ) (queue : List Text) (r : Text)
    → mem_text r (release cs degree queue).1 ≡ true
    → (mem_text r queue || mem_text r cs) ≡ true
unfolding release
release-mem [] degree queue r m = ground (arith, m)
release-mem (c ∷ cs) degree queue r m = ground (
  arith,
  any-append (λ s. text_eq s r) queue (c ∷ []),
  release-mem cs (lower c degree) (if lower c degree c == 0 then queue ++ c ∷ [] else queue) r m,
)

-- what was released has no parents to come
pub release-zero :
    (cs : List Text) (degree : Text → ℕ) (queue : List Text) (r : Text)
    → mem_text r (release cs degree queue).1 ≡ true
    → (mem_text r queue ≡ true) ⊎ (degree r ≤ times r cs)
unfolding release
release-zero [] degree queue r m = inl m
release-zero (c ∷ cs) degree queue r m =
    elim (release-zero cs (lower c degree)
      (if lower c degree c == 0 then queue ++ c ∷ [] else queue) r m) [
        | inr z ↦ inr (ground (arith, z))
        | inl w ↦ elim (Bool-cases (mem_text r queue)) [
          | inl e ↦ inl e
          | inr e ↦ elim (Text-cases c r) [
            | inl q ↦
                let pushed : lower c degree c ≡ 0 =
                  ground (arith, e, w, any-append (λ s. text_eq s r) queue (c ∷ [])) in
                let same : degree c ≡ degree r = ap degree q in
                inr (ground (arith, pushed, same, text_eq_refl c, (text_eq_iff c r).1 q))
            | inr q ↦ absurd (ground (arith, e, w, q, any-append (λ s. text_eq s r) queue (c ∷ [])))
          ]
        ]
      ]

-- a child whose parents were all seen is in the queue
pub release-pushes :
    (cs : List Text) (degree : Text → ℕ) (queue : List Text) (r : Text)
    → mem_text r cs ≡ true
    → degree r ≤ times r cs
    → mem_text r (release cs degree queue).1 ≡ true
unfolding release
release-pushes [] degree queue r m h = cc
release-pushes (c ∷ cs) degree queue r m h = elim (Bool-cases (mem_text r cs)) [
  | inl e ↦
      release-pushes cs (lower c degree) (if lower c degree c == 0 then queue ++ c ∷ [] else queue)
        r e (ground (arith, h))
  | inr e ↦
      let here : c ≡ r = (text_eq_iff c r).0 (ground (arith, m, e)) in
      let none_later : times r cs ≡ 0 = elim (times-mem r cs) [ inl z ↦ z | inr w ↦ cc ] in
      let same : degree c ≡ degree r = ap degree here in
      release-keeps cs (lower c degree) (if lower c degree c == 0 then queue ++ c ∷ [] else queue) r
        (ground (
          arith,
          h,
          none_later,
          same,
          text_eq_refl c,
          (text_eq_iff c r).1 here,
          any-append (λ s. text_eq s r) queue (c ∷ []),
        ))
]

pub release-length :
    (cs : List Text) (degree : Text → ℕ) (queue : List Text)
    → length (release cs degree queue).1 ≤ length queue + length cs
unfolding release
release-length [] degree queue = omega arith
release-length (c ∷ cs) degree queue = ground (
  arith,
  length-append queue (c ∷ []),
  release-length cs (lower c degree) (if lower c degree c == 0 then queue ++ c ∷ [] else queue),
)

-- the edges to a row whose parent was not seen
abbrev pub pending : List (Text × Text) → List Text → Text → ℕ
pending [] seen r = 0
pending ((p, c) ∷ es) seen r =
    (if text_eq c r && not (mem_text p seen) then 1 else 0) + pending es seen r

-- the edges whose parent was not seen
abbrev pub pending_all : List (Text × Text) → List Text → ℕ
pending_all [] seen = 0
pending_all ((p, c) ∷ es) seen = (if mem_text p seen then 0 else 1) + pending_all es seen

pub indegree-pending : (es : List (Text × Text)) (r : Text) → indegree es r ≡ pending es [] r
unfolding indegree
indegree-pending [] r = refl
indegree-pending ((p, c) ∷ es) r = ground (arith, indegree-pending es r)

pub pending-children :
    (es : List (Text × Text)) (seen : List Text) (p r : Text)
    → mem_text p seen ≡ false
    → pending es (p ∷ seen) r + times r (children es p) ≡ pending es seen r
unfolding children
pending-children [] seen p r m = omega arith
pending-children ((q, c) ∷ es) seen p r m = elim (Text-cases p q) [
  | inl e ↦
      let unseen : mem_text q seen ≡ false = subst (λ v. mem_text v seen ≡ false) e m in
      ground (
        arith,
        (text_eq_iff p q).1 e,
        (text_eq_iff q p).1 (sym e),
        unseen,
        pending-children es seen p r m,
      )
  | inr e ↦ elim (Text-cases q p) [
    | inl f ↦ ground (arith, e, (text_eq_iff p q).1 (sym f))
    | inr f ↦ ground (arith, e, f, pending-children es seen p r m)
  ]
]

pub pending_all-children :
    (es : List (Text × Text)) (seen : List Text) (p : Text)
    → mem_text p seen ≡ false
    → pending_all es (p ∷ seen) + length (children es p) ≡ pending_all es seen
unfolding children
pending_all-children [] seen p m = omega arith
pending_all-children ((q, c) ∷ es) seen p m = elim (Text-cases p q) [
  | inl e ↦
      let unseen : mem_text q seen ≡ false = subst (λ v. mem_text v seen ≡ false) e m in
      ground (
        arith,
        (text_eq_iff p q).1 e,
        (text_eq_iff q p).1 (sym e),
        unseen,
        pending_all-children es seen p m,
      )
  | inr e ↦ elim (Text-cases q p) [
    | inl f ↦ ground (arith, e, (text_eq_iff p q).1 (sym f))
    | inr f ↦ ground (arith, e, f, pending_all-children es seen p m)
  ]
]

-- the edge is in the list
abbrev pub has_edge : Text → Text → List (Text × Text) → Bool
has_edge q r es = any (λ e. text_eq e.0 q && text_eq e.1 r) es

-- no parents to come: all were seen
pub pending-seen :
    (es : List (Text × Text)) (seen : List Text) (q r : Text)
    → pending es seen r ≡ 0
    → has_edge q r es ≡ true
    → mem_text q seen ≡ true
pending-seen [] seen q r z h = cc
pending-seen ((p, c) ∷ es) seen q r z h = elim (Bool-cases (text_eq p q && text_eq c r)) [
  | inl e ↦
      let (same, child) = and-split (text_eq p q) (text_eq c r) e in
      let seen_p : mem_text p seen ≡ true = ground (arith, z, child) in
      subst (λ v. mem_text v seen ≡ true) ((text_eq_iff p q).0 same) seen_p
  | inr e ↦ pending-seen es seen q r (omega (arith, z)) (ground (arith, h, e))
]

-- parents to come: one of them was not seen
pub pending-unseen :
    (es : List (Text × Text)) (seen : List Text) (r : Text)
    → pending es seen r ≢ 0
    → (q : Text) × (has_edge q r es ≡ true) × (mem_text q seen ≡ false)
pending-unseen [] seen r z = absurd (z refl)
pending-unseen ((p, c) ∷ es) seen r z = elim (Bool-cases (text_eq c r && not (mem_text p seen))) [
  | inl e ↦ (p, ground (arith, e, text_eq_refl p), ground (arith, e))
  | inr e ↦
      let (q, h, u) = pending-unseen es seen r (λ y. z (ground (arith, e, y))) in
      (q, ground (arith, h), u)
]
