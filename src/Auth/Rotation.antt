-- ===== src/Auth/Rotation.antt =====
-- auth.service.ts `refresh`: rotation of a token within its family, and what a token is worth after it.
use tftsp.Common.{
  ℕ, ◌+◌, ◌≡◌, ◌≤◌, ◌<◌, refl, sym, subst, ap, Bool, true, false, Option, none, some, List, [], ◌∷◌,
  ◌==◌, ==_iff, if◌then◌else◌, arith, Bool-cases, Option-cases, inl, inr, row_passes, ◌∙◌,
  map_option, update_row-at,
}
use tftsp.Auth.{
  RefreshToken, AuthStore, AuthEnv, revoked, new_token, issue_refresh_token, rotate,
  revoke_refresh_token, find_row,
}
use tftsp.Auth.Sessions.{IsSessions, live_in, issued-at, revoked-at}

pub find_row-at :
    {W : Type 0} (p : W → Bool) (at : ℕ → Option W) (ids : List ℕ) {x : ℕ} {v : W}
    → find_row p at ids ≡ some (x, v)
    → (at x ≡ some v) × (p v ≡ true)
find_row-at {W} p at [] h = cc
find_row-at {W} p at (y ∷ ids) {x} {v} h = elim (Option-cases (at y)) [
  | inl e ↦ let later : find_row p at ids ≡ some (x, v) = ground arith in find_row-at p at ids later
  | inr (w, e) ↦ elim (Bool-cases (p w)) [
    | inl q ↦
        let same : ◌≡◌ {A = ℕ × W} (y, w) (x, v) = ground arith in
        (subst (λ z. at z.0 ≡ some z.1) same e, subst (λ z. p z.1 ≡ true) same q)
    | inr q ↦
        let later : find_row p at ids ≡ some (x, v) = ground arith in find_row-at p at ids later
  ]
]

-- the tokens that are live after a rotation
pub rotate-live :
    (env : AuthEnv) (id : ℕ) (stored : RefreshToken) (s : AuthStore) (f x : ℕ)
    → live_in f (rotate env id stored s).1.tokens.at x ≡ (
        if id == x
        then false
        else if s.next_id == x
        then stored.family_id == f
        else live_in f s.tokens.at x)
unfolding rotate
rotate-live env id stored s f x =
    let issued =
      (issue_refresh_token env stored.user_id stored.tenant_id (some stored.family_id) s).1 in
    revoked-at env.now id (some s.next_id) issued f x
    ∙ ap (λ b. if id == x then false else b)
        (issued-at env stored.user_id stored.tenant_id (some stored.family_id) s f x)

-- what a table says of a key after a rotation
rotate-at :
    (env : AuthEnv) (id : ℕ) (stored : RefreshToken) (s : AuthStore) (x : ℕ)
    → (rotate env id stored s).1.tokens.at x ≡ (
        if id == x
        then map_option (revoked env.now (some s.next_id)) (
            if s.next_id == x
            then some (new_token env stored.user_id stored.tenant_id stored.family_id s.next_id)
            else s.tokens.at x)
        else if s.next_id == x
        then some (new_token env stored.user_id stored.tenant_id stored.family_id s.next_id)
        else s.tokens.at x)
unfolding rotate revoke_refresh_token issue_refresh_token
rotate-at env id stored s x =
    update_row-at (revoked env.now (some s.next_id)) id
      (issue_refresh_token env stored.user_id stored.tenant_id (some stored.family_id) s).1.tokens x

pub family-revoked :
    (now f : ℕ) (by : Option ℕ) (b : Bool) (o : Option RefreshToken)
    → row_passes (λ t. t.family_id == f) (if b then map_option (revoked now by) o else o)
      ≡ row_passes (λ t. t.family_id == f) o
family-revoked now f by true none = refl
family-revoked now f by true (some t) = refl
family-revoked now f by false o = refl

module _ (env : AuthEnv) (id : ℕ) (stored : RefreshToken) (s : AuthStore)
    (found : s.tokens.at id ≡ some stored) (alive : stored.revoked_at ≡ none)
    (c : IsSessions s) where
  only_new :
      (f x : ℕ)
      → (stored.family_id == f) ≡ true
      → live_in f (rotate env id stored s).1.tokens.at x ≡ true
      → x ≡ s.next_id
  only_new f x e h =
      let h' = sym (rotate-live env id stored s f x) ∙ h in
      let here : live_in f s.tokens.at id ≡ true = rw found (ground arith) in
      elim (Bool-cases (s.next_id == x)) [
        | inl q ↦ sym ((==_iff s.next_id x).0 q)
        | inr q ↦ elim (Bool-cases (id == x)) [
          | inl r ↦ cc (rw r at h')
          | inr r ↦
              let old : live_in f s.tokens.at x ≡ true = rw (r, q) at h' in
              let same = c.single f x id old here in ground (arith, same, r)
        ]
      ]

  not_new :
      (f x : ℕ)
      → (stored.family_id == f) ≡ false
      → live_in f (rotate env id stored s).1.tokens.at x ≡ true
      → live_in f s.tokens.at x ≡ true
  not_new f x e h =
      let h' = sym (rotate-live env id stored s f x) ∙ h in
      elim (Bool-cases (id == x)) [
        | inl r ↦ cc (rw r at h')
        | inr r ↦ elim (Bool-cases (s.next_id == x)) [
          | inl q ↦ cc (rw (r, q, e) at h')
          | inr q ↦ rw (r, q) at h'
        ]
      ]

  rotate-next : (rotate env id stored s).1.next_id ≡ s.next_id + 1
  unfolding rotate issue_refresh_token revoke_refresh_token
  rotate-next = refl

  still_free : (x : ℕ) → s.next_id + 1 ≤ x → (rotate env id stored s).1.tokens.at x ≡ none
  still_free x h =
      let free : s.tokens.at x ≡ none = c.fresh x (omega arith) in
      let other : (s.next_id == x) ≡ false = ground arith in
      rotate-at env id stored s x ∙ rw (other, free) (go (id == x))
    where
      go :
          (b : Bool)
          → (if b then map_option (revoked env.now (some s.next_id)) none else none) ≡ none
      go true = refl
      go false = refl

  issued_before :
      (f x : ℕ)
      → row_passes (λ t. t.family_id == f) ((rotate env id stored s).1.tokens.at x) ≡ true
      → f < s.next_id + 1
  issued_before f x h =
      let table =
        if s.next_id == x
        then some (new_token env stored.user_id stored.tenant_id stored.family_id s.next_id)
        else s.tokens.at x in
      let h₁ =
        ap (λ o. row_passes (λ t. t.family_id == f) o) (sym (rotate-at env id stored s x)) ∙ h in
      let h₂ = sym (family-revoked env.now f (some s.next_id) (id == x) table) ∙ h₁ in
      elim (Bool-cases (s.next_id == x)) [
        | inl q ↦
            let mine : (stored.family_id == f) ≡ true = rw q at h₂ in
            let bound : f < s.next_id = c.families f id (rw found mine) in omega arith
        | inr q ↦ let bound : f < s.next_id = c.families f x (rw q at h₂) in omega arith
      ]

  -- A rotation of a live token of the table keeps the sessions sound.
  pub rotate-IsSessions : IsSessions (rotate env id stored s).1
  rotate-IsSessions = record {
    single = λ f i j h k. elim (Bool-cases (stored.family_id == f)) [
      | inl e ↦ only_new f i e h ∙ sym (only_new f j e k)
      | inr e ↦ c.single f i j (not_new f i e h) (not_new f j e k)
    ];
    fresh = λ x h. still_free x (subst (λ n. n ≤ x) rotate-next h);
    families = λ f x h. subst (λ n. f < n) (sym rotate-next) (issued_before f x h);
  }
