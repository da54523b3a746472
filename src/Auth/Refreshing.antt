-- ===== src/Auth/Refreshing.antt =====
-- auth.service.ts `refresh` and `logout`: what each answer means, and the sessions after it.
use tftsp.Common.{
  ℕ, ◌≡◌, ◌≤◌, refl, sym, subst, ap, Bool, true, false, Option, none, some, ◌&&◌, ◌==◌, not,
  if◌then◌else◌, ltb, arith, Bool-cases, Option-cases, inl, inr, row_passes, ok, fail, ◌∙◌,
  unauthorized, refresh_token_reused, map_option, update_row-at,
}
use tftsp.Auth.{
  RefreshToken, AuthStore, AuthEnv, TokenPair, revoked, rotate, revoke_refresh_token, refresh,
  refresh_stored, refresh_live, logout, find_by_hash,
}
use tftsp.Auth.Sessions.{
  IsSessions, live_in, revoked-at, revoke_family-IsSessions, revoke_family-live,
}
use tftsp.Auth.Rotation.{find_row-at, rotate-live, rotate-IsSessions, family-revoked}

revoke_refresh_token-IsSessions :
    (now id : ℕ) (by : Option ℕ) (s : AuthStore)
    → IsSessions s
    → IsSessions (revoke_refresh_token now id by s).1
unfolding revoke_refresh_token
revoke_refresh_token-IsSessions now id by s c = record {
  single = λ f i j h k. c.single f i j (before f i h) (before f j k);
  fresh =
      λ x h. (update_row-at (revoked now by) id s.tokens x ∙ rw (c.fresh x h) (stays (id == x)));
  families = λ f x h. c.families f x (
      (sym (family-revoked now f by (id == x) (s.tokens.at x))
        ∙ ap (λ o. row_passes (λ t. t.family_id == f) o)
            (sym (update_row-at (revoked now by) id s.tokens x))
        ∙ h));
}
  where
    stays : (b : Bool) → (if b then map_option (revoked now by) none else none) ≡ none
    stays true = refl
    stays false = refl

    before :
        (f x : ℕ)
        → live_in f (revoke_refresh_token now id by s).1.tokens.at x ≡ true
        → live_in f s.tokens.at x ≡ true
    before f x h = elim (Bool-cases (id == x)) [
      | inl e ↦ cc (rw e at (sym (revoked-at now id by s f x) ∙ h))
      | inr e ↦ rw e at (sym (revoked-at now id by s f x) ∙ h)
    ]

module _ (env : AuthEnv) (id : ℕ) (stored : RefreshToken) (s : AuthStore)
    (found : s.tokens.at id ≡ some stored) (c : IsSessions s) where
  refresh_live-IsSessions : stored.revoked_at ≡ none → IsSessions (refresh_live env id stored s).1
  unfolding refresh_live
  refresh_live-IsSessions alive = elim (Bool-cases (ltb stored.expires_at env.now)) [
    | inl e ↦ rw e (revoke_refresh_token-IsSessions env.now id none s c)
    | inr e ↦ elim (Option-cases (s.users.at stored.user_id)) [
      | inl u ↦ rw (e, u) c
      | inr (user, u) ↦ rw (e, u) (rotate-IsSessions env id stored s found alive c)
    ]
  ]

  refresh_stored-IsSessions : IsSessions (refresh_stored env id stored s).1
  unfolding refresh_stored
  refresh_stored-IsSessions = elim (Option-cases stored.revoked_at) [
    | inl e ↦ rw e (refresh_live-IsSessions e)
    | inr (t, e) ↦ rw e (revoke_family-IsSessions env.now stored.family_id s c)
  ]

-- Where each family of tokens has one live token at most and the next identifier is fresh for rows and
-- families: so it is after `refresh`, whatever it answers.
pub refresh-IsSessions :
    (env : AuthEnv) (raw : ℕ) (s : AuthStore) → IsSessions s → IsSessions (refresh env raw s).1
unfolding refresh
refresh-IsSessions env raw s c = elim (Option-cases (find_by_hash (env.hash_token raw) s)) [
  | inl e ↦ rw (e, refresh) c
  | inr (row, e) ↦
      rw (e, refresh)
        (refresh_stored-IsSessions env row.0 row.1 s (find_row-at _ s.tokens.at s.tokens.ids e).0 c)
]

-- Logging out, with any token, leaves one live token at most in each family.
logout-IsSessions :
    (env : AuthEnv) (raw : ℕ) (s : AuthStore) → IsSessions s → IsSessions (logout env raw s).1
unfolding logout
logout-IsSessions env raw s c = elim (Option-cases (find_by_hash (env.hash_token raw) s)) [
  | inl e ↦ rw (e, logout) c
  | inr (row, e) ↦ rw (e, logout) (revoke_family-IsSessions env.now row.1.family_id s c)
]

module _ (env : AuthEnv) (raw id : ℕ) (stored : RefreshToken) (s : AuthStore)
    (found : find_by_hash (env.hash_token raw) s ≡ some (id, stored)) where
  -- A token on record that is revoked and presented again is refused as reused, and no token of its family
  -- is live any more; the other families keep theirs.
  pub refresh-reuse :
      (t : ℕ)
      → stored.revoked_at ≡ some t
      → ((refresh env raw s).0 ≡ fail (unauthorized refresh_token_reused))
        × ((f x : ℕ)
            → live_in f (refresh env raw s).1.tokens.at x
              ≡ (not (f == stored.family_id) && live_in f s.tokens.at x))
  unfolding refresh refresh_stored
  refresh-reuse t e = (
    rw (found, refresh, e) refl,
    λ f x. rw (found, refresh, e) (revoke_family-live env.now stored.family_id s f x),
  )

  -- After `logout` no token of the family of the token is live.
  pub logout-live :
      (f x : ℕ)
      → live_in f (logout env raw s).1.tokens.at x
        ≡ (not (f == stored.family_id) && live_in f s.tokens.at x)
  unfolding logout
  logout-live f x = rw (found, logout) (revoke_family-live env.now stored.family_id s f x)

  refresh_live-ok :
      {pair : TokenPair} {s' : AuthStore}
      → stored.revoked_at ≡ none
      → refresh env raw s ≡ (ok pair, s')
      → (env.now ≤ stored.expires_at) × (rotate env id stored s ≡ (ok pair, s'))
  unfolding refresh refresh_stored refresh_live
  refresh_live-ok alive h = elim (Bool-cases (ltb stored.expires_at env.now)) [
    | inl e ↦ ground (arith, found, alive)
    | inr e ↦ elim (Option-cases (s.users.at stored.user_id)) [
      | inl u ↦ ground (arith, found, alive)
      | inr (user, u) ↦ (ground arith, ground (arith, found, alive))
    ]
  ]

  -- A successful `refresh` with a token on record was with one that is neither revoked nor over; afterwards
  -- that token is dead, the new one is live in its family, and every other token is as it was.
  pub refresh-ok :
      {pair : TokenPair} {s' : AuthStore}
      → refresh env raw s ≡ (ok pair, s')
      → (stored.revoked_at ≡ none)
        × (env.now ≤ stored.expires_at)
        × (pair.user ≡ stored.user_id)
        × (pair.refresh_token ≡ env.random_token s.next_id)
        × ((f x : ℕ)
            → live_in f s'.tokens.at x ≡ (
                if id == x
                then false
                else if s.next_id == x
                then stored.family_id == f
                else live_in f s.tokens.at x))
  refresh-ok {pair} {s'} h = elim (Option-cases stored.revoked_at) [
    | inl alive ↦
        let (in_time, run) = refresh_live-ok alive h in
        (
          alive,
          in_time,
          unfold rotate in ground arith,
          unfold rotate in ground arith,
          λ f x.
              subst
                (λ t. live_in f t.tokens.at x ≡ (
                  if id == x
                  then false
                  else if s.next_id == x
                  then stored.family_id == f
                  else live_in f s.tokens.at x))
                (ap (λ r. r.1) run) (rotate-live env id stored s f x),
        )
    | inr (t, e) ↦ let again = (refresh-reuse t e).0 in cc
  ]
