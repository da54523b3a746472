-- ===== src/Auth/Sessions.antt =====
-- auth.service.ts: a session is a family of refresh tokens, of which one at most is live.
use tftsp.Common.{
  ℕ, ◌≡◌, ◌≤◌, ◌<◌, refl, sym, Bool, true, false, Option, none, some, ◌&&◌, ◌==◌, not, is_some,
  or_else, if◌then◌else◌, arith, Bool-cases, inl, inr, row_passes, update_row-at, map_option, ◌∙◌,
}
use tftsp.Auth.{
  RefreshToken, AuthStore, AuthEnv, revoked, revoked_in_family, revoke_family, issue_refresh_token,
  revoke_refresh_token,
}

-- a token of the family that is not revoked
abbrev pub is_live_in : ℕ → RefreshToken → Bool
is_live_in family t = (t.family_id == family) && not (is_some t.revoked_at)

abbrev pub live_in : ℕ → (ℕ → Option RefreshToken) → ℕ → Bool
live_in family at x = row_passes (is_live_in family) (at x)

-- What holds of the tokens between two calls.
pub record IsSessions (s : AuthStore) : Type 0 where
  pub single : (f i j : ℕ) → live_in f s.tokens.at i ≡ true → live_in f s.tokens.at j ≡ true → i ≡ j
  pub fresh : (x : ℕ) → s.next_id ≤ x → s.tokens.at x ≡ none
  pub families :
      (f x : ℕ) → row_passes (λ t. t.family_id == f) (s.tokens.at x) ≡ true → f < s.next_id

live-map_family :
    (now family f : ℕ) (o : Option RefreshToken)
    → row_passes (is_live_in f) (map_option (revoked_in_family now family) o)
      ≡ (not (f == family) && row_passes (is_live_in f) o)
live-map_family now family f none = ground arith
live-map_family now family f (some t) = ground arith

family-map_family :
    (now family f : ℕ) (o : Option RefreshToken)
    → row_passes (λ t. t.family_id == f) (map_option (revoked_in_family now family) o)
      ≡ row_passes (λ t. t.family_id == f) o
family-map_family now family f none = refl
family-map_family now family f (some t) = ground arith

-- Revoking a family keeps the sessions sound, and leaves no live token in it.
pub revoke_family-IsSessions :
    (now family : ℕ) (s : AuthStore) → IsSessions s → IsSessions (revoke_family now family s).1
unfolding revoke_family
revoke_family-IsSessions now family s c = record {
  single = λ f i j h k.
      c.single f i j (ground (arith, live-map_family now family f (s.tokens.at i)))
        (ground (arith, live-map_family now family f (s.tokens.at j)));
  fresh = λ x h. rw (c.fresh x h) refl;
  families = λ f x h. c.families f x (sym (family-map_family now family f (s.tokens.at x)) ∙ h);
}

pub revoke_family-live :
    (now family : ℕ) (s : AuthStore) (f x : ℕ)
    → live_in f (revoke_family now family s).1.tokens.at x
      ≡ (not (f == family) && live_in f s.tokens.at x)
unfolding revoke_family
revoke_family-live now family s f x = live-map_family now family f (s.tokens.at x)

-- a token that is issued
pub issued-at :
    (env : AuthEnv) (user : ℕ) (tenant family : Option ℕ) (s : AuthStore) (f x : ℕ)
    → live_in f (issue_refresh_token env user tenant family s).1.tokens.at x
      ≡ (if s.next_id == x then or_else family s.next_id == f else live_in f s.tokens.at x)
unfolding issue_refresh_token
issued-at env user tenant family s f x = elim (Bool-cases (s.next_id == x)) [
  | inl e ↦ ground (arith, e)
  | inr e ↦ ground (arith, e)
]

-- a token that is revoked
pub revoked-at :
    (now id : ℕ) (by : Option ℕ) (s : AuthStore) (f x : ℕ)
    → live_in f (revoke_refresh_token now id by s).1.tokens.at x
      ≡ (if id == x then false else live_in f s.tokens.at x)
unfolding revoke_refresh_token
revoked-at now id by s f x =
    rw (update_row-at (revoked now by) id s.tokens x) (go (s.tokens.at x) (id == x))
  where
    go :
        (o : Option RefreshToken) (b : Bool)
        → row_passes (is_live_in f) (if b then map_option (revoked now by) o else o)
          ≡ (if b then false else row_passes (is_live_in f) o)
    go none true = refl
    go none false = refl
    go (some t) true = ground arith
    go (some t) false = refl
