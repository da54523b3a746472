-- ===== src/Auth.antt =====
-- apps/api/src/modules/auth: login with lockout, and sessions as families of refresh tokens
-- (auth.service.ts, auth.repository.ts, token.service.ts). Hashing, random tokens and signatures are
-- third-party code: `AuthEnv` has them as functions.
pub mod Sessions
pub mod Rotation
pub mod Refreshing
pub mod Login
pub mod Lockout
mod Examples
use tftsp.Common.{
  ℕ, zero, suc, ◌+◌, ◌*◌, Bool, true, false, Option, none, some, List, [], ◌∷◌, ◌&&◌, ◌||◌, ◌==◌,
  not, ltb, leb, if◌then◌else◌, is_some, or_else, filter, any, Text, text_eq, Table, insert_row,
  set_row, update_row, map_rows, M, Result, ok, fail, modify, get, return, throw, throw_if, require,
  ◌>>=◌, ◌>>◌, unauthorized, forbidden, invalid_credentials, account_locked, invalid_refresh_token,
  refresh_token_reused, no_tenant_membership, is_empty,
}
use tftsp.Domain.{Role, includes_role}

-- a row of `users`
pub record Account : Type 0 where
  pub email : Text
  pub password_hash : ℕ
  pub is_super_admin : Bool
  pub failed_login_attempts : ℕ
  pub locked_until : Option ℕ

-- a row of `refresh_tokens`
pub record RefreshToken : Type 0 where
  pub user_id : ℕ
  pub family_id : ℕ
  pub token_hash : ℕ
  pub tenant_id : Option ℕ
  pub expires_at : ℕ
  pub revoked_at : Option ℕ
  pub replaced_by_id : Option ℕ

-- a row of `role_assignments`, with its tenant
pub record TenantAssignment : Type 0 where
  pub user_id : ℕ
  pub tenant_id : ℕ
  pub role : Role
  pub valid_from : ℕ
  pub valid_to : Option ℕ

pub record Tenant : Type 0 where
  pub slug : Text
  pub is_suspended : Bool

pub record TenantMembership : Type 0 where
  pub tenant_id : ℕ
  pub tenant_slug : Text
  pub roles : List Role

pub record AuthStore : Type 0 where
  pub users : Table Account
  pub tokens : Table RefreshToken
  pub assignments : List TenantAssignment
  pub tenants : Table Tenant
  pub next_id : ℕ

pub record AuthEnv : Type 0 where
  pub now : ℕ
  pub max_failed_attempts : ℕ
  pub lock_minutes : ℕ
  pub refresh_ttl : ℕ
  -- the random bytes of a new token, `TokenService.hashToken`, `passwords.verify`, `toLowerCase`
  pub random_token : ℕ → ℕ
  pub hash_token : ℕ → ℕ
  pub verify : ℕ → Text → Bool
  pub lower_case : Text → Text

pub record TokenPair : Type 0 where
  pub user : ℕ
  pub tenant : Option ℕ
  pub refresh_token : ℕ

-- the first row that passes the test, with its key
abbrev pub find_row : {V : Type 0} → (V → Bool) → (ℕ → Option V) → List ℕ → Option (ℕ × V)
find_row p at [] = none
find_row p at (x ∷ xs) =
    let rest = find_row p at xs in
    elim (at x) [ none ↦ rest | some v ↦ if p v then some (x, v) else rest ]

-- `findRefreshTokenByHash`
abbrev pub find_by_hash : ℕ → AuthStore → Option (ℕ × RefreshToken)
find_by_hash h s = find_row (λ t. t.token_hash == h) s.tokens.at s.tokens.ids

-- `revokeRefreshToken`
abbrev pub revoked : ℕ → Option ℕ → RefreshToken → RefreshToken
revoked now by t = record t { revoked_at = some now; replaced_by_id = by }

unfoldable pub revoke_refresh_token : ℕ → ℕ → Option ℕ → M AuthStore (Unit {0})
revoke_refresh_token now id by =
    modify (λ s. record s { tokens = update_row (revoked now by) id s.tokens })

-- `revokeFamily`
abbrev pub revoked_in_family : ℕ → ℕ → RefreshToken → RefreshToken
revoked_in_family now family t =
    if (t.family_id == family) && not (is_some t.revoked_at)
    then record t { revoked_at = some now }
    else t

unfoldable pub revoke_family : ℕ → ℕ → M AuthStore (Unit {0})
revoke_family now family =
    modify (λ s. record s { tokens = map_rows (revoked_in_family now family) s.tokens })

abbrev pub new_token : AuthEnv → ℕ → Option ℕ → ℕ → ℕ → RefreshToken
new_token env user tenant family id = record {
  user_id = user;
  family_id = family;
  token_hash = env.hash_token (env.random_token id);
  tenant_id = tenant;
  expires_at = env.now + env.refresh_ttl;
  revoked_at = none;
  replaced_by_id = none;
}

-- `issueRefreshToken`, in an existing family or in a new one; it gives the key of the row
unfoldable pub issue_refresh_token : AuthEnv → ℕ → Option ℕ → Option ℕ → M AuthStore ℕ
issue_refresh_token env user tenant family s =
    let family_id = or_else family s.next_id in
    (
      ok s.next_id,
      record s {
        tokens = insert_row s.next_id (new_token env user tenant family_id s.next_id) s.tokens;
        next_id = s.next_id + 1;
      },
    )

-- the rotation within the family
unfoldable pub rotate : AuthEnv → ℕ → RefreshToken → M AuthStore TokenPair
unfolding issue_refresh_token revoke_refresh_token
rotate env id stored = do
  new_id ← issue_refresh_token env stored.user_id stored.tenant_id (some stored.family_id)
  revoke_refresh_token env.now id (some new_id)
  return (record {
    user = stored.user_id;
    tenant = stored.tenant_id;
    refresh_token = env.random_token new_id;
  })

-- a token on record that was not revoked
unfoldable pub refresh_live : AuthEnv → ℕ → RefreshToken → M AuthStore TokenPair
unfolding rotate revoke_refresh_token
refresh_live env id stored s =
    if ltb stored.expires_at env.now
    then (do revoke_refresh_token env.now id none; throw (unauthorized invalid_refresh_token)) s
    else elim (s.users.at stored.user_id) [
      | none ↦ (fail (unauthorized invalid_refresh_token), s)
      | some user ↦ rotate env id stored s
    ]

-- a token on record: reuse after a rotation revokes the family
unfoldable pub refresh_stored : AuthEnv → ℕ → RefreshToken → M AuthStore TokenPair
unfolding refresh_live revoke_family
refresh_stored env id stored =
    if is_some stored.revoked_at
    then (do revoke_family env.now stored.family_id; throw (unauthorized refresh_token_reused))
    else refresh_live env id stored

-- `refresh`
unfoldable pub refresh : AuthEnv → ℕ → M AuthStore TokenPair
unfolding refresh_stored
refresh env raw s = elim (find_by_hash (env.hash_token raw) s) [
  | none ↦ (fail (unauthorized invalid_refresh_token), s)
  | some found ↦ refresh_stored env found.0 found.1 s
]

-- `logout`
unfoldable pub logout : AuthEnv → ℕ → M AuthStore (Unit {0})
unfolding revoke_family
logout env raw s = elim (find_by_hash (env.hash_token raw) s) [
  | none ↦ (ok tt, s)
  | some found ↦ revoke_family env.now found.1.family_id s
]
