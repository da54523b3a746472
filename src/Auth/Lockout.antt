-- ===== src/Auth/Lockout.antt =====
-- auth.service.ts `login`: what failed attempts lead to.
use tftsp.Common.{
  ℕ, zero, suc, ◌+◌, ◌≡◌, ◌<◌, refl, true, false, Option, none, some, arith, fail, Text,
  unauthorized, account_locked,
}
use tftsp.Auth.{Account, AuthStore, AuthEnv}
use tftsp.Auth.Login.{failed_attempt, is_locked, login, login_as, find_by_email}

-- an account after so many wrong passwords in a row
abbrev pub failed_times : AuthEnv → ℕ → Account → Account
failed_times env zero u = u
failed_times env (suc n) u = failed_attempt env (failed_times env n u)

-- Below the limit each wrong password is counted and locks nothing.
pub failed_times-counts :
    (env : AuthEnv) (n : ℕ) (u : Account)
    → u.failed_login_attempts + n < env.max_failed_attempts
    → ((failed_times env n u).failed_login_attempts ≡ u.failed_login_attempts + n)
      × ((failed_times env n u).locked_until ≡ u.locked_until)
unfolding failed_attempt
failed_times-counts env zero u h = (omega arith, refl)
failed_times-counts env (suc n) u h =
    let (count, lock) = failed_times-counts env n u (omega arith) in
    (ground (arith, count), ground (arith, count, lock))

-- An account without failed attempts that is not locked is locked by exactly as many wrong passwords in
-- a row as the settings allow, where they allow one and lock for some time.
pub failed_times-locks :
    (env : AuthEnv) (n : ℕ) (u : Account)
    → env.max_failed_attempts ≡ suc n
    → 0 < env.lock_minutes
    → u.failed_login_attempts ≡ 0
    → u.locked_until ≡ none
    → (is_locked env (failed_times env n u) ≡ false)
      × (is_locked env (failed_times env (suc n) u) ≡ true)
unfolding failed_attempt
failed_times-locks env n u max lasts none_yet open_yet =
    let (count, lock) = failed_times-counts env n u (omega arith) in
    (ground (arith, lock, open_yet), ground (arith, count, none_yet, max, lasts))

-- A locked account is refused with any password, and nothing is written.
pub login-locked :
    (env : AuthEnv) (email password : Text) (slug : Option Text) (s : AuthStore) (id : ℕ)
    (u : Account)
    → find_by_email env email s ≡ some (id, u)
    → is_locked env u ≡ true
    → login env email password slug s ≡ (fail (unauthorized account_locked), s)
unfolding login login_as
login-locked env email password slug s id u found locked = rw (found, login, locked) refl
