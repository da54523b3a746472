-- ===== src/Auth/Examples.antt =====
-- Runs of the session functions: user 8 with one token of family 1.
use tftsp.Common.{
  ℕ, ◌≡◌, ◌≤◌, ◌+◌, refl, true, false, Option, none, some, [], arith, empty_table, insert_row, ok,
  fail, text, if◌then◌else◌, ◌==◌, not, ◌&&◌, unauthorized, refresh_token_reused,
}
use tftsp.Auth.{
  Account, RefreshToken, AuthStore, AuthEnv, TokenPair, refresh, refresh_stored, refresh_live,
  rotate, issue_refresh_token, revoke_refresh_token,
}
use tftsp.Auth.Sessions.{IsSessions, live_in}
use tftsp.Auth.Refreshing.{refresh-IsSessions, refresh-reuse, refresh-ok}
use tftsp.Auth.Login.{is_locked}
use tftsp.Auth.Lockout.{failed_times, failed_times-locks}

abbrev example_env : AuthEnv
example_env = record {
  now = 1000;
  max_failed_attempts = 5;
  lock_minutes = 15;
  refresh_ttl = 500;
  random_token = λ n. 100 + n;
  hash_token = λ n. n;
  verify = λ h p. false;
  lower_case = λ t. t;
}

abbrev account : Account
account = record {
  email = text "a";
  password_hash = 3;
  is_super_admin = false;
  failed_login_attempts = 0;
  locked_until = none;
}

abbrev first_token : Option ℕ → RefreshToken
first_token revoked = record {
  user_id = 8;
  family_id = 1;
  token_hash = 101;
  tenant_id = none;
  expires_at = 2000;
  revoked_at = revoked;
  replaced_by_id = none;
}

abbrev store_with : Option ℕ → Account → AuthStore
store_with revoked user = record {
  users = insert_row 8 user empty_table;
  tokens = insert_row 1 (first_token revoked) empty_table;
  assignments = [];
  tenants = empty_table;
  next_id = 9;
}

only_first : (f i : ℕ) → live_in f (store_with none account).tokens.at i ≡ true → i ≡ 1
only_first f i h = ground arith

store-IsSessions : IsSessions (store_with none account)
store-IsSessions = record {
  single = λ f i j h k. ground (arith, only_first f i h, only_first f j k);
  fresh = λ x h. ground arith;
  families = λ f x h. ground arith;
}

refresh-IsSessions_example : IsSessions (refresh example_env 101 (store_with none account)).1
refresh-IsSessions_example =
    refresh-IsSessions example_env 101 (store_with none account) store-IsSessions

refresh-reuse_example :
    ((refresh example_env 101 (store_with (some 7) account)).0
      ≡ fail (unauthorized refresh_token_reused))
    × ((f x : ℕ)
        → live_in f (refresh example_env 101 (store_with (some 7) account)).1.tokens.at x
          ≡ (not (f == 1) && live_in f (store_with (some 7) account).tokens.at x))
refresh-reuse_example =
    refresh-reuse example_env 101 1 (first_token (some 7)) (store_with (some 7) account) refl 7 refl

abbrev next_pair : TokenPair
next_pair = record { user = 8; tenant = none; refresh_token = 109 }

refreshed :
    refresh example_env 101 (store_with none account)
    ≡ (ok next_pair, (refresh example_env 101 (store_with none account)).1)
unfolding refresh refresh_stored refresh_live rotate issue_refresh_token revoke_refresh_token
refreshed = refl

refresh-ok_example :
    ((first_token none).revoked_at ≡ none)
    × (1000 ≤ 2000)
    × (next_pair.user ≡ 8)
    × (next_pair.refresh_token ≡ 109)
    × ((f x : ℕ)
        → live_in f (refresh example_env 101 (store_with none account)).1.tokens.at x ≡ (
            if 1 == x
            then false
            else if 9 == x
            then 1 == f
            else live_in f (store_with none account).tokens.at x))
refresh-ok_example =
    refresh-ok example_env 101 1 (first_token none) (store_with none account) refl refreshed

failed_times-locks_example :
    (is_locked example_env (failed_times example_env 4 account) ≡ false)
    × (is_locked example_env (failed_times example_env 5 account) ≡ true)
failed_times-locks_example = failed_times-locks example_env 4 account refl (omega arith) refl refl

abbrev locked_account : Account
locked_account = record account { locked_until = some 5000 }
