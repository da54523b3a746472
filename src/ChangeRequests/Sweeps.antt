-- ===== src/ChangeRequests/Sweeps.antt =====
-- change-request-maintenance.service.ts: what a sweep does to each request.
use tftsp.Common.{
  ◌||◌, ℕ, ◌≡◌, refl, Bool, true, false, Option, none, some, List, [], ◌∷◌, ◌==◌, mem, arith,
  if◌then◌else◌, update_row-at, map_option, row_passes, mem-select_ids, select_ids, ◌∙◌,
}
use tftsp.ChangeRequests.Requests.{ChangeRequest}
use tftsp.ChangeRequests.Store.{Store, notify}
use tftsp.ChangeRequests.Lifecycle.{Step, expiring, drops}
use tftsp.ChangeRequests.Maintenance.{
  is_overdue, as_expired, expire_one, expire_all, run_expiry_sweep,
}

expire_all-at :
    (ids : List ℕ) (s : Store) (x : ℕ)
    → (expire_all ids s).requests.at x
      ≡ (if mem x ids then map_option as_expired (s.requests.at x) else s.requests.at x)
unfolding expire_all expire_one notify
expire_all-at [] s x = refl
expire_all-at (y ∷ ids) s x =
    expire_all-at ids (expire_one y s) x
    ∙ rw (update_row-at as_expired y s.requests x) (twice (y == x) (mem x ids) (s.requests.at x))
  where
    twice :
        (b m : Bool) (o : Option ChangeRequest)
        → (if m
            then map_option as_expired (if b then map_option as_expired o else o)
            else if b
            then map_option as_expired o
            else o)
          ≡ (if b || m then map_option as_expired o else o)
    twice true true none = refl
    twice true true (some cr) = refl
    twice true false o = refl
    twice false m o = refl

-- Of the requests on record the sweep marks as expired those that are overdue, and leaves every other
-- one as it was.
pub run_expiry_sweep-at :
    (now : ℕ) (s : Store) (x : ℕ)
    → mem x s.requests.ids ≡ true
    → (run_expiry_sweep now s).1.requests.at x ≡ (
        if row_passes (is_overdue now) (s.requests.at x)
        then map_option as_expired (s.requests.at x)
        else s.requests.at x)
unfolding run_expiry_sweep
run_expiry_sweep-at now s x h =
    expire_all-at (select_ids (is_overdue now) s.requests) s x
    ∙ rw (mem-select_ids (is_overdue now) s.requests.at x s.requests.ids, h) (ground arith)

-- What the sweep makes of a request is no longer overdue, and an overdue request takes one step of its life.
pub as_expired-Step :
    (now : ℕ) (cr : ChangeRequest)
    → is_overdue now cr ≡ true
    → Step expiring cr.status (as_expired cr).status
      × ((later : ℕ) → is_overdue later (as_expired cr) ≡ false)
as_expired-Step now cr h = (drops (ground arith), λ later. ground arith)
