-- ===== src/ChangeRequests/Maintenance.antt =====
-- apps/api/src/modules/jobs/change-request-maintenance.service.ts: the sweeps that the scheduler runs.
use tftsp.Common.{
  ℕ, ◌+◌, ◌-◌, ◌*◌, Bool, Option, none, some, List, [], ◌∷◌, ◌&&◌, ltb, leb, length, select_ids, M,
  ok, update_row,
}
use tftsp.Domain.{expired, change_request_expired, change_request_expiring}
use tftsp.ChangeRequests.Requests.{ChangeRequest}
use tftsp.ChangeRequests.Store.{Store, notify, is_pending}

abbrev pub expiry_warning_days : ℕ
expiry_warning_days = 3

-- `expiresAt: { lt: now }, status: { in: NON_TERMINAL }`
abbrev pub is_overdue : ℕ → ChangeRequest → Bool
is_overdue now cr = ltb cr.expires_at now && is_pending cr.status

abbrev pub as_expired : ChangeRequest → ChangeRequest
as_expired cr = record cr { status = expired }

abbrev pub author_of : Option ChangeRequest → ℕ
author_of none = 0
author_of (some cr) = cr.created_by

-- one round of the loop: the row that the sweep selected becomes expired, its author hears of it
unfoldable pub expire_one : ℕ → Store → Store
unfolding notify
expire_one id s =
    let closed = record s { requests = update_row as_expired id s.requests } in
    (notify (author_of (s.requests.at id)) change_request_expired id closed).1

unfoldable pub expire_all : List ℕ → Store → Store
unfolding expire_one
expire_all [] s = s
expire_all (id ∷ ids) s = expire_all ids (expire_one id s)

-- `runExpirySweep`
unfoldable pub run_expiry_sweep : ℕ → M Store ℕ
unfolding expire_all
run_expiry_sweep now s =
    let ids = select_ids (is_overdue now) s.requests in (ok (length ids), expire_all ids s)

-- `expiresAt: { gte: windowStart, lt: windowEnd }, status: { in: NON_TERMINAL }`
abbrev pub is_expiring : ℕ → ChangeRequest → Bool
is_expiring now cr =
    is_pending cr.status
    && (leb (now + (expiry_warning_days - 1) * 86400000) cr.expires_at
        && ltb cr.expires_at (now + expiry_warning_days * 86400000))

unfoldable pub warn_all : List ℕ → Store → Store
unfolding notify
warn_all [] s = s
warn_all (id ∷ ids) s =
    warn_all ids (notify (author_of (s.requests.at id)) change_request_expiring id s).1

-- `runExpiryWarning`
unfoldable pub run_expiry_warning : ℕ → M Store ℕ
unfolding warn_all
run_expiry_warning now s =
    let ids = select_ids (is_expiring now) s.requests in (ok (length ids), warn_all ids s)
