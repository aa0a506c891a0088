-- ===== src/Gateway/Rate.antt =====
-- The rate limit and the login throttle of voclyp/gateway/app.py: buckets of the times of the
-- requests that were let through, in milliseconds of a clock that does not step back. The buckets of
-- `app.state` are dicts.
mod Tests
pub mod Window
use voclyp_dev.Prelude.{
  ℕ, ◌+◌, String, Bool, true, false, Option, none, some, List, [], ◌∷◌, ◌++◌, if◌then◌else◌, ltb,
  leb, length, select, lookup, insert,
}

abbrev pub Buckets : Type 0
Buckets = List (String × List ℕ)

-- `now - t < window`, for a `t` that is not after `now`
abbrev pub recent : ℕ → ℕ → ℕ → Bool
recent window now t = ltb now (t + window)

-- `setdefault(key, [])`
abbrev pub bucket_of : String → Buckets → List ℕ
bucket_of key buckets = elim (lookup key buckets) [ none ↦ [] | some bucket ↦ bucket ]

-- one request on the bucket of its key, with whether it is let through
unfoldable pub enter : ℕ → ℕ → ℕ → List ℕ → List ℕ × Bool
enter window limit now bucket =
    let kept = select (recent window now) bucket in
    if leb limit (length kept) then (kept, false) else (kept ++ now ∷ [], true)

-- `_rate_limit`; `false` is the 429
unfoldable pub rate_limit : ℕ → ℕ → ℕ → String → Buckets → Buckets × Bool
rate_limit window limit now key buckets =
    let (bucket, passed) = enter window limit now (bucket_of key buckets) in
    (insert key bucket buckets, passed)

-- `_login_throttle`: ten attempts in 300 seconds
pub login_throttle : ℕ → String → Buckets → Buckets × Bool
login_throttle now ident attempts = rate_limit 300000 10 now ident attempts

-- the requests of one key at a list of times, with the times of those let through
pub requests : ℕ → ℕ → List ℕ → List ℕ → List ℕ → List ℕ × List ℕ
requests window limit [] bucket passed = (bucket, passed)
requests window limit (now ∷ times) bucket passed =
    let (bucket', through) = enter window limit now bucket in
    requests window limit times bucket' (if through then passed ++ now ∷ [] else passed)
