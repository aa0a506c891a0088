-- ===== src/Gateway/Rate/Tests.antt =====
-- Two requests in a window that lets one through (voclyp/gateway/app.py).
use voclyp_dev.Prelude.{ℕ, ◌≤◌, ◌≡◌, refl, arith, [], ◌∷◌, count, List}
use voclyp_dev.Gateway.Rate.{enter, requests}
use voclyp_dev.Gateway.Rate.Window.{in_window, requests-limited}

abbrev times : List ℕ
times = 5 ∷ 6 ∷ 20 ∷ []

lets_through : (requests 10 1 times [] []).1 ≡ 5 ∷ 20 ∷ []
unfolding requests enter
lets_through = refl

requests-limited_example : count (in_window 10 12) (requests 10 1 times [] []).1 ≤ 1
requests-limited_example =
    requests-limited 10 1 times 0 (omega arith, (omega arith, (omega arith, omega arith))) 12
