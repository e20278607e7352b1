-- ===== src/Examples/Sessions.antt =====
-- Grants of accepted questions at concrete inputs.
use adhoc_cross_device_conne.Prelude.{
  ℕ, ◌-◌, ◌≤◌, ◌<◌, ◌≡◌, refl, true, false, List, [], ◌∷◌, some, length,
}
use adhoc_cross_device_conne.Airdrop.Grants.{
  window, max_grants, lookup, without, is_recent, is_some_recent, authorize, retain, grant,
  is_refused, answer_ask, Event, asked, uploaded, after,
}
use adhoc_cross_device_conne.Airdrop.GrantSafety.{Granted, authorize-Granted}

-- Two questions of two peers, of which one uploads at once.
abbrev history : List Event
history = uploaded 7 1 ∷ asked 6 2 (some true) false false ∷ asked 5 1 (some true) false false ∷ []

authorized_two : (authorize 8 2 (after history)).0 ≡ true
unfolding authorize is_some_recent is_recent after answer_ask grant retain without lookup is_refused
authorized_two = refl

refused_one : (authorize 8 1 (after history)).0 ≡ false
unfolding authorize is_some_recent is_recent after answer_ask grant retain without lookup is_refused
refused_one = refl

authorize-Granted_example :
    ((t : ℕ) × Granted 2 t history × (8 - t < window)) × (length (after history) ≤ max_grants)
authorize-Granted_example = authorize-Granted history 8 2 authorized_two
