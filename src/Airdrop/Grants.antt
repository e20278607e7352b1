-- ===== src/Airdrop/Grants.antt =====
-- src/airdrop/mod.rs: the grants of accepted questions (`Sessions::approved`), as `connection` gives and takes them. A
-- peer is the number of its address, and times are nanoseconds of a clock that does not go back.
use adhoc_cross_device_conne.Prelude.{
  ℕ, ◌-◌, ◌*◌, ◌^◌, Bool, true, false, not, List, [], ◌∷◌, Option, none, some, ◌==◌, ltb,
  if◌then◌else◌, length,
}

abbrev pub Grants : Type 0
Grants = List (ℕ × ℕ)

-- `Duration::from_secs(120)`, and the number of grants that may wait.
abbrev pub window : ℕ
window = 120 * 10 ^ 9

abbrev pub max_grants : ℕ
max_grants = 128

unfoldable pub lookup : ℕ → Grants → Option ℕ
lookup p [] = none
lookup p ((q, t) ∷ g) = if q == p then some t else lookup p g

unfoldable pub without : ℕ → Grants → Grants
without p [] = []
without p ((q, t) ∷ g) = let rest = without p g in if q == p then rest else (q, t) ∷ rest

-- `t.elapsed() < Duration::from_secs(120)`
unfoldable pub is_recent : ℕ → ℕ → Bool
is_recent now t = ltb (now - t) window

unfoldable pub is_some_recent : ℕ → Option ℕ → Bool
is_some_recent now none = false
is_some_recent now (some t) = is_recent now t

-- `authorize`: the peer's grant is taken, and counts if it is recent.
unfoldable pub authorize : ℕ → ℕ → Grants → Bool × Grants
authorize now p g = (is_some_recent now (lookup p g), without p g)

unfoldable pub retain : ℕ → Grants → Grants
retain now [] = []
retain now ((q, t) ∷ g) = let rest = retain now g in if is_recent now t then (q, t) ∷ rest else rest

-- The grant of a peer replaces an older one of it; with 128 recent ones none is given.
unfoldable pub grant : ℕ → ℕ → Grants → Bool × Grants
grant now p g =
    let kept = retain now g in
    if ltb (length kept) max_grants then (true, (p, now) ∷ without p kept) else (false, kept)

pub data Answer : Type 0 where
  accepted forbidden failed : Answer

-- Without somebody to ask, every question is accepted; a decision that does not come is a refusal.
unfoldable pub is_refused : Option Bool → Bool
is_refused none = false
is_refused (some decision) = not decision

-- `/Ask`, by the decision, whether links are sent, and whether they could be delivered.
unfoldable pub answer_ask : ℕ → ℕ → Option Bool → Bool → Bool → Grants → Answer × Grants
answer_ask now p approval links delivered g =
    let given = grant now p g in
    if is_refused approval
    then (forbidden, g)
    else if links
    then (if delivered then accepted else failed, g)
    else (if given.0 then accepted else failed, given.1)

-- What a connection does with the grants: a question, or the headers of an upload.
pub data Event : Type 0 where
  asked : (now p : ℕ) (approval : Option Bool) (links delivered : Bool) → Event
  uploaded : (now p : ℕ) → Event

-- The grants after some events, of any connections, the latest first.
unfoldable pub after : List Event → Grants
after [] = []
after (asked now p approval links delivered ∷ h) =
    (answer_ask now p approval links delivered (after h)).1
after (uploaded now p ∷ h) = (authorize now p (after h)).1
