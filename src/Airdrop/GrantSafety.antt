-- ===== src/Airdrop/GrantSafety.antt =====
-- src/airdrop/mod.rs: which uploads the grants let in.
use adhoc_cross_device_conne.Prelude.{
  ℕ, ◌-◌, ◌≤◌, ◌<◌, ◌≡◌, ◌≢◌, refl, sym, Bool, true, false, List, [], ◌∷◌, Option, some, ◌==◌,
  ==_iff, ltb, ltb→lt, length, All, arith, Bool-cases, Option-cases, inl, inr, ◌⊎◌,
}
use adhoc_cross_device_conne.Airdrop.Grants.{
  Grants, window, max_grants, lookup, without, is_recent, is_some_recent, authorize, retain, grant,
  is_refused, answer_ask, Event, asked, uploaded, after,
}

-- Among the events an accepted question of the peer for files at a time, and no upload of the peer since.
abbrev pub Granted : ℕ → ℕ → List Event → Type 0
Granted p t [] = ⊥
Granted p t (asked now q approval links delivered ∷ h) =
    ((q ≡ p) × (now ≡ t) × (is_refused approval ≡ false) × (links ≡ false)) ⊎ Granted p t h
Granted p t (uploaded now q ∷ h) = (q ≢ p) × Granted p t h

abbrev AllGranted : List Event → Grants → Type 0
AllGranted h g = All (λ (x : ℕ × ℕ). Granted x.0 x.1 h) g

AllGranted-ask :
    (now q : ℕ) (approval : Option Bool) (links delivered : Bool) (h : List Event) (g : Grants)
    → AllGranted h g
    → AllGranted (asked now q approval links delivered ∷ h) g
AllGranted-ask now q approval links delivered h [] k = tt
AllGranted-ask now q approval links delivered h (x ∷ g) k =
    (inr k.0, AllGranted-ask now q approval links delivered h g k.1)

AllGranted-without :
    (p : ℕ) (h : List Event) (g : Grants) → AllGranted h g → AllGranted h (without p g)
unfolding without
AllGranted-without p h [] k = tt
AllGranted-without p h ((q, t) ∷ g) k = elim (Bool-cases (q == p)) [
  | inl e ↦ rw e (AllGranted-without p h g k.1)
  | inr e ↦ rw e (k.0, AllGranted-without p h g k.1)
]

AllGranted-retain :
    (now : ℕ) (h : List Event) (g : Grants) → AllGranted h g → AllGranted h (retain now g)
unfolding retain
AllGranted-retain now h [] k = tt
AllGranted-retain now h ((q, t) ∷ g) k = elim (Bool-cases (is_recent now t)) [
  | inl e ↦ rw e (k.0, AllGranted-retain now h g k.1)
  | inr e ↦ rw e (AllGranted-retain now h g k.1)
]

AllGranted-upload :
    (now p : ℕ) (h : List Event) (g : Grants)
    → AllGranted h g
    → AllGranted (uploaded now p ∷ h) (without p g)
unfolding without
AllGranted-upload now p h [] k = tt
AllGranted-upload now p h ((q, t) ∷ g) k = elim (Bool-cases (q == p)) [
  | inl e ↦ rw e (AllGranted-upload now p h g k.1)
  | inr e ↦ rw e (((λ same. ground arith), k.0), AllGranted-upload now p h g k.1)
]

-- The grants that a question leaves: the same, or the recent ones, with the peer's own or without.
grants_after :
    (now p : ℕ) (approval : Option Bool) (links delivered : Bool) (g : Grants)
    → ((answer_ask now p approval links delivered g).1 ≡ g)
      ⊎ (((answer_ask now p approval links delivered g).1 ≡ (grant now p g).1)
          × (is_refused approval ≡ false)
          × (links ≡ false))
unfolding answer_ask
grants_after now p approval links delivered g = elim (Bool-cases (is_refused approval)) [
  | inl r ↦ inl (rw (answer_ask, r) refl)
  | inr r ↦ elim (Bool-cases links) [
    | inl l ↦ inl (rw (answer_ask, r, l) refl)
    | inr l ↦ inr (rw (answer_ask, r, l) refl, r, l)
  ]
]

grant-cases :
    (now p : ℕ) (g : Grants)
    → (((grant now p g).1 ≡ (p, now) ∷ without p (retain now g))
        × (length (retain now g) < max_grants))
      ⊎ ((grant now p g).1 ≡ retain now g)
unfolding grant
grant-cases now p g = elim (Bool-cases (ltb (length (retain now g)) max_grants)) [
  | inl f ↦ inl (rw (grant, f) refl, ltb→lt (length (retain now g)) max_grants f)
  | inr f ↦ inr (rw (grant, f) refl)
]

answer_ask-AllGranted :
    (now p : ℕ) (approval : Option Bool) (links delivered : Bool) (h : List Event) (g : Grants)
    → AllGranted h g
    → AllGranted
        (asked now p approval links delivered ∷ h)
        (answer_ask now p approval links delivered g).1
answer_ask-AllGranted now p approval links delivered h g k =
    let kept = AllGranted-retain now h g k in
    elim (grants_after now p approval links delivered g) [
      | inl e ↦ rw e (AllGranted-ask now p approval links delivered h g k)
      | inr (e, r, l) ↦ elim (grant-cases now p g) [
        | inl (f, room) ↦
            rw (e, f)
              (
                inl (refl, refl, r, l),
                AllGranted-ask now p approval links delivered h (without p (retain now g))
                    (AllGranted-without p h (retain now g) kept),
              )
        | inr f ↦ rw (e, f) (AllGranted-ask now p approval links delivered h (retain now g) kept)
      ]
    ]

after-AllGranted : (h : List Event) → AllGranted h (after h)
unfolding after authorize
after-AllGranted [] = tt
after-AllGranted (asked now p approval links delivered ∷ h) =
    answer_ask-AllGranted now p approval links delivered h (after h) (after-AllGranted h)
after-AllGranted (uploaded now p ∷ h) = AllGranted-upload now p h (after h) (after-AllGranted h)

length-without : (p : ℕ) (g : Grants) → length (without p g) ≤ length g
unfolding without
length-without p [] = omega arith
length-without p ((q, t) ∷ g) = elim (Bool-cases (q == p)) [
  | inl e ↦ rw e (omega (arith, length-without p g))
  | inr e ↦ rw e (omega (arith, length-without p g))
]

length-retain : (now : ℕ) (g : Grants) → length (retain now g) ≤ length g
unfolding retain
length-retain now [] = omega arith
length-retain now ((q, t) ∷ g) = elim (Bool-cases (is_recent now t)) [
  | inl e ↦ rw e (omega (arith, length-retain now g))
  | inr e ↦ rw e (omega (arith, length-retain now g))
]

length-after : (h : List Event) → length (after h) ≤ max_grants
unfolding after authorize
length-after [] = omega arith
length-after (uploaded now p ∷ h) = omega (arith, length-without p (after h), length-after h)
length-after (asked now p approval links delivered ∷ h) =
    let ih = length-after h in
    elim (grants_after now p approval links delivered (after h)) [
      | inl e ↦ rw e ih
      | inr (e, r, l) ↦ elim (grant-cases now p (after h)) [
        | inl (f, room) ↦ rw (e, f) (omega (arith, length-without p (retain now (after h))))
        | inr f ↦ rw (e, f) (omega (arith, length-retain now (after h)))
      ]
    ]

lookup-Granted :
    (p : ℕ) (h : List Event) (g : Grants) (t : ℕ)
    → AllGranted h g
    → lookup p g ≡ some t
    → Granted p t h
unfolding lookup
lookup-Granted p h [] t k e = absurd cc
lookup-Granted p h ((q, u) ∷ g) t k e = elim (Bool-cases (q == p)) [
  | inr f ↦ lookup-Granted p h g t k.1 (rw (lookup, f) at e)
  | inl f ↦
      let e' : ◌≡◌ {A = Option ℕ} (some u) (some t) = rw (lookup, f) at e in
      let same_time : u ≡ t = cc in
      let same_peer : q ≡ p = (==_iff q p).0 f in rw (sym same_time, sym same_peer) k.0
]

-- Whatever the connections did before, an upload is authorized only if its peer's question for files was accepted less
-- than 120 seconds before and the peer has uploaded nothing since; and no more than 128 grants ever wait.
pub authorize-Granted :
    (h : List Event) (now p : ℕ)
    → (authorize now p (after h)).0 ≡ true
    → ((t : ℕ) × Granted p t h × (now - t < window)) × (length (after h) ≤ max_grants)
unfolding authorize is_some_recent is_recent
authorize-Granted h now p e = elim (Option-cases (lookup p (after h))) [
  | inl f ↦ (let bad : false ≡ true = rw (is_some_recent, f) at e in absurd cc)
  | inr (t, f) ↦
      let e' : is_recent now t ≡ true = rw (is_some_recent, f) at e in
      (
        (t, lookup-Granted p h (after h) t (after-AllGranted h) f, ltb→lt (now - t) window e'),
        length-after h,
      )
]
