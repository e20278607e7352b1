-- ===== src/Examples/Names.antt =====
-- Archive names at concrete inputs.
use adhoc_cross_device_conne.Prelude.{◌≡◌, ◌≢◌, refl, [], ◌∷◌, arith, All}
use adhoc_cross_device_conne.Prelude.Bytes.{codes}
use adhoc_cross_device_conne.Prelude.Result.{ok, err}
use adhoc_cross_device_conne.Airdrop.Paths.{
  Name, unsafe_component, relative, nonempty, split, extend, components, is_skipped, is_allowed,
}
use adhoc_cross_device_conne.Airdrop.SafeNames.{IsSafe, tested-IsSafe}
use adhoc_cross_device_conne.Airdrop.PathSafety.{join, relative-IsSafe, relative-join}

abbrev album : Name
album = codes "album"

abbrev photo : Name
photo = codes "photo.jpg"

relative-photo : relative (codes "./album//photo.jpg") ≡ ok (album ∷ photo ∷ [])
unfolding relative nonempty split extend components is_skipped is_allowed
relative-photo = refl

relative_escape : relative (codes "album/../../photo.jpg") ≡ err unsafe_component
unfolding relative nonempty split extend components is_skipped is_allowed
relative_escape = refl

relative-IsSafe_example : All IsSafe (album ∷ photo ∷ []) × (album ∷ photo ∷ [] ≢ [])
relative-IsSafe_example =
    relative-IsSafe (codes "./album//photo.jpg") (album ∷ photo ∷ []) relative-photo

both-IsSafe : All IsSafe (album ∷ photo ∷ [])
unfolding is_skipped is_allowed
both-IsSafe =
    (tested-IsSafe album refl refl refl refl, (tested-IsSafe photo refl refl refl refl, tt))

relative-join_example : relative (join (album ∷ photo ∷ [])) ≡ ok (album ∷ photo ∷ [])
relative-join_example = relative-join album (photo ∷ []) both-IsSafe (omega arith)
