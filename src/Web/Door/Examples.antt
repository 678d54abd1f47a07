-- ===== src/Web/Door/Examples.antt =====
-- The theorem on the wizard's key, applied to two browsers that press at once.
use scan2graph.Prelude.{◌≡◌, ◌⊎◌, refl, ℕ, ◌+◌, List, [], ◌∷◌, Option, none, some, Str, codes, All}
use scan2graph.Web.Door.{
  Request, press_start, show_setup, run, arrivals, answered, claimed, not_found, form,
}
use scan2graph.Web.Door.Claims.{claims, free}
use scan2graph.Web.Door.OneKey.{IsKept, run-IsOneKey}

-- A stand-in for SHA-256.
abbrev tag : Str → Str
tag s = b'#' ∷ s

abbrev unclaimed : Option Str
unclaimed = none

abbrev press : Request
press = record { token = []; cookie = none; route = press_start }

abbrev visit : Request
visit = record { token = []; cookie = some (codes "B"); route = show_setup }

abbrev requests : List Request
requests = press ∷ press ∷ visit ∷ []

-- Both presses are admitted before either claims; the second is first. The visit comes last.
abbrev order : List (ℕ × Str)
order =
    (0, [])
    ∷ (1, [])
    ∷ (0, [])
    ∷ (1, [])
    ∷ (1, codes "B")
    ∷ (0, codes "A")
    ∷ (2, [])
    ∷ (2, [])
    ∷ (2, [])
    ∷ (2, [])
    ∷ []

second_press_wins : run tag order unclaimed (arrivals requests) ≡ (
  some (tag (codes "B")),
  (press, answered not_found)
      ∷ (press, answered (claimed (codes "B")))
      ∷ (visit, answered form)
      ∷ [],
)
unfolding run arrivals
second_press_wins = refl

run-IsOneKey_example :
    ((unclaimed ≡ none) ⊎ ((run tag order unclaimed (arrivals requests)).0 ≡ unclaimed))
    × All
        (IsKept tag (run tag order unclaimed (arrivals requests)).0)
        (run tag order unclaimed (arrivals requests)).1
    × (claims (run tag order unclaimed (arrivals requests)).1
          + free (run tag order unclaimed (arrivals requests)).0
        ≡ free unclaimed)
run-IsOneKey_example = run-IsOneKey tag unclaimed requests order
