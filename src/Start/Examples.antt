-- ===== src/Start/Examples.antt =====
-- The theorem on a start, applied to a machine without a configuration file.
use scan2graph.Prelude.{◌≡◌, refl, Bool, true, ℕ, Str, [], ◌∷◌, Option, none, some, codes, ◌==◌}
use scan2graph.Config.Load.Examples.{machine}
use scan2graph.Start.{Disk, missing, text, wizard_opened, run_default_mode}
use scan2graph.Start.Guarded.{IsGuarded, run_default_mode-IsGuarded}

-- Decodes nothing: the marker has the hash itself.
abbrev plain : Str → Option Str
plain s = some s

abbrev space_only : ℕ → Bool
space_only c = c == 32

abbrev a_hash : Str
a_hash = codes "0123456789abcdef0123456789abcdef"

abbrev armed : Disk
armed = record {
  marker = text a_hash;
  removed = true;
  first = missing;
  second = missing;
  third = missing;
}

marker_wins :
    run_default_mode plain space_only machine (codes "m") (codes "/c") armed
    ≡ wizard_opened (some a_hash)
unfolding run_default_mode scan2graph.Prelude.trim_space
marker_wins = refl

run_default_mode-IsGuarded_example :
    IsGuarded plain space_only machine
      (codes "m")
      (codes "/c")
      (record armed { marker = missing })
      (run_default_mode plain space_only machine
        (codes "m")
        (codes "/c")
        (record armed { marker = missing }))
run_default_mode-IsGuarded_example =
    run_default_mode-IsGuarded plain space_only machine (codes "m") (codes "/c")
      (record armed { marker = missing })
