-- ===== src/Start/Guarded.antt =====
-- What a start without a subcommand ends in.
use scan2graph.Prelude.{
  ◌≡◌, ◌⊎◌, inl, inr, refl, sym, ap, ◌∙◌, ℕ, Bool, true, false, not, ◌&&◌, ◌||◌, List, [], ◌∷◌,
  ◌++◌, Option, none, some, Str, codes, if◌then◌else◌, is_empty, All, Bool-cases, arith,
}
use scan2graph.Prelude.Dict.{Dict}
use scan2graph.Config.File.{FileError, layer, paired_name, find}
use scan2graph.Config.Loader.{Fault}
use scan2graph.Config.Settings.{Environment, Settings}
use scan2graph.Config.Load.{load}
use scan2graph.Start.{
  Marker, no_marker, marker_error, marked, Started, stopped, serving, wizard_opened, protected,
  any_configured, worth_protecting, read_marker, read_config_file, config_source, wizard, Disk,
  on_load, on_source, on_marker, run_default_mode,
}

-- Neither the environment nor the file has the setting, in either spelling.
abbrev pub IsUnset : (Str → Str) → Dict Str → Str → Type 0
IsUnset environ values name =
    (environ name ≡ [])
    × (environ (name ++ codes "_FILE") ≡ [])
    × (find values name ≡ [])
    × (find values (name ++ codes "_FILE") ≡ [])

settle :
    (a b x y : Str)
    → is_empty (if not (is_empty a) then a else if not (is_empty b) then [] else x) ≡ true
    → is_empty (if not (is_empty b) then b else if not (is_empty a) then [] else y) ≡ true
    → (a ≡ []) × (b ≡ []) × (x ≡ []) × (y ≡ [])
settle [] [] [] [] h k = (refl, refl, refl, refl)
settle [] [] [] (r ∷ y) h k = cc
settle [] [] (r ∷ x) y h k = cc
settle [] (r ∷ b) x y h k = cc
settle (r ∷ a) b x y h k = cc

layer-IsUnset :
    (environ : Str → Str) (values : Dict Str) (name : Str)
    → paired_name name ≡ name ++ codes "_FILE"
    → paired_name (name ++ codes "_FILE") ≡ name
    → is_empty (layer values environ name) ≡ true
    → is_empty (layer values environ (name ++ codes "_FILE")) ≡ true
    → IsUnset environ values name
unfolding layer
layer-IsUnset environ values name p q h k =
    settle (environ name) (environ (name ++ codes "_FILE")) (find values name)
      (find values (name ++ codes "_FILE")) (rw p at h) (rw q at k)

both_false :
    (b c r : Bool)
    → (if not b || not c then true else r) ≡ false
    → (b ≡ true) × (c ≡ true) × (r ≡ false)
both_false true true r h = (refl, refl, h)
both_false true false r h = cc
both_false false c r h = cc

any_configured-IsUnset :
    (environ : Str → Str) (values : Dict Str) (names : List Str)
    → All (λ n. (paired_name n ≡ n ++ codes "_FILE") × (paired_name (n ++ codes "_FILE") ≡ n)) names
    → any_configured (layer values environ) names ≡ false
    → All (IsUnset environ values) names
unfolding any_configured
any_configured-IsUnset environ values [] paired h = tt
any_configured-IsUnset environ values (n ∷ names) ((p, q), paired) h =
    let (a, b, rest) =
      both_false (is_empty (layer values environ n))
        (is_empty (layer values environ (n ++ codes "_FILE")))
        (any_configured (layer values environ) names) h in
    (
      layer-IsUnset environ values n p q a b,
      any_configured-IsUnset environ values names paired rest,
    )

worth_protecting-IsUnset :
    (environ : Str → Str) (seen : Dict Str × Bool)
    → worth_protecting environ seen ≡ false
    → (seen.1 ≡ true) × All (IsUnset environ seen.0) protected
unfolding worth_protecting paired_name scan2graph.Prelude.has_suffix scan2graph.Prelude.str_eq
worth_protecting-IsUnset environ (values, false) h = cc
worth_protecting-IsUnset environ (values, true) h = (
  refl,
  any_configured-IsUnset environ values protected
      ((refl, refl), ((refl, refl), ((refl, refl), ((refl, refl), tt)))) h,
)

module _ (decode : Str → Option Str) (space : ℕ → Bool) (env : Environment) (minted path : Str)
    (disk : Disk) where
  -- The file is read, and Load gives this.
  abbrev pub Loads : List Fault ⊎ Settings → Type 0
  Loads result =
      (getenv : Str → Str) × (overridden : List Str) × (config_source space path disk.first
          env.getenv
        ≡ inr (getenv, overridden))
      × (load (record env { getenv = getenv }) ≡ result)

  -- Why a start ends as it does.
  unfoldable pub IsGuarded : Started → Type 0
  IsGuarded stopped =
      (read_marker decode space path disk.marker disk.removed ≡ marker_error)
      ⊎ ((read_marker decode space path disk.marker disk.removed ≡ no_marker)
          × (((e : FileError) × (config_source space path disk.first env.getenv ≡ inl e))
              ⊎ ((faults : List Fault) × Loads (inl faults)
                  × (worth_protecting env.getenv (read_config_file space path disk.second)
                      ≡ true))))
  IsGuarded (serving settings) =
      (read_marker decode space path disk.marker disk.removed ≡ no_marker) × Loads (inr settings)
  IsGuarded (wizard_opened (some hash)) =
      (read_marker decode space path disk.marker disk.removed ≡ marked hash)
      ⊎ ((read_marker decode space path disk.marker disk.removed ≡ no_marker)
          × ((faults : List Fault) × Loads (inl faults))
          × (hash ≡ minted)
          × (worth_protecting env.getenv (read_config_file space path disk.third) ≡ true))
  IsGuarded (wizard_opened none) =
      (read_marker decode space path disk.marker disk.removed ≡ no_marker)
      × ((faults : List Fault) × Loads (inl faults))
      × ((read_config_file space path disk.third).1 ≡ true)
      × All (IsUnset env.getenv (read_config_file space path disk.third).0) protected

  wizard-IsGuarded :
      read_marker decode space path disk.marker disk.removed ≡ no_marker
      → ((faults : List Fault) × Loads (inl faults))
      → IsGuarded (wizard space env.getenv path disk.third minted none)
  unfolding wizard IsGuarded
  wizard-IsGuarded m fails =
      elim (Bool-cases (worth_protecting env.getenv (read_config_file space path disk.third))) [
        | inl e ↦ rw e (inr (m, fails, refl, e))
        | inr e ↦
            let (parsed, unset) =
              worth_protecting-IsUnset env.getenv (read_config_file space path disk.third) e in
            rw e (m, fails, parsed, unset)
      ]

  on_load-IsGuarded :
      (getenv : Str → Str) (overridden : List Str) (result : List Fault ⊎ Settings)
      → read_marker decode space path disk.marker disk.removed ≡ no_marker
      → config_source space path disk.first env.getenv ≡ inr (getenv, overridden)
      → load (record env { getenv = getenv }) ≡ result
      → IsGuarded (on_load decode space env minted path disk result)
  unfolding on_load IsGuarded
  on_load-IsGuarded getenv overridden (inr settings) m s l = (m, (getenv, overridden, s, l))
  on_load-IsGuarded getenv overridden (inl faults) m s l =
      elim (Bool-cases (worth_protecting env.getenv (read_config_file space path disk.second))) [
        | inl e ↦ rw e (inr (m, inr (faults, (getenv, overridden, s, l), e)))
        | inr e ↦ rw e (wizard-IsGuarded m (faults, (getenv, overridden, s, l)))
      ]

  on_source-IsGuarded :
      (source : FileError ⊎ ((Str → Str) × List Str))
      → read_marker decode space path disk.marker disk.removed ≡ no_marker
      → config_source space path disk.first env.getenv ≡ source
      → IsGuarded (on_source decode space env minted path disk source)
  unfolding on_source IsGuarded
  on_source-IsGuarded (inl e) m s = inr (m, inl (e, s))
  on_source-IsGuarded (inr (getenv, overridden)) m s =
      on_load-IsGuarded getenv overridden (load (record env { getenv = getenv })) m s refl

  on_marker-IsGuarded :
      (marker : Marker)
      → read_marker decode space path disk.marker disk.removed ≡ marker
      → IsGuarded (
          on_marker decode space env minted path disk
            (config_source space path disk.first env.getenv)
            marker)
  unfolding on_marker wizard IsGuarded
  on_marker-IsGuarded marker_error m = inl m
  on_marker-IsGuarded (marked hash) m = inl m
  on_marker-IsGuarded no_marker m =
      on_source-IsGuarded (config_source space path disk.first env.getenv) m refl

  -- How a start without a subcommand ends. It stops only for a marker that cannot be used, or, without
  -- a marker, for a file that does not parse or settings that do not load while there is something
  -- worth protecting. It serves only without a marker, what Load gave. It opens the wizard behind a
  -- token's hash only where the marker has this hash, or, without a marker, where the settings do not
  -- load and the file is worth protecting once the wizard has read it; the hash is then that of the
  -- fresh token. And it opens the wizard without a token only where there is no marker, the settings do
  -- not load, the wizard could read the file, and none of the tenant, the client, its secret and the
  -- SMTP password is set, by the environment or the file, in either spelling.
  pub run_default_mode-IsGuarded : IsGuarded (run_default_mode decode space env minted path disk)
  unfolding run_default_mode
  run_default_mode-IsGuarded =
      on_marker-IsGuarded (read_marker decode space path disk.marker disk.removed) refl
