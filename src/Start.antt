-- ===== src/Start.antt =====
-- cmd/scan2graph: what a start without a subcommand does, with the marker that setup-next-start
-- leaves. encoding/hex is a parameter; the files are arguments, and each time one is read it is
-- another argument.
pub mod Guarded
pub mod Examples
use scan2graph.Prelude.{
  ℕ, Bool, true, false, not, ◌&&◌, ◌||◌, List, [], ◌∷◌, ◌++◌, Option, none, some, Str, codes, ◌⊎◌,
  inl, inr, if◌then◌else◌, is_empty, length, ◌==◌, trim_space,
}
use scan2graph.Prelude.Dict.{Dict}
use scan2graph.Config.File.{FileError, parse_file, layer, file_env}
use scan2graph.Config.Loader.{Fault}
use scan2graph.Config.Settings.{Environment, Settings}
use scan2graph.Config.Load.{load}

-- What os.ReadFile gives.
pub data File : Type 0 where
  missing broken : File
  text : Str → File

-- What consumeMarker returns.
pub data Marker : Type 0 where
  no_marker marker_error : Marker
  marked : Str → Marker

-- The process ends with an error, serves, or opens the wizard, behind the hash of a token or not.
pub data Started : Type 0 where
  stopped : Started
  serving : Settings → Started
  wizard_opened : Option Str → Started

unfoldable pub contents : File → Option Str
contents missing = none
contents broken = none
contents (text t) = some t

abbrev pub protected : List Str
protected =
    codes "S2G_ENTRA_TENANT_ID"
    ∷ codes "S2G_ENTRA_CLIENT_ID"
    ∷ codes "S2G_ENTRA_CLIENT_SECRET"
    ∷ codes "S2G_SMTP_PASSWORD"
    ∷ []

-- The loop of `AnyConfigured`.
unfoldable pub any_configured : (Str → Str) → List Str → Bool
any_configured getenv [] = false
any_configured getenv (name ∷ names) =
    let rest = any_configured getenv names in
    if not (is_empty (getenv name)) || not (is_empty (getenv (name ++ codes "_FILE")))
    then true
    else rest

-- `worthProtecting`, for the environment of the process.
unfoldable pub worth_protecting : (Str → Str) → Dict Str × Bool → Bool
unfolding any_configured
worth_protecting environ (values, parsed) =
    not parsed || any_configured (layer values environ) protected

-- The hash that was decoded, and whether the marker could be removed.
unfoldable pub accept_hash : Option Str → Bool → Marker
accept_hash none removed = marker_error
accept_hash (some hash) removed =
    if not (length hash == 32) then marker_error else if removed then marked hash else marker_error

-- `consumeMarker`; the first argument is `hex.DecodeString`, the second says what unicode's spaces
-- are.
unfoldable pub consume_marker : (Str → Option Str) → (ℕ → Bool) → File → Bool → Marker
unfolding accept_hash
consume_marker decode space missing removed = no_marker
consume_marker decode space broken removed = marker_error
consume_marker decode space (text t) removed = accept_hash (decode (trim_space space t)) removed

-- It is called where there is a path.
unfoldable pub read_marker : (Str → Option Str) → (ℕ → Bool) → Str → File → Bool → Marker
unfolding consume_marker
read_marker decode space path marker removed =
    if is_empty path then no_marker else consume_marker decode space marker removed

unfoldable pub from_parsed : FileError ⊎ Dict Str → Dict Str × Bool
from_parsed (inl e) = ([], false)
from_parsed (inr values) = (values, true)

unfoldable pub read_existing : (ℕ → Bool) → File → Dict Str × Bool
unfolding from_parsed
read_existing space missing = ([], true)
read_existing space broken = ([], false)
read_existing space (text t) = from_parsed (parse_file space (some t))

unfoldable pub read_config_file : (ℕ → Bool) → Str → File → Dict Str × Bool
unfolding read_existing
read_config_file space path file = if is_empty path then ([], true) else read_existing space file

unfoldable pub is_missing : File → Bool
is_missing missing = true
is_missing broken = false
is_missing (text t) = false

-- `configSource`, lenient, for the path that the flags and the environment give.
unfoldable pub config_source :
    (ℕ → Bool) → Str → File → (Str → Str) → FileError ⊎ ((Str → Str) × List Str)
unfolding is_missing contents
config_source space path file environ =
    if not (is_empty path) && is_missing file
    then inr (environ, [])
    else file_env space path (contents file) environ

-- The hash that `wizard` starts with, where `minted` is that of the token which it may mint.
unfoldable pub wizard : (ℕ → Bool) → (Str → Str) → Str → File → Str → Option Str → Started
unfolding worth_protecting read_config_file
wizard space environ path file minted (some hash) = wizard_opened (some hash)
wizard space environ path file minted none =
    if worth_protecting environ (read_config_file space path file)
    then wizard_opened (some minted)
    else wizard_opened none

-- `runDefaultMode` reads the file three times: for the source, for worthProtecting, and in `wizard`.
pub record Disk : Type 0 where
  pub marker : File
  pub removed : Bool
  pub first : File
  pub second : File
  pub third : File

module _ (decode : Str → Option Str) (space : ℕ → Bool) (env : Environment) (minted : Str) where
  unfoldable pub on_load : Str → Disk → List Fault ⊎ Settings → Started
  unfolding worth_protecting read_config_file wizard
  on_load path disk (inr settings) = serving settings
  on_load path disk (inl faults) =
      if not (worth_protecting env.getenv (read_config_file space path disk.second))
      then wizard space env.getenv path disk.third minted none
      else stopped

  unfoldable pub on_source : Str → Disk → FileError ⊎ ((Str → Str) × List Str) → Started
  unfolding on_load
  on_source path disk (inl e) = stopped
  on_source path disk (inr (getenv, overridden)) =
      on_load path disk (load (record env { getenv = getenv }))

  unfoldable pub on_marker : Str → Disk → FileError ⊎ ((Str → Str) × List Str) → Marker → Started
  unfolding on_source wizard
  on_marker path disk source marker_error = stopped
  on_marker path disk source (marked hash) =
      wizard space env.getenv path disk.second minted (some hash)
  on_marker path disk source no_marker = on_source path disk source

  -- `runDefaultMode`, until it serves or the wizard is open.
  unfoldable pub run_default_mode : Str → Disk → Started
  unfolding on_marker config_source read_marker
  run_default_mode path disk =
      on_marker path disk (config_source space path disk.first env.getenv)
        (read_marker decode space path disk.marker disk.removed)
