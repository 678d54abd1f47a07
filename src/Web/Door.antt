-- ===== src/Web/Door.antt =====
-- internal/web/setup.go: who gets into the setup wizard. Requests run side by side, and each step of
-- one is a critical section, in which it reads or writes the hash of the token. SHA-256 is a
-- parameter, and what rand.Text draws is an argument.
pub mod Claims
pub mod OneKey
pub mod Examples
use scan2graph.Prelude.{
  ℕ, zero, suc, Bool, true, false, not, ◌&&◌, List, [], ◌∷◌, Option, none, some, Str, str_eq,
  if◌then◌else◌, is_empty, map,
}

-- What the mux makes of the method and the path; `elsewhere` has the static files and the 404.
pub data Route : Type 0 where
  show_setup press_start submit_form elsewhere : Route

-- The query's token, the cookie, and the route.
pub record Request : Type 0 where
  pub token : Str
  pub cookie : Option Str
  pub route : Route

-- A redirect with the cookie of a token that came in the address, or of one that was drawn for the
-- browser which claims the wizard; 404; the page that asks to claim; the form; what `submit` does
-- behind its gate; and what the mux does elsewhere.
pub data Answer : Type 0 where
  redirected claimed : Str → Answer
  not_found claim_page form submitted other : Answer

-- Where a request is: before the first, the second and the third look of `authenticate` at the
-- hash, in the handler behind it, or answered.
pub data Stage : Type 0 where
  arrived no_token locked admitted : Stage
  answered : Answer → Stage

-- A request, and where it is.
abbrev pub Thread : Type 0
Thread = Request × Stage

module _ (sha256 : Str → Str) where
  unfoldable pub token_ok : Str → Option Str → Bool
  unfolding str_eq
  token_ok token none = false
  token_ok token (some hash) = not (is_empty token) && str_eq (sha256 token) hash

  unfoldable pub holder : Option Str → Option Str → Bool
  unfolding token_ok
  holder hash none = false
  holder none (some c) = false
  holder (some hash) (some c) = token_ok c (some hash)

  -- `start`, for what rand.Text draws: the hash afterwards, and the answer.
  unfoldable pub start : Str → Option Str → Option Str × Answer
  start draw (some hash) = (some hash, not_found)
  start draw none = (some (sha256 draw), claimed draw)

  -- The handlers that `NewSetup` registers, for a cookie and a route.
  unfoldable pub handle : Str → Option Str → Option Str → Route → Option Str × Answer
  unfolding holder start
  handle draw hash cookie show_setup = (hash, if holder hash cookie then form else claim_page)
  handle draw hash cookie press_start = start draw hash
  handle draw hash cookie submit_form = (hash, if holder hash cookie then submitted else not_found)
  handle draw hash cookie elsewhere = (hash, other)

  -- The second look of `authenticate`.
  unfoldable pub look : Option Str → Stage
  look none = admitted
  look (some hash) = locked

  -- One critical section of a request.
  unfoldable pub advance : Str → Option Str → Request → Stage → Option Str × Stage
  unfolding token_ok holder handle look
  advance draw hash r arrived =
      (hash, if token_ok r.token hash then answered (redirected r.token) else no_token)
  advance draw hash r no_token = (hash, look hash)
  advance draw hash r locked = (hash, if holder hash r.cookie then admitted else answered not_found)
  advance draw hash r admitted =
      let (after, answer) = handle draw hash r.cookie r.route in (after, answered answer)
  advance draw hash r (answered a) = (hash, answered a)

  -- A step of the n-th request.
  unfoldable pub step : Str → ℕ → Option Str → List Thread → Option Str × List Thread
  unfolding advance
  step draw n hash [] = (hash, [])
  step draw zero hash ((r, s) ∷ ts) =
      let (after, stage) = advance draw hash r s in (after, (r, stage) ∷ ts)
  step draw (suc n) hash (t ∷ ts) = let (after, rest) = step draw n hash ts in (after, t ∷ rest)

  -- The steps in the order that the schedule gives, each with what rand.Text would draw.
  unfoldable pub run : List (ℕ × Str) → Option Str → List Thread → Option Str × List Thread
  unfolding step
  run [] hash ts = (hash, ts)
  run ((n, draw) ∷ schedule) hash ts =
      let (after, rest) = step draw n hash ts in run schedule after rest

-- All requests are there from the beginning: one that comes later is one that is not yet scheduled.
unfoldable pub arrivals : List Request → List Thread
arrivals [] = []
arrivals (r ∷ rs) = (r, arrived) ∷ arrivals rs
