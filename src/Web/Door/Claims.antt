-- ===== src/Web/Door/Claims.antt =====
-- How often the setup wizard is claimed.
use scan2graph.Prelude.{
  ◌≡◌, refl, ap, ◌∙◌, ℕ, zero, suc, ◌+◌, Bool, true, false, List, [], ◌∷◌, Option, none, some, Str,
  if◌then◌else◌, arith,
}
use scan2graph.Web.Door.{
  Route, show_setup, press_start, submit_form, elsewhere, Request, Answer, redirected, claimed,
  not_found, claim_page, form, submitted, other, Stage, arrived, no_token, locked, admitted,
  answered, Thread, token_ok, holder, start, handle, look, advance, step, run, arrivals,
}

-- One where a request has claimed the wizard.
unfoldable pub claim : Stage → ℕ
claim (answered (claimed t)) = 1
claim (answered (redirected t)) = 0
claim (answered not_found) = 0
claim (answered claim_page) = 0
claim (answered form) = 0
claim (answered submitted) = 0
claim (answered other) = 0
claim arrived = 0
claim no_token = 0
claim locked = 0
claim admitted = 0

-- How often the wizard was claimed.
unfoldable pub claims : List Thread → ℕ
unfolding claim
claims [] = 0
claims ((r, s) ∷ ts) = claim s + claims ts

-- One while nobody has the wizard.
unfoldable pub free : Option Str → ℕ
free none = 1
free (some hash) = 0

module _ (sha256 : Str → Str) where
  gate-claim :
      (b : Bool) (a c : Answer) (hash : Option Str)
      → claim (answered a) ≡ 0
      → claim (answered c) ≡ 0
      → claim (answered (if b then a else c)) + free hash ≡ free hash
  gate-claim true a c hash h k = omega (arith, h)
  gate-claim false a c hash h k = omega (arith, k)

  unclaimed : (b : Bool) (s t : Stage) → claim s ≡ 0 → claim t ≡ 0 → claim (if b then s else t) ≡ 0
  unclaimed true s t h k = h
  unclaimed false s t h k = k

  handle-claim :
      (draw : Str) (hash cookie : Option Str) (d : Route)
      → claim (answered (handle sha256 draw hash cookie d).1)
          + free (handle sha256 draw hash cookie d).0
        ≡ free hash
  unfolding handle start claim free
  handle-claim draw hash cookie show_setup =
      gate-claim (holder sha256 hash cookie) form claim_page hash refl refl
  handle-claim draw none cookie press_start = refl
  handle-claim draw (some hash) cookie press_start = refl
  handle-claim draw hash cookie submit_form =
      gate-claim (holder sha256 hash cookie) submitted not_found hash refl refl
  handle-claim draw hash cookie elsewhere = omega arith

  look-claim : (hash : Option Str) → claim (look sha256 hash) ≡ 0
  unfolding look claim
  look-claim none = refl
  look-claim (some hash) = refl

  advance-claim :
      (draw : Str) (hash : Option Str) (r : Request) (s : Stage)
      → claim (advance sha256 draw hash r s).1 + free (advance sha256 draw hash r s).0
        ≡ claim s + free hash
  unfolding advance claim
  advance-claim draw hash r arrived =
      ap (λ n. n + free hash)
        (unclaimed (token_ok sha256 r.token hash) (answered (redirected r.token)) no_token refl
          refl)
  advance-claim draw hash r no_token = ap (λ n. n + free hash) (look-claim hash)
  advance-claim draw hash r locked =
      ap (λ n. n + free hash)
        (unclaimed (holder sha256 hash r.cookie) admitted (answered not_found) refl refl)
  advance-claim draw hash r admitted =
      let here = handle-claim draw hash r.cookie r.route in omega (arith, here)
  advance-claim draw hash r (answered a) = refl

  step-claims :
      (draw : Str) (n : ℕ) (hash : Option Str) (ts : List Thread)
      → claims (step sha256 draw n hash ts).1 + free (step sha256 draw n hash ts).0
        ≡ claims ts + free hash
  unfolding step claims
  step-claims draw n hash [] = refl
  step-claims draw zero hash ((r, s) ∷ ts) =
      let here = advance-claim draw hash r s in omega (arith, here)
  step-claims draw (suc n) hash ((r, s) ∷ ts) =
      let rest = step-claims draw n hash ts in omega (arith, rest)

  pub run-claims :
      (schedule : List (ℕ × Str)) (hash : Option Str) (ts : List Thread)
      → claims (run sha256 schedule hash ts).1 + free (run sha256 schedule hash ts).0
        ≡ claims ts + free hash
  unfolding run
  run-claims [] hash ts = refl
  run-claims ((n, draw) ∷ schedule) hash ts =
      run-claims schedule (step sha256 draw n hash ts).0 (step sha256 draw n hash ts).1
      ∙ step-claims draw n hash ts

pub arrivals-claims : (rs : List Request) → claims (arrivals rs) ≡ 0
unfolding arrivals claims claim
arrivals-claims [] = refl
arrivals-claims (r ∷ rs) = let rest = arrivals-claims rs in omega (arith, rest)
