-- ===== src/Web/Door/OneKey.antt =====
-- Whose the wizard is.
use scan2graph.Prelude.{
  ◌≡◌, ◌⊎◌, refl, sym, ap, ◌∙◌, ℕ, zero, suc, ◌+◌, true, List, [], ◌∷◌, Option, none, some, Str,
  str_eq_iff, arith, All, Bool-cases, inl, inr,
}
use scan2graph.Web.Door.{
  Route, show_setup, press_start, submit_form, elsewhere, Request, redirected, claimed, not_found,
  claim_page, form, submitted, other, Stage, arrived, no_token, locked, admitted, answered, Thread,
  token_ok, holder, start, handle, look, advance, step, run, arrivals,
}
use scan2graph.Web.Door.Claims.{claims, free, run-claims, arrivals-claims}

module _ (sha256 : Str → Str) where
  -- A token that was handed out is the key; and a request that got past the gate showed the key.
  unfoldable pub IsKept : Option Str → Thread → Type 0
  IsKept hash (r, answered (redirected t)) = hash ≡ some (sha256 t)
  IsKept hash (r, answered (claimed t)) = hash ≡ some (sha256 t)
  IsKept hash (r, answered form) = (c : Str) × (r.cookie ≡ some c) × (hash ≡ some (sha256 c))
  IsKept hash (r, answered submitted) = (c : Str) × (r.cookie ≡ some c) × (hash ≡ some (sha256 c))
  IsKept hash (r, answered not_found) = Unit
  IsKept hash (r, answered claim_page) = Unit
  IsKept hash (r, answered other) = Unit
  IsKept hash (r, arrived) = Unit
  IsKept hash (r, no_token) = Unit
  IsKept hash (r, locked) = Unit
  IsKept hash (r, admitted) = Unit

  token_ok-key :
      (t : Str) (hash : Option Str) → token_ok sha256 t hash ≡ true → hash ≡ some (sha256 t)
  unfolding token_ok
  token_ok-key t none h = cc
  token_ok-key t (some hash) h = ap some (sym ((str_eq_iff (sha256 t) hash).0 (ground (arith, h))))

  holder-key :
      (hash cookie : Option Str)
      → holder sha256 hash cookie ≡ true
      → (c : Str) × (cookie ≡ some c) × (hash ≡ some (sha256 c))
  unfolding holder
  holder-key none none h = cc
  holder-key none (some c) h = cc
  holder-key (some hash) none h = cc
  holder-key (some hash) (some c) h = (c, refl, token_ok-key c (some hash) h)

  -- The hash is written at most once.
  abbrev Later : Option Str → Option Str → Type 0
  Later hash after = (hash ≡ none) ⊎ (after ≡ hash)

  handle-Later :
      (draw : Str) (hash cookie : Option Str) (d : Route)
      → Later hash (handle sha256 draw hash cookie d).0
  unfolding handle start
  handle-Later draw none cookie d = inl refl
  handle-Later draw (some hash) cookie show_setup = inr refl
  handle-Later draw (some hash) cookie press_start = inr refl
  handle-Later draw (some hash) cookie submit_form = inr refl
  handle-Later draw (some hash) cookie elsewhere = inr refl

  advance-Later :
      (draw : Str) (hash : Option Str) (r : Request) (s : Stage)
      → Later hash (advance sha256 draw hash r s).0
  unfolding advance
  advance-Later draw hash r arrived = inr refl
  advance-Later draw hash r no_token = inr refl
  advance-Later draw hash r locked = inr refl
  advance-Later draw hash r admitted = handle-Later draw hash r.cookie r.route
  advance-Later draw hash r (answered a) = inr refl

  shown :
      {hash after : Option Str} {t : Str}
      → Later hash after
      → hash ≡ some (sha256 t)
      → after ≡ some (sha256 t)
  shown (inl e) h = cc
  shown (inr e) h = e ∙ h

  IsKept-Later :
      (hash after : Option Str) (r : Request) (s : Stage)
      → Later hash after
      → IsKept hash (r, s)
      → IsKept after (r, s)
  unfolding IsKept
  IsKept-Later hash after r (answered (redirected t)) l k = shown l k
  IsKept-Later hash after r (answered (claimed t)) l k = shown l k
  IsKept-Later hash after r (answered form) l (c, e, k) = (c, e, shown l k)
  IsKept-Later hash after r (answered submitted) l (c, e, k) = (c, e, shown l k)
  IsKept-Later hash after r (answered not_found) l k = tt
  IsKept-Later hash after r (answered claim_page) l k = tt
  IsKept-Later hash after r (answered other) l k = tt
  IsKept-Later hash after r arrived l k = tt
  IsKept-Later hash after r no_token l k = tt
  IsKept-Later hash after r locked l k = tt
  IsKept-Later hash after r admitted l k = tt

  All-Later :
      (hash after : Option Str) (ts : List Thread)
      → Later hash after
      → All (IsKept hash) ts
      → All (IsKept after) ts
  All-Later hash after [] l k = tt
  All-Later hash after ((r, s) ∷ ts) l (k, rest) =
      (IsKept-Later hash after r s l k, All-Later hash after ts l rest)

  handle-IsKept :
      (draw : Str) (hash : Option Str) (r : Request) (d : Route)
      → IsKept
          (handle sha256 draw hash r.cookie d).0
          (r, answered (handle sha256 draw hash r.cookie d).1)
  unfolding handle start IsKept
  handle-IsKept draw hash r show_setup = elim (Bool-cases (holder sha256 hash r.cookie)) [
    | inl e ↦ rw e (holder-key hash r.cookie e)
    | inr e ↦ rw e tt
  ]
  handle-IsKept draw none r press_start = refl
  handle-IsKept draw (some hash) r press_start = tt
  handle-IsKept draw hash r submit_form = elim (Bool-cases (holder sha256 hash r.cookie)) [
    | inl e ↦ rw e (holder-key hash r.cookie e)
    | inr e ↦ rw e tt
  ]
  handle-IsKept draw hash r elsewhere = tt

  look-IsKept : (hash : Option Str) (r : Request) → IsKept hash (r, look sha256 hash)
  unfolding look IsKept
  look-IsKept none r = tt
  look-IsKept (some hash) r = tt

  advance-IsKept :
      (draw : Str) (hash : Option Str) (r : Request) (s : Stage)
      → IsKept hash (r, s)
      → IsKept (advance sha256 draw hash r s).0 (r, (advance sha256 draw hash r s).1)
  unfolding advance IsKept
  advance-IsKept draw hash r arrived k = elim (Bool-cases (token_ok sha256 r.token hash)) [
    | inl e ↦ rw e (token_ok-key r.token hash e)
    | inr e ↦ rw e tt
  ]
  advance-IsKept draw hash r no_token k = look-IsKept hash r
  advance-IsKept draw hash r locked k = elim (Bool-cases (holder sha256 hash r.cookie)) [
    | inl e ↦ rw e tt
    | inr e ↦ rw e tt
  ]
  advance-IsKept draw hash r admitted k = handle-IsKept draw hash r r.route
  advance-IsKept draw hash r (answered a) k = k

  step-Later :
      (draw : Str) (n : ℕ) (hash : Option Str) (ts : List Thread)
      → Later hash (step sha256 draw n hash ts).0
  unfolding step
  step-Later draw n hash [] = inr refl
  step-Later draw zero hash ((r, s) ∷ ts) = advance-Later draw hash r s
  step-Later draw (suc n) hash (t ∷ ts) = step-Later draw n hash ts

  step-IsKept :
      (draw : Str) (n : ℕ) (hash : Option Str) (ts : List Thread)
      → All (IsKept hash) ts
      → All (IsKept (step sha256 draw n hash ts).0) (step sha256 draw n hash ts).1
  unfolding step
  step-IsKept draw n hash [] k = tt
  step-IsKept draw zero hash ((r, s) ∷ ts) (k, rest) = (
    advance-IsKept draw hash r s k,
    All-Later hash (advance sha256 draw hash r s).0 ts (advance-Later draw hash r s) rest,
  )
  step-IsKept draw (suc n) hash ((r, s) ∷ ts) (k, rest) = (
    IsKept-Later hash (step sha256 draw n hash ts).0 r s (step-Later draw n hash ts) k,
    step-IsKept draw n hash ts rest,
  )

  run-IsKept :
      (schedule : List (ℕ × Str)) (hash : Option Str) (ts : List Thread)
      → All (IsKept hash) ts
      → All (IsKept (run sha256 schedule hash ts).0) (run sha256 schedule hash ts).1
  unfolding run
  run-IsKept [] hash ts k = k
  run-IsKept ((n, draw) ∷ schedule) hash ts k =
      run-IsKept schedule (step sha256 draw n hash ts).0 (step sha256 draw n hash ts).1
        (step-IsKept draw n hash ts k)

  run-Later :
      (schedule : List (ℕ × Str)) (hash : Option Str) (ts : List Thread)
      → Later hash (run sha256 schedule hash ts).0
  unfolding run
  run-Later [] hash ts = inr refl
  run-Later ((n, draw) ∷ schedule) hash ts =
      join (step-Later draw n hash ts)
        (run-Later schedule (step sha256 draw n hash ts).0 (step sha256 draw n hash ts).1)
    where
      join : {a b c : Option Str} → Later a b → Later b c → Later a c
      join (inl e) l = inl e
      join (inr e) (inl h) = inl (sym e ∙ h)
      join (inr e) (inr h) = inr (h ∙ e)

  arrivals-IsKept : (hash : Option Str) (rs : List Request) → All (IsKept hash) (arrivals rs)
  unfolding arrivals IsKept
  arrivals-IsKept hash [] = tt
  arrivals-IsKept hash (r ∷ rs) = (tt, arrivals-IsKept hash rs)

  -- The wizard has one key. Let requests run side by side in any order of their critical sections,
  -- whatever is drawn for each. Then a hash that was set at the start is the hash at the end. At the
  -- end, each token that the wizard gave to a browser has the hash that the wizard keeps, and each
  -- request that was shown the form or got past the gate of `submit` came with a cookie of that hash.
  -- And the requests that claimed the wizard and the wizard's being free add up to what they were at
  -- the start: one claim at most, and none where a hash was set before.
  pub run-IsOneKey :
      (hash : Option Str) (rs : List Request) (schedule : List (ℕ × Str))
      → ((hash ≡ none) ⊎ ((run sha256 schedule hash (arrivals rs)).0 ≡ hash))
        × All
            (IsKept (run sha256 schedule hash (arrivals rs)).0)
            (run sha256 schedule hash (arrivals rs)).1
        × (claims (run sha256 schedule hash (arrivals rs)).1
              + free (run sha256 schedule hash (arrivals rs)).0
            ≡ free hash)
  run-IsOneKey hash rs schedule =
      let none_yet = arrivals-claims rs in
      let total = run-claims sha256 schedule hash (arrivals rs) in
      (
        run-Later schedule hash (arrivals rs),
        run-IsKept schedule hash (arrivals rs) (arrivals-IsKept hash rs),
        omega (arith, none_yet, total),
      )
