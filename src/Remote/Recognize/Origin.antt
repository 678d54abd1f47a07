-- ===== src/Remote/Recognize/Origin.antt =====
-- Where the token goes, and what replaces a scan.
use scan2graph.Prelude.{
  ◌≡◌, ◌⊎◌, refl, sym, ap, ◌∙◌, Bool, true, false, not, ◌||◌, List, [], ◌∷◌, ◌++◌, Option, none,
  some, Str, codes, arith, All, str_eq, str_eq_iff, if◌then◌else◌, is_empty, length, take, ltb,
  Bool-cases, inl, inr,
}
use scan2graph.Config.Env.{UrlLibrary}
use scan2graph.Remote.Recognize.{
  PollReply, poll_fails, undecodable, status, Service, Recognition, still_polling, recognized,
  not_recognized, Polled, waiting, poll_error, succeeded, poll, polls, copy_result, same_origin,
  result_url, fetch, follow, begin, searchable_pdf,
}

-- What is written is nothing, or begins like a PDF; and where the document counts as recognized, it
-- is the whole of what the service gives.
abbrev pub IsSound : Option (Str × Bool) → Recognition → Type 0
IsSound result r =
    ((r.written ≡ []) ⊎ (str_eq (take 5 r.written) (codes "%PDF-") ≡ true))
    × ((r.ending ≡ not_recognized)
        ⊎ (r.ending ≡ still_polling)
        ⊎ ((result ≡ some (r.written, false)) × (str_eq (take 5 r.written) (codes "%PDF-") ≡ true)))

some_injective {ℓ} : {A : Type ℓ} {a b : A} → some a ≡ some b → a ≡ b
some_injective h = cc

All-snoc {ℓ} :
    {A : Type ℓ} (P : A → Type 0) (xs : List A) (x : A) → All P xs → P x → All P (xs ++ x ∷ [])
All-snoc P [] x h p = (p, tt)
All-snoc P (y ∷ xs) x h p = (h.0, All-snoc P xs x h.1 p)

polls-All : (P : Str → Type 0) (loc : Str) (rs : List PollReply) → P loc → All P (polls loc rs)
unfolding polls
polls-All P loc [] p = (p, tt)
polls-All P loc (poll_fails ∷ rs) p = (p, tt)
polls-All P loc (undecodable ∷ rs) p = (p, tt)
polls-All P loc (status s interrupted ∷ rs) p =
    pick
      (str_eq s (codes "succeeded")
        || str_eq s (codes "failed")
        || str_eq s (codes "canceled")
        || interrupted)
      (polls-All P loc rs p)
  where
    pick : (b : Bool) → All P (polls loc rs) → All P (if b then loc ∷ [] else loc ∷ polls loc rs)
    pick true rest = (p, tt)
    pick false rest = (p, rest)

copy_result-asked :
    (asked : List Str) (o : Option (Str × Bool)) (writes : Bool)
    → (copy_result asked o writes).asked ≡ asked
unfolding copy_result
copy_result-asked asked none writes = refl
copy_result-asked asked (some (bytes, breaks)) writes =
    elim (Bool-cases
      (ltb (length bytes) 5 || not (str_eq (take 5 bytes) (codes "%PDF-")) || not writes)) [
        | inl e ↦ rw e refl
        | inr e ↦ rw e refl
      ]

copy_result-IsSound :
    (asked : List Str) (o : Option (Str × Bool)) (writes : Bool)
    → IsSound o (copy_result asked o writes)
unfolding copy_result
copy_result-IsSound asked none writes = (inl refl, inl refl)
copy_result-IsSound asked (some (bytes, breaks)) writes =
    elim (Bool-cases
      (ltb (length bytes) 5 || not (str_eq (take 5 bytes) (codes "%PDF-")) || not writes)) [
        | inl e ↦ rw e (inl refl, inl refl)
        | inr e ↦
            let pdf : str_eq (take 5 bytes) (codes "%PDF-") ≡ true = ground (arith, e) in
            rw e (inr pdf, whole breaks pdf)
      ]
  where
    whole :
        (b : Bool)
        → str_eq (take 5 bytes) (codes "%PDF-") ≡ true
        → ((if b then not_recognized else recognized) ≡ not_recognized)
          ⊎ ((if b then not_recognized else recognized) ≡ still_polling)
          ⊎ ((◌≡◌ {A = Option (Str × Bool)} (some (bytes, b)) (some (bytes, false)))
              × (str_eq (take 5 bytes) (codes "%PDF-") ≡ true))
    whole true pdf = inl refl
    whole false pdf = inr (inr (refl, pdf))

module _ (lib : UrlLibrary) (endpoint analyze_url : Str) where
  -- A URL that the token may go to: that of the analyze request, one with the endpoint's scheme and
  -- host, or that of the result of such a one.
  abbrev pub IsOurs : Str → Type 0
  IsOurs url =
      (url ≡ analyze_url)
      ⊎ ((u : lib.Url) × (e : lib.Url) × (lib.parse endpoint ≡ some e)
          × (lib.scheme u ≡ lib.scheme e)
          × (lib.host u ≡ lib.host e)
          × ((lib.parse url ≡ some u) ⊎ (url ≡ result_url lib u)))

  same_origin-some :
      (o o' : Option lib.Url)
      → same_origin lib o o' ≡ true
      → (u : lib.Url) × (e : lib.Url) × (o ≡ some u)
        × (o' ≡ some e)
        × (lib.scheme u ≡ lib.scheme e)
        × (lib.host u ≡ lib.host e)
  unfolding same_origin
  same_origin-some none o' h = cc
  same_origin-some (some u) none h = cc
  same_origin-some (some u) (some e) h = (
    u,
    e,
    refl,
    refl,
    (str_eq_iff (lib.scheme u) (lib.scheme e)).0 (ground (arith, h)),
    (str_eq_iff (lib.host u) (lib.host e)).0 (ground (arith, h)),
  )

  fetch-asked :
      (asked : List Str) (s : Service) (p : Polled) (o : Option lib.Url)
      → All IsOurs asked
      → ((u : lib.Url) → o ≡ some u → IsOurs (result_url lib u))
      → All IsOurs (fetch lib asked s p o).asked
  unfolding fetch
  fetch-asked asked s waiting o h k = h
  fetch-asked asked s poll_error o h k = h
  fetch-asked asked s succeeded none h k = h
  fetch-asked asked s succeeded (some u) h k =
      rw (copy_result-asked (asked ++ result_url lib u ∷ []) s.result s.writes)
        (All-snoc IsOurs asked (result_url lib u) h (k u refl))

  fetch-IsSound :
      (asked : List Str) (s : Service) (p : Polled) (o : Option lib.Url)
      → IsSound s.result (fetch lib asked s p o)
  unfolding fetch
  fetch-IsSound asked s waiting o = (inl refl, inr (inl refl))
  fetch-IsSound asked s poll_error o = (inl refl, inl refl)
  fetch-IsSound asked s succeeded none = (inl refl, inl refl)
  fetch-IsSound asked s succeeded (some u) =
      copy_result-IsSound (asked ++ result_url lib u ∷ []) s.result s.writes

  follow-asked :
      (loc : Str) (s : Service) → All IsOurs (follow lib endpoint analyze_url loc s).asked
  unfolding follow
  follow-asked loc s =
      elim (Bool-cases
        (is_empty loc || not (same_origin lib (lib.parse loc) (lib.parse endpoint)))) [
          | inl e ↦ rw e (inl refl, tt)
          | inr e ↦
              let (u, c, parsed, there, scheme, host) =
                same_origin-some (lib.parse loc) (lib.parse endpoint) (ground (arith, e)) in
              rw e (
                fetch-asked (analyze_url ∷ polls loc s.replies) s (poll s.replies) (lib.parse loc)
                  (
                    inl refl,
                    polls-All IsOurs loc s.replies (inr (u, c, there, scheme, host, inl parsed)),
                  )
                  (λ v h. inr (
                    u,
                    c,
                    there,
                    scheme,
                    host,
                    inr (ap (result_url lib) (some_injective (sym h ∙ parsed))),
                  )))
        ]

  follow-IsSound :
      (loc : Str) (s : Service) → IsSound s.result (follow lib endpoint analyze_url loc s)
  unfolding follow
  follow-IsSound loc s =
      choice (is_empty loc || not (same_origin lib (lib.parse loc) (lib.parse endpoint)))
    where
      choice :
          (b : Bool)
          → IsSound s.result (
              if b
              then record { asked = analyze_url ∷ []; written = []; ending = not_recognized }
              else fetch lib (analyze_url ∷ polls loc s.replies) s (poll s.replies) (lib.parse loc))
      choice true = (inl refl, inl refl)
      choice false =
          fetch-IsSound (analyze_url ∷ polls loc s.replies) s (poll s.replies) (lib.parse loc)

-- The token goes to the configured endpoint only, and only a PDF replaces a scan. Whatever the service
-- answers, each URL that is requested is that of the analyze request, or an Operation-Location with
-- the endpoint's scheme and host, or that of its result, "/pdf" behind its path. What is written is
-- nothing or begins with "%PDF-", and a document that counts as recognized is all that the service
-- gave, read to its end.
pub searchable_pdf-IsSound :
    (lib : UrlLibrary) (endpoint analyze_url : Str) (s : Service)
    → All (IsOurs lib endpoint analyze_url) (searchable_pdf lib endpoint analyze_url s).asked
      × IsSound s.result (searchable_pdf lib endpoint analyze_url s)
unfolding searchable_pdf begin
searchable_pdf-IsSound lib endpoint analyze_url s = by_location s.analyze
  where
    by_location :
        (o : Option Str)
        → All (IsOurs lib endpoint analyze_url) (begin lib endpoint analyze_url s o).asked
          × IsSound s.result (begin lib endpoint analyze_url s o)
    by_location none = ((inl refl, tt), (inl refl, inl refl))
    by_location (some loc) =
        (follow-asked lib endpoint analyze_url loc s, follow-IsSound lib endpoint analyze_url loc s)
