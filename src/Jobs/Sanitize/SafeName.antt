-- ===== src/Jobs/Sanitize/SafeName.antt =====
-- What a display name can be after SanitizeDisplayName.
use scan2graph.Prelude.{
  ℕ, ◌≤◌, ◌≡◌, refl, sym, ap, ◌∙◌, ◌||◌, count_rune, true, false, [], ◌∷◌, Str, codes, arith,
  Unicode, Bool-cases, inl, inr, map, is_empty, filter_by, length, take, fields, ltb, has_suffix,
  ◌==◌,
}
use scan2graph.Prelude.Strings.Parts.{
  Passes, Passes-filter_by, Passes-append, Passes-take, Passes-trim_left, Passes-trim_space,
  Passes-fields, Passes-join_words, length-take, length-append,
}
use scan2graph.Jobs.Sanitize.{
  is_kept, is_quote, base_name, slash, pdf, fallback, tidy_name, with_pdf, cut_name, or_fallback,
  sanitize_display_name,
}

absurd-kept : {P : Type 0} → true ≡ false → P
absurd-kept h = cc

module _ (u : Unicode) (prints : Passes u.is_print (codes "scan.pdf")) where
  fallback-Passes : Passes (is_kept u) fallback
  unfolding is_kept is_quote
  fallback-Passes = ground arith

  pdf-Passes : Passes (is_kept u) pdf
  pdf-Passes = fallback-Passes.1.1.1.1

  kept_space : is_kept u b' ' ≡ true
  unfolding is_kept is_quote
  kept_space = ground arith

  tidy_name-Passes : (name : Str) → Passes (is_kept u) (tidy_name u name)
  unfolding tidy_name
  tidy_name-Passes name =
      let kept = filter_by (is_kept u) (base_name (map slash name)) in
      Passes-trim_space (is_kept u) u.is_space _ (
        Passes-trim_left (is_kept u) (λ r. r == b'.') _
          (Passes-join_words (is_kept u) (fields u.is_space kept) kept_space (
            Passes-fields (is_kept u) u.is_space kept
              (Passes-filter_by (is_kept u) (base_name (map slash name))))))

  with_pdf-Passes : (name : Str) → Passes (is_kept u) name → Passes (is_kept u) (with_pdf u name)
  unfolding with_pdf
  with_pdf-Passes name h = elim (Bool-cases (has_suffix (map u.to_lower name) pdf)) [
    | inl e ↦ rw e h
    | inr e ↦ rw e (Passes-append (is_kept u) name pdf h pdf-Passes)
  ]

  cut_name-Passes :
      (name : Str)
      → Passes (is_kept u) name
      → Passes (is_kept u) (cut_name name) × (length (cut_name name) ≤ 100)
  unfolding cut_name
  cut_name-Passes name h = elim (Bool-cases (ltb 100 (length name))) [
    | inl e ↦ rw e (
      Passes-append (is_kept u) (take 96 name) pdf (Passes-take (is_kept u) 96 name h) pdf-Passes,
      omega (arith, length-take 96 name, length-append (take 96 name) pdf),
    )
    | inr e ↦ rw e (h, ground arith)
  ]

  abbrev IsSafe : Str → Type 0
  IsSafe name = Passes (is_kept u) name × (length name ≤ 100) × (is_empty name ≡ false)

  fallback-IsSafe : IsSafe fallback
  fallback-IsSafe = (fallback-Passes, omega arith, refl)

  or_fallback-IsSafe :
      (name : Str) → Passes (is_kept u) name → length name ≤ 100 → IsSafe (or_fallback name)
  unfolding or_fallback
  or_fallback-IsSafe [] h k = fallback-IsSafe
  or_fallback-IsSafe (r ∷ s) h k = (h, k, refl)

  sanitized-IsSafe : (name : Str) → IsSafe (sanitize_display_name u name)
  unfolding sanitize_display_name
  sanitized-IsSafe name = elim (Bool-cases (is_empty (tidy_name u name))) [
    | inl e ↦ rw e fallback-IsSafe
    | inr e ↦
        let (h, k) =
          cut_name-Passes (with_pdf u (tidy_name u name))
            (with_pdf-Passes (tidy_name u name) (tidy_name-Passes name)) in
        rw e (or_fallback-IsSafe _ h k)
  ]

  -- What is kept of a name has none of a code point that is not.
  dropped-count_rune :
      (q : ℕ) (s : Str) → is_kept u q ≡ false → Passes (is_kept u) s → count_rune q s ≡ 0
  unfolding count_rune
  dropped-count_rune q [] drops h = refl
  dropped-count_rune q (r ∷ s) drops h =
      let rest = dropped-count_rune q s drops h.1 in
      elim (Bool-cases (r == q)) [
        | inl e ↦
            let same : r ≡ q = ground (arith, e) in
            absurd-kept (sym (h.0) ∙ ap (is_kept u) same ∙ drops)
        | inr e ↦ rw e (omega (arith, rest))
      ]

  kept-Passes : (s : Str) → Passes (is_kept u) s → Passes (λ r. u.is_print r || r == b' ') s
  unfolding is_kept
  kept-Passes [] h = tt
  kept-Passes (r ∷ s) h = (ground (arith, h.0), kept-Passes s h.1)

  quote_dropped : (q : ℕ) → is_quote q ≡ true → is_kept u q ≡ false
  unfolding is_kept
  quote_dropped q h = ground (arith, h)

  -- A sanitized display name is at most 100 code points long and is not empty. It has no double
  -- quote, no single quote, no backslash and no slash, and each of its code points is printable or a
  -- space. The letters of `scan.pdf` and its dot are printable.
  pub sanitize_display_name-IsSafe :
      (name : Str)
      → (count_rune b'"' (sanitize_display_name u name) ≡ 0)
        × (count_rune b'\'' (sanitize_display_name u name) ≡ 0)
        × (count_rune b'\\' (sanitize_display_name u name) ≡ 0)
        × (count_rune b'/' (sanitize_display_name u name) ≡ 0)
        × Passes (λ r. u.is_print r || r == b' ') (sanitize_display_name u name)
        × (length (sanitize_display_name u name) ≤ 100)
        × (is_empty (sanitize_display_name u name) ≡ false)
  unfolding is_quote
  sanitize_display_name-IsSafe name =
      let (kept, short, real) = sanitized-IsSafe name in
      let without : (q : ℕ) → is_quote q ≡ true → count_rune q (sanitize_display_name u name) ≡ 0 =
        λ q h. dropped-count_rune q (sanitize_display_name u name) (quote_dropped q h) kept in
      (
        without b'"' refl,
        without b'\'' refl,
        without b'\\' refl,
        without b'/' refl,
        kept-Passes (sanitize_display_name u name) kept,
        short,
        real,
      )
