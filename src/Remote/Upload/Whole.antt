-- ===== src/Remote/Upload/Whole.antt =====
-- What an upload carries, and which way a message takes.
use scan2graph.Prelude.{
  ◌≡◌, refl, ap, ◌∙◌, ◌≤◌, ◌<◌, ℕ, zero, suc, ◌+◌, ◌-◌, min, Bool, true, false, List, [], ◌∷◌, ◌++◌,
  some, Str, arith, ltb, if◌then◌else◌, length, take, drop, Bool-cases, inl, inr, ◌⊎◌,
}
use scan2graph.Remote.Upload.{
  upload_chunk_bytes, graph_attachment_floor_bytes, max_graph_message_bytes, Put, UploadResult,
  uploaded, upload_from, posted, in_chunks, attach, one_message, too_large, by_draft, route,
  past_limit, encoded_len, max_attachment_bytes,
}

-- The bytes of all requests, one behind the other.
unfoldable pub joined : List Put → Str
joined [] = []
joined (p ∷ ps) = p.body ++ joined ps

-- Requests that follow one another from an offset to the end of a file, none empty or too large.
abbrev pub AreContiguous : ℕ → ℕ → List Put → Type 0
AreContiguous off size [] = off ≡ size
AreContiguous off size (p ∷ ps) =
    (p.first ≡ off)
    × (p.total ≡ size)
    × (1 ≤ length p.body)
    × (length p.body ≤ upload_chunk_bytes)
    × AreContiguous (off + length p.body) size ps

take-drop : (n : ℕ) (s : Str) → take n s ++ drop n s ≡ s
take-drop zero s = refl
take-drop (suc n) [] = refl
take-drop (suc n) (r ∷ s) = ap (λ x. r ∷ x) (take-drop n s)

length-take : (n : ℕ) (s : Str) → n ≤ length s → length (take n s) ≡ n
length-take zero s h = refl
length-take (suc n) [] h = absurd (omega (arith, h))
length-take (suc n) (r ∷ s) h = ap suc (length-take n s (omega (arith, h)))

length-drop : (n : ℕ) (s : Str) → length (drop n s) ≡ length s - n
length-drop zero s = omega arith
length-drop (suc n) [] = omega arith
length-drop (suc n) (r ∷ s) = omega (arith, length-drop n s)

nil-of_length : (s : Str) → length s ≡ 0 → [] ≡ s
nil-of_length [] h = refl
nil-of_length (r ∷ s) h = absurd (omega (arith, h))

-- What an upload that nobody refuses has done.
pub record IsWhole (off size : ℕ) (rest : Str) (r : List Put × UploadResult) : Type 0 where
  pub finished : r.1 ≡ uploaded
  pub contiguous : AreContiguous off size r.0
  pub complete : joined r.0 ≡ rest

upload_from-IsWhole :
    (accepts : ℕ → Bool)
    → ((off : ℕ) → accepts off ≡ true)
    → (fuel off size : ℕ) (rest : Str) → off ≤ size
    → length rest ≡ size - off
    → size - off ≤ fuel
    → IsWhole off size rest (upload_from accepts fuel off size rest)
unfolding upload_from joined
upload_from-IsWhole accepts all zero off size [] within same enough = record {
  finished = ground (arith, same);
  contiguous = omega (arith, same, within);
  complete = refl;
}
upload_from-IsWhole accepts all zero off size (c ∷ rest) within same enough =
    absurd (omega (arith, same, enough))
upload_from-IsWhole accepts all (suc fuel) off size rest within same enough =
    let n = min upload_chunk_bytes (size - off) in
    elim (Bool-cases (ltb off size)) [
      | inl more ↦
          let ih =
            upload_from-IsWhole accepts all fuel (off + n) size (drop n rest)
              (ground (arith, more, within)) (ground (arith, length-drop n rest, same))
              (ground (arith, enough, more)) in
          let size_n : length (take n rest) ≡ n = length-take n rest (omega (arith, same)) in
          let n_positive : 1 ≤ n = ground (arith, more) in
          let room : ltb (length rest) n ≡ false = ground (arith, same) in
          rw more (
            rw room (
              rw (all off) (record {
                finished = ih.finished;
                contiguous = (
                  refl,
                  refl,
                  omega (arith, size_n, n_positive),
                  omega (arith, size_n),
                  rw size_n ih.contiguous,
                );
                complete = ap (λ x. take n rest ++ x) ih.complete ∙ take-drop n rest;
              })))
      | inr last ↦ rw last (record {
        finished = refl;
        contiguous = ground (arith, last, within);
        complete = nil-of_length rest (ground (arith, same, last));
      })
    ]

-- An attachment that nobody refuses goes up whole. If the file gives the bytes that Stat promises,
-- and every request is accepted, then either it is smaller than Graph's floor for a session and goes
-- in one request, or the upload ends with success, and its requests follow one another from the
-- first byte to the last without a gap or an overlap, each with at least one byte and at most
-- 3840 KiB; put together, their bodies are the file.
pub attach-whole :
    (accepts : ℕ → Bool) (content : Str)
    → ((off : ℕ) → accepts off ≡ true)
    → ((length content < graph_attachment_floor_bytes)
        × (attach accepts (length content) content ≡ posted content))
      ⊎ ((puts : List Put) × (attach accepts (length content) content ≡ in_chunks puts uploaded)
          × AreContiguous 0 (length content) puts
          × (joined puts ≡ content))
unfolding attach
attach-whole accepts content all =
    elim (Bool-cases (ltb (length content) graph_attachment_floor_bytes)) [
      | inl small ↦ inl (ground (arith, small), rw small refl)
      | inr large ↦
          let size = length content in
          let whole =
            upload_from-IsWhole accepts all size 0 size content (omega arith) (omega arith)
              (omega arith) in
          inr (
            (upload_from accepts size 0 size content).0,
            rw large (ap (in_chunks (upload_from accepts size 0 size content).0) whole.finished),
            whole.contiguous,
            whole.complete,
          )
    ]

-- A mail is refused as too large only by a client that may not upload, and what goes in one message
-- is, encoded, within Graph's limit: the way that Send takes, once it has measured the attachments
-- and composed the message, is one of these three.
pub route-cases :
    (large_scans : Bool) (attached composed : ℕ)
    → ((route large_scans attached (some composed) ≡ one_message (encoded_len composed))
        × (attached ≤ max_attachment_bytes)
        × (encoded_len composed ≤ max_graph_message_bytes))
      ⊎ ((route large_scans attached (some composed) ≡ by_draft) × (large_scans ≡ true))
      ⊎ ((route large_scans attached (some composed) ≡ too_large) × (large_scans ≡ false))
unfolding route past_limit
route-cases large_scans attached composed =
    cases large_scans (ltb max_attachment_bytes attached)
      (ltb max_graph_message_bytes (encoded_len composed)) (λ h. ground (arith, h))
      (λ h. ground (arith, h))
  where
    cases :
        (large past past_encoded : Bool)
        → (past ≡ false → attached ≤ max_attachment_bytes)
        → (past_encoded ≡ false → encoded_len composed ≤ max_graph_message_bytes)
        → (((if past
                then past_limit large
                else if past_encoded
                then past_limit large
                else one_message (encoded_len composed))
              ≡ one_message (encoded_len composed))
            × (attached ≤ max_attachment_bytes)
            × (encoded_len composed ≤ max_graph_message_bytes))
          ⊎ (((if past
                  then past_limit large
                  else if past_encoded
                  then past_limit large
                  else one_message (encoded_len composed))
                ≡ by_draft)
              × (large ≡ true))
          ⊎ (((if past
                  then past_limit large
                  else if past_encoded
                  then past_limit large
                  else one_message (encoded_len composed))
                ≡ too_large)
              × (large ≡ false))
    cases true true e h k = inr (inl (refl, refl))
    cases true false true h k = inr (inl (refl, refl))
    cases true false false h k = inl (refl, h refl, k refl)
    cases false true e h k = inr (inr (refl, refl))
    cases false false true h k = inr (inr (refl, refl))
    cases false false false h k = inl (refl, h refl, k refl)
