-- ===== src/Remote/Upload/Examples.antt =====
-- The theorems on the uploads, applied to a file of four million bytes and to a small mail.
use scan2graph.Prelude.{
  ◌≡◌, ◌≤◌, ◌<◌, ◌⊎◌, refl, ℕ, zero, suc, true, false, List, [], ◌∷◌, some, Str, length,
}
use scan2graph.Remote.Upload.{
  graph_attachment_floor_bytes, max_attachment_bytes, max_graph_message_bytes, Put, uploaded,
  attach, posted, in_chunks, route, one_message, by_draft, too_large, encoded_len,
}
use scan2graph.Remote.Upload.Whole.{AreContiguous, joined, attach-whole, route-cases}

zeros : ℕ → Str
zeros zero = []
zeros (suc n) = 0 ∷ zeros n

attach-whole_example :
    ((length (zeros 4000000) < graph_attachment_floor_bytes)
      × (attach (λ off. true) (length (zeros 4000000)) (zeros 4000000) ≡ posted (zeros 4000000)))
    ⊎ ((puts : List Put) × (attach (λ off. true) (length (zeros 4000000)) (zeros 4000000)
          ≡ in_chunks puts uploaded)
        × AreContiguous 0 (length (zeros 4000000)) puts
        × (joined puts ≡ zeros 4000000))
attach-whole_example = attach-whole (λ off. true) (zeros 4000000) (λ off. refl)

route-cases_example :
    ((route false 1000 (some 1500) ≡ one_message (encoded_len 1500))
      × (1000 ≤ max_attachment_bytes)
      × (encoded_len 1500 ≤ max_graph_message_bytes))
    ⊎ ((route false 1000 (some 1500) ≡ by_draft) × (false ≡ true))
    ⊎ ((route false 1000 (some 1500) ≡ too_large) × (false ≡ false))
route-cases_example = route-cases false 1000 1500
