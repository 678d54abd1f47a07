-- ===== src/Remote/Recognize/Examples.antt =====
-- The theorem on the recognition, applied to a document that is ready at the second poll.
use scan2graph.Prelude.{false, true, [], ◌∷◌, some, codes, All}
use scan2graph.Config.Load.Examples.{https_urls}
use scan2graph.Remote.Recognize.{status, Service, searchable_pdf}
use scan2graph.Remote.Recognize.Origin.{IsSound, IsOurs, searchable_pdf-IsSound}

abbrev ready_soon : Service
ready_soon = record {
  analyze = some (codes "https://e.f/op");
  replies = status (codes "running") false ∷ status (codes "succeeded") false ∷ [];
  result = some (codes "%PDF-1.7", false);
  writes = true;
}

searchable_pdf-IsSound_example :
    All
      (IsOurs https_urls (codes "https://e.f") (codes "https://e.f/analyze"))
      (searchable_pdf https_urls
        (codes "https://e.f")
        (codes "https://e.f/analyze")
        ready_soon).asked
    × IsSound
        (some (codes "%PDF-1.7", false))
        (searchable_pdf https_urls (codes "https://e.f") (codes "https://e.f/analyze") ready_soon)
searchable_pdf-IsSound_example =
    searchable_pdf-IsSound https_urls (codes "https://e.f") (codes "https://e.f/analyze") ready_soon
