-- ===== src/Jobs/Stage/Examples.antt =====
-- The theorems on Commit, applied to a staging with one file.
use scan2graph.Jobs.Examples.{clean, scan, reserved_store, reserved_books}
use scan2graph.Prelude.{
  ℕ, ◌≡◌, refl, Bool, true, false, List, [], ◌∷◌, Option, some, none, Str, codes, ◌==◌,
  if◌then◌else◌, Unicode,
}
use scan2graph.Prelude.Dict.{lookup}
use scan2graph.Jobs.Types.{
  NewJob, Reservation, Staging, staging_open, staging_committed, no_documents, ok, err, FileInfo,
  regular,
}
use scan2graph.Prelude.{◌≤◌, ◌||◌, length, is_empty, count_rune}
use scan2graph.Prelude.Strings.Parts.{Passes}
use scan2graph.Jobs.Sanitize.{sanitize_display_name}
use scan2graph.Jobs.Sanitize.SafeName.{sanitize_display_name-IsSafe}
use scan2graph.Jobs.Stage.{make_job, commit}
use scan2graph.Jobs.Stage.Protocol.{Describes}
use scan2graph.Jobs.Stage.Settle.{commit_error_keeps, commit_enters_job}

abbrev pub ascii : Unicode
ascii = record {
  is_space = λ c. c == 32;
  is_print = λ c. true;
  is_control = λ c. false;
  to_lower = λ c. c;
}

abbrev pub staging : Staging
staging = record {
  id = codes "r";
  dir = codes "/t/scan2graph/r";
  state = staging_open;
  files = codes "/t/scan2graph/r/x" ∷ [];
}

abbrev pub request : NewJob
request = record {
  profile = codes "a@b.c";
  caps = record { email = false; web = true; ocr = false };
  subject = codes "scan";
  recipients = codes "a@b.c" ∷ [];
  documents = record { display_name = codes "scan.pdf"; path = codes "/t/scan2graph/r/x" } ∷ [];
}

abbrev pub lstat : Str → FileInfo
lstat path = regular 40

abbrev pub new_id : ℕ → Option Str
new_id i = if i == 0 then some (codes "d") else some (codes "j")

commits : (commit ascii clean reserved_store staging request lstat new_id 5).2 ≡ ok scan
unfolding commit scan2graph.Prelude.contains scan2graph.Prelude.str_eq
    scan2graph.Jobs.Reserve.commit_reservation lookup scan2graph.Jobs.Sanitize.sanitize_subject
    scan2graph.Jobs.Sanitize.sanitize_display_name scan2graph.Jobs.Sanitize.tidy_name
    scan2graph.Jobs.Sanitize.or_fallback scan2graph.Jobs.Sanitize.cut_name
    scan2graph.Jobs.Sanitize.with_pdf
commits = refl

commit_enters_job_example :
    let t = (commit ascii clean reserved_store staging request lstat new_id 5).0 in
    (staging_open ≡ staging_open)
    × ((commit ascii clean reserved_store staging request lstat new_id 5).1.state
        ≡ staging_committed)
    × (r : Reservation) × (lookup (codes "r") reserved_store.reservations ≡ some r)
    × (lookup (codes "r") t.reservations ≡ none)
    × (lookup (codes "j") t.jobs
        ≡ some (record { job = scan; dir = staging.dir; bytes = r.bytes; files = staging.files }))
    × (scan ≡ make_job ascii (codes "j") 5 1000 request scan.documents)
    × Describes ascii clean staging.files lstat request.documents scan.documents
unfolding lookup
commit_enters_job_example =
    commit_enters_job ascii clean reserved_store staging request lstat new_id 5 reserved_books
      (λ k e. refl) commits

abbrev empty_request : NewJob
empty_request = record request { documents = [] }

refuses :
    (commit ascii clean reserved_store staging empty_request lstat new_id 5).2 ≡ err no_documents
unfolding commit
refuses = refl

commit_error_keeps_example :
    ((commit ascii clean reserved_store staging empty_request lstat new_id 5).0 ≡ reserved_store)
    × ((commit ascii clean reserved_store staging empty_request lstat new_id 5).1 ≡ staging)
    × ((commit ascii clean reserved_store staging empty_request lstat new_id 5).3 ≡ [])
commit_error_keeps_example =
    commit_error_keeps ascii clean reserved_store staging empty_request lstat new_id 5 refuses

sanitize_display_name-IsSafe_example :
    (count_rune b'"' (sanitize_display_name ascii (codes "../a b.exe")) ≡ 0)
    × (count_rune b'\'' (sanitize_display_name ascii (codes "../a b.exe")) ≡ 0)
    × (count_rune b'\\' (sanitize_display_name ascii (codes "../a b.exe")) ≡ 0)
    × (count_rune b'/' (sanitize_display_name ascii (codes "../a b.exe")) ≡ 0)
    × Passes (λ r. ascii.is_print r || r == b' ') (sanitize_display_name ascii (codes "../a b.exe"))
    × (length (sanitize_display_name ascii (codes "../a b.exe")) ≤ 100)
    × (is_empty (sanitize_display_name ascii (codes "../a b.exe")) ≡ false)
sanitize_display_name-IsSafe_example =
    sanitize_display_name-IsSafe ascii
      (refl, (refl, (refl, (refl, (refl, (refl, (refl, (refl, tt)))))))) (codes "../a b.exe")
