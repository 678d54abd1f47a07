-- ===== src/Web/Examples.antt =====
-- The theorems on sessions and on access, applied to a store with one session.
use scan2graph.Prelude.{
  ◌+◌, ◌≡◌, ◌↔◌, ◌⊎◌, refl, true, false, Str, [], ◌∷◌, some, none, codes, arith, ltb, if◌then◌else◌,
}
use scan2graph.Prelude.Dict.{Dict}
use scan2graph.Web.Sessions.{WebSession, session_ttl, create, get, drop_session}
use scan2graph.Jobs.Types.{Job, Store, Document, Status}
use scan2graph.Jobs.Read.{is_listed}
use scan2graph.Web.Pages.{find_job, handle_download, guard, is_unfinished, find_document}
use scan2graph.Web.Pages.Access.{guard-download}
use mathlib.Core.List.{Memᴰ}
use scan2graph.Web.Pages.Listing.{find_job-listed}
use scan2graph.Web.SignIn.Known.{identities-AreReal}
use scan2graph.Jobs.Read.{list_for_user}
use scan2graph.Jobs.Examples.{clean, made_store, history, ready_store, scan}
use scan2graph.Web.Sessions.Lifetime.{session_lives}
use scan2graph.Web.SignIn.{
  Provider, Query, IdToken, handle_callback, identities, sign_in_failed, signed_in,
}
use scan2graph.Web.SignIn.Checked.{IsChecked, handle_callback-cases}
use scan2graph.Jobs.Stage.Examples.{ascii}

abbrev alice : WebSession
alice = record { identities = codes "a@b.c" ∷ []; name = codes "Alice"; expires_at = 0 }

abbrev live_sessions : Dict WebSession
live_sessions = (codes "k", record alice { expires_at = 100 }) ∷ []

session_lives_example :
    ((get (create live_sessions alice (codes "i") 5) (codes "i") 50).1 ≡ (
      if ltb 50 (5 + session_ttl)
      then some (record alice { expires_at = 5 + session_ttl })
      else none))
    × ((get (create live_sessions alice (codes "i") 5) (codes "k") 50).1
        ≡ (get live_sessions (codes "k") 50).1)
    × ((get (drop_session live_sessions (codes "k")) (codes "k") 50).1 ≡ none)
unfolding scan2graph.Prelude.str_eq
session_lives_example =
    session_lives live_sessions alice (codes "i") (codes "k") 5 50 (tt, tt) (omega arith) refl

abbrev the_scan : Document
the_scan = record {
  id = codes "d";
  display_name = codes "scan.pdf";
  path = codes "/t/d";
  size = 40;
  ocr_applied = false;
}

abbrev her_job : Job
her_job = record {
  id = codes "j";
  received_at = 1;
  expires_at = 90;
  profile = [];
  caps = record { email = false; web = true; ocr = false };
  subject = [];
  recipients = codes "a@b.c" ∷ [];
  documents = the_scan ∷ [];
  status = Status.ready;
  error = [];
}

abbrev one_job : Store
one_job = record {
  dir = codes "/t";
  ttl = 1000;
  max_bytes = 100;
  jobs = (codes "j", record { job = her_job; dir = codes "/t/j"; bytes = 40; files = [] }) ∷ [];
  reservations = [];
  used = 40;
  closed = false;
}

guard-download_example :
    (sess : WebSession) × (j : Job) × ((get live_sessions (codes "k") 50).1 ≡ some sess)
    × (scan2graph.Jobs.Read.get one_job (codes "j") 50 ≡ some j)
    × (is_listed sess.identities 50 j ≡ true)
    × (is_unfinished j.status ≡ false)
    × (find_document (codes "d") j.documents ≡ some the_scan)
unfolding guard scan2graph.Prelude.str_eq get scan2graph.Prelude.Dict.lookup handle_download
    scan2graph.Jobs.Read.get scan2graph.Jobs.Read.live
guard-download_example =
    guard-download (λ path. true) one_job live_sessions live_sessions (codes "k") (codes "j")
      (codes "d") 50 the_scan refl

abbrev ready_job : Job
ready_job = record scan { status = Status.ready; expires_at = 1006 }

abbrev her_token : IdToken
her_token = record {
  nonce = codes "n";
  readable = true;
  email = codes "A@b.c";
  preferred_username = codes "a@b.c";
  name = codes "Alice";
}

abbrev the_provider : Provider
the_provider = record {
  exchange = λ code verifier. some (some (codes "raw"));
  verify = λ raw. some her_token;
}

abbrev her_query : Query
her_query = record { error = []; state = codes "s"; code = codes "c" }

handle_callback-cases_example :
    (handle_callback ascii the_provider her_query (some (codes "s|n|v")) live_sessions (codes "i") 5
      ≡ (live_sessions, sign_in_failed))
    ⊎ ((t : IdToken) × IsChecked the_provider her_query (some (codes "s|n|v")) t
        × (handle_callback ascii the_provider her_query
              (some (codes "s|n|v"))
              live_sessions
              (codes "i")
              5
            ≡ (
              create live_sessions
                  (record { identities = identities ascii t; name = t.name; expires_at = 0 })
                  (codes "i")
                  5,
              signed_in (codes "i"),
            )))
handle_callback-cases_example =
    handle_callback-cases ascii the_provider her_query (some (codes "s|n|v")) live_sessions
      (codes "i") 5

-- The session that the sign-in of this token opens.
abbrev her_session : WebSession
her_session = record {
  identities = identities ascii her_token;
  name = codes "Alice";
  expires_at = 100;
}

find_job-listed_example : (find_job ready_store her_session (codes "j") 50 ≡ some ready_job) ↔ (
    (codes "j" ≡ codes "j") × Memᴰ ready_job (list_for_user ready_store her_session.identities 50))
find_job-listed_example =
    find_job-listed clean (codes "/t") 1000 100 (some (codes "/t")) true true true made_store
      history her_session (identities-AreReal ascii her_token) (codes "j") 50 ready_job
