-- ===== src/Smtp/Examples.antt =====
-- The theorems on the session, applied to a Data that holds a staging with one file.
use scan2graph.Jobs.Examples.{clean, reserved_store, reserved_books}
use scan2graph.Jobs.Stage.Examples.{ascii, staging, request, lstat, new_id}
use scan2graph.Prelude.{
  ℕ, ◌≡◌, refl, inl, Bool, true, false, List, [], ◌∷◌, Option, some, none, Str, codes, arith,
  Unicode,
}
use scan2graph.Prelude.Dict.{lookup}
use scan2graph.Config.Types.{Config}
use scan2graph.Smtp.Session.{
  World, rejected, aborted, Ticket, Extracted, Machine, reset, rcpt, data_end,
}
use scan2graph.Smtp.Session.Reset.{Later, now, resets, rcpts, reset_data_commits_nothing}
use scan2graph.Smtp.Session.Recipients.{IsAddressed, commands-IsAddressed}
use scan2graph.Prelude.{◌↔◌, ◌⊎◌}
use scan2graph.Smtp.Session.{accepted}
use scan2graph.Smtp.Auth.{done, login, login_succeeds_iff}
use scan2graph.Smtp.Session.Transaction.{Holds, Outcome, data_end-Outcome}

abbrev settings : Config
settings = record {
  smtp_username = codes "scanner";
  smtp_password = codes "secret";
  smtp_allow_anonymous = false;
  smtp_password_generated = false;
  profiles = [];
  default_profile = record { email = false; web = true; ocr = false };
  allowed_recipient_domains = codes "b.c" ∷ [];
  limits = record { max_message_bytes = 60; max_stored_bytes = 100; max_concurrent_jobs = 1 };
}

abbrev receiving : World
receiving = record {
  store = reserved_store;
  stagings = (codes "r", staging) ∷ [];
  session = record {
    authenticated = true;
    generation = 3;
    staging = some (codes "r");
    profile = codes "a@b.c";
    caps = record { email = false; web = true; ocr = false };
    recipients = codes "a@b.c" ∷ [];
  };
}

abbrev ticket : Ticket
ticket = record {
  id = codes "r";
  generation = 3;
  profile = codes "a@b.c";
  caps = record { email = false; web = true; ocr = false };
  recipients = codes "a@b.c" ∷ [];
}

abbrev extracted : Extracted
extracted = record { subject = codes "scan"; documents = request.documents; error = none }

abbrev machine : Machine
machine = record { clean = clean; lstat = lstat; new_id = new_id; now = 5; enqueues = λ job. true }

holds : Holds machine receiving ticket staging
unfolding lookup scan2graph.Prelude.str_eq
holds = record {
  books = reserved_books;
  shared = refl;
  named = refl;
  owned = inl refl;
  fresh = λ i k e. refl;
}

data_end-Outcome_example :
    Outcome ascii machine receiving ticket staging extracted none
      (codes "z")
      (data_end ascii machine receiving ticket extracted none)
unfolding lookup
data_end-Outcome_example =
    data_end-Outcome ascii machine receiving ticket staging extracted none (codes "z") holds refl

abbrev restarted : World
restarted = (rcpt ascii settings (reset receiving) (codes "a@b.c")).0

restart : Later ascii settings receiving 1 restarted
restart = rcpts (codes "a@b.c") (resets now)

reset_data_commits_nothing_example :
    let (w, reply) = data_end ascii machine restarted ticket extracted none in
    (reply ≡ rejected aborted) × (w.store.jobs ≡ restarted.store.jobs)
reset_data_commits_nothing_example =
    reset_data_commits_nothing ascii settings machine receiving restarted ticket extracted none 0
      refl (omega arith) restart (omega arith)

addressed : IsAddressed ascii settings receiving.session.recipients
unfolding scan2graph.Config.Address.recipient_allowed scan2graph.Config.Address.normalize_address
    scan2graph.Prelude.str_eq scan2graph.Prelude.contains
addressed = record { addresses = ((refl, refl, (codes "a@b.c", refl)), tt); distinct = (refl, tt) }

commands-IsAddressed_example : IsAddressed ascii settings restarted.session.recipients
commands-IsAddressed_example =
    commands-IsAddressed ascii settings receiving restarted 1 addressed restart

login_succeeds_iff_example :
    let (w, c) = login settings receiving true (codes "scanner") (codes "secret") in
    ((c ≡ done accepted)
      ↔ ((codes "scanner" ≡ settings.smtp_username) × (codes "secret" ≡ settings.smtp_password)))
    × ((w.session.authenticated ≡ true)
        ↔ ((c ≡ done accepted) ⊎ (receiving.session.authenticated ≡ true)))
    × (w.store ≡ receiving.store)
login_succeeds_iff_example =
    login_succeeds_iff settings receiving true (codes "scanner") (codes "secret")
