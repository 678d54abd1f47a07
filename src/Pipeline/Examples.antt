-- ===== src/Pipeline/Examples.antt =====
-- The theorems on the worker, applied to a job with web, and to one with email.
use scan2graph.Jobs.Examples.{clean, scan, pending_store, pending_books}
use scan2graph.Prelude.{ℕ, ◌≡◌, Bool, true, false, List, [], ◌∷◌, Option, some, none, Str, codes}
use scan2graph.Jobs.Types.{Job, regular}
use scan2graph.Pipeline.{Machine, sent, Run, process}
use scan2graph.Pipeline.Settle.{Settled, process_settles}

abbrev machine : Machine
machine = record {
  base_url = [];
  clean = clean;
  now = λ w. 6;
  meanwhile = λ w s. s;
  opens = λ path. true;
  temp = λ i. some (codes "/t/scan2graph/r/o");
  recognizes = λ i. true;
  lstat = λ i. regular 50;
  stat = λ i. some 50;
  send = λ msg. sent;
  day = λ t. codes "2025-01-01";
  too_large_reason = λ n. codes "too large";
}

abbrev waiting : Run
waiting = record { store = pending_store; mail = [] }

abbrev mailed_scan : Job
mailed_scan = record scan { caps = record { email = true; web = false; ocr = true } }

process_settles_example : Settled (codes "j") (process machine scan waiting).store
process_settles_example = process_settles machine scan waiting (λ w s v. v) pending_books
