-- ===== src/Jobs/Orderly.antt =====
-- The budget under any interleaving, for callers that ask for what the configuration allows.
use scan2graph.Prelude.{ℕ, ◌*◌, ◌≤◌, ◌<◌, ◌≡◌, Bool, false, List, Option, some, Str, arith, half}
use scan2graph.Prelude.Dict.{lookup, total}
use scan2graph.Jobs.Types.{Document, JobRecord, Store, regular, ok}
use scan2graph.Jobs.Budget.{finished, doc_bytes}
use scan2graph.Jobs.Cases.{Replaced}
use scan2graph.Jobs.Reserve.{new}
use scan2graph.Jobs.Invariant.{Inv, charged}
use scan2graph.Jobs.History.{
  Step, reserves, releases, commits, sets_status, replaces, registers, deletes, sweeps, closes,
  Step-Inv, new-Inv,
}
use scan2graph.Jobs.Capacity.{IsWithin}
use scan2graph.Jobs.Capacity.Steps.{
  reserve_locked-IsWithin, release_reservation-IsWithin, commit_reservation-IsWithin,
  set_status-IsWithin, replace_document-IsWithin, register_file-IsWithin, delete_job-IsWithin,
  clean_expired-IsWithin, close-IsWithin,
}

-- A caller reserves no more than the whole budget, does not take a finished job up again, and its
-- documents are below 2 ^ 61 bytes together.
abbrev pub IsOrderly : {clean : Str → Str} {s t : Store} → Step clean s t → Type 0
IsOrderly {s = s} (reserves want id now fresh word e) = want ≤ s.max_bytes
IsOrderly {s = s} (sets_status id st msg now live e) =
    (rec : JobRecord)
    → lookup id s.jobs ≡ some rec
    → (doc_bytes rec.job.documents * 4 < half)
      × (finished st ≡ false → finished rec.job.status ≡ false)
IsOrderly {clean = clean} {s = s} (replaces id doc_id path ocr fi e) =
    (rec : JobRecord) (size : ℕ) (docs : List Document)
    → lookup id s.jobs ≡ some rec
    → fi ≡ regular size
    → Replaced clean rec doc_id path size ocr docs
    → doc_bytes docs * 4 < half
IsOrderly _ = Unit {0}

pub data OrderlyReach (clean : Str → Str) (s : Store) : Store → Type 0 where
  here : OrderlyReach clean s s
  next :
      {t u : Store}
      → OrderlyReach clean s t
      → (st : Step clean t u) → IsOrderly st
      → OrderlyReach clean s u

Step-IsWithin :
    {clean : Str → Str} {s t : Store}
    → Inv s
    → IsWithin s
    → (st : Step clean s t) → IsOrderly st
    → IsWithin t
Step-IsWithin {s = s} v w (reserves want id now fresh word e) o =
    rw e (reserve_locked-IsWithin s want id now fresh o v w)
Step-IsWithin {s = s} v w (releases id e) o = rw e (release_reservation-IsWithin s id w)
Step-IsWithin {s = s} v w (commits id job dir files fresh new quiet e) o =
    rw e (commit_reservation-IsWithin s id job dir files fresh new quiet v w)
Step-IsWithin {clean = clean} {s = s} v w (sets_status id st msg now live e) o =
    rw e (set_status-IsWithin clean s id st msg now live o v w)
Step-IsWithin {clean = clean} {s = s} v w (replaces id doc_id path ocr fi e) o =
    rw e (replace_document-IsWithin clean s id doc_id path ocr fi o v w)
Step-IsWithin {s = s} v w (registers id file e) o = rw e (register_file-IsWithin s id file w)
Step-IsWithin {s = s} v w (deletes id e) o = rw e (delete_job-IsWithin s id w)
Step-IsWithin {s = s} v w (sweeps now e) o = rw e (clean_expired-IsWithin s now w)
Step-IsWithin {s = s} v w (closes e) o = rw e (close-IsWithin s w)

OrderlyReach-IsWithin :
    {clean : Str → Str} {s t : Store}
    → Inv s
    → IsWithin s
    → OrderlyReach clean s t
    → Inv t × IsWithin t
OrderlyReach-IsWithin v w here = (v, w)
OrderlyReach-IsWithin v w (next r st o) =
    let (v', w') = OrderlyReach-IsWithin v w r in (Step-Inv v' st, Step-IsWithin v' w' st o)

new-IsWithin :
    (option_root : Str) (ttl max_bytes : ℕ) (root : Option Str) (a b c : Bool) {s : Store}
    → new option_root ttl max_bytes root a b c ≡ ok s
    → max_bytes * 4 < half
    → IsWithin s
unfolding new charged total
new-IsWithin option_root ttl max_bytes root a b c h small = ground arith

-- However the critical sections of orderly callers interleave, in a store that New has made the
-- jobs never cost more than the budget, and neither does what is promised to reservations and to
-- jobs that are not finished. The budget is below 2 ^ 61. A caller is orderly if it reserves at
-- most the budget, its jobs' documents stay below 2 ^ 61 bytes, and it does not take a finished job
-- up again.
pub new_store_keeps_to_budget :
    (clean : Str → Str) (option_root : Str) (ttl max_bytes : ℕ) (root : Option Str) (a b c : Bool)
    {s t : Store}
    → new option_root ttl max_bytes root a b c ≡ ok s
    → max_bytes * 4 < half
    → OrderlyReach clean s t
    → IsWithin t
new_store_keeps_to_budget clean option_root ttl max_bytes root a b c made small reached =
    (OrderlyReach-IsWithin (new-Inv option_root ttl max_bytes root a b c made)
      (new-IsWithin option_root ttl max_bytes root a b c made small) reached).1
