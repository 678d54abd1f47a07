-- ===== src/Jobs/Examples.antt =====
-- The theorems on the store, applied to a store that the steps below make.
use scan2graph.Prelude.{
  ℕ, ◌+◌, ◌*◌, ◌≤◌, ◌<◌, ◌≡◌, ◌≢◌, ◌↔◌, ◌++◌, refl, Bool, true, false, List, [], ◌∷◌, Option, some,
  none, Str, codes, arith, length, half, modulus, Unicode,
}
use scan2graph.Jobs.Types.{pending, ready, evicted, Job, JobRecord, Store, ok}
use scan2graph.Jobs.Reserve.{new, reserve_locked, commit_reservation}
use scan2graph.Jobs.Budget.{admits, make_room, finished, held}
use scan2graph.Jobs.Update.{set_status}
use mathlib.Core.List.{Memᴰ}
use scan2graph.Prelude.{contains, All, IsSortedBy, str_eq}
use scan2graph.Prelude.Dict.{lookup, Unique}
use scan2graph.Jobs.Budget.{doc_bytes}
use scan2graph.Jobs.Invariant.{charged}
use scan2graph.Jobs.Capacity.{IsWithin, freeable, admits_iff}
use scan2graph.Jobs.Orderly
use scan2graph.Jobs.Orderly.{OrderlyReach, new_store_keeps_to_budget}
use scan2graph.Jobs.Eviction.{eviction_order, Buried, Kept, IsShortest, make_room_evicts_oldest}
use scan2graph.Jobs.Tombstone.{Survives, Final, make_room-Survives, tombstone_stays}
use scan2graph.Jobs.Read.{live, get, clean_expired, list_for_user, received_after}
use scan2graph.Jobs.Visible.{
  Shares, clean_expired-get, clean_expired-length, list_for_user_sound, list_for_user_complete,
}
use scan2graph.Jobs.Invariant.Reserve.{reserve_locked-Inv, commit_reservation-Inv}
use scan2graph.Jobs.History.{
  new-Inv, Reach, here, next, reserves, commits, sets_status, new_store_keeps_books,
}
use scan2graph.Jobs.Invariant.{Inv}

abbrev pub clean : Str → Str
clean p = p

abbrev pub empty_store : Store
empty_store = record {
  dir = codes "/t/scan2graph";
  ttl = 1000;
  max_bytes = 100;
  jobs = [];
  reservations = [];
  used = 0;
  closed = false;
}

abbrev pub scan : Job
scan = record {
  id = codes "j";
  received_at = 5;
  expires_at = 1005;
  profile = codes "a@b.c";
  caps = record { email = false; web = true; ocr = false };
  subject = codes "scan";
  recipients = codes "a@b.c" ∷ [];
  documents =
      record {
        id = codes "d";
        display_name = codes "scan.pdf";
        path = codes "/t/scan2graph/r/x";
        size = 40;
        ocr_applied = false;
      }
      ∷ [];
  status = pending;
  error = [];
}

abbrev pub scan_record : JobRecord
scan_record = record {
  job = scan;
  dir = codes "/t/scan2graph/r";
  bytes = 60;
  files = codes "/t/scan2graph/r/x" ∷ [];
}

abbrev ready_record : JobRecord
ready_record = record scan_record {
  job = record scan { status = ready; expires_at = 1006 };
  bytes = 40;
}

abbrev buried_record : JobRecord
buried_record = record scan_record {
  job = record scan { status = evicted; expires_at = 1006; documents = [] };
  bytes = 0;
  files = [];
}

abbrev pub reserved_store : Store
reserved_store = record empty_store {
  reservations =
      (codes "r", record { dir = codes "/t/scan2graph/r"; reserved_at = 4; bytes = 60 }) ∷ [];
  used = 60;
}

abbrev pub pending_store : Store
pending_store = record empty_store { jobs = (codes "j", scan_record) ∷ []; used = 60 }

abbrev pub ready_store : Store
ready_store = record empty_store { jobs = (codes "j", ready_record) ∷ []; used = 40 }

pub made_store : new (codes "/t") 1000 100 (some (codes "/t")) true true true ≡ ok empty_store
unfolding new scan2graph.Prelude.le64
made_store = refl

pub history : Reach clean empty_store ready_store
unfolding lookup reserve_locked admits scan2graph.Prelude.le64 scan2graph.Prelude.add64
    scan2graph.Prelude.sub64 str_eq commit_reservation scan2graph.Prelude.Dict.put make_room
    scan2graph.Prelude.Dict.delete scan2graph.Prelude.sort_by scan2graph.Prelude.lt64 doc_bytes
    set_status contains finished
history =
    next
      (next (next here (reserves 60 (some (codes "r")) 4 (λ i e. refl) (omega arith) refl)) (
        commits (codes "r") scan (codes "/t/scan2graph/r") (codes "/t/scan2graph/r/x" ∷ []) refl
          refl refl refl))
      (sets_status (codes "j") ready [] 6 (λ e. cc) refl)

pub reserved_books : Inv reserved_store
unfolding lookup reserve_locked admits scan2graph.Prelude.le64 scan2graph.Prelude.add64
    scan2graph.Prelude.Dict.put
reserved_books =
    reserve_locked-Inv empty_store 60 (some (codes "r")) 4 (λ i e. refl) (omega arith)
      (new-Inv (codes "/t") 1000 100 (some (codes "/t")) true true true made_store)

pub pending_books : Inv pending_store
unfolding lookup commit_reservation make_room scan2graph.Prelude.Dict.put
    scan2graph.Prelude.Dict.delete str_eq scan2graph.Prelude.le64
pending_books =
    commit_reservation-Inv reserved_store (codes "r") scan (codes "/t/scan2graph/r")
      (codes "/t/scan2graph/r/x" ∷ []) refl refl refl reserved_books

pub ready_books : Inv ready_store
ready_books =
    new_store_keeps_books clean (codes "/t") 1000 100 (some (codes "/t")) true true true made_store
      history

-- The store when a job of 80 bytes has come, which the first job gave way to.
abbrev later_scan : Job
later_scan = record scan { id = codes "k"; received_at = 9 }

abbrev later_record : JobRecord
later_record = record {
  job = later_scan;
  dir = codes "/t/scan2graph/r2";
  bytes = 80;
  files = codes "/t/scan2graph/r2/x" ∷ [];
}

abbrev tight_store : Store
tight_store = record ready_store {
  reservations =
      (codes "r2", record { dir = codes "/t/scan2graph/r2"; reserved_at = 7; bytes = 80 }) ∷ [];
  used = 120;
}

abbrev buried_store : Store
buried_store = record empty_store {
  jobs = (codes "j", buried_record) ∷ (codes "k", later_record) ∷ [];
  used = 80;
}

later_history : Reach clean empty_store buried_store
unfolding lookup reserve_locked admits scan2graph.Prelude.le64 scan2graph.Prelude.add64
    scan2graph.Prelude.sub64 str_eq commit_reservation scan2graph.Prelude.Dict.put make_room
    scan2graph.Prelude.Dict.delete scan2graph.Prelude.sort_by scan2graph.Prelude.lt64 doc_bytes
    set_status contains finished
later_history =
    next (next history (reserves 80 (some (codes "r2")) 7 (λ i e. refl) (omega arith) refl)) (
      commits (codes "r2") later_scan (codes "/t/scan2graph/r2") (codes "/t/scan2graph/r2/x" ∷ [])
        refl refl refl refl)

buried_books : Inv buried_store
buried_books =
    new_store_keeps_books clean (codes "/t") 1000 100 (some (codes "/t")) true true true made_store
      later_history

new_store_keeps_books_example : Inv buried_store
new_store_keeps_books_example =
    new_store_keeps_books clean (codes "/t") 1000 100 (some (codes "/t")) true true true made_store
      later_history

orderly_record :
    (rec : JobRecord)
    → some scan_record ≡ some rec
    → (doc_bytes rec.job.documents * 4 < half)
      × (finished ready ≡ false → finished rec.job.status ≡ false)
unfolding doc_bytes finished scan2graph.Prelude.add64
orderly_record rec found = let same : scan_record ≡ rec = cc in rw (← same) (omega arith, λ e. refl)

orderly_history : OrderlyReach clean empty_store ready_store
unfolding lookup reserve_locked admits scan2graph.Prelude.le64 scan2graph.Prelude.add64
    scan2graph.Prelude.sub64 str_eq commit_reservation scan2graph.Prelude.Dict.put make_room
    scan2graph.Prelude.Dict.delete scan2graph.Prelude.sort_by scan2graph.Prelude.lt64 doc_bytes
    set_status contains finished
orderly_history =
    Orderly.next
      (Orderly.next
        (Orderly.next Orderly.here
          (reserves 60 (some (codes "r")) 4 (λ i e. refl) (omega arith) refl) (omega arith))
        (commits (codes "r") scan (codes "/t/scan2graph/r") (codes "/t/scan2graph/r/x" ∷ []) refl
          refl refl refl)
        tt)
      (sets_status (codes "j") ready [] 6 (λ e. cc) refl) (λ rec found. orderly_record rec found)

new_store_keeps_to_budget_example : IsWithin ready_store
new_store_keeps_to_budget_example =
    new_store_keeps_to_budget clean (codes "/t") 1000 100 (some (codes "/t")) true true true
      made_store (omega arith) orderly_history

admits_iff_example :
    (admits ready_store 60 ≡ true)
    ↔ (charged ready_store + 60 ≤ ready_store.max_bytes + freeable ready_store)
unfolding charged scan2graph.Prelude.Dict.total
admits_iff_example = admits_iff ready_store 60 ready_books (omega arith) (omega arith)

-- Three jobs that cost more than the budget together, two of them finished.
abbrev full_store : Store
full_store = record empty_store {
  jobs =
      (
        codes "k",
        record { job = record later_scan { status = ready }; dir = []; bytes = 50; files = [] },
      )
      ∷ (
        codes "j",
        record { job = record scan { status = ready }; dir = []; bytes = 40; files = [] },
      )
      ∷ (
        codes "l",
        record { job = record later_scan { id = codes "l" }; dir = []; bytes = 50; files = [] },
      )
      ∷ [];
  used = 140;
}

full_ids : Unique full_store.jobs
unfolding str_eq
full_ids = ((refl, (refl, tt)), ((refl, tt), (tt, tt)))

make_room_evicts_oldest_example :
    (gone : List (Str × JobRecord)) × (kept : List (Str × JobRecord)) × (eviction_order full_store
      ≡ gone ++ kept)
    × Buried (make_room full_store).0 gone
    × Kept (make_room full_store).0 kept
    × All (λ e. All (λ c. e.1.job.received_at ≤ c.1.job.received_at) kept) gone
    × IsShortest 100 (held full_store) gone kept
make_room_evicts_oldest_example = make_room_evicts_oldest full_store full_ids

make_room-Survives_example :
    Survives
      (codes "j")
      (record { job = record scan { status = ready }; dir = []; bytes = 40; files = [] })
      (make_room full_store).0
unfolding lookup str_eq
make_room-Survives_example =
    make_room-Survives (codes "j")
      (record { job = record scan { status = ready }; dir = []; bytes = 40; files = [] }) full_store
      full_ids refl

tombstone_stays_example :
    Final (codes "j") buried_record (set_status clean buried_store (codes "j") ready [] 12).0
unfolding lookup str_eq
tombstone_stays_example =
    tombstone_stays clean (codes "j") buried_record buried_books refl refl
      (sets_status (codes "j") ready [] 12 (λ e. cc) refl)

clean_expired-get_example :
    (get (clean_expired ready_store 2000).0 (codes "j") 2000 ≡ get ready_store (codes "j") 2000)
    × ((lookup (codes "j") (clean_expired ready_store 2000).0.jobs ≡ none)
        ↔ (get ready_store (codes "j") 2000 ≡ none))
clean_expired-get_example = clean_expired-get ready_store (codes "j") 2000 ready_books

clean_expired-length_example :
    (clean_expired full_store 2000).1 + length (clean_expired full_store 2000).0.jobs
    ≡ length full_store.jobs
clean_expired-length_example = clean_expired-length full_store 2000

list_for_user_sound_example :
    All
      (λ j. (j.caps.web ≡ true) × (live j 9 ≡ true) × Shares (codes "a@b.c" ∷ []) j)
      (list_for_user full_store (codes "a@b.c" ∷ []) 9)
    × IsSortedBy received_after (list_for_user full_store (codes "a@b.c" ∷ []) 9)
list_for_user_sound_example = list_for_user_sound full_store (codes "a@b.c" ∷ []) 9

list_for_user_complete_example :
    Memᴰ (record scan { status = ready }) (list_for_user full_store (codes "a@b.c" ∷ []) 9)
unfolding lookup live contains str_eq
list_for_user_complete_example =
    list_for_user_complete full_store (codes "a@b.c" ∷ []) 9 (codes "j")
      (record { job = record scan { status = ready }; dir = []; bytes = 40; files = [] }) refl refl
      refl (codes "a@b.c", (λ e. cc), refl, refl)
