-- ===== src/Jobs/Invariant/Room.antt =====
-- Charging a record and making room keep the invariant.
use scan2graph.Prelude.{ℕ, ◌≡◌, refl, some, Str, arith, settle-mod}
use scan2graph.Prelude.Dict.{
  lookup, Every-lookup, Every-put, Unique-put, total-put, le-total, lookup-ne-nil,
}
use scan2graph.Jobs.Types.{JobRecord, Store}
use scan2graph.Jobs.Budget.{finished, charge, tombstone, evict, make_room}
use scan2graph.Jobs.Budget.Room.{make_room-keeps}
use scan2graph.Jobs.Update.{is_failed}
use scan2graph.Jobs.Invariant.{Inv, IsSound, charged}
use scan2graph.Jobs.Budget.Held.{job_bytes}

-- The record that is charged may be a new version of the one in the map, at the same cost.
pub charge-Inv :
    (k : Str) (old rec : JobRecord) (n : ℕ) (s : Store)
    → lookup k s.jobs ≡ some old
    → rec.bytes ≡ old.bytes
    → IsSound (record rec { bytes = n })
    → Inv s
    → Inv (charge k rec n s)
unfolding charge charged
charge-Inv k old rec n s found same sound v = record {
  accounted = ground (
    arith,
    settle-mod (charged s) rec.bytes n,
    total-put job_bytes k (record rec { bytes = n }) s.jobs found,
    le-total job_bytes k s.jobs found,
    Every-lookup IsSound k s.jobs v.sound found,
  );
  sound = Every-put IsSound k _ s.jobs sound v.sound;
  words = v.words;
  unique_jobs = Unique-put k _ s.jobs v.unique_jobs;
  unique_reservations = v.unique_reservations;
  emptied = λ c. absurd (lookup-ne-nil k s.jobs found (v.emptied c).0);
}

evict-Inv :
    (k : Str) (rec : JobRecord) (s : Store)
    → lookup k s.jobs ≡ some rec
    → Inv s
    → Inv (evict k rec s)
unfolding evict tombstone finished is_failed
evict-Inv k rec s found v = charge-Inv k rec (tombstone rec) 0 s found refl (ground arith) v

pub make_room-Inv : (s : Store) → Inv s → Inv (make_room s).0
make_room-Inv s v =
    make_room-keeps Inv (λ k rec s found _ v. evict-Inv k rec s found v) s v.unique_jobs v
