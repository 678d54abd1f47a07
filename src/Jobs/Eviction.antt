-- ===== src/Jobs/Eviction.antt =====
-- Which jobs makeRoomLocked evicts.
use scan2graph.Prelude.{
  ℕ, ◌≤◌, ◌≡◌, ◌⊎◌, refl, true, false, List, [], ◌∷◌, some, Str, arith, Bool-cases, inl, inr, le64,
  sub64, sort_by, All, IsSortedBy, All-sort_by, str_eq_refl, sort_by-IsSortedBy, IsSortedBy-append,
  All-map, ◌++◌, ap,
}
use scan2graph.Prelude.Dict.{lookup, Unique, lookup-put}
use scan2graph.Jobs.Types.{JobRecord, Store}
use scan2graph.Jobs.Budget.{
  finished, held, is_candidate, candidates, received_before, charge, tombstone, evict, evict_until,
  make_room,
}
use scan2graph.Jobs.Budget.Room.{
  evict_until-keeps, Evictable, Evictable-put, candidates-Evictable, candidates-Unique,
  sort_by-Unique,
}
use scan2graph.Jobs.Tombstone.{grave, evict-Survives}

-- The candidates, oldest first.
abbrev pub eviction_order : Store → List (Str × JobRecord)
eviction_order s = sort_by received_before (candidates s.jobs)

eviction_order-IsSortedBy : (s : Store) → IsSortedBy received_before (eviction_order s)
unfolding received_before
eviction_order-IsSortedBy s =
    sort_by-IsSortedBy received_before (λ a b h. ground arith) (λ a b c h k. ground arith)
      (candidates s.jobs)

-- The candidates that gave way and those that stayed, in the store that making room has left.
abbrev pub Buried : Store → List (Str × JobRecord) → Type 0
Buried t = All λ e. lookup e.0 t.jobs ≡ some (grave e.1)

abbrev pub Kept : Store → List (Str × JobRecord) → Type 0
Kept t = All λ e. lookup e.0 t.jobs ≡ some e.1

-- From `h` bytes on, each job that gives way does so while the bytes held are above the limit, and
-- the next one stays because they are not, or there is none.
unfoldable pub IsShortest : ℕ → ℕ → List (Str × JobRecord) → List (Str × JobRecord) → Type 0
IsShortest max h [] kept = (le64 h max ≡ true) ⊎ (kept ≡ [])
IsShortest max h ((k, rec) ∷ gone) kept =
    (le64 h max ≡ false) × IsShortest max (sub64 h rec.bytes) gone kept

abbrev Split : ℕ → ℕ → List (Str × JobRecord) → Store → Type 0
Split max h cs t =
    (gone : List (Str × JobRecord)) × (kept : List (Str × JobRecord)) × (cs ≡ gone ++ kept)
    × Buried t gone
    × Kept t kept
    × IsShortest max h gone kept

Kept-of_Evictable : (cs : List (Str × JobRecord)) (s : Store) → Evictable s.jobs cs → Kept s cs
Kept-of_Evictable [] s v = tt
Kept-of_Evictable (c ∷ cs) s v = (v.0.0, Kept-of_Evictable cs s v.1)

grave-evict :
    (id : Str) (rec : JobRecord) (k : Str) (r : JobRecord) (s : Store)
    → lookup k s.jobs ≡ some r
    → is_candidate r ≡ true
    → lookup id s.jobs ≡ some (grave rec)
    → lookup id (evict k r s).jobs ≡ some (grave rec)
unfolding finished tombstone
grave-evict id rec k r s found c h =
    ground (arith, evict-Survives id (grave rec) k r s found c (inl h))

evict-grave :
    (k : Str) (rec : JobRecord) (s : Store) → lookup k (evict k rec s).jobs ≡ some (grave rec)
unfolding evict charge
evict-grave k rec s = ground (arith, lookup-put k k (grave rec) s.jobs, str_eq_refl k)

evict_until-Split :
    (h : ℕ) (cs : List (Str × JobRecord)) (s : Store)
    → Evictable s.jobs cs
    → Unique cs
    → Split s.max_bytes h cs (evict_until h cs s).0
unfolding evict_until IsShortest
evict_until-Split h [] s v u = ([], [], refl, tt, tt, inr refl)
evict_until-Split h ((k, rec) ∷ cs) s v u =
    let v' : Evictable (evict k rec s).jobs cs =
      unfold evict in Evictable-put k (grave rec) s.jobs cs u.0 v.1 in
    let (gone, kept, e, buried, same, least) =
      evict_until-Split (sub64 h rec.bytes) cs (evict k rec s) v' u.1 in
    elim (Bool-cases (le64 h s.max_bytes)) [
      | inl fits ↦
          rw fits ([], (k, rec) ∷ cs, refl, tt, Kept-of_Evictable ((k, rec) ∷ cs) s v, inl fits)
      | inr full ↦ rw full (
        (k, rec) ∷ gone,
        kept,
        ap (λ l. (k, rec) ∷ l) e,
        (
          evict_until-keeps (λ t. lookup k t.jobs ≡ some (grave rec)) (grave-evict k rec)
              (sub64 h rec.bytes) cs (evict k rec s) v' u.1 (evict-grave k rec s),
          buried,
        ),
        same,
        (full, least),
      )
    ]

make_room-Split :
    (s : Store) → Unique s.jobs → Split s.max_bytes (held s) (eviction_order s) (make_room s).0
unfolding make_room IsShortest
make_room-Split s u =
    let v = All-sort_by received_before _ (candidates s.jobs) (candidates-Evictable s.jobs u) in
    elim (Bool-cases (le64 (held s) s.max_bytes)) [
      | inl fits ↦ rw fits ([], eviction_order s, refl, tt, Kept-of_Evictable _ s v, inl fits)
      | inr full ↦ rw full (
          evict_until-Split (held s) (eviction_order s) s v
            (sort_by-Unique received_before (candidates s.jobs) (candidates-Unique s.jobs u)))
    ]

IsOlder-of-sorted :
    (gone kept : List (Str × JobRecord))
    → IsSortedBy received_before (gone ++ kept)
    → All (λ e. All (λ c. e.1.job.received_at ≤ c.1.job.received_at) kept) gone
unfolding received_before
IsOlder-of-sorted gone kept o =
    All-map _ _ gone (λ e h. All-map _ _ kept (λ c b. ground arith) h)
      (IsSortedBy-append received_before gone kept o)

-- Of the finished jobs that cost something, making room buries some and leaves the others as they
-- are, and no job that is left was received before one that is buried. No more give way than have
-- to: each is buried while the bytes held, less those of the ones before it, are above the limit,
-- and where one is left, they no longer are. Ids are distinct.
pub make_room_evicts_oldest :
    (s : Store)
    → Unique s.jobs
    → (gone : List (Str × JobRecord)) × (kept : List (Str × JobRecord)) × (eviction_order s
        ≡ gone ++ kept)
      × Buried (make_room s).0 gone
      × Kept (make_room s).0 kept
      × All (λ e. All (λ c. e.1.job.received_at ≤ c.1.job.received_at) kept) gone
      × IsShortest s.max_bytes (held s) gone kept
make_room_evicts_oldest s u =
    let (gone, kept, e, buried, same, least) = make_room-Split s u in
    (
      gone,
      kept,
      e,
      buried,
      same,
      IsOlder-of-sorted gone kept (rw e at (eviction_order-IsSortedBy s)),
      least,
    )
