-- ===== src/Jobs/Budget/Room.antt =====
-- The records that makeRoomLocked evicts, one after another.
use scan2graph.Prelude.{
  ℕ, str_eq_refl, ◌≡◌, refl, inl, inr, Bool, true, false, List, [], ◌∷◌, some, Str, str_eq,
  str_eq_iff, arith, All, Bool-cases, le64, sub64, insert_by, sort_by, All-insert_by, All-sort_by,
}
use scan2graph.Prelude.Dict.{Dict, lookup, put, Lacks, Unique, lookup-put}
use scan2graph.Jobs.Types.{JobRecord, Store}
use scan2graph.Jobs.Budget.{
  held, is_candidate, candidates, received_before, evict, evict_until, make_room,
}

-- Entries of the map that may be evicted.
abbrev pub Evictable : Dict JobRecord → List (Str × JobRecord) → Type 0
Evictable m = All λ e. (lookup e.0 m ≡ some e.1) × (is_candidate e.1 ≡ true)

Evictable-cons :
    (k : Str) (rec : JobRecord) (m : Dict JobRecord) (cs : List (Str × JobRecord))
    → Lacks k cs
    → Evictable m cs
    → Evictable ((k, rec) ∷ m) cs
unfolding lookup
Evictable-cons k rec m [] l h = tt
Evictable-cons k rec m ((j, r) ∷ cs) l h =
    ((ground (arith, str_eq_iff k j, str_eq_iff j k), h.0.1), Evictable-cons k rec m cs l.1 h.1)

Lacks-candidates : (k : Str) (m : Dict JobRecord) → Lacks k m → Lacks k (candidates m)
unfolding candidates
Lacks-candidates k [] l = tt
Lacks-candidates k ((j, rec) ∷ m) l = ground (arith, Lacks-candidates k m l.1)

pub candidates-Unique : (m : Dict JobRecord) → Unique m → Unique (candidates m)
unfolding candidates
candidates-Unique [] u = tt
candidates-Unique ((k, rec) ∷ m) u =
    ground (arith, Lacks-candidates k m u.0, candidates-Unique m u.1)

pub candidates-Evictable : (m : Dict JobRecord) → Unique m → Evictable m (candidates m)
unfolding candidates lookup
candidates-Evictable [] u = tt
candidates-Evictable ((k, rec) ∷ m) u =
    let rest =
      Evictable-cons k rec m (candidates m) (Lacks-candidates k m u.0)
        (candidates-Evictable m u.1) in
    elim (Bool-cases (is_candidate rec)) [
      | inl e ↦ rw e ((rw (str_eq_refl k) refl, e), rest)
      | inr e ↦ rw e rest
    ]

-- The other candidates are in the map as before when one is evicted.
pub Evictable-put :
    (k : Str) (rec : JobRecord) (m : Dict JobRecord) (cs : List (Str × JobRecord))
    → Lacks k cs
    → Evictable m cs
    → Evictable (put k rec m) cs
Evictable-put k rec m [] l h = tt
Evictable-put k rec m ((j, r) ∷ cs) l h = (
  (ground (arith, lookup-put k j rec m, str_eq_iff k j, str_eq_iff j k), h.0.1),
  Evictable-put k rec m cs l.1 h.1,
)

insert_by-Unique :
    (before : Str × JobRecord → Str × JobRecord → Bool) (e : Str × JobRecord)
    (cs : List (Str × JobRecord))
    → Lacks e.0 cs
    → Unique cs
    → Unique (insert_by before e cs)
unfolding insert_by
insert_by-Unique before e [] l u = (tt, tt)
insert_by-Unique before e (c ∷ cs) l u = elim (Bool-cases (before c e)) [
  | inl b ↦ rw b (
    All-insert_by before (λ x. str_eq x.0 c.0 ≡ false) e cs
        (ground (arith, str_eq_iff c.0 e.0, str_eq_iff e.0 c.0)) u.0,
    insert_by-Unique before e cs l.1 u.1,
  )
  | inr b ↦ rw b (l, u)
]

pub sort_by-Unique :
    (before : Str × JobRecord → Str × JobRecord → Bool) (cs : List (Str × JobRecord))
    → Unique cs
    → Unique (sort_by before cs)
unfolding sort_by
sort_by-Unique before [] u = tt
sort_by-Unique before (c ∷ cs) u =
    insert_by-Unique before c (sort_by before cs)
      (All-sort_by before (λ x. str_eq x.0 c.0 ≡ false) cs u.0) (sort_by-Unique before cs u.1)

-- What one eviction keeps, making room keeps.
module _ (P : Store → Type 0)
    (keeps : (k : Str) (rec : JobRecord) (s : Store)
      → lookup k s.jobs ≡ some rec
      → is_candidate rec ≡ true
      → P s
      → P (evict k rec s)) where
  pub evict_until-keeps :
      (h : ℕ) (cs : List (Str × JobRecord)) (s : Store)
      → Evictable s.jobs cs
      → Unique cs
      → P s
      → P (evict_until h cs s).0
  unfolding evict_until
  evict_until-keeps h [] s v u p = p
  evict_until-keeps h ((k, rec) ∷ cs) s v u p = elim (Bool-cases (le64 h s.max_bytes)) [
    | inl e ↦ rw e p
    | inr e ↦ rw e (
        evict_until-keeps (sub64 h rec.bytes) cs (evict k rec s)
          (unfold evict in Evictable-put k _ s.jobs cs u.0 v.1) u.1 (keeps k rec s v.0.0 v.0.1 p))
  ]

  pub make_room-keeps : (s : Store) → Unique s.jobs → P s → P (make_room s).0
  unfolding make_room
  make_room-keeps s u p = elim (Bool-cases (le64 (held s) s.max_bytes)) [
    | inl e ↦ rw e p
    | inr e ↦ rw e (
        evict_until-keeps (held s) _ s
          (All-sort_by received_before _ (candidates s.jobs) (candidates-Evictable s.jobs u))
          (sort_by-Unique received_before (candidates s.jobs) (candidates-Unique s.jobs u)) p)
  ]
