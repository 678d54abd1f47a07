-- ===== src/Jobs/Types.antt =====
-- internal/jobs/job.go and the records of internal/jobs/store.go.
-- A string is the list of its code points, an int64 its bit pattern, an instant a number of
-- nanoseconds, and a `map[string]bool` the list of its true keys.
use scan2graph.Prelude.{◌≡◌, ◌⊎◌, refl, inl, inr, ℕ, Bool, List, Str}
use scan2graph.Prelude.Dict.{Dict}

pub record Capabilities : Type 0 where
  pub email : Bool
  pub web : Bool
  pub ocr : Bool

pub data Status : Type 0 where
  pending processing ready failed evicted : Status

pub record Document : Type 0 where
  pub id : Str
  pub display_name : Str
  pub path : Str
  pub size : ℕ
  pub ocr_applied : Bool

pub record Job : Type 0 where
  pub id : Str
  pub received_at : ℕ
  pub expires_at : ℕ
  pub profile : Str
  pub caps : Capabilities
  pub subject : Str
  pub recipients : List Str
  pub documents : List Document
  pub status : Status
  pub error : Str

pub record NewDocument : Type 0 where
  pub display_name : Str
  pub path : Str

pub record NewJob : Type 0 where
  pub profile : Str
  pub caps : Capabilities
  pub subject : Str
  pub recipients : List Str
  pub documents : List NewDocument

pub record JobRecord : Type 0 where
  pub job : Job
  pub dir : Str
  pub bytes : ℕ
  pub files : List Str

pub record Reservation : Type 0 where
  pub dir : Str
  pub reserved_at : ℕ
  pub bytes : ℕ

pub record Store : Type 0 where
  pub dir : Str
  pub ttl : ℕ
  pub max_bytes : ℕ
  pub jobs : Dict JobRecord
  pub reservations : Dict Reservation
  pub used : ℕ
  pub closed : Bool

pub data StagingState : Type 0 where
  staging_open staging_committed staging_aborted : StagingState

pub record Staging : Type 0 where
  pub id : Str
  pub dir : Str
  pub state : StagingState
  pub files : List Str

-- The errors of the package; those with no sentinel in the source are named for what they report.
pub data Error : Type 0 where
  capacity closed not_found : Error
  no_random no_directory no_file not_regular not_created reservation_gone : Error
  already_committed already_aborted no_documents : Error
  no_root bad_ttl bad_budget : Error

pub data Result {ℓ} (A : Type ℓ) : Type ℓ where
  ok : A → Result A
  err : Error → Result A

pub Result-cases {ℓ} :
    {A : Type ℓ} (r : Result A) → ((a : A) × (r ≡ ok a)) ⊎ ((e : Error) × (r ≡ err e))
Result-cases (ok a) = inl (a, refl)
Result-cases (err e) = inr (e, refl)

-- What a method asks of the disk once its critical section is over.
pub data DiskOp : Type 0 where
  remove_all : Str → DiskOp
  remove_file : Str → DiskOp

-- What `os.Lstat` finds at a path.
pub data FileInfo : Type 0 where
  missing irregular : FileInfo
  regular : ℕ → FileInfo

-- 15 minutes.
abbrev pub stale_reservation_after : ℕ
stale_reservation_after = 900000000000
