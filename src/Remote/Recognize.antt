-- ===== src/Remote/Recognize.antt =====
-- internal/docintel/docintel.go: a document goes to Document Intelligence and comes back searchable.
-- What the service answers is an argument, and so are the URLs of net/url.
pub mod Origin
pub mod Examples
use scan2graph.Prelude.{
  ℕ, Bool, true, false, not, ◌&&◌, ◌||◌, List, [], ◌∷◌, ◌++◌, Option, none, some, Str, codes,
  str_eq, if◌then◌else◌, is_empty, length, take, ltb,
}
use scan2graph.Config.Env.{UrlLibrary}

-- One answer to a poll: the request fails, the body is no operation status, or there is a status; and
-- whether the wait behind it is interrupted.
pub data PollReply : Type 0 where
  poll_fails undecodable : PollReply
  status : Str → Bool → PollReply

-- What the service does: the Operation-Location, if the document is taken, the replies to the polls
-- so far, the bytes of the result that can be copied, with whether the copying ends with an error,
-- and whether the first write succeeds.
pub record Service : Type 0 where
  pub analyze : Option Str
  pub replies : List PollReply
  pub result : Option (Str × Bool)
  pub writes : Bool

pub data Ending : Type 0 where
  still_polling recognized not_recognized : Ending

-- The URLs that were requested with the token, what was written, and how it ends.
pub record Recognition : Type 0 where
  pub asked : List Str
  pub written : Str
  pub ending : Ending

-- The loop of `poll`: the number of requests as a list of the one URL, and the result.
pub data Polled : Type 0 where
  waiting poll_error succeeded : Polled

unfoldable pub poll : List PollReply → Polled
unfolding str_eq
poll [] = waiting
poll (poll_fails ∷ rs) = poll_error
poll (undecodable ∷ rs) = poll_error
poll (status s interrupted ∷ rs) =
    let rest = poll rs in
    if str_eq s (codes "succeeded")
    then succeeded
    else if str_eq s (codes "failed") || str_eq s (codes "canceled")
    then poll_error
    else if interrupted
    then poll_error
    else rest

-- How often `poll` asks.
polls : Str → List PollReply → List Str
unfolding poll
polls loc [] = loc ∷ []
polls loc (poll_fails ∷ rs) = loc ∷ []
polls loc (undecodable ∷ rs) = loc ∷ []
polls loc (status s interrupted ∷ rs) =
    let rest = polls loc rs in
    if str_eq s (codes "succeeded")
      || str_eq s (codes "failed")
      || str_eq s (codes "canceled")
      || interrupted
    then loc ∷ []
    else loc ∷ rest

-- `SearchablePDF` once the body of the result is open.
unfoldable pub copy_result : List Str → Option (Str × Bool) → Bool → Recognition
unfolding str_eq
copy_result asked none writes = record { asked = asked; written = []; ending = not_recognized }
copy_result asked (some (bytes, breaks)) writes =
    let refused : Recognition = record { asked = asked; written = []; ending = not_recognized } in
    if ltb (length bytes) 5 || not (str_eq (take 5 bytes) (codes "%PDF-")) || not writes
    then refused
    else record {
      asked = asked;
      written = bytes;
      ending = if breaks then not_recognized else recognized;
    }

module _ (lib : UrlLibrary) where
  unfoldable pub same_origin : Option lib.Url → Option lib.Url → Bool
  unfolding str_eq
  same_origin none e = false
  same_origin (some u) none = false
  same_origin (some u) (some e) =
      str_eq (lib.scheme u) (lib.scheme e) && str_eq (lib.host u) (lib.host e)

  -- The URL of the result.
  unfoldable pub result_url : lib.Url → Str
  result_url u = lib.print (lib.with_path (lib.path u ++ codes "/pdf") u)

  -- What follows the polls.
  unfoldable pub fetch : List Str → Service → Polled → Option lib.Url → Recognition
  unfolding result_url copy_result
  fetch asked s waiting u = record { asked = asked; written = []; ending = still_polling }
  fetch asked s poll_error u = record { asked = asked; written = []; ending = not_recognized }
  fetch asked s succeeded none = record { asked = asked; written = []; ending = not_recognized }
  fetch asked s succeeded (some u) = copy_result (asked ++ result_url u ∷ []) s.result s.writes

  -- What follows the analyze request, for an Operation-Location.
  unfoldable pub follow : Str → Str → Str → Service → Recognition
  unfolding same_origin fetch poll polls
  follow endpoint analyze_url loc s =
      if is_empty loc || not (same_origin (lib.parse loc) (lib.parse endpoint))
      then record { asked = analyze_url ∷ []; written = []; ending = not_recognized }
      else fetch (analyze_url ∷ polls loc s.replies) s (poll s.replies) (lib.parse loc)

  -- What follows the analyze request, with the Operation-Location of its response.
  unfoldable pub begin : Str → Str → Service → Option Str → Recognition
  unfolding follow
  begin endpoint analyze_url s none = record {
    asked = analyze_url ∷ [];
    written = [];
    ending = not_recognized;
  }
  begin endpoint analyze_url s (some loc) = follow endpoint analyze_url loc s

  -- `SearchablePDF`; `analyze_url` is what analyzeURL makes of the endpoint.
  unfoldable pub searchable_pdf : Str → Str → Service → Recognition
  unfolding begin
  searchable_pdf endpoint analyze_url s = begin endpoint analyze_url s s.analyze
