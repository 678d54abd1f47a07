-- ===== src/Lib.antt =====
-- scan2graph takes scans from a printer by SMTP, keeps them in a store on disk, and hands them on
-- by email through Microsoft Graph or by a web page, after OCR if the sender's profile asks for it.
--
-- The parts and how they interact. An SMTP session (internal/smtpin) reserves room in the store
-- (internal/jobs) before it reads a message, stages the attachments in the reservation's directory,
-- commits them as a job, and hands the job to the pipeline's queue (internal/pipeline). A worker
-- takes the job through OCR and mail, and leaves it ready for the web or deletes it. The attachments
-- come from a walk over the message's parts (internal/mimescan). The configuration (internal/config)
-- says who may send, to whom, and within which limits; it is read from the environment and from a
-- file that the setup wizard writes (internal/web). The pages (internal/web) show a scan to its
-- recipients, who sign in by OpenID Connect. Mail goes out through a client that retries
-- (internal/msapi, internal/graphmail), and OCR is done by a remote service (internal/docintel). A start
-- (cmd/scan2graph) serves, or opens the wizard.
--
-- Which file models what:
--   Jobs/Types, Jobs/Sanitize      internal/jobs/job.go and the records of internal/jobs/store.go
--   Jobs/Budget                    charge, admitsLocked, makeRoomLocked, docBytes
--   Jobs/Reserve                   New, Reserve, releaseReservation, commitReservation, Close
--   Jobs/Read                      Get, ListForUser, CleanExpired, Len, the interval of Run
--   Jobs/Update                    SetStatus, ReplaceDocument, CreateFile, Delete
--   Jobs/Stage                     Staging: CreateFile, Commit, Abort
--   Jobs/History                   the interleavings of the store's methods, as a step relation
--   Config/Types, Config/Address   internal/config/config.go: Config, Profile, NormalizeAddress,
--                                  RecipientAllowed, AnyOCR
--   Config/Loader                  internal/config/config.go: profiles, domains, parseDomains,
--                                  validDomain, smtpAuth, the check of limits
--   Config/Choices                 internal/config/config.go: logLevel, logFormat, tenantURL,
--                                  smtpAuthMode
--   Config/Env, Config/Urls        internal/config/env.go: resolve, the getters, parseBaseURL
--   Config/File                    internal/config/file.go: ParseFile, Layer, FileEnv
--   Config/Settings, Config/Services, Config/Load
--                                  internal/config/config.go: Load and graphSender
--   Mimescan                       internal/mimescan/mimescan.go: Extract, walk, leaf
--   Smtp/Session                   internal/smtpin/session.go: Reset, Logout, Mail, Rcpt, Data
--   Smtp/Auth                      internal/smtpin/session.go: authenticate, the server of LOGIN
--   Web/Sessions                   internal/web/session.go: create, get, drop
--   Web/Pages                      internal/web/web.go: guard, job, the handlers
--   Web/SignIn                     internal/web/auth.go: handleCallback, handleLogout, identities
--   Web/Door                       internal/web/setup.go: authenticate, holder, tokenOK, start, the
--                                  routes of NewSetup, the gate of submit
--   Web/Setup                      internal/web/setup.go: quoteValue, redirectURI, serialize
--   Remote/Retry                   internal/msapi/msapi.go: Do, RetryAfter, backoff
--   Remote/Upload                  internal/graphmail: the way of Send, attach
--   Remote/Recognize               internal/docintel/docintel.go: SearchablePDF, poll, sameOrigin
--   Start                          cmd/scan2graph/main.go: runDefaultMode, configSource,
--                                  worthProtecting, the gate of wizard; marker.go: consumeMarker;
--                                  internal/web/setupfields.go: AnyConfigured
--   Pipeline                       internal/pipeline/pipeline.go: Enqueue and process
-- The other modules hold proofs, and those named Examples the tests. Prelude has the words of 64
-- bits, strings, sorting and maps that the parts share.
--
-- How the code is modelled. A string is the list of its code points. An int64 is its bit pattern
-- below 2 ^ 64, with the wrap-around of addition and subtraction written out and signed comparisons;
-- an instant is a number of nanoseconds. A Go map is an association list whose order is arbitrary,
-- so that what is shown of a sorted traversal holds for every order in which Go walks the map. A
-- method is a function from the store to the store, the result, and the removals that it asks of
-- the disk. Where a method unlocks the store between two critical sections, what the other
-- goroutines do in between is an argument. The answers of the disk, of crypto/rand, of the clock, of
-- the OCR service and of the mailer are arguments too, as are the tables of the package unicode.
-- net/url, time.ParseDuration, the parsing of MIME headers, oauth2 and go-oidc, encoding/hex and
-- SHA-256 are parameters. A message comes as the tree of its parts, with how the reading of each body
-- ends, and the requests to the wizard are interleaved by a schedule of their critical sections. The
-- loops are over lists and trees, but for the upload of an attachment, which has the size of the file
-- as fuel, enough since each chunk has a byte, and the retries, which count down from four.
--
-- What is not modelled: the decoding of JSON (Load has what ParseProfiles gives as an argument), the
-- decoding of MIME bodies, the texts of errors, what buildMessage composes, the requests of drafts,
-- the roles of a token, the start of a sign-in, the templates and the forms of the setup wizard,
-- go-sasl's server of PLAIN, the process once it listens, logging, and the effect of removing a file.
pub mod Prelude
pub mod Config
pub mod Jobs
pub mod Mimescan
pub mod Remote
pub mod Smtp
pub mod Pipeline
pub mod Web
pub mod Start
