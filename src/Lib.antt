-- ===== src/Lib.antt =====
-- Callora: a model of the server's core logic, apps/api/src, with the types of packages/contracts.
--
-- The program. Employees' telephones are paired with an organization, report their calls, and
-- show up in leads, follow-ups and figures. The server keeps all state in a repository; the
-- in-memory one of apps/api/src/repository.ts is the one modelled here. HTTP routes call its
-- methods, one at a time: each method runs to its end before another starts, so a call is a
-- function from a state and options to a state and an outcome.
--
-- The files.
--   Base: Boolean tests, arrays (Base/Lists, Base/Sorting, Base/Members), JavaScript maps as lists of entries in
--     insertion order (Base/Dict, Base/Dict/Keys), template strings (Base/Text), and how a method
--     ends (Base/Outcome): it resolves to a value, resolves to `undefined` (`missing`) or throws.
--   Contracts: the records and unions of packages/contracts/src, by file.
--   Domain, Repository: the types of apps/api/src/domain.ts, and the repository's maps with the
--     counter of its id generator.
--   Mobile: the trust protocol of telephones. Credentials resolves bearer tokens
--     (findCurrentMobileCredential, resolveDeviceCredential and the like); PairingCheck and
--     Pairing are pairing codes and redeemPairingCode; Consent and Activation are
--     activateMobileDevice and reconsentMobileDevice; Rotation is the two steps of a session
--     rotation; Heartbeat, Revocation, AdminRevocation and Suspension are the other calls.
--     Lifetime and its children say what no sequence of these calls and of ingestions undoes;
--     Replay says what a repeated request gets; Denial and Enrolment are about single calls.
--   Lead: canAccessLead and its relatives (Access), what a scope reaches (Scopes), what is shown of a lead (Detail), notes and
--     activities (Entries), createLead (Create, Creation), updateLead (Update), follow-ups
--     (FollowUps, Schedule), applyMobileLeadUpdate
--     (MobileAdmit, MobileUpdate, MobileReplay); Changes is about versions and organizations.
--   Calls: linkCallToUniqueLead (Link), ingestCall (Single), ingestMobileCallBatch (Batch) and
--     correctCallLeadLink (Correction, Corrected).
--     Index is what the maps of external ids keep, Register the contract of a batch, Refinement
--     that the code meets it; Again, Resend and Totality are about repeated and failing requests,
--     Links about the linked lead, Frame about what a batch leaves alone.
--   Listing: listCalls, listEmployees, listLeads and the statuses (Calls, Employees, Leads), on
--     Base/Paging: a page behind a cursor, and why the pages together are the listing.
--   Rules: assignment rules. Match is matchingRules, Edit creates and updates rules, DryRun and
--     Assign are the dry run and the application; Totals, Changes and Replay are about them.
--   Limiter: PairingAttemptLimiter of apps/api/src/security.ts.
--   Analytics: callKpis of apps/api/src/analytics.ts (Figures) and how its figures relate
--     (Consistency).
--   Scenario and Tests modules hold test data and runs on it.
--
-- How the model corresponds to the code. Names are the source's in snake case. An operation that
-- reads and then writes is a chain of checks, `admit_…`, and a function for its writes,
-- `commit_…` or `write_…`, put together by `commit_if`, `run_if` and, where a request ID answers
-- repetitions, `once`. The code changes stored objects in place; the model writes the changed
-- object back under the key it was found at. A change that the code makes before it throws stays
-- in the model's state too (`run_if`). `clone` is the identity here. The stored `response` of a
-- request is the union of the five results it may hold.
--
-- Conventions and bounds. A timestamp is its instant in milliseconds since 1970, a native natural
-- number: the code compares canonical UTC timestamps, for which the order of texts is the order of
-- instants. Counters and versions are natural numbers; the code's stay far below 2 ^ 53. Fuel is
-- used by `pad_decimal`, which is given more than the number of digits, and by `collect`, a client
-- that follows cursors, which is not code of the repository and is given more than the number of
-- entries. Text comparison by the platform's locale is the record `Locale`, trimming and searching
-- the record `Searching`, the digest of a reported call a function, the double-precision numbers of
-- a percentage the record `Doubles`: they are parameters. The clients choose their tokens, and a
-- pairing stores its bootstrap token whatever stands under its hash; the ids of credentials come
-- from the server's generator and are taken as not yet in use. Fields that hold one constant, such
-- as `purpose`, are left out. JSON numbers are natural numbers, the
-- ones that the modelled code writes; so are the priorities of rules. A lead that a call or a rule
-- changes is written under its own id, where `createLead` puts it.
--
-- Not modelled: HTTP routes and their decoding, the PostgreSQL repository, authentication,
-- encryption, rendering, mail and storage (calls of other software); the web, Android and iOS
-- applications; lead import, reports and the rest of analytics.

pub mod Base
pub mod Contracts
pub mod Domain
pub mod Repository
pub mod Mobile
pub mod Lead
pub mod Limiter
pub mod Calls
pub mod Listing
pub mod Rules
pub mod Analytics
