-- ===== src/Lib.antt =====
-- Models of La Baia Cinghiala, a media library that a household shares: a Node server with its
-- accounts, paired devices and media, and the pages that a browser or a shell shows.
--
-- Parts and files:
--   * Player, over public/js/music-player-state.js: the state of the music player in the browser.
--     createPlayerState keeps its variables in a closure; here they are the record `Player`, and
--     each method is a function from a player to a player and what the method returns. normalizeTrack
--     is Player/Tracks, appendTracks, moveTrack, removeTrack and clearQueue are Player/Edits, next,
--     previous and snapshot are Player/Playback, and the rest is Player. Player/Actions has the
--     methods as a data type, for sequences of calls; Moving and Shifts are about moveTrack.
--   * DeviceAuth, over src/services/device-auth-service.js: the check of the signature that a paired
--     device puts on each request, with the cache of nonces that the middleware keeps in memory, and
--     in DeviceAuth/Media of the media URLs that a device signs; DeviceAuth/Signed is about the signature
--     of a request.
--   * Accounts, over src/services/account-service.js, and Accounts/Sections, over
--     src/services/account-section-service.js: the accounts table, the sections granted to each
--     account and the operations on them; Accounts/Rows has the checks and the changes of single rows.
--     Accounts/Requests has the operations as a data type.
--     Accounts/Versions is about the column auth_version, Accounts/Archived about the name of a deleted
--     account, Accounts/Own about an administrator's own account.
--   * Pairing, over src/services/pairing-service.js: the invites of an administrator, their redemption
--     by a device, which signs its request (Pairing/Tokens), and the revocation of both.
--     Pairing/Actions has the operations as a data type. Lifecycle follows one invite, Once is about
--     invites that are spent, Access about the device at DeviceAuth, Roundtrip about tokens.
--   * Sessions, over src/services/account-auth-service.js: which account a device is signed in to, and
--     in Sessions/Credentials the login and the change of one's own password. Validity, Expiry,
--     Logins and Callers have the theorems.
--   * Administration, over src/services/account-admin-service.js: what an administrator does to
--     accounts, and in Administration/Actions the operations as a data type. Actor is about the
--     administrator's own account, Unbound about devices that are signed out.
--   * RateLimit, over LoginRateLimiter of src/services/account-auth-service.js. Guesses is about logins one
--     after the other, Release about logins side by side.
--   * Access, over src/middleware/account-access.js: which requests of an account pass. Routes has
--     what src/routes/movies.js and src/routes/user-state.js answer at a path, Paths the lemmas on ids
--     in paths; Granted and Shown have the theorems.
--   * LocalAdmin, over src/middleware/local-admin-access.js: whether a request comes from a browser on
--     the server's own machine; the theorem is in LocalAdmin/Local.
--   * Gate, over src/middleware/device-auth.js: who sends a request. Gate/Known has the theorems.
--   * Server, over src/app.js and src/middleware/account-auth.js: the order of these checks before each
--     router. Order says which routers stand before which check, Admitted and Administrators have the
--     theorems.
--   * Playlists, over src/services/music-playlist-service.js: the playlists of a profile, and in
--     Playlists/Edits the order of their tracks. Playlists/Actions has the operations as a data type.
--     Offset and Positions are about compactPlaylistPositions, Rows, Ids and Lookups have the lemmas of Removal
--     and Reordering; Adding is about new tracks. Dense, Compaction, Ordered, Insertion, Deletions
--     and Preserved lead to the theorem of Actions.
--   * Listening, over public/js/music-listening-state.js: how much of a track the page counts as
--     listened to; the theorems are in Listening/Credit and, on the ids of sessions, in Listening/Ids.
--   * PlayHistory, over src/services/music-listening-service.js: what the server counts of these
--     reports, which PlayHistory/Reports checks. Rows and Kept have lemmas on the rows, Counts and Sound
--     the theorems; Credited is about the page's reports.
--   * Favorites, over src/services/music-favorite-service.js: the tracks that a profile marked; Marks has
--     the theorem.
--   * Timeouts, over src/http-timeouts.js: the deadlines of a request as a state machine over the events
--     of node:http; the theorems are in Timeouts/Deadlines.
--   * Ranges, over src/utils/range.js: the Range header of a request for a file.
--   * Store: the rows of the tables accounts, account_section_access, paired_devices and
--     pairing_invites.
--   * Samples: accounts, devices and platform functions that the tests share.
--   * Common: lists, counting, strings, results and JavaScript numbers.
-- An invite pairs a device (Pairing), a login binds it to an account (Sessions). For each request
-- Server asks Gate who sends it, which asks DeviceAuth or LocalAdmin, then Sessions for which account,
-- and Access whether the account may see the path; the routes of an administrator call Administration,
-- which calls Accounts, and Pairing. The player
-- knows none of them: it gets the tracks from the server's catalogue.
--
-- How values stand:
--   * A string is a list of UTF-16 code units. `String(value || '')` of a missing value is `none`.
--   * A number that a caller gives is a `JsNumber`: not finite, negative, or an amount. Math.random is
--     a stream of such numbers, in thousand-millionths, the precision at which shuffle cuts it off;
--     a player counts the numbers it has drawn. Durations are whole seconds; times of Pairing,
--     Sessions, RateLimit and Listening are milliseconds.
--   * An error that is thrown is a value of `Result`. A transaction that fails leaves the tables as
--     they were. A query is a function on the list of rows, an UPDATE maps the rows, and a UNIQUE
--     constraint is a check before the write.
--   * The clock and crypto.randomUUID are arguments; times are natural numbers. A negative timestamp
--     is refused at once, which is what the clock skew does once the clock is past its first 90
--     seconds.
--   * What the middleware reads of an Express request is the record `HttpRequest`, and new URL, net.isIP
--     and Number of a text are the record `Web`, of which nothing is assumed.
--   * Base64url and Ed25519 of node:crypto are the record `Crypto`; Unicode normalisation, lower case
--     and the pattern of a username are the record `Unicode`; `PairingCrypto` adds SHA-256, and
--     `Passwords` is the check of password hashes. Nothing is assumed of them but what the
--     theorems on invite tokens and on the names of deleted accounts say.
--   * Where a function awaits a password hash, other requests run: the tables before and after the
--     wait are two arguments.
--
-- Bounds and fuel: the loop of availableDeletedUsername runs on fuel, and database_error is its end.
-- The candidates after the first differ in their numbers, so that two tries more than there are rows
-- are enough, which Accounts/Archived shows. All other loops are recursions on lists and numbers.
--
-- Not modelled: the migrations of old tables and of legacy profiles, and the lists and views that
-- pages show, which are SQL; uploads, library scans and metadata, which work on files; the routes,
-- which hand requests from Express on to the services; the pages, which work on the DOM;
-- the relay, which is transport, and the shells, which are Rust; bookmarks, playlist drafts and safe
-- file names, which are small and which no part modelled here relies on.
pub mod Common
pub mod Store
pub mod Player
pub mod DeviceAuth
pub mod Accounts
pub mod Pairing
pub mod RateLimit
pub mod Sessions
pub mod Access
pub mod Playlists
pub mod Listening
pub mod PlayHistory
pub mod Favorites
pub mod Timeouts
pub mod Administration
pub mod LocalAdmin
pub mod Gate
pub mod Server
pub mod Samples
pub mod Ranges
