-- ===== src/Lib.antt =====
-- A model of the credits, payments, jobs and sessions of the neura-gen backend, and its correctness.
--
-- Neura-gen is a NestJS service over one PostgreSQL database (prisma/schema.prisma). Users buy
-- credits and PRO time, spend credits on video jobs, and get them back when a job fails or is
-- cancelled. Several services write the same wallets: a payment gateway calls back at any time,
-- a worker finishes jobs, a user cancels them.
--
-- The parts:
--   Base      Boolean tests, options, integers over the native numbers, tables by key.
--   Store     the database as a record of tables (Rows: the enums and rows of the schema), a service
--             call as a function from the database to its result and the database after it (Monad:
--             exceptions keep what was written, $transaction rolls back), and rules of proof (Rules).
--   Js        values of JSON and the coercions of src/modules/billing/billing.service.ts.
--   Credits   wallets, the ledger of credit transactions, refundCreditIfMissing of
--             src/modules/jobs/jobs.service.ts and refundFailedJob of src/workers/video.worker.ts.
--   Ledger    the books: their agreement, the abstract machine, and its invariants.
--   Users     topUpMyCredits and remove of src/modules/users/users.service.ts, and the user.create
--             of register and registerWithGoogle in src/modules/auth/auth.service.ts.
--   Auth      src/modules/auth/auth.service.ts: Store (accounts, sessions, reset tokens, and the
--             wallets and the ledger as one field), Tokens (what is signed and hashed, and when it
--             ends), Sessions (register, login, refreshTokens, logout, logoutAll), Passwords
--             (changePassword, forgotPassword, resetPassword), Google (loginWithGoogle,
--             registerWithGoogle, linkGoogleAccount), Codes (the auth codes in Redis), History (all
--             calls in any order).
--   Billing   src/modules/billing: Catalog (billing.catalog.ts), and of billing.service.ts Orders
--             (createOrder, createMomoPayment, createPayosPayment), Paid (markOrderPaid), Momo
--             (handleMomoIpn), Payos (handlePayosWebhook), Sync (syncPayosOrderStatus, syncMyOrder, the
--             loop of listMyOrders). Their children are about the checks of a notification
--             (Authentic), the outcomes of markOrderPaid (Paid.Effect, Marking, Once, Pro), the order
--             codes of payOS (Orders.Codes).
--   Jobs      src/modules/jobs: Catalog (video-generation.catalog.ts), and of jobs.service.ts Create
--             (createVideoJob; Terms has what it computes) and Cancel (cancelJob). Charge is about
--             what createVideoJob charges, Cancel.Once about the refund of a cancellation.
--   Posts     posts.service.ts of src/modules/posts, Likes (src/modules/post-likes), Comments
--             (src/modules/comments), History (their calls in any order), Counters (likeCount and
--             commentCount against the rows that they count).
--   Pages     findFollowers and findFollowings of src/modules/follows, findUsers of
--             src/modules/post-likes, findComments of src/modules/comments: one page, and (Walk) all.
--   Worker    src/workers/video.worker.ts: Breaker (the circuit breaker of the provider Vast), Plan
--             (executeProviderPlan), Task (the state of a run: the database, the storage, local
--             variables), Steps (setStatus, ensureJobNotCancelled, cleanupOutputArtifacts,
--             resolveInputAsset), Pipeline (the try of handle; its inserts meet the unique
--             constraints of prisma/schema.prisma), Handle (its catch, and handle).
--   System    the modelled calls over one database, in any order (run, run_all), but for the removal
--             of an account, which Removals adds (run_events); Races is about calls that act on a row
--             which has changed since they read it, Workers about a run of the worker among the calls.
--   Tests     runs at concrete inputs.
--
-- Concurrency. A transaction of the database is one step, as under serializable isolation. The code
-- does not ask for that isolation: under PostgreSQL's default, a transaction may act on what it has
-- read while another has written it, and the results on histories of calls are about the first kind
-- of runs only. The charge of a job is where this matters to the wallets: charge_balance is what
-- follows its read, and Races has two of them on one read.
--
-- Where the code reads a row and writes in a later step what depends on it, the row that was read is
-- an argument of the later step, so it may be any row at all (settle, finish_cancel,
-- pay_failed_refund, enqueue, apply_momo_ipn, apply_payos_webhook, apply_payos_lookup). System has
-- these steps beside the whole calls, and a history of them is an interleaving of calls. A run of
-- the worker takes a function that says what the other services write before each of its accesses
-- to the database.
--
-- The books. Ledger.Steps is an abstract machine of wallets, ledger and free quotas with three kinds
-- of steps; Ledger.Invariants is about it alone, the modules called Books relate the services to it.
--
-- Bounds. Loops run over finite lists, the retries of a provider over their number, and
-- generatePayosOrderCode makes its five attempts. The printing of a number has its own size as fuel,
-- which is enough since each step divides by ten.
--
-- Not modelled, and why:
--   * identifiers are natural numbers: the code only compares them and prints them;
--   * one call has one time, a date is its milliseconds, and a business day is its number;
--   * numbers in JSON are natural; what JavaScript's library does with text (Number, JSON.stringify,
--     toUpperCase), HMAC, the environment and the answers of the gateways are parameters;
--   * PostgreSQL's overflow of 32 bits, which is an error there;
--   * the texts of exceptions have no interpolated values;
--   * of an account that is removed, what cascades beyond the tables of Store (sessions, posts, likes,
--     comments, follows);
--   * copies of gateway payloads that are kept in metadata for audit, notifications to browsers and
--     mail, since no modelled code reads them back;
--   * an order's owner exists, by the foreign key;
--   * the storage has one bucket, so that a key is taken once;
--   * within the execution of a provider plan the other services write nothing: what they write
--     comes before the run's next access; a delete in the storage succeeds;
--   * JWT, bcrypt and SHA-256 are parameters (Auth.Tokens.Libraries), and what a theorem needs of them
--     is a hypothesis of it; a call of src/modules/auth is one step;
--   * the state tokens of OAuth, Google's verification of an id token, follows, feeds, views of
--     posts, assets and the controllers.
pub mod Base
pub mod Store
pub mod Js
pub mod Credits
pub mod Ledger
pub mod Users
pub mod Auth
pub mod Pages
pub mod Posts
pub mod Billing
pub mod Jobs
pub mod Worker
pub mod System
pub mod Tests
