-- ===== src/Lib.antt =====
-- gnester-lite: the assistant and the accounts of the server, modelled and verified.
--
-- The program is a NestJS server. Its assistant answers questions with models of two providers:
-- an account keeps its own keys, chooses models, and holds conversations of turns, each with
-- versions of an answer that a worker generates. Its identity module keeps users, invitations and
-- the application's sessions. All of them share one MySQL database, whose rows are the state. Below
-- them stand services that any module may use: a queue with a bounded number of pending jobs, dynamic
-- schedules, a cache in Redis, and the shutdown of the process.
--
-- Files, with the code they model (paths from the repository's root):
-- - Common: tables as lists of rows with the statements that read and write them (Tables), the
--   handlers as programs that return a value or throw and leave a state (Handlers), what a run
--   that returned says of its parts (Inversion), what it does from a precondition (Triples), texts
--   (Texts) and Boolean tests (Tests).
-- - Assistant/Store: the rows of src/modules/assistant/*persistence.types.ts with the in-process
--   controllers and jobs and the clock.
-- - Assistant/Generation: src/modules/assistant/assistant-generation.service.ts. `startAnswer` is
--   start_answer, and so on; a name in -ing is the effect of one SQL statement (admission,
--   failing, completing). Start has the theorem on start_answer.
-- - Assistant/Views and Assistant/Conversations: src/modules/assistant/assistant.service.ts, the
--   reads and the handlers that write.
-- - Assistant/Selection: the reads of src/modules/assistant/assistant-configuration.service.ts
--   that choose models and keys. Choice has the theorem on choose_model, Fallback the one on
--   next_generation_key.
-- - Assistant/Configuration: the operations of that service which write: changes with their audit
--   (Audit), preferences (Preferences), catalog rows (Catalog) and keys (Keys). Their theorems are
--   in Audit/Reports, Preferences/Valid, Preferences/Saved, Preferences/Repair, Catalog/Retirement
--   and Keys/Revocation.
-- - Assistant/Lifecycle: what may become of an answer. Runs interleaves the requests of all
--   accounts with the worker's steps.
-- - Assistant/Providers: src/modules/assistant/assistant-provider.service.ts, with theorems in
--   Providers/Errors. Its read_catalog and is_text_model fill the interface that
--   Assistant/Configuration/Catalog takes.
-- - Assistant/Worker: src/modules/assistant/assistant.processor.ts. Worker/Trace relates it to the
--   runs of Assistant/Lifecycle, Worker/Quiet follows a job from its start to its end.
-- - Assistant/Sync: src/modules/assistant/assistant-model-sync.service.ts.
-- - Identity/Users, Identity/Invitations: src/modules/identity/user-management.service.ts.
--   Users/Status, Invitations/Once and Invitations/Filter have their theorems,
--   Identity/Settlement the invariant of the addresses.
-- - Identity/Sessions: src/modules/identity/application-auth.service.ts, with its theorems in
--   Sessions/Reuse and Sessions/Refusal.
-- - Infra/Schedule: src/infra/schedule/schedule.service.ts. Runs interleaves calls, ticks and
--   callbacks; Overlap has the intervals, Closing, Drain and Shutdown the shutdown.
-- - Infra/Queue: src/infra/queue/queue.service.ts. Capacity interleaves producers, Errors has the
--   outcomes and the wait for the lock.
-- - Infra/Cache: src/infra/cache/cache.service.ts, with theorems in Index and Scan.
-- - Infra/Http: src/infra/http/api-exception.filter.ts, with theorems in Catalog and Errors.
-- - Infra/Language: the negotiation in src/infra/i18n/i18n.translate.ts, with its theorem in
--   Preferred.
-- - Infra/Encryption: src/infra/crypto/symmetric-encryption.service.ts, with its theorem in
--   Envelope.
-- - Infra/Shutdown: src/bootstrap/application-shutdown.ts. Phases has the time of each phase,
--   Deadlines interleaves triggers with the phases and has the theorem.
-- - Assistant/Tests, Identity/Tests and Infra/Tests: the theorems at concrete states.
--
-- Conventions. Identifiers, secrets and instants are numbers; a fresh identifier or secret is the
-- next of a counter, which models that the runtime does not give one out twice. A transaction
-- under the account's lock is one step, and a handler outside one is one step as well; the two
-- statements of completeAnswer are separate steps. `affectedRows` counts the rows matched, as
-- the driver's default flags have it. Columns that hold JSON hold its value. Addresses are
-- compared as they are stored, lower-cased. A handler that waits for the lock of an address is
-- one step that takes the time of the wait. A stream that never ends is a part (stall) after which
-- nothing of the call runs. Two loops run on fuel: that of the worker over the keys,
-- for which as many units as keys without a failure are enough while nobody else runs, and the wait
-- for the lock of the queue, for which 41 are. Every other loop is over a list.
--
-- The network, the cipher, the digests, the password check and JWT are parameters (Providers,
-- Network, Crypto, Auth and arguments), and so are the catalogs of the translations, the stream of a
-- provider, the decryption of a key in the worker, the registry of the scheduler (whose jobs may
-- fail to stop) and the hooks of the shutdown. The commands of Redis have their documented effect
-- on the keys that a script names. Not modelled: failures of the connection to the database,
-- rendering of instants, the metadata of a session, cookie attributes other than the age, the cache
-- of single values (get, set, del and remember, whose values the library serialises), the
-- paged lists, getConfiguration and keyBalance, the controllers, guards and middleware, the interceptors, the
-- validation of the environment, and the adapters of libraries.
mod Common
pub mod Assistant
pub mod Identity
pub mod Infra
