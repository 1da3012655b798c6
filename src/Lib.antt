-- ===== src/Lib.antt =====
-- The verification library of mailcleanup: the classifier of the synthetic mail map, the engine of
-- the clean-up plans, the session with the mail account and the simulated plans of the synthetic
-- map, with the theorems that make them correct.
--
-- The parts of the program and where they are modelled:
--
-- Classifier: src/mailmap/model.py and src/mailmap/classifier.py. Classifier/Model holds the
--   vocabularies and the messages; Identity is `_source_identity` with the normalisers; Rules has
--   `_intent`, `_unsubscribe_method`, `_subscription`, `_confidence` and `_protection`; Assess is
--   `classify_message`, `assess_messages` and `with_user_labels`. Safety and Threads are proofs.
--
-- Clean-up plans, in Plan: src/mailmap/cleanup_plan_model.py and
--   src/mailmap/cleanup_plan_domain.py. A plan is a record whose members and selection stay fixed
--   and whose ledger of events and list of removals only grow. Plan/Result is the outcome of a
--   function: a value, a `CleanupPlanError` with its code, or the `ValueError` of a constructor.
--   Reasons has the exclusion reasons and their precedence; Model the vocabularies, records and
--   derived properties; Equality the comparisons; Validate the `__post_init__` of members,
--   removals, events and plans, whose conjunction is `plan_ok` of Create. Composition is
--   `_index_composition`; Catalog `build_cleanup_target_catalog`; Select the target universe,
--   `_policy_reasons`, `_base_reasons`, `_quota_allowed` and `resolve_temporal_filter`; Samples
--   the previews; Create `prepare_cleanup_plan_creation`; Revise `effective_plan_state`,
--   `prepare_cleanup_plan_revalidation`, `prepare_cleanup_plan_cancellation` and
--   `cleanup_member_current_state` and `cleanup_member_reason_codes`. The other modules of Plan
--   are proofs: Precedence, Contract and RemovalCodes on reasons, Counting, Sizes, Ledger, Removed
--   and RemovalLedger on the ledger, Active and Preservation on valid plans, Outcomes, Inversion,
--   Commands, Completeness, Kept, MemberReasons, Refusals and Trace on the commands, Selected,
--   Creation, Quota and Newest on creation. `IsValid` of Active says that the constructors of the
--   plan and of its events accepted.
--
-- Session, in Session: src/mailmap/session_model.py and src/mailmap/oauth_session.py, the session
--   with the mail account. A method takes the session, that is the pending attempt, the digests of
--   the consumed states, the snapshots and the outer world, and gives an outcome and the session
--   that it leaves, also when it raises. Result and Monad are outcomes and methods; Model has the
--   values and the checks of their constructors, Ports what the session is connected to, Record
--   `_encode_record` and `_decode_record`, Calls the private methods, Authorize
--   `prepare_authorization` and `present_authorization`, Complete `complete_authorization`, Revoke
--   `revoke_remote`, and Lifecycle the other operations. The other modules are proofs: Preserves
--   and Frames say what methods leave alone, Inversion, Completed, Refreshed and Reconnected what
--   a result has gone through, Replay, Refused and Superseded which callbacks are refused,
--   RoundTrip, Stored, Decoded and Restored are on the store, Revoked and Revocation on
--   revocation, Endpoint, Prepared, Asked and Offered on the address of an authorization, Valid,
--   AttemptsValid, StoredValid, OperationsValid and Trace on every run of a session, and Success
--   on ports that answer well.
--
-- Service: src/mailmap/service.py with `save_plan` and `plan` of src/mailmap/repository.py, the
--   simulated clean-up plans of the synthetic map, which are made of the assessments of
--   Classifier. Service/Judge has the records and the loops over the items, Plans `create_plan` as
--   create_simulated_plan and `revalidate_plan` as revalidate_simulated_plan, over a repository of
--   messages and plans. Selected and Created are proofs on creation, Rechecked and Revalidated on
--   revalidation.
--
-- Prelude holds the shared tests on numbers and texts, the list functions and a stable insertion
-- sort, which stands for `sorted`.
--
-- How the program is represented. A Python exception is a value of Result. A set of reasons is a
-- list whose order and repetitions do not matter, and a set of provider ids is the list of the
-- entries of the index. The three dictionaries of `_CompositionIndex` have one key set and are one
-- list of entries. An instant is a number of microseconds and a civil date an ordinal, so the 24
-- hours of a plan are 86400000000. Every loop is over a list, so no fuel is needed and each
-- function is total.
--
-- Parameters. TextOps (Classifier/Identity) stands for case folding, stripping, `parseaddr`, NFKD
-- slugs, SHA-256 and substring search; Platform (Plan/Catalog) for case folding, stripping, the
-- digests and fingerprints made with SHA-256 and JSON, and the time zone. No theorem assumes
-- anything of them. Library (Session/Model) stands for text normalization, UUIDs, hashing,
-- addresses, times and JSON, and Ports (Session/Ports) for the authorization transport, the mail
-- profile, the secret store, the clock, the random source, the loopback callback and the browser,
-- over a world that every call may change. A call raises, answers, or answers with a value of a
-- foreign type. Where a theorem needs it, `LibraryLaws` says that a stored document and a time are
-- read as they were written, that a UUID is written in ASCII and that normalization leaves a
-- normalized address alone, and `Remembers` that the store gives what was saved last under a key.
-- The service takes the end of a civil date and the digest that names a plan; its theorems assume
-- nothing of them. A test of identity of the pending attempt is one of its contents.
--
-- Not modelled: the shapes of identifiers, the Python types of fields and the version fields; the
-- checks that the constructors of commands, of the selection and of the prepared results make;
-- serialisers and `repr`; the Gmail inventory, the policy memory, the real classification, the
-- composition of the map, the HTTP interfaces and the frontend; of the repository there are only
-- the operations on simulated plans, and of the service the listing of sources, the dashboard and
-- the constant answers are left out, as are the time of creation and the warnings of a simulated
-- plan. Of the index, the classification, the policies and the map there are only the records with
-- the fields that a plan reads.
pub mod Prelude
pub mod Classifier
pub mod Plan
pub mod Session
pub mod Service
