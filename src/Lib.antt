-- ===== src/Lib.antt =====
-- The RNG game platform: server-authoritative games whose draws a player can verify.
--
-- The program is an asynchronous web application (app/). API adapters call services (app/services),
-- the services run over repositories (app/persistence) inside one database transaction of their own,
-- and the pure core stands apart from both: the provably fair draws (app/rng.py), the rules of the
-- games (app/game_rules.py), the session transitions (app/session_transitions.py) and the evidence
-- of a fairness proof (app/fairness_events.py).
--
-- Files and what they model:
-- Base: names of the libraries, Boolean tests, lists over native numbers, texts as UTF-8 bytes, and
--   `Result`, a value or a raised error.
-- Rng: app/rng.py. Rng.Types holds its constants, records and validations; Rng.Encoding Python's
--   decimal, hexadecimal, big-endian and UUID renderings; Rng.Uniform `HmacOutcomeProvider`;
--   Rng.Messages `daily_spin_mapping_bytes` and `daily_spin_derivation_message`; Rng.Select
--   `select_daily_spin_reward`; Rng.Derive `derive_daily_spin`; Rng.Verify
--   `verify_daily_spin_proof`. Rng.Crypto is the interface to SHA-256 and HMAC: any functions to 32
--   bytes, so that no theorem rests on how they compute.
-- Models: the rows and statuses of app/models.py, the configuration payloads of app/schemas.py with
--   the bounds that they are validated for, the errors of app/services/errors.py, and JSON values;
--   Models.Equality compares them as Python compares dicts.
-- GameRules: app/game_rules.py; GameRules.Registry is its registry of capabilities.
-- Store: the queries and flushes of app/persistence over tables that are lists, with the unique
--   constraints that they meet. Store.Evidence writes the audit records and analytics events;
--   Store.Gameplay holds the reads of app/persistence/gameplay.py, Store.Players the writes of
--   players.py; Store.Fairness is app/persistence/fairness.py, Store.Leaderboards app/persistence/leaderboards.py
--   and settlements.py.
-- Platform: what the services take from outside, and `_request_fingerprint`.
-- FairnessEvents: app/fairness_events.py, the payloads and hashes of both evidence versions.
-- Sessions: app/session_transitions.py and app/services/session_termination.py; Sessions.Create and
--   Sessions.Cancel are `create_session`, `cancel_session` and `retrieve_session` of
--   app/services/sessions.py, Sessions.Recover is its `retrieve_player_game_state`.
-- Claims: app/services/rewards.py.
-- Gameplay: `play_session` of app/services/gameplay.py; Gameplay.Reads holds the reads of this file
--   and of app/services/rewards.py.
-- Players: app/services/players.py, over Store.Players.
-- Fairness: app/services/fairness.py. Fairness is `commit_fairness`, Fairness.Evaluate
--   `evaluate_fairness`, Fairness.Chain `verify_fairness_event_chain`, Fairness.Retrieve
--   `retrieve_fairness_proof` and `verify_fairness_proof`; Fairness.Honest joins them to a round.
-- Leaderboards: app/services/leaderboards.py, with the order, the pages and the best rows of the
--   board in children; Settlements is its `settle_leaderboard`.
-- EventHub: app/leaderboard_events.py, the hub that tells subscribers of changed leaderboards.
-- Tests with its children, Rng.Tests and GameRules.Tests: runs on concrete inputs.
--
-- A request is a function from the tables to a `Reply`: its answer and the tables that are durable
-- after it. It works on one copy of the tables, as the session of app/database.py does (no autoflush,
-- one identity map, row locks that serialize requests on the same rows), and a request that raises
-- before its commit leaves the tables it was given (`get_session` of app/database.py rolls back).
-- Clocks, the creation times that the database sets, keys of new rows, server seeds and drawn challenge
-- sequences are arguments. Times count
-- microseconds from Monday, 1 January of the year 1, in UTC.
--
-- The loops of the program that need not end take fuel and answer `ok none` when it runs out:
-- `derive_loop` draws one HMAC digest for each attempt, `uniform_loop` one for each 32-bit counter.
-- More fuel than the first attempt under the rejection limit, or than 2 ^ 32 counters, is enough. A service that draws takes
-- the fuel of its Platform and raises `still_drawing`, an error of the model only, when it runs out.
--
-- Not modelled: foreign keys and most check constraints of the tables; the listing of the catalogue
-- and the analytics summary; the Redis projection; API adapters, web client, configuration, logging, migrations and
-- tools. `json.dumps`, the hash functions, the outcome provider, the rendering of a time span in
-- milliseconds and that of a time as text are parameters.
pub mod Base
pub mod Rng
pub mod Models
pub mod GameRules
pub mod Store
pub mod Platform
pub mod FairnessEvents
pub mod Sessions
pub mod Claims
pub mod Gameplay
pub mod Fairness
pub mod Leaderboards
pub mod Settlements
pub mod Players
pub mod EventHub
pub mod Tests
