-- ===== src/Lib.antt =====
-- Cavi-ERP: a verification library for the agents of this repository.
--
-- The program is a set of agents (agents/) that exchange JSON events on a bus. An agent validates
-- what it receives and what it emits against a schema registry, keeps an append-only event log with
-- a hash chain (shared/events.py, shared/audit.py), and quarantines what it cannot handle as dead
-- letters. Forge turns work orders into ledger entries and carries writes to an ERP through an
-- approval gate; Ledger posts the entries and compares its records with the ERP; Vault vends
-- short-lived tokens for stored credentials; Beacon alerts people; Mapper coerces payloads between the
-- versions of a schema; Ticker takes in the webhooks of an ERP.
--
-- How the code is modelled. A method of an agent is a function of kind `Exec` (Exec): from a state to
-- a result and a state, so that what was written before an exception stays written. The state is an
-- `Agent` (Agent/Runtime): the fields of the agent's class, and its surroundings: the event store, the
-- messages published, the counters, and how many identifiers and clock readings were drawn. An
-- exception is a value of `Error` (Error), with a constructor for each class. JSON values are in Json
-- with Python's equality and `json.dumps`, dictionaries in Dict, Python's integers in Prelude/Int.
-- What the agents use and do not implement is in Services (hashing, UUID parsing, schema files and
-- their validator, identifiers, clocks) or an argument: the ERP writer and reader, the state sources,
-- uuid5, HMAC.
--
-- Which file models which part:
--   Audit, Audit/Chain         shared/audit.py
--   Agent/Store, and below     shared/events.py (InMemoryEventStore)
--   Agent/Store/Postgres, and  shared/events.py (PostgresEventStore.record_event),
--     below                    scripts/audit_export.py
--   Agent/Event, Registry,     agents/base/contract.py, registry.py, agent.py
--     Runtime, Listening,
--     Frame, Emission
--   Metrics                    shared/metrics.py
--   Auth                       shared/auth.py
--   Forge/Breaker              agents/forge/breaker.py
--   Forge/Write, and below     agents/forge/write.py
--   Forge/WriteAgent           agents/forge/write_agent.py
--   Forge/NetSuite, and below  agents/forge/netsuite.py
--   Forge/Orders, OrderAgent   agents/forge/forge.py, agent.py
--   Ledger/Entry, Store        agents/ledger/ledger.py
--   Ledger/Postgres, and below agents/ledger/ledger.py (PostgresLedgerStore)
--   Ledger/PostingAgent        agents/ledger/agent.py
--   Ledger/Reconcile           agents/ledger/reconcile.py
--   Ledger/ReconcileAgent      agents/ledger/reconcile_agent.py
--   Ledger/Query, and below    agents/ledger/query.py, query_agent.py
--   Vault/Encoding, Token,     agents/vault/vault.py
--     Credentials
--   Vault/Endpoint             agents/vault/service.py
--   Vault/VaultAgent           agents/vault/agent.py
--   Beacon/Alerts              agents/beacon/beacon.py, agent.py
--   Beacon/Reports, and below  agents/beacon/report.py, report_agent.py
--   Mapper/Paths, Coercion     agents/mapper/mapper.py, transforms.py, agent.py
--   Mapper/Records, and below  agents/mapper/netsuite_records.py
--   Mapper/Erp, and below      agents/mapper/erp.py, erp_agent.py
--   Ticker/Webhook             agents/ticker/webhook.py, webhook_agent.py
--   Migrations, and below      scripts/migrate.py
-- The other files hold lemmas and theorems; the modules named Tests hold runs on concrete data.
--
-- Bounds. Python's integers are unbounded, and so are those of the model. Clock readings, lifetimes
-- and counter values are natural numbers. The decimal text of an amount in Mapper/Records is that of
-- Python's decimal for amounts of up to 28 digits. Loops follow a list, but two: the printing of a
-- number, which has no more digits than its value plus one, and the search for a path of versions,
-- which queues each version at most once, and so ends within two rounds more than there are
-- transforms. Case folding in Vault/Encoding is that of the ASCII letters. The name of a migration's
-- file has ASCII digits and no line break. A value of another JSON type where an envelope or a payload
-- must hold a text, an integer or an object raises an error in the model; what `dict()` and `list()` make
-- of a value is in Json/Casts. The ids of entries are of type UUID in the tables of Ledger/Postgres: the
-- canonical text of a UUID is a parameter there.
--
-- Not modelled: the table of the dead letters, Redis, the keyring, sockets and HTTP transports,
-- logging, settings and process wiring, which are I/O; exchange rates, the health probes and the
-- bootstrap script.
pub mod Prelude
pub mod Dict
pub mod Error
pub mod Exec
pub mod Json
pub mod Services
pub mod Fixtures
pub mod Audit
pub mod Metrics
pub mod Auth
pub mod Agent
pub mod Forge
pub mod Ledger
pub mod Vault
pub mod Beacon
pub mod Mapper
pub mod Ticker
pub mod Migrations
