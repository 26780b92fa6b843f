-- ===== src/Lib.antt =====
-- A model of aigis-zero, an endpoint detection and response system, with the theorems that its parts
-- keep their promises.
--
-- The program. An agent on each host runs osquery queries on a schedule, buffers the results in a
-- SQLite table, and sends them over gRPC to the fleet server. The fleet server enrols agents, records
-- their heartbeats in PostgreSQL, and puts events on a Kafka topic of raw events. The kafka-pipeline
-- sorts raw events into typed topics, or into dead letters. The rule engine scans typed events with
-- YARA-X rules, and turns matches into alerts that are deduplicated, batched, published and stored.
-- The API backend stores the events it reads from Kafka and broadcasts them to WebSocket clients.
--
-- The files. Prelude passes on the library's names and holds what the parts share: Boolean tests,
-- lists measured by native numbers, texts, options and results. Json is serde_json's value type with
-- its accessors. Each part has definitions in one file and theorems in others:
--
-- Agent.Buffer is agent/crates/event-buffer/src/lib.rs: EventBuffer with push, drain, len and is_empty.
--   Rows and Queue are lemmas, Refinement is the queue that the table implements.
-- Agent.Drain is the drain loop of agent/crates/agent-bin/src/main.rs with send_events of
--   agent/crates/fleet-client/src/lib.rs; Sending and Retry are its theorems.
-- Agent.Osquery is compute_diff of agent/crates/osquery-client/src/diff.rs and the task of one query
--   of scheduler.rs there; Replay is its theorem. Agent.Queries is the table of queries there (the
--   seeding of new, load_queries, upsert_queries), with Upsert.
-- Agent.Command is the command listener of agent/crates/agent-core/src/lib.rs with handle of
--   command_handler.rs; Backoff is its theorem.
-- Agent.Client is FleetClient of agent/crates/fleet-client/src/lib.rs: connect and connect_with_retry,
--   and in Calls enroll, heartbeat and the reception. Attempts and Retries are the theorems on the
--   retries, and Session is the client against the handlers of the fleet server.
-- Agent.Collect is build_result of osquery-client/src/scheduler.rs, encode_osquery_result with the
--   buffering task of agent-core/src/lib.rs, and encode_result with the loop of orchestrator.rs there;
--   Shutdown and Journey are its theorems, the latter across the fleet server and the pipeline.
-- Agent.Config is the configuration (agent-core/src/config.rs) and save_node_id_to_config of
--   agent-bin/src/main.rs, with Editing. Agent.Host is get_os_version and read_machine_id of
--   orchestrator.rs and preflight.rs, with Versions. Agent.Isolation is agent/crates/isolation/src,
--   with Endpoint for parse_endpoint of main.rs.
-- Agent.Thrift is parse_query_response of osquery-client/src/client.rs and Client its query, with
--   Streams, Parsing and Chunks as theorems. Agent.Main is the start of agent-bin/src/main.rs and its
--   heartbeat task, with Boots, Ready and Panics.
-- Fleet.Database, Fleet.Enrollment and Fleet.Health are the tables, upsert_node, register_agent,
--   sign_token and record_heartbeat of fleet-server/crates (postgres-interface, node-enrollment,
--   health-tracker). Fleet.Gateway is validate_token, register_agent and heartbeat of grpc-listener,
--   Fleet.Ingest its event_stream with ingest_event of fleet-server-bin/src/ports.rs. Columns, Status,
--   Access, Acks and Known are the theorems.
-- Pipeline.Metrics, Pipeline.Router and Pipeline.Worker are metrics.rs, event_router.rs and
--   consumer.rs of kafka-pipeline/src. Records, Counting, Delivery and Normal are the theorems.
--   Pipeline.Admin is bin/kafka-admin.rs there, with Topics.
-- Engine.Models, Mitre, Transform, Category and Scanner are models.rs, mitre/taxonomy.rs,
--   engine/transform.rs and engine/scanner.rs of rule-engine/src; Dedup is engine/dedup.rs, Sink is
--   sink/diesel_sink.rs, Rules is engine/compiler.rs and engine/registry.rs with the start and the
--   reload of main.rs, Config is config.rs, Metrics is metrics.rs, Consumer is kafka/consumer.rs with
--   kafka/dlq.rs, Workers holds the tasks of main.rs, and Flow these as steps that interleave, with
--   Accounts and Invariant as its theorems, and Health is health.rs. Suppression, Batching, Scanning,
--   Handover, Alerts and Reload are the theorems.
-- Api.Events and Api.Batch are kafka/consumer.rs of api-backend/src, Api.Receive is its receive loop
--   next to the worker (Steps and Kept are its theorems), Api.Socket is handlers/ws.rs,
--   Api.Nodes is isolate_node and unisolate_node of services/node_service.rs over
--   repositories/node_repo.rs. Agreement, Flushing, Frames and Isolation are the theorems.
--   Api.Errors is error.rs, Api.Settings config/settings.rs, Api.Auth services/auth_service.rs with
--   middleware/auth.rs (Sessions is its theorem), Api.Listing the listings and look-ups of
--   repositories and services (Order and Pages are the theorems), Api.Triage the status of an alert,
--   Api.Routes the routes/ and the handlers/ over all of these (Guarded is its theorem).
-- The files named Tests hold runs at concrete inputs.
--
-- How the code is read. Mutable state is a record that an operation takes and gives back. An
-- asynchronous loop over select! is a function on the list of what its rounds take, so that every
-- interleaving of its sources is one list. A failure that the environment decides (a statement, a
-- commit, the pool, the broker, a closed channel) is an argument, and a theorem that assumes none of
-- them says so. SQL tables are lists of rows, in the order of insertion where they are written, and
-- in any order where a listing reads them. Machine integers keep their wrap-around, casts and
-- saturation, and the delay of a reconnection its overflow; only the numeric ranges that a theorem
-- names are assumed. Two functions run on fuel: the decimal printer of Prelude.Text, whose fuel is
-- one more than its number, and the loop over the fields of a struct in Agent.Thrift, whose fuel is
-- one more than the bytes that are left, of which each field takes one at least. Every other loop
-- ends with its list of inputs.
--
-- Parameters. serde_json's parser and printer, JWT encoding and decoding, YARA-X scanning, the LRU
-- cache, the hash function, UUID texts, random ids and the clock belong to libraries or to the
-- outside, and are arguments. Three are used with laws that their documentation gives: a signed
-- token that has not expired decodes with its secret (Fleet.Access, Api.Auth.Sessions), an LRU cache
-- holds what was just put or written under a key, and loses another key at a put at most
-- (Engine.Dedup), and the text of a UUID reads back as it (Agent.Client.Session).
-- Agent.Collect.Journey assumes of serde_json that it reads back the three values that it prints
-- there, and Agent.Thrift.Chunks of the thrift crate that a read that is given more bytes reads the
-- same, and says so when it lacks some.
--
-- Not modelled: the start of the servers and their settings, logging, the generated protobuf code of
-- the sdk, and the frontend.
mod Prelude
pub mod Json
pub mod Pipeline
pub mod Engine
pub mod Agent
pub mod Fleet
pub mod Api
