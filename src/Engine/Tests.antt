-- ===== src/Engine/Tests.antt =====
-- The rule engine's theorems at concrete events and alerts.
use aigis_zero.Engine.Category.{category}
use aigis_zero.Engine.Config.{from_env, trimmed_parts}
use aigis_zero.Engine.Consumer.{Poll, message, ended, TelemetryConsumer, run}
use aigis_zero.Engine.Dedup.{
  AlertSignature, Entry, LruCache, ShardedDeduplicator, check_and_record, same_signature,
}
use aigis_zero.Engine.Handover.{IsHanded, run-IsHanded}
use aigis_zero.Engine.Metrics.{EngineMetrics}
use aigis_zero.Engine.Models.{TelemetryEvent, Alert, NewAlertEntity, entity_of, medium, yara_x}
use aigis_zero.Engine.Scanner.{EngineRegistry, Fresh, evaluate}
use aigis_zero.Engine.Scanning.{Balanced, scan_loop-Balanced}
use aigis_zero.Engine.Reload.{served, directory_compiles, evaluate-reload}
use aigis_zero.Engine.Rules.{
  Yara, RulesDirectory, add_files, compile_entries, compile_all, insert_rules, reload,
}
use aigis_zero.Engine.Sink.{has_alert, insert_row, insert_rows}
use aigis_zero.Engine.Suppression.{
  passed, Spaced, passed-Spaced, same_signature-eq, same_signature_refl,
}
use aigis_zero.Engine.Transform.{Rule, Casts}
use aigis_zero.Engine.Workers.{
  arrived, shutdown, Batching, BatcherTurn, alerted, slept, stopping, batch_loop, Scanning,
  scan_loop, handle_alerts, drain_events,
}
use aigis_zero.Json.{null, Bytes, Codec}
use aigis_zero.Prelude.{
  Bool-cases, inl, inr, subst, if◌then◌else◌, ℕ, String, Bool, true, false, List, [], ◌∷◌, Option,
  none, some, Result, ok, err, ◌≡◌, refl, pos, length, lookup, split, trim, trim_start_by,
  trim_end_by,
}

program : Unit {0}
unfolding category run check_and_record evaluate has_alert insert_row insert_rows passed batch_loop
    scan_loop handle_alerts drain_events lookup entity_of add_files compile_entries compile_all
    insert_rules reload from_env split trimmed_parts trim trim_start_by trim_end_by
program = tt

abbrev event : TelemetryEvent
event = record {
  id = "e";
  node_id = 7;
  hostname = "h";
  event_type = "process";
  timestamp_ns = pos 1;
  payload = null;
  raw_sequence_id = none;
}

abbrev raised : ℕ → Alert
raised id = record {
  alert_id = id;
  node_id = 7;
  hostname = "h";
  severity = medium;
  source = yara_x;
  mitre_technique_id = none;
  mitre_tactic = none;
  description = "d";
  triggering_event_id = some "e";
  threat_score = 0;
  status = "open";
  created_at = 5;
}

abbrev zeros : EngineMetrics
zeros = record {
  events_consumed = 0;
  events_scanned = 0;
  alerts_generated = 0;
  alerts_suppressed = 0;
  alerts_persisted = 0;
  rule_reloads_total = 0;
  rule_reload_failures_total = 0;
}

-- A cache of one entry.
abbrev Slot : Type 0
Slot = Option (AlertSignature × Entry)

abbrev look_up : AlertSignature → Slot → Option Entry
look_up sig none = none
look_up sig (some (s, e)) = if same_signature sig s then some e else none

abbrev write_slot : AlertSignature → Entry → Slot → Slot
write_slot sig e none = none
write_slot sig e (some (s, old)) = if same_signature sig s then some (s, e) else some (s, old)

look_up-write_slot :
    (sig : AlertSignature) (e e' : Entry) (c : Slot)
    → look_up sig c ≡ some e
    → look_up sig (write_slot sig e' c) ≡ some e'
look_up-write_slot sig e e' none h = cc
look_up-write_slot sig e e' (some (s, old)) h = elim (Bool-cases (same_signature sig s)) [
  | inl same ↦ rw (same, look_up) (rw (same, look_up) refl)
  | inr differs ↦ let h' : none ≡ some e = rw (differs, look_up) at h in cc
]

look_up_other :
    (sig other : AlertSignature) (e : Entry) (c : Slot)
    → same_signature sig other ≡ false
    → look_up sig (write_slot other e c) ≡ look_up sig c
look_up_other sig other e none h = refl
look_up_other sig other e (some (s, old)) h = elim (Bool-cases (same_signature other s)) [
  | inr differs ↦ rw (differs, write_slot) refl
  | inl same ↦
      let apart : same_signature sig s ≡ false =
        subst (λ t. same_signature sig t ≡ false) (same_signature-eq other s same) h in
      rw (same, write_slot) (rw (apart, look_up) refl)
]

abbrev one_entry : LruCache
one_entry = record {
  Cache = Slot;
  new = λ n. none;
  get = look_up;
  write = write_slot;
  put = λ sig e c. some (sig, e);
  get-write = look_up-write_slot;
  get-put = λ sig e c. rw (same_signature_refl sig) refl;
  get-write-other = look_up_other;
  get-put-other = λ sig other e c h. inr (rw h refl);
}

abbrev dedup : ShardedDeduplicator one_entry
dedup = record { shards = λ i. none; suppression_window = 10 }

abbrev sig : AlertSignature
sig = record { node_id = 7; rule_identifier = "d"; mitre_technique = none }

abbrev other_rule : AlertSignature
other_rule = record sig { rule_identifier = "f" }

abbrev checks : List (AlertSignature × ℕ)
checks = (sig, 3) ∷ (sig, 5) ∷ (sig, 13) ∷ (other_rule, 14) ∷ (sig, 20) ∷ []

-- The other signature takes the only entry.
times :
    passed one_entry (λ id. id) sig checks false dedup ≡ (3, false) ∷ (13, false) ∷ (20, true) ∷ []
unfolding program
times = refl

passed-Spaced_example : Spaced 10 (passed one_entry (λ id. id) sig checks false dedup)
passed-Spaced_example = passed-Spaced one_entry (λ id. id) sig checks false dedup

abbrev sink : List Alert → Result String (Unit {0})
sink alerts = ok tt

abbrev batcher : Batching
batcher = record { buffer = []; batches = []; metrics = zeros }

abbrev rounds : List BatcherTurn
rounds =
    alerted (raised 1) false
    ∷ alerted (raised 2) false
    ∷ alerted (raised 3) false
    ∷ slept false
    ∷ stopping (raised 4 ∷ [])
    ∷ []

batched :
    (batch_loop sink 2 rounds batcher).batches
    ≡ (raised 1 ∷ raised 2 ∷ []) ∷ (raised 3 ∷ raised 4 ∷ []) ∷ []
unfolding program
batched = refl

abbrev rows : List NewAlertEntity
rows = entity_of (raised 1) ∷ entity_of (raised 1) ∷ entity_of (raised 2) ∷ []

stored_once : length (insert_rows rows []) ≡ 2
unfolding program
stored_once = refl

abbrev verdict : TelemetryEvent → Result String (List Alert)
verdict e = ok (raised 1 ∷ raised 2 ∷ [])

-- A deduplicator that lets the first alert through.
abbrev once : AlertSignature → Bool → Bool × Bool
once s seen = (true, elim seen [ true ↦ false | false ↦ true ])

abbrev scanner : Scanning Bool
scanner = record { dedup = false; sent = []; metrics = zeros }

scan_loop-Balanced_example :
    Balanced (scan_loop verdict once (arrived event ∷ shutdown (event ∷ []) ∷ []) scanner)
scan_loop-Balanced_example =
    scan_loop-Balanced verdict once (arrived event ∷ shutdown (event ∷ []) ∷ []) scanner refl

abbrev parse : Bytes → Result String TelemetryEvent
parse [] = err "EOF"
parse (b ∷ bytes) = elim bytes [ [] ↦ ok event | ◌∷◌ c cs ↦ err "expected value" ]

abbrev polled : Bytes → Poll
polled payload =
    message (record { topic = "t"; partition = pos 0; offset = pos 3; payload = some payload })

abbrev consumer : TelemetryConsumer
consumer = record { channel = []; closes_after = some 1; dead = []; committed = [] }

abbrev polls : List Poll
polls = polled [] ∷ polled (1 ∷ []) ∷ polled (1 ∷ 2 ∷ []) ∷ polled (2 ∷ []) ∷ ended ∷ []

-- The last message meets a closed channel.
committed_two : length (run parse "dlq" polls consumer).committed ≡ 2
unfolding program
committed_two = refl

run-IsHanded_example : IsHanded parse "dlq" (run parse "dlq" polls consumer)
run-IsHanded_example =
    run-IsHanded parse "dlq" polls consumer (record { channel = refl; dead = refl })

abbrev matching : Unit {0} → Bytes → Result String (List Rule)
matching rules bytes = ok (record { identifier = "r"; metadata = [] } ∷ [])

abbrev printer : Codec
printer = record { from_slice = λ bytes. ok null; to_vec = λ v. ok (1 ∷ []) }

abbrev casts : Casts
casts = record { of_i64 = λ i. 0; of_f64 = λ b. b }

abbrev fresh : Fresh
fresh = record { alert_id = λ i. i; now = λ i. 9 }

abbrev registry : EngineRegistry (Unit {0})
registry = record { rule_sets = ("process", tt) ∷ []; mitre = record { techniques = [] } }

-- A compiler that takes every source.
abbrev yara : Yara (Unit {0}) (Unit {0})
yara = record { new = tt; add_source = λ source c. ok c; build = λ c. tt }

-- A directory of process rules with one file, and one that cannot be read.
abbrev rules_dir : RulesDirectory
rules_dir = some (
    ok (
      ok (record {
        file_name = "process";
        is_dir = true;
        files = ok (
            ok (record {
              path = "a.yar";
              is_file = true;
              extension = some "yar";
              content = ok "rule";
            })
            ∷ []);
      })
      ∷ []))

abbrev broken_dir : RulesDirectory
broken_dir = some (err "denied")

-- A reload that fails is counted, and keeps the registry.
kept :
    (reload (λ s. ok []) yara "p" none broken_dir registry zeros).1.rule_reload_failures_total ≡ 1
unfolding program
kept = refl

evaluate-reload_example :
    let after = (reload (λ s. ok []) yara "p" none rules_dir registry zeros).0 in
    evaluate matching printer casts fresh after event
    ≡ served matching printer casts fresh yara
        (λ s. ok [])
        registry
        after
        rules_dir
        event
        (directory_compiles yara rules_dir)
evaluate-reload_example =
    evaluate-reload matching printer casts fresh yara (λ s. ok []) "p" none rules_dir registry zeros
      event

-- Blank topics in the environment are left out.
topics_trimmed : trimmed_parts (split 44 "a, b,,") ≡ "a" ∷ "b" ∷ []
unfolding program
topics_trimmed = refl
