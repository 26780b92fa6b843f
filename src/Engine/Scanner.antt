-- ===== src/Engine/Scanner.antt =====
-- rule-engine/src/engine/scanner.rs: what of an event is scanned, and the alerts of a scan. The
-- compiled rules and the scan itself belong to YARA-X and are parameters.
use aigis_zero.Engine.Category.{category}
use aigis_zero.Engine.Mitre.{MitreTaxonomy}
use aigis_zero.Engine.Models.{Uuid, DateTime, TelemetryEvent, Alert}
use aigis_zero.Engine.Transform.{Rule, Casts, build_alert}
use aigis_zero.Json.{Value, Fields, Bytes, Codec, get_field, as_str, as_array, as_object}
use aigis_zero.Prelude.{
  ℕ, suc, String, List, [], ◌∷◌, ◌++◌, Option, none, some, Result, ok, err, and_then, as_bytes,
  lookup,
}

abbrev pub scan_keys : List String
scan_keys =
    "cmdline" ∷ "cmd" ∷ "command_line" ∷ "path" ∷ "target_path" ∷ "parent_path" ∷ "cwd" ∷ "name"
    ∷ "remote_address" ∷ "local_address" ∷ "user" ∷ "description" ∷ "args" ∷ "syscall" ∷ "action"
    ∷ []

-- `if let Some(Value::String(val)) = … { buffer.extend(val); buffer.push(b'\n') }`
unfoldable pub push_text : Option Value → Bytes → Bytes
push_text v buffer = elim (and_then v as_str) [
  | none ↦ buffer
  | some val ↦ (buffer ++ as_bytes val) ++ 10 ∷ []
]

-- The loop of `scan_object` over its keys.
unfoldable pub scan_keys_of : List String → Fields → Bytes → Bytes
scan_keys_of [] obj buffer = buffer
scan_keys_of (key ∷ keys) obj buffer = scan_keys_of keys obj (push_text (get_field key obj) buffer)

unfoldable pub scan_object : Fields → Bytes → Bytes
unfolding scan_keys_of
scan_object obj buffer = scan_keys_of scan_keys obj buffer

abbrev pub scan_column : Value → Bytes → Bytes
scan_column col buffer = elim (as_object col) [
  | none ↦ buffer
  | some col_obj ↦ push_text (get_field "value" col_obj) buffer
]

unfoldable pub scan_columns : List Value → Bytes → Bytes
scan_columns [] buffer = buffer
scan_columns (col ∷ cols) buffer = scan_columns cols (scan_column col buffer)

abbrev pub scan_row : Value → Bytes → Bytes
scan_row row buffer = elim (as_object row) [
  | none ↦ buffer
  | some row_obj ↦
      let buffer' = scan_object row_obj buffer in
      elim (and_then (get_field "columns" row_obj) as_array) [
        | none ↦ buffer'
        | some cols ↦ scan_columns cols buffer'
      ]
]

unfoldable pub scan_rows : List Value → Bytes → Bytes
scan_rows [] buffer = buffer
scan_rows (row ∷ rows) buffer = scan_rows rows (scan_row row buffer)

abbrev pub scan_payload : Value → Bytes
scan_payload payload = elim (as_object payload) [
  | none ↦ []
  | some obj ↦
      let buffer = scan_object obj [] in
      elim (and_then (get_field "rows" obj) as_array) [
        | none ↦ buffer
        | some rows ↦ scan_rows rows buffer
      ]
]

module _ (codec : Codec) where
  -- An empty buffer falls back on the printed payload, and stays empty if that cannot be printed.
  abbrev pub or_printed : Value → Bytes → Bytes
  or_printed payload (b ∷ buffer) = b ∷ buffer
  or_printed payload [] = elim (codec.to_vec payload) [ ok bytes ↦ bytes | err _ ↦ [] ]

  unfoldable pub extract_scannable_buffer : TelemetryEvent → Bytes
  extract_scannable_buffer event = or_printed event.payload (scan_payload event.payload)

-- `EngineRegistry`, over the type of compiled rules.
pub record EngineRegistry (Rules : Type 0) : Type 0 where
  pub rule_sets : List (String × Rules)
  pub mitre : MitreTaxonomy

-- `AppError::ScanFailure`
pub record ScanFailure : Type 0 where
  pub event_id : String
  pub message : String

-- The ids and times that the alerts of one evaluation get.
pub record Fresh : Type 0 where
  pub alert_id : ℕ → Uuid
  pub now : ℕ → DateTime

module _ {Rules : Type 0} (scan : Rules → Bytes → Result String (List Rule)) (codec : Codec)
    (casts : Casts) (fresh : Fresh) where
  -- The loop over the matching rules.
  unfoldable pub build_alerts : ℕ → TelemetryEvent → List Rule → MitreTaxonomy → List Alert
  build_alerts i event [] mitre = []
  build_alerts i event (rule ∷ rules) mitre =
      build_alert casts (fresh.alert_id i) (fresh.now i) event rule mitre
      ∷ build_alerts (suc i) event rules mitre

  abbrev pub scan_with :
      EngineRegistry Rules → TelemetryEvent → Rules → Bytes → Result ScanFailure (List Alert)
  scan_with current event rules [] = ok []
  scan_with current event rules (b ∷ buffer) = elim (scan rules (b ∷ buffer)) [
    | err e ↦ err (record { event_id = event.id; message = e })
    | ok matching ↦ ok (build_alerts 0 event matching current.mitre)
  ]

  -- `YaraScannerEngine::evaluate`, on the registry that it has loaded.
  unfoldable pub evaluate : EngineRegistry Rules → TelemetryEvent → Result ScanFailure (List Alert)
  evaluate current event = elim (lookup (category event) current.rule_sets) [
    | none ↦ ok []
    | some rules ↦ scan_with current event rules (extract_scannable_buffer codec event)
  ]
