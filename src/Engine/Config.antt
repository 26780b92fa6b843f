-- ===== src/Engine/Config.antt =====
-- rule-engine/src/config.rs: the configuration from the environment. `str::parse` is a parameter for
-- each type of number, and so is the number of processors.
use aigis_zero.Engine.Rules.{EngineError, config}
use aigis_zero.Prelude.{
  ℕ, String, List, [], ◌∷◌, Option, none, some, Result, ok, err, unwrap_or, and_then, if◌then◌else◌,
  str_eq, split, trim,
}

pub record RuleEngineConfig : Type 0 where
  pub kafka_brokers : String
  pub kafka_group_id : String
  pub kafka_topics : List String
  pub rules_directory : String
  pub mitre_taxonomy_path : String
  pub database_url : String
  pub db_pool_max_size : ℕ
  pub scanner_worker_count : ℕ
  pub channel_capacity : ℕ
  pub dedup_capacity : ℕ
  pub dedup_suppression_window_secs : ℕ
  pub batch_max_size : ℕ
  pub batch_flush_interval_ms : ℕ
  pub health_port : ℕ
  pub dlq_topic : String
  pub alerts_topic : String

-- The trimmed parts that are not empty.
unfoldable pub trimmed_parts : List String → List String
trimmed_parts [] = []
trimmed_parts (p ∷ ps) =
    let rest = trimmed_parts ps in if str_eq (trim p) "" then rest else trim p ∷ rest

-- The parsers of a `usize` or `u64`, and of a `u16`.
pub record Parsers : Type 0 where
  pub u64 : String → Option ℕ
  pub u16 : String → Option ℕ

module _ (env : String → Option String) (parse : Parsers) (num_cpus : ℕ) where
  abbrev pub var : String → String → String
  var name default = unwrap_or (env name) default

  abbrev pub num : String → ℕ → ℕ
  num name default = unwrap_or (and_then (env name) parse.u64) default

  abbrev pub with_database : Option String → Result EngineError RuleEngineConfig
  with_database none = err (config "DATABASE_URL must be set")
  with_database (some database_url) = ok (record {
    kafka_brokers = var "KAFKA_BROKERS" "localhost:9092";
    kafka_group_id = var "KAFKA_GROUP_ID" "aigis-rule-engine";
    kafka_topics = trimmed_parts (
        split 44 (
          var "KAFKA_TOPICS"
            "aigis.events.process,aigis.events.network,aigis.events.file,aigis.events.auth"));
    rules_directory = var "RULES_DIR" "./rules";
    mitre_taxonomy_path = var "MITRE_TAXONOMY_PATH" "./rules/mitre/enterprise-attack-linux.json";
    database_url = database_url;
    db_pool_max_size = num "DB_POOL_MAX_SIZE" 20;
    scanner_worker_count = num "SCANNER_WORKERS" num_cpus;
    channel_capacity = num "CHANNEL_CAPACITY" 10000;
    dedup_capacity = num "DEDUP_CAPACITY" 100000;
    dedup_suppression_window_secs = num "DEDUP_WINDOW_SECS" 60;
    batch_max_size = num "BATCH_MAX_SIZE" 500;
    batch_flush_interval_ms = num "BATCH_FLUSH_MS" 100;
    health_port = unwrap_or (and_then (env "HEALTH_PORT") parse.u16) 8081;
    dlq_topic = var "DLQ_TOPIC" "aigis.events.dlq";
    alerts_topic = var "ALERTS_TOPIC" "aigis.alerts";
  })

  -- `RuleEngineConfig::from_env`
  unfoldable pub from_env : Result EngineError RuleEngineConfig
  from_env = with_database (env "DATABASE_URL")
