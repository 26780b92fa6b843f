-- ===== src/Pipeline/Admin.antt =====
-- kafka-pipeline/src/bin/kafka-admin.rs: the tool that creates the topics. Kafka's admin client is
-- a parameter.
pub mod Topics
mod Tests
use aigis_zero.Prelude.{
  ℕ, ◌<>◌, String, Bool, true, false, List, [], ◌∷◌, map, Option, none, some, Result, ok, err,
  length, ltb, if◌then◌else◌, str_eq, to_string,
}

pub record TopicSpec : Type 0 where
  pub name : String
  pub partitions : ℕ
  pub retention_ms : ℕ

abbrev pub topics : List TopicSpec
topics =
    record { name = "aigis.events.raw"; partitions = 64; retention_ms = 604800000 }
    ∷ record { name = "aigis.events.process"; partitions = 32; retention_ms = 1209600000 }
    ∷ record { name = "aigis.events.network"; partitions = 32; retention_ms = 1209600000 }
    ∷ record { name = "aigis.events.file"; partitions = 16; retention_ms = 1209600000 }
    ∷ record { name = "aigis.events.auth"; partitions = 16; retention_ms = 2592000000 }
    ∷ record { name = "aigis.heartbeats"; partitions = 8; retention_ms = 259200000 }
    ∷ record { name = "aigis.alerts"; partitions = 8; retention_ms = 7776000000 }
    ∷ record { name = "aigis.events.dlq"; partitions = 4; retention_ms = 2592000000 }
    ∷ []

-- `NewTopic`, with a fixed replication and its settings.
pub record NewTopic : Type 0 where
  pub name : String
  pub partitions : ℕ
  pub replication : ℕ
  pub config : List (String × String)

abbrev pub new_topic : TopicSpec → NewTopic
new_topic t = record {
  name = t.name;
  partitions = t.partitions;
  replication = 1;
  config = ("retention.ms", to_string t.retention_ms) ∷ ("cleanup.policy", "delete") ∷ [];
}

-- `AdminClient`: its creation for some brokers, and the creation of topics there. A topic that is
-- not created gives its name and the error.
pub record AdminClient : Type 0 where
  pub create : String → Result String (Unit {0})
  pub create_topics :
      String → List NewTopic → Result String (List (Result (String × String) String))

-- What a run asks of the brokers, and the lines that it prints.
pub record Ran : Type 0 where
  pub asked : List (String × List NewTopic)
  pub printed : List String

abbrev pub says : String → Ran
says line = record { asked = []; printed = line ∷ [] }

-- The flags in any order; the first argument tells that the last flag waits for its value.
unfoldable pub brokers_of : Bool → List String → Option String → Result String (Option String)
brokers_of true [] brokers_opt = err "Error: --brokers requires a value"
brokers_of true (value ∷ args) brokers_opt = brokers_of false args (some value)
brokers_of false [] brokers_opt = ok brokers_opt
brokers_of false (arg ∷ args) brokers_opt = brokers_of (str_eq arg "--brokers") args brokers_opt

abbrev pub report : Result (String × String) String → String
report (ok topic_name) = "Created topic: " <> topic_name
report (err (topic_name, e)) = "Failed to create topic " <> (topic_name <> (": " <> e))

module _ (admin : AdminClient) where
  -- `create-topics`: an error of the client ends the program.
  unfoldable pub create_topics : String → Ran × Result String (Unit {0})
  create_topics brokers =
      let new_topics = map new_topic topics in
      let asked = (brokers, new_topics) ∷ [] in
      elim (admin.create_topics brokers new_topics) [
        | err e ↦ (record { asked = asked; printed = [] }, err e)
        | ok results ↦ (record { asked = asked; printed = map report results }, ok tt)
      ]

  unfoldable pub run_command : String → String → Ran × Result String (Unit {0})
  run_command command brokers = elim (admin.create brokers) [
    | err e ↦ (record { asked = []; printed = [] }, err e)
    | ok _ ↦
        if str_eq command "create-topics"
        then create_topics brokers
        else (says ("Unknown command: " <> command), ok tt)
  ]

  unfoldable pub with_brokers :
      String → Result String (Option String) → Ran × Result String (Unit {0})
  with_brokers command (err line) = (says line, ok tt)
  with_brokers command (ok none) = (says "Error: --brokers flag is required", ok tt)
  with_brokers command (ok (some brokers)) = run_command command brokers

  abbrev pub usage : Ran × Result String (Unit {0})
  usage = (says "Usage: kafka-admin <command> --brokers <brokers> [--topic <topic>]", ok tt)

  -- The arguments from the program's name on. Fewer than two do not get here.
  abbrev pub with_args : List String → Ran × Result String (Unit {0})
  with_args [] = usage
  with_args (program ∷ []) = usage
  with_args (program ∷ command ∷ flags) = with_brokers command (brokers_of false flags none)

  unfoldable pub main : List String → Ran × Result String (Unit {0})
  main args = if ltb (length args) 4 then usage else with_args args
