-- ===== src/Pipeline/Admin/Tests.antt =====
-- Runs of the tool, and a worker next to one.
use aigis_zero.Json.{null, Codec}
use aigis_zero.Pipeline.Admin.{
  AdminClient, new_topic, topics, brokers_of, create_topics, run_command, with_brokers, main,
}
use aigis_zero.Pipeline.Admin.Topics.{IsCreated, main-provides}
use aigis_zero.Pipeline.Metrics.{new}
use aigis_zero.Pipeline.Router.{FutureRecord}
use aigis_zero.Pipeline.Worker.{Poll, message, ConsumerWorker, run}
use aigis_zero.Prelude.{
  String, List, [], ◌∷◌, ◌++◌, ◌<>◌, take, map, none, Result, ok, err, ◌≡◌, refl, pos, All,
  to_string, str_eq, if◌then◌else◌,
}

-- Brokers that have one of the topics already.
abbrev answers : AdminClient
answers = record {
  create = λ brokers. ok tt;
  create_topics = λ brokers new_topics. ok (
      map
        (λ t.
          if str_eq t.name "aigis.alerts" then err (t.name, "TopicAlreadyExists") else ok t.name)
        new_topics);
}

flagless :
    (main answers ("kafka-admin" ∷ "create-topics" ∷ "--topic" ∷ "--brokers" ∷ [])).0.printed
    ≡ "Error: --brokers requires a value" ∷ []
unfolding main with_brokers run_command brokers_of
flagless = refl

one_exists :
    (main answers ("kafka-admin" ∷ "create-topics" ∷ "--brokers" ∷ "b:1" ∷ [])).0.printed
    ≡ map (λ t. "Created topic: " <> t.name) (take 6 topics)
      ++ "Failed to create topic aigis.alerts: TopicAlreadyExists"
        ∷ "Created topic: aigis.events.dlq" ∷ []
unfolding main with_brokers run_command brokers_of create_topics
one_exists = refl

week : to_string 604800000 ≡ "604800000"
unfolding to_string
week = refl

abbrev nulls : Codec
nulls = record { from_slice = λ bytes. ok null; to_vec = λ v. ok [] }

abbrev delivered : FutureRecord → Result String (Unit {0})
delivered r = ok tt

abbrev polls : List Poll
polls =
    message (record {
      key = none;
      payload = none;
      topic = "aigis.events.raw";
      partition = pos 0;
      offset = pos 7;
    })
    ∷ []

abbrev idle : ConsumerWorker
idle = record { processor = record { metrics = new; sent = [] }; committed = [] }

main-provides_example :
    ((main answers
        ("kafka-admin" ∷ "create-topics" ∷ [] ++ "--brokers" ∷ "b:1" ∷ "-v" ∷ [])).0.asked
      ≡ ("b:1", map new_topic topics) ∷ [])
    × All (λ r. IsCreated r.topic) (run nulls delivered polls idle).processor.sent
main-provides_example =
    main-provides answers "kafka-admin" [] ("-v" ∷ []) "b:1" nulls delivered polls idle tt
      (refl, tt) refl tt
