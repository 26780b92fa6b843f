-- ===== src/Pipeline/Admin/Topics.antt =====
-- That the tool creates the topics on which the pipeline sends.
use aigis_zero.Json.{Codec}
use aigis_zero.Pipeline.Admin.{
  topics, new_topic, AdminClient, brokers_of, create_topics, run_command, with_brokers, main,
}
use aigis_zero.Pipeline.Counting.{handled, record_of, run-records}
use aigis_zero.Pipeline.Delivery.{emitted-IsDeadLetter-or-IsTyped}
use aigis_zero.Pipeline.Normal.{route_topic-Arm, process, network, file, auth}
use aigis_zero.Pipeline.Records.{emitted}
use aigis_zero.Pipeline.Router.{FutureRecord, Message, route_topic}
use aigis_zero.Pipeline.Worker.{BorrowedMessage, Poll, ConsumerWorker, run}
use aigis_zero.Prelude.{
  String, true, false, List, [], ◌∷◌, ◌++◌, map, Option, none, some, Result, ok, length, ltb,
  length-append, ◌≡◌, refl, sym, subst, arith, All, All-append, one_of, str_eq, Result-cases, inl,
  inr,
}

abbrev pub IsCreated : String → Type 0
IsCreated topic = one_of (map (λ t. t.name) (map new_topic topics)) topic ≡ true

-- No flag is "--brokers".
abbrev pub NoBrokers : List String → Type 0
NoBrokers flags = All (λ f. str_eq f "--brokers" ≡ false) flags

brokers_of-after :
    (flags : List String) (o : Option String) → NoBrokers flags → brokers_of false flags o ≡ ok o
unfolding brokers_of
brokers_of-after [] o h = refl
brokers_of-after (f ∷ flags) o h = rw (h.0, brokers_of) (brokers_of-after flags o h.1)

brokers_of-flag :
    (before after : List String) (b : String) (o : Option String)
    → NoBrokers before
    → NoBrokers after
    → brokers_of false (before ++ "--brokers" ∷ b ∷ after) o ≡ ok (some b)
unfolding brokers_of
brokers_of-flag [] after b o h k = brokers_of-after after (some b) k
brokers_of-flag (f ∷ before) after b o h k =
    rw (h.0, brokers_of) (brokers_of-flag before after b o h.1 k)

create_topics-asked :
    (admin : AdminClient) (b : String)
    → (create_topics admin b).0.asked ≡ (b, map new_topic topics) ∷ []
unfolding create_topics
create_topics-asked admin b = elim (Result-cases (admin.create_topics b (map new_topic topics))) [
  | inl (results, e) ↦ rw (e, create_topics) refl
  | inr (m, e) ↦ rw (e, create_topics) refl
]

main-asked :
    (admin : AdminClient) (program : String) (before after : List String) (b : String)
    → NoBrokers before
    → NoBrokers after
    → admin.create b ≡ ok tt
    → (main admin (program ∷ "create-topics" ∷ before ++ "--brokers" ∷ b ∷ after)).0.asked
      ≡ (b, map new_topic topics) ∷ []
unfolding main with_brokers run_command
main-asked admin program before after b h k works =
    let long : ltb (length (program ∷ "create-topics" ∷ before ++ "--brokers" ∷ b ∷ after)) 4
        ≡ false =
      ground (arith, length-append before ("--brokers" ∷ b ∷ after)) in
    rw (long, brokers_of-flag before after b none h k, works, with_brokers, run_command)
      (create_topics-asked admin b)

route_topic-IsCreated : (s t : String) → route_topic s ≡ some t → IsCreated t
unfolding one_of
route_topic-IsCreated s t h = elim (route_topic-Arm s t h) [
  | process _ e ↦ rw e refl
  | network _ _ e ↦ rw e refl
  | file _ _ _ e ↦ rw e refl
  | auth _ _ _ _ e ↦ rw e refl
]

emitted-IsCreated : (codec : Codec) (msg : Message) → IsCreated (emitted codec msg).topic
unfolding one_of
emitted-IsCreated codec msg = elim (emitted-IsDeadLetter-or-IsTyped codec msg).1 [
  | inl dead ↦ rw dead.topic refl
  | inr typed ↦ route_topic-IsCreated _ _ typed.classified
]

records-IsCreated :
    (codec : Codec) (msgs : List BorrowedMessage)
    → All (λ r. IsCreated r.topic) (map (record_of codec) msgs)
records-IsCreated codec [] = tt
records-IsCreated codec (msg ∷ msgs) = (emitted-IsCreated codec _, records-IsCreated codec msgs)

-- `kafka-admin create-topics` with one `--brokers` flag, anywhere among other flags, asks those
-- brokers for its topics if the client can be made; and a worker of the pipeline whose records so
-- far went to these topics sends to no other topic in any run.
pub main-provides :
    (admin : AdminClient) (program : String) (before after : List String) (b : String)
    (codec : Codec) (deliver : FutureRecord → Result String (Unit {0})) (polls : List Poll)
    (w : ConsumerWorker)
    → NoBrokers before
    → NoBrokers after
    → admin.create b ≡ ok tt
    → All (λ r. IsCreated r.topic) w.processor.sent
    → ((main admin (program ∷ "create-topics" ∷ before ++ "--brokers" ∷ b ∷ after)).0.asked
        ≡ (b, map new_topic topics) ∷ [])
      × All (λ r. IsCreated r.topic) (run codec deliver polls w).processor.sent
main-provides admin program before after b codec deliver polls w h k works sent = (
  main-asked admin program before after b h k works,
  subst (All (λ r. IsCreated r.topic)) (sym (run-records codec deliver polls w).0) (
      All-append _ w.processor.sent (map (record_of codec) (handled polls)) sent
        (records-IsCreated codec (handled polls))),
)
