-- ===== src/Agent/Main/Ready.antt =====
-- What holds when the agent's tasks start, and that the start does not panic.
use aigis_zero.Agent.Buffer.{EventBuffer}
use aigis_zero.Agent.Client.{FleetClient}
use aigis_zero.Agent.Client.Calls.{
  Registering, RegisterResponse, enroll_with_secret, secret_metadata,
}
use aigis_zero.Agent.Config.{
  AgentConfig, FleetSection, enrollment_secret_of, save_node_id_to_config,
}
use aigis_zero.Agent.Host.{run_preflight}
use aigis_zero.Agent.Isolation.Endpoint.{parse_endpoint}
use aigis_zero.Agent.Main.{
  go, try, expect, Args, Outside, World, Running, require_root, enrolled, has_id, id_saved,
  with_node_id, check_only, read_config, keep_id, connecting, request_of, isolation_of, join_fleet,
  main,
}
use aigis_zero.Agent.Main.Boots.{
  >>=-go, connected-IsConnected, Streams, enroll-Enrols, enroll-answers,
}
use aigis_zero.Engine.Models.{Uuid}
use aigis_zero.Prelude.{
  ℕ, String, Bool, true, false, not, ◌||◌, Option, none, some, Result, ok, err, ◌≡◌, refl, ◌∙◌, sym,
  ap, arith, subst, Bool-cases, inl, inr, ==_iff, str_eq, if◌then◌else◌,
}

go_elim : {A : Type 0} (P : A → Type 0) (a b : A) → go a ≡ go b → P a → P b
go_elim P a b h p = let same : a ≡ b = ground arith in subst P same p

module _ (o : Outside) where
  -- The state in which the tasks start, from a fleet server that may enrol the agent. Its answer
  -- to the one registration has the id and the token.
  pub record IsReady {S : Type 0} (args : Args) (w : World) (register_agent : Registering S)
      (server : S) (r : Running S) : Type 0 where
    pub root : w.uid ≡ 0
    pub starts : args.check ≡ false
    pub identity : r.fleet.node_id ≡ some r.node_id
    pub recorded : r.config.agent.node_id ≡ some r.node_id
    pub dialled : r.fleet.client ≡ some r.config.fleet.endpoint
    pub hostname : String
    pub response : RegisterResponse
    pub registered :
        register_agent
          (secret_metadata o.is_header (enrollment_secret_of r.config))
          (request_of o w hostname)
          server
        ≡ (r.server, ok response)
    pub assigned : o.parse_id response.node_id ≡ ok r.node_id
    pub authorized : r.fleet.token ≡ some response.token
    pub streams : Streams w.second_dials r.fleet
    pub reachable :
        (r.isolation.fleet_ip, r.isolation.fleet_port)
        ≡ parse_endpoint o.parse_u16 o.parse_ip o.resolve r.config.fleet.endpoint

  secret_of_fleet :
      (config config' : AgentConfig)
      → config.fleet ≡ config'.fleet
      → enrollment_secret_of config ≡ enrollment_secret_of config'
  secret_of_fleet config config' e =
      ap
        (λ (f : FleetSection).
          if str_eq f.enrollment_secret "" then none else some f.enrollment_secret)
        e

  require_root-go : (uid : ℕ) (u : Unit {0}) → require_root uid ≡ go u → uid ≡ 0
  require_root-go uid u h = ground arith

  has_id-true : (id : Uuid) (o : Option Uuid) → has_id id o ≡ true → o ≡ some id
  has_id-true id none h = cc
  has_id-true id (some old) h = ap some ((==_iff old id).0 h)

  -- The configuration after the saving names the id, and the same fleet server.
  id_saved-go :
      (id : Uuid) (config config' : AgentConfig) (x : Option String × Result String (Unit {0}))
      (written : Option String)
      → id_saved id config x ≡ go (config', written)
      → (config'.agent.node_id ≡ some id) × (config'.fleet ≡ config.fleet)
  id_saved-go id config config' (w, ok u) written h =
      let same : with_node_id id config ≡ config' = ground arith in rw (← same) (refl, refl)
  id_saved-go id config config' (w, err e) written h = cc

  kept-go :
      (saves : Bool) (id : Uuid) (config config' : AgentConfig)
      (x : Option String × Result String (Unit {0})) (written : Option String)
      → (saves ≡ false → config.agent.node_id ≡ some id)
      → (if saves then id_saved id config x else go (config, none)) ≡ go (config', written)
      → (config'.agent.node_id ≡ some id) × (config'.fleet ≡ config.fleet)
  kept-go true id config config' x written named h = id_saved-go id config config' x written h
  kept-go false id config config' x written named h =
      let same : config ≡ config' = ground arith in rw (← same) (named refl, refl)

  named_before :
      (id : Uuid) (node_id : Option Uuid) (enroll : Bool)
      → (not (has_id id node_id) || enroll) ≡ false
      → node_id ≡ some id
  named_before id node_id enroll h = elim (Bool-cases (has_id id node_id)) [
    | inl has ↦ has_id-true id node_id has
    | inr lacks ↦ let k : true ≡ false = rw lacks at h in absurd (cc)
  ]

  pub keep_id-go :
      (args : Args) (w : World) (id : Uuid) (config config' : AgentConfig) (written : Option String)
      → keep_id o args w id config ≡ go (config', written)
      → (config'.agent.node_id ≡ some id) × (config'.fleet ≡ config.fleet)
  keep_id-go args w id config config' written h =
      kept-go (not (has_id id config.agent.node_id) || args.enroll) id config config'
        (save_node_id_to_config (o.show_id id) w.saved_text w.save_error) written
        (named_before id config.agent.node_id args.enroll) h

  check_only-go :
      (check : Bool) (w : World) (u : Unit {0})
      → check_only check (run_preflight o.parse_u64 w.host) ≡ go u
      → check ≡ false
  check_only-go false w u h = refl
  check_only-go true w u h = cc

  expect-go : (x : Result String Uuid) (id id' : Uuid) → x ≡ ok id → expect x ≡ go id' → id ≡ id'
  expect-go (ok a) id id' h k = ground arith
  expect-go (err e) id id' h k = cc

  module _ {S : Type 0} (args : Args) (w : World) (register_agent : Registering S) where
    join_fleet-IsReady :
        (server : S) (config : AgentConfig) (buffer : EventBuffer) (r : Running S)
        → w.uid ≡ 0
        → args.check ≡ false
        → join_fleet o args w register_agent server config buffer ≡ go r
        → IsReady args w register_agent server r
    unfolding join_fleet
    join_fleet-IsReady server config buffer r root starts h =
        let (c, e1, h1) = >>=-go (connecting o config none w.first_dials _) _ h in
        let (name, e2, h2) = >>=-go (try w.hostname) _ h1 in
        let ((server', (c', response)), e3, h3) =
          >>=-go
            (enrolled (
              enroll_with_secret o.parse_id o.is_header register_agent (request_of o w name)
                (enrollment_secret_of config) c server))
            _ h2 in
        let (id, e4, h4) = >>=-go (expect (o.parse_id response.node_id)) _ h3 in
        let ((config', written), e5, h5) = >>=-go (keep_id o args w id config) _ h4 in
        let (c'', e6, h6) =
          >>=-go (connecting o config' (some response.token) w.second_dials c') _ h5 in
        let (kept, first) = connected-IsConnected o.is_header _ _ none _ w.first_dials c e1 in
        let (id', parsed, same) =
          enroll-Enrols o.parse_id o.is_header register_agent (request_of o w name)
            (enrollment_secret_of config) c server server' c' response e3 in
        let (recorded, fleet) = keep_id-go args w id config config' written e5 in
        let (kept', second) =
          connected-IsConnected o.is_header _ _ (some response.token) c' w.second_dials c'' e6 in
        let (state, answered) =
          enroll-answers o.parse_id o.is_header register_agent (request_of o w name)
            (enrollment_secret_of config) c server server' c' response e3 in
        let same_id : id' ≡ id = expect-go _ id' id parsed e4 in
        let made : Running S = record {
          fleet = c'';
          osquery = record {
            socket_path = config.osquery.socket_path;
            db_path = config.agent.event_buffer_db;
          };
          buffer = buffer;
          isolation = isolation_of o config';
          node_id = id;
          config = config';
          written = written;
          server = server';
        } in
        let ready : IsReady args w register_agent server made = record {
          root = root;
          starts = starts;
          identity = kept'.node_id ∙ ap (λ (d : FleetClient). d.node_id) same ∙ ap some same_id;
          recorded = recorded;
          dialled =
              second.client
              ∙ ap some (
                  kept'.endpoint
                  ∙ ap (λ (d : FleetClient). d.endpoint) same
                  ∙ kept.endpoint
                  ∙ ap (λ (f : FleetSection). f.endpoint) (sym fleet));
          hostname = name;
          response = response;
          registered =
              ap
                (λ sec.
                  register_agent (secret_metadata o.is_header sec) (request_of o w name) server)
                (secret_of_fleet config' config fleet)
              ∙ (λ i. (state i, answered i));
          assigned = parsed ∙ ap ok same_id;
          authorized = second.with_token;
          streams = second.opens;
          reachable = refl;
        } in
        go_elim (IsReady args w register_agent server) made r h6 ready

    -- If the start of the agent reaches its tasks: the agent is root and was not only asked for a
    -- check; the fleet server has answered its one registration with an id and a token; its client is
    -- connected to the configured endpoint, holds this token, and its channels are those of an event
    -- stream that one of the dials after the enrolment opened; this id is the client's, the tasks'
    -- and the configuration's; and an isolation lets through the address and port that the endpoint parses to.
    pub main-IsReady :
        (server : S) (r : Running S)
        → main o args w register_agent server ≡ go r
        → IsReady args w register_agent server r
    unfolding main
    main-IsReady server r h =
        let (u, e1, h1) = >>=-go (require_root w.uid) _ h in
        let (config, e2, h2) = >>=-go (read_config o args w) _ h1 in
        let (u', e3, h3) = >>=-go (check_only args.check _) _ h2 in
        let (u'', e4, h4) = >>=-go (try (w.init_tracing _ _)) _ h3 in
        let (buffer, e5, h5) = >>=-go (try (w.open_buffer _ _)) _ h4 in
        join_fleet-IsReady server config buffer r (require_root-go w.uid u e1)
          (check_only-go args.check w u' e3) h5
