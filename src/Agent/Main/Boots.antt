-- ===== src/Agent/Main/Boots.antt =====
-- What a start that goes on, or that panics, has behind it, part by part.
use aigis_zero.Agent.Client.{
  FleetClient, Stream, Dial, Retried, Retrying, trying, returned, overflowed, connect, dialled,
  streaming, with_stream, retried, retry_loop, connect_with_retry, bearer_value, delay,
}
use aigis_zero.Agent.Client.Calls.{
  RegisterRequest, RegisterResponse, Registering, identified, answered, enroll_over,
  enroll_with_secret, secret_metadata,
}
use aigis_zero.Agent.Main.{
  Boot, go, exits, fails, panics, waits, ◌>>=◌, connected, connected_of, enrolled,
}
use aigis_zero.Engine.Models.{Uuid}
use aigis_zero.Fleet.Gateway.{MetadataMap}
use aigis_zero.Prelude.{
  ℕ, ◌+◌, ◌^◌, ◌%◌, String, Bool, ◌&&◌, List, [], ◌∷◌, ◌++◌, Option, none, some, Result, ok, err,
  ◌≡◌, refl, ap, inl, inr, arith, Bool-cases, leb, ltb,
}

pub >>=-go :
    {A B : Type 0} (m : Boot A) (f : A → Boot B) {b : B}
    → (m >>= f) ≡ go b
    → (a : A) × (m ≡ go a) × (f a ≡ go b)
>>=-go (go a) f h = (a, refl, h)
>>=-go (exits n) f h = cc
>>=-go (fails e) f h = cc
>>=-go panics f h = cc
>>=-go waits f h = cc

connected_of-go :
    (result : Result String (Unit {0})) (d c : FleetClient)
    → connected_of result d ≡ go c
    → (result ≡ ok tt) × (d ≡ c)
connected_of-go (ok u) d c h = (refl, ground arith)
connected_of-go (err e) d c h = cc

connected-go :
    (o : Retrying) (c : FleetClient)
    → connected o ≡ go c
    → (r : Retried) × (o ≡ returned r) × (r.result ≡ ok tt) × (r.client ≡ c)
connected-go trying c h = cc
connected-go overflowed c h = cc
connected-go (returned r) c h =
    let (good, same) = connected_of-go r.result r.client c h in (r, refl, good, same)

-- The client of the same agent and server.
pub record Keeps (c c' : FleetClient) : Type 0 where
  pub endpoint : c'.endpoint ≡ c.endpoint
  pub node_id : c'.node_id ≡ c.node_id

-- One of the dials opened an event stream, and the client's channels are those of this stream.
pub record Streams (dials : List Dial) (c : FleetClient) : Type 0 where
  pub before : List Dial
  pub dial : Dial
  pub after : List Dial
  pub among : dials ≡ before ++ dial ∷ after
  pub stream : Stream
  pub opened : dial.stream ≡ ok stream
  pub sends : c.outbound_tx ≡ some (record { sent = []; closes_after = stream.closes_after })
  pub receives : c.inbound_rx ≡ some (record { queued = stream.messages; closed = stream.ended })

-- A connection without a token has no stream.
abbrev pub Opens : Option String → List Dial → FleetClient → Type 0
Opens none dials c = Unit
Opens (some t) dials c = Streams dials c

Opens-later :
    (token : Option String) (d : Dial) (dials : List Dial) (c : FleetClient)
    → Opens token dials c
    → Opens token (d ∷ dials) c
Opens-later none d dials c h = tt
Opens-later (some t) d dials c h = record {
  before = d ∷ h.before;
  dial = h.dial;
  after = h.after;
  among = ap (◌∷◌ d) h.among;
  stream = h.stream;
  opened = h.opened;
  sends = h.sends;
  receives = h.receives;
}

-- The client is connected under the token, by one of the dials.
pub record IsConnected (token : Option String) (dials : List Dial) (c : FleetClient) : Type 0 where
  pub client : c.client ≡ some c.endpoint
  pub with_token : c.token ≡ token
  pub opens : Opens token dials c

IsConnected-later :
    (token : Option String) (d : Dial) (dials : List Dial) (c : FleetClient)
    → IsConnected token dials c
    → IsConnected token (d ∷ dials) c
IsConnected-later token d dials c h = record {
  client = h.client;
  with_token = h.with_token;
  opens = Opens-later token d dials c h.opens;
}

module _ (is_header : String → Bool) where
  -- What a call of `connect` leaves, whatever it meets.
  abbrev Leaves :
      Option String → List Dial → FleetClient → FleetClient × Result String (Unit {0}) → Type 0
  Leaves token dials c (c', ok u) = Keeps c c' × IsConnected token dials c'
  Leaves token dials c (c', err e) = Keeps c c'

  module _ (d : Dial) (ds : List Dial) where
    with_stream-Leaves :
        (text : String) (c0 c : FleetClient) (stream : Result String Stream)
        → d.stream ≡ stream
        → Keeps c0 c
        → c.client ≡ some c.endpoint
        → c.token ≡ some text
        → Leaves (some text) (d ∷ ds) c0 (with_stream is_header c stream)
    with_stream-Leaves text c0 c (ok s) opened k on t = (
      record { endpoint = k.endpoint; node_id = k.node_id },
      record {
        client = on;
        with_token = t;
        opens = record {
          before = [];
          dial = d;
          after = ds;
          among = refl;
          stream = s;
          opened = opened;
          sends = refl;
          receives = refl;
        };
      },
    )
    with_stream-Leaves text c0 c (err e) opened k on t = k

    streaming-Leaves :
        (token : Option String) (c0 c : FleetClient)
        → Keeps c0 c
        → c.client ≡ some c.endpoint
        → c.token ≡ token
        → Leaves token (d ∷ ds) c0 (streaming is_header d.stream token c)
    streaming-Leaves none c0 c k on t = (
      record { endpoint = k.endpoint; node_id = k.node_id },
      record { client = on; with_token = t; opens = tt },
    )
    streaming-Leaves (some text) c0 c k on t = elim (Bool-cases (is_header (bearer_value text))) [
      | inl fits ↦ rw fits (with_stream-Leaves text c0 c d.stream refl k on t)
      | inr not_fits ↦ rw not_fits k
    ]

    dialled-Leaves :
        (token : Option String) (c0 c : FleetClient) (r : Result String (Unit {0}))
        → Keeps c0 c
        → Leaves token (d ∷ ds) c0 (dialled is_header d token c r)
    dialled-Leaves token c0 c (err e) k = k
    dialled-Leaves token c0 c (ok u) k =
        streaming-Leaves token c0 (record c { client = some c.endpoint; token = token })
          (record { endpoint = k.endpoint; node_id = k.node_id }) refl refl

  module _ (max_attempts base_delay : ℕ) (token : Option String) (c0 : FleetClient) where
    -- What the loop returns successfully is a connected client.
    abbrev Connects : List Dial → Retrying → Type 0
    Connects dials o =
        (r : Retried)
        → o ≡ returned r
        → r.result ≡ ok tt
        → Keeps c0 r.client × IsConnected token dials r.client

    retried-Connects :
        (d : Dial) (ds : List Dial) (n wait : ℕ) (delays : List ℕ)
        (x : FleetClient × Result String (Unit {0})) (rest : FleetClient → Retrying)
        → Leaves token (d ∷ ds) c0 x
        → ((c : FleetClient) → Keeps c0 c → Connects ds (rest c))
        → Connects (d ∷ ds) (retried max_attempts n wait delays x.0 x.1 (rest x.0))
    retried-Connects d ds n wait delays (c, ok u) rest l ih r e good =
        let same : record { client = c; result = ok tt; delays = delays } ≡ r = ground arith in
        rw (← same) l
    retried-Connects d ds n wait delays (c, err m) rest l ih r e good =
        elim (Bool-cases (ltb 0 max_attempts && leb max_attempts n)) [
          | inl out ↦ let k = rw out at e in absurd (ground arith)
          | inr goes ↦ elim (Bool-cases (ltb wait (2 ^ 64))) [
            | inl fits ↦
                let (kept, on) = ih c l r (rw (goes, fits) at e) good in
                (kept, IsConnected-later token d ds r.client on)
            | inr over ↦ let k = rw (goes, over) at e in cc
          ]
        ]

    retry_loop-Connects :
        (ds : List Dial) (n : ℕ) (delays : List ℕ) (c : FleetClient)
        → Keeps c0 c
        → Connects ds (retry_loop is_header max_attempts base_delay token ds n delays c)
    unfolding retry_loop connect
    retry_loop-Connects [] n delays c k = λ r e good. cc
    retry_loop-Connects (d ∷ ds) n delays c k =
        let n' = (n + 1) % 2 ^ 32 in
        retried-Connects d ds n' (delay base_delay n') delays (connect is_header d token c)
          (λ c'.
            retry_loop is_header max_attempts base_delay token ds n'
              (delays ++ delay base_delay n' ∷ []) c')
          (dialled-Leaves d ds token c0 c d.channel k)
          (λ c' k'. retry_loop-Connects ds n' (delays ++ delay base_delay n' ∷ []) c' k')

    pub connected-IsConnected :
        (ds : List Dial) (c : FleetClient)
        → connected (connect_with_retry is_header max_attempts base_delay token ds c0) ≡ go c
        → Keeps c0 c × IsConnected token ds c
    unfolding connect_with_retry
    connected-IsConnected ds c h =
        let (r, e, good, same) = connected-go _ c h in
        rw (← same)
          (retry_loop-Connects ds 0 [] c0 (record { endpoint = refl; node_id = refl }) r e good)

module _ {S : Type 0} (parse : String → Result String Uuid) (is_header : String → Bool)
    (register_agent : Registering S) where
  -- A successful enrolment leaves the client with the id that it read, and the token.
  abbrev Enrols : FleetClient → FleetClient × Result String RegisterResponse → Type 0
  Enrols c (c', ok response) =
      (id : Uuid) × (parse response.node_id ≡ ok id)
      × (c' ≡ record c { node_id = some id; token = some response.token })
  Enrols c (c', err e) = Unit {0}

  identified-Enrols :
      (c : FleetClient) (response : RegisterResponse) (r : Result String Uuid)
      → parse response.node_id ≡ r
      → Enrols c (identified parse c response r)
  identified-Enrols c response (ok id) h = (id, h, refl)
  identified-Enrols c response (err e) h = tt

  answered-Enrols :
      (c : FleetClient) (r : Result String RegisterResponse) → Enrols c (answered parse c r)
  answered-Enrols c (ok response) = identified-Enrols c response (parse response.node_id) refl
  answered-Enrols c (err e) = tt

  enroll_over-Enrols :
      (channel secret : Option String) (request : RegisterRequest) (c : FleetClient) (s : S)
      → Enrols c
          (enroll_over parse register_agent channel
            (secret_metadata is_header secret)
            request
            c
            s).1
  enroll_over-Enrols none secret request c s = tt
  enroll_over-Enrols (some ch) secret request c s =
      answered-Enrols c (register_agent (secret_metadata is_header secret) request s).1

  enrolled-go :
      (x : S × (FleetClient × Result String RegisterResponse)) (c : FleetClient) (s : S)
      (c' : FleetClient) (response : RegisterResponse)
      → Enrols c x.1
      → enrolled x ≡ go (s, (c', response))
      → (id : Uuid) × (parse response.node_id ≡ ok id)
        × (c' ≡ record c { node_id = some id; token = some response.token })
  enrolled-go (t, (d, ok r)) c s c' response e h =
      let same : r ≡ response = ground arith in
      let same' : d ≡ c' = ground arith in rw (← same, ← same') e
  enrolled-go (t, (d, err m)) c s c' response e h = cc

  pub enroll-Enrols :
      (request : RegisterRequest) (secret : Option String) (c : FleetClient) (s s' : S)
      (c' : FleetClient) (response : RegisterResponse)
      → enrolled (enroll_with_secret parse is_header register_agent request secret c s)
        ≡ go (s', (c', response))
      → (id : Uuid) × (parse response.node_id ≡ ok id)
        × (c' ≡ record c { node_id = some id; token = some response.token })
  unfolding enroll_with_secret
  enroll-Enrols request secret c s s' c' response h =
      enrolled-go _ c s' c' response (enroll_over-Enrols c.client secret request c s) h

  -- What the server answered to an enrolment that succeeds.
  read-answers :
      (c c' : FleetClient) (s s' : S) (v response : RegisterResponse) (id : Result String Uuid)
      → enrolled (s, identified parse c v id) ≡ go (s', (c', response))
      → (s ≡ s') × (v ≡ response)
  read-answers c c' s s' v response (ok id) h = (ground arith, ground arith)
  read-answers c c' s s' v response (err e) h = cc

  answers :
      (c c' : FleetClient) (s s' : S) (v : Result String RegisterResponse)
      (response : RegisterResponse)
      → enrolled (s, answered parse c v) ≡ go (s', (c', response))
      → (s ≡ s') × (v ≡ ok response)
  answers c c' s s' (ok v) response h =
      let (state, same) = read-answers c c' s s' v response (parse v.node_id) h in
      (state, ap ok same)
  answers c c' s s' (err e) response h = cc

  channel-answers :
      (channel : Option String) (metadata : MetadataMap) (request : RegisterRequest)
      (c c' : FleetClient) (s s' : S) (response : RegisterResponse)
      → enrolled (enroll_over parse register_agent channel metadata request c s)
        ≡ go (s', (c', response))
      → ((register_agent metadata request s).0 ≡ s')
        × ((register_agent metadata request s).1 ≡ ok response)
  channel-answers none metadata request c c' s s' response h = cc
  channel-answers (some ch) metadata request c c' s s' response h =
      answers c c' (register_agent metadata request s).0 s' (register_agent metadata request s).1
        response h

  pub enroll-answers :
      (request : RegisterRequest) (secret : Option String) (c : FleetClient) (s s' : S)
      (c' : FleetClient) (response : RegisterResponse)
      → enrolled (enroll_with_secret parse is_header register_agent request secret c s)
        ≡ go (s', (c', response))
      → ((register_agent (secret_metadata is_header secret) request s).0 ≡ s')
        × ((register_agent (secret_metadata is_header secret) request s).1 ≡ ok response)
  unfolding enroll_with_secret
  enroll-answers request secret c s s' c' response h =
      channel-answers c.client (secret_metadata is_header secret) request c c' s s' response h
