-- ===== src/Kcptun/Agreement.antt =====
-- client/main.go and server/main.go: a session of the client and the session that the server accepts,
-- when both programs were configured alike.
use xtaci_kcptun.Prelude.{
  ℕ, zero, suc, ◌≡◌, refl, sym, ◌∙◌, ap, subst, String, List, [], ◌∷◌, get_elem?, Option, none,
  some, Bool, not, arith,
}
use xtaci_kcptun.Settings.{Json, Given, load}
use xtaci_kcptun.Udptun.Cipher.{Suite}
use xtaci_kcptun.Kcptun.Config.{Context, Parses}
use xtaci_kcptun.Kcptun.Config.Client.{ClientConfig, client_flags, client_config}
use xtaci_kcptun.Kcptun.Config.Server.{ServerConfig, server_flags, server_config}
use xtaci_kcptun.Kcptun.Config.Interop.{SaysSame, client_config-server_config}
use xtaci_kcptun.Kcptun.Crypt.{client_block, server_block}
use xtaci_kcptun.Kcptun.Connect.{
  client_call, Answers, Up, dial, create_conn, wait_more, wait_conn, client_settings,
}
use xtaci_kcptun.Kcptun.Serving
use xtaci_kcptun.Kcptun.Serving.{Listener, server_call, serve, Served, loop, server_settings}
use xtaci_kcptun.Kcptun.CompStream.{IsPrefix, Snappy, put, get, concat, get-put}

-- The session that an attempt comes to is as the configuration says.
record IsConfigured (c : ClientConfig) (up : Up) : Type 0 where
  call : up.call ≡ client_call c
  compressed : up.compressed ≡ not c.no_comp
  settings : up.settings ≡ client_settings c

create_conn-IsConfigured :
    (c : ClientConfig) (a : Answers) (up : Up)
    → (create_conn c a).result ≡ some up
    → IsConfigured c up
unfolding create_conn dial
create_conn-IsConfigured c a up e = record {
  call = ground (arith, e);
  compressed = ground (arith, e);
  settings = ground (arith, e);
}

wait_conn-IsConfigured :
    (c : ClientConfig) (answers : List Answers) (up : Up)
    → (wait_conn c answers).up ≡ some up
    → IsConfigured c up
unfolding wait_conn
wait_conn-IsConfigured c [] up e = absurd (cc e)
wait_conn-IsConfigured c (a ∷ answers) up e =
    decide (create_conn c a).result refl (wait_conn-IsConfigured c answers up) e
  where
    decide :
        (r : Option Up)
        → (create_conn c a).result ≡ r
        → ((wait_conn c answers).up ≡ some up → IsConfigured c up)
        → (wait_more r (create_conn c a).left_open (wait_conn c answers)).up ≡ some up
        → IsConfigured c up
    decide none made rest e = rest e
    decide (some found) made rest e = create_conn-IsConfigured c a up (made ∙ e)

record IsServing (c : ServerConfig) (lis : Listener) (served : Served) : Type 0 where
  call : served.call ≡ lis.call
  compressed : served.compressed ≡ not c.no_comp
  settings : served.settings ≡ server_settings c

loop-IsServing :
    (c : ServerConfig) (lis : Listener) (accepted : List (Option ℕ)) (i : ℕ) (served : Served)
    → get_elem? (loop c lis accepted) i ≡ some served
    → IsServing c lis served
unfolding loop
loop-IsServing c lis [] i served e = absurd (cc e)
loop-IsServing c lis (none ∷ accepted) i served e = absurd (cc e)
loop-IsServing c lis (some conn ∷ accepted) zero served e = record {
  call = cc e;
  compressed = cc e;
  settings = cc e;
}
loop-IsServing c lis (some conn ∷ accepted) (suc i) served e =
    loop-IsServing c lis accepted i served e

-- Every listener is made with the cipher and the shards of the configuration.
serve-call :
    (c : ServerConfig) (a : Serving.Answers) (listeners : List Listener)
    → serve c a ≡ some listeners
    → (j : ℕ) (lis : Listener) → get_elem? listeners j ≡ some lis
    → lis.call ≡ server_call c
unfolding serve
serve-call c a [] e j lis f = absurd (cc f)
serve-call c a (l ∷ []) e zero lis f = ground (arith, e, f)
serve-call c a (l ∷ []) e (suc j) lis f = absurd (cc f)
serve-call c a (l ∷ m ∷ []) e zero lis f = ground (arith, e, f)
serve-call c a (l ∷ m ∷ []) e (suc zero) lis f = ground (arith, e, f)
serve-call c a (l ∷ m ∷ []) e (suc (suc j)) lis f = absurd (cc f)
serve-call c a (l ∷ m ∷ n ∷ more) e j lis f = absurd (ground (arith, e))

-- What a side reads of what the other has written, in any pieces: a first part of it from the bytes
-- that have come, and all of it from all bytes.
pub record Carries (snappy : Snappy) (writer reader : Bool) (ps : List (List ℕ)) (got : List ℕ)
    : Type 0 where
  pub part : IsPrefix (get snappy (not reader) got) (concat snappy ps)
  pub whole : get snappy (not reader) (put snappy (not writer) ps) ≡ concat snappy ps

Carries-same :
    (snappy : Snappy) (writer reader : Bool) (ps : List (List ℕ)) (got : List ℕ)
    → writer ≡ reader
    → IsPrefix got (put snappy (not writer) ps)
    → Carries snappy writer reader ps got
Carries-same snappy writer reader ps got same h =
    let (part, whole) = get-put snappy (not writer) ps got h in
    subst (λ b. Carries snappy writer b ps got) same (record { part = part; whole = whole })

-- The two ends of a session: the calls of each configuration, one cipher and one division into shards for the packets, and each end
-- reads what the other writes.
pub record Agree (suite : Suite) (snappy : Snappy) (a : ClientConfig) (b : ServerConfig) (up : Up)
    (served : Served) (ps qs : List (List ℕ)) (got got' : List ℕ) : Type 0 where
  pub client_set : up.settings ≡ client_settings a
  pub server_set : served.settings ≡ server_settings b
  pub cipher :
      client_block suite up.call.key up.call.crypt
      ≡ server_block suite served.call.key served.call.crypt
  pub data_shard : up.call.data_shard ≡ served.call.data_shard
  pub parity_shard : up.call.parity_shard ≡ served.call.parity_shard
  pub upward : Carries snappy up.compressed served.compressed ps got
  pub downward : Carries snappy served.compressed up.compressed qs got'

-- When both programs come to a configuration, and their command lines and files say the same or both
-- nothing about the key, the cipher, the shards and compression, then any session that the client
-- comes to, after any attempts, and any session that the server accepts use the same cipher and shards, and
-- are set up as the configurations say.
-- Each end reads a first part of what the other has written from the bytes that have come, and all of it
-- from all bytes.
pub session_agrees :
    (g h : Given) (c s : Context) (parses : Parses client_flags g c)
    (parses' : Parses server_flags h s) (suite : Suite) (files files' : String → Option Json)
    (opens opens' : String → Bool) (json other : Json) (a : ClientConfig) (b : ServerConfig)
    → load (c.string "c") files ≡ some json
    → load (s.string "c") files' ≡ some other
    → SaysSame g h json other
    → client_config c files opens ≡ some a
    → server_config s files' opens' ≡ some b
    → (snappy : Snappy) (answers : List Answers) (up : Up) → (wait_conn a answers).up ≡ some up
    → (made : Serving.Answers) (listeners : List Listener) → serve b made ≡ some listeners
    → (j : ℕ) (lis : Listener) → get_elem? listeners j ≡ some lis
    → (accepted : List (Option ℕ)) (i : ℕ) (served : Served)
    → get_elem? (loop b lis accepted) i ≡ some served
    → (ps qs : List (List ℕ)) (got got' : List ℕ) → IsPrefix got (put snappy (not up.compressed) ps)
    → IsPrefix got' (put snappy (not served.compressed) qs)
    → Agree suite snappy a b up served ps qs got got'
session_agrees g h c s parses parses' suite files files' opens opens' json other a b loaded loaded'
      same started started' snappy answers up came made listeners serves j lis opened accepted i
      served was ps qs got got' sent sent' =
    let (wire, cipher) =
      client_config-server_config g h c s parses parses' suite files files' opens opens' json other
        a b loaded loaded' same started started' in
    let configured = wait_conn-IsConfigured a answers up came in
    let serving = loop-IsServing b lis accepted i served was in
    let call : served.call ≡ server_call b =
      serving.call ∙ serve-call b made listeners serves j lis opened in
    let agree : up.compressed ≡ served.compressed =
      configured.compressed ∙ (ap (λ w. not w.no_comp) wire ∙ sym serving.compressed) in
    record {
      client_set = configured.settings;
      server_set = serving.settings;
      cipher =
          ap (λ k. client_block suite k.key k.crypt) configured.call
          ∙ (cipher ∙ sym (ap (λ k. server_block suite k.key k.crypt) call));
      data_shard =
          ap (λ k. k.data_shard) configured.call
          ∙ (ap (λ w. w.data_shard) wire ∙ sym (ap (λ k. k.data_shard) call));
      parity_shard =
          ap (λ k. k.parity_shard) configured.call
          ∙ (ap (λ w. w.parity_shard) wire ∙ sym (ap (λ k. k.parity_shard) call));
      upward = Carries-same snappy up.compressed served.compressed ps got agree sent;
      downward = Carries-same snappy served.compressed up.compressed qs got' (sym agree) sent';
    }
