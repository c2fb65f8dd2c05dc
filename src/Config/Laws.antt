-- ===== src/Config/Laws.antt =====
-- internal/config/config.go with internal/receiver/store.go: what a command has when it starts.
use Prim.Native.String.{◌++◌}
use mathlib.Core.List.{◌++◌ as append}
use text.Mathlib.TextLemmas.{cons-append}
use traefik_connect.Common.{
  String, code, Bool, true, false, ◌||◌, none, List, [], ◌∷◌, ◌==◌, eqb, ==-false, ok, err,
  ok-injective, >>=-eq-ok, after_prefix, after_prefix-append, ◌≡◌, ◌≢◌, refl, ◌∙◌, arith, eq_iff,
  if◌then◌else◌, not_positive,
}
use traefik_connect.Model.{ContainerSpec, Snapshot}
use traefik_connect.Receiver.Stubs.{StubSpec, StubSettings, build_stub, stub_env, target_url}
use traefik_connect.Receiver.Stubs.Laws.{build_stub-env, target_url-ne-empty}
use traefik_connect.Config.{
  Environment, getenv, env_or, AgentConfig, ReceiverConfig, StubConfig, TestAppConfig,
}
use traefik_connect.Config.Flags.{parse_flags}
use traefik_connect.Config.Load.{
  check_agent, check_receiver, check_stub, check_test_app, load_agent, load_receiver, load_stub,
  load_test_app, agent_flags, agent_defaults, receiver_flags, receiver_defaults, stub_flags,
  stub_defaults, test_app_flags, test_app_defaults,
}

-- Two texts that differ before either ends.
abbrev differ : String → String → Bool
differ String.[] t = false
differ (String.◌∷◌ c s) String.[] = false
differ (String.◌∷◌ c s) (String.◌∷◌ d t) =
    let rest = differ s t in if eqb (code c) (code d) then rest else true

after_prefix-differ : (p q x : String) → differ p q ≡ true → after_prefix (p ++ x) q ≡ none
unfolding after_prefix
after_prefix-differ String.[] q x h = cc
after_prefix-differ (String.◌∷◌ c p) String.[] x h = cc
after_prefix-differ (String.◌∷◌ c p) (String.◌∷◌ d q) x h =
    rw (cons-append c p x) (ground (arith, h, after_prefix-differ p q x))

getenv-here :
    (p x key : String) (entries : List String)
    → p ≡ key ++ "="
    → getenv ((p ++ x) ∷ entries) key ≡ x
unfolding getenv
getenv-here p x key entries e = rw (← e, after_prefix-append p x) refl

getenv-later :
    (p x key : String) (entries : List String)
    → differ p (key ++ "=") ≡ true
    → getenv ((p ++ x) ∷ entries) key ≡ getenv entries key
unfolding getenv
getenv-later p x key entries e = rw (after_prefix-differ p (key ++ "=") x e) refl

-- What the environment of a stub holds.
module _ (target token container_id service : String) (more : List String) where
  abbrev started_with : List String
  started_with = append (stub_env target token container_id service) more

  target_here : getenv started_with "STUB_TARGET_URL" ≡ target
  target_here = getenv-here "STUB_TARGET_URL=" target "STUB_TARGET_URL" _ refl

  token_here : getenv started_with "STUB_TOKEN" ≡ token
  token_here =
      getenv-later "STUB_TARGET_URL=" target "STUB_TOKEN" _ refl
      ∙ getenv-here "STUB_TOKEN=" token "STUB_TOKEN" _ refl

  container_here : getenv started_with "STUB_CONTAINER_ID" ≡ container_id
  container_here =
      getenv-later "STUB_TARGET_URL=" target "STUB_CONTAINER_ID" _ refl
      ∙ getenv-later "STUB_TOKEN=" token "STUB_CONTAINER_ID" _ refl
      ∙ getenv-here "STUB_CONTAINER_ID=" container_id "STUB_CONTAINER_ID" _ refl

  service_here : getenv started_with "STUB_SERVICE_NAME" ≡ service
  service_here =
      getenv-later "STUB_TARGET_URL=" target "STUB_SERVICE_NAME" _ refl
      ∙ getenv-later "STUB_TOKEN=" token "STUB_SERVICE_NAME" _ refl
      ∙ getenv-later "STUB_CONTAINER_ID=" container_id "STUB_SERVICE_NAME" _ refl
      ∙ getenv-here "STUB_SERVICE_NAME=" service "STUB_SERVICE_NAME" _ refl

  listen_here : getenv started_with "STUB_LISTEN_ADDR" ≡ ":18181"
  listen_here =
      getenv-later "STUB_TARGET_URL=" target "STUB_LISTEN_ADDR" _ refl
      ∙ getenv-later "STUB_TOKEN=" token "STUB_LISTEN_ADDR" _ refl
      ∙ getenv-later "STUB_CONTAINER_ID=" container_id "STUB_LISTEN_ADDR" _ refl
      ∙ getenv-later "STUB_SERVICE_NAME=" service "STUB_LISTEN_ADDR" _ refl
      ∙ getenv-here "STUB_LISTEN_ADDR=" ":18181" "STUB_LISTEN_ADDR" more refl

check_stub-ok :
    (cfg : StubConfig)
    → cfg.target_url ≢ ""
    → cfg.token ≢ ""
    → cfg.container_id ≢ ""
    → cfg.service_name ≢ ""
    → check_stub cfg ≡ ok cfg
unfolding check_stub
check_stub-ok cfg u t i n =
    rw
      (
        ==-false cfg.target_url "" u,
        ==-false cfg.token "" t,
        ==-false cfg.container_id "" i,
        ==-false cfg.service_name "" n,
      )
      refl

-- A stub that the master creates for a service starts, where the token, the container's id and the
-- service's name are not empty: it listens on its port, and has the worker's tunnel for its
-- target and the token, the container and the service that it was made for.
pub load_stub-build_stub :
    (env : Environment) (more : List String) (s : StubSettings) (snap : Snapshot)
    (image_id : String) (c : ContainerSpec) (service : String) (routers : List String)
    (spec : StubSpec)
    → build_stub s snap image_id c service routers ≡ ok spec
    → env.variables ≡ append spec.env more
    → s.token ≢ ""
    → c.id ≢ ""
    → service ≢ ""
    → load_stub env []
      ≡ ok (record {
        listen_addr = ":18181";
        target_url = target_url snap;
        token = s.token;
        container_id = c.id;
        service_name = service;
      })
unfolding load_stub parse_flags env_or
load_stub-build_stub env more s snap image_id c service routers spec built started t i n =
    rw
      (
        started,
        build_stub-env s snap image_id c service routers spec built,
        target_here (target_url snap) s.token c.id service more,
        token_here (target_url snap) s.token c.id service more,
        container_here (target_url snap) s.token c.id service more,
        service_here (target_url snap) s.token c.id service more,
        listen_here (target_url snap) s.token c.id service more,
      )
      (check_stub-ok _ (target_url-ne-empty snap) t i n)

-- What passes a check with one guard is unchanged.
guarded :
    {A : Type 0} (b : Bool) (e : String) (x y : A)
    → (if b then err e else ok x) ≡ ok y
    → (b ≡ false) × (x ≡ y)
guarded true e x y h = cc
guarded false e x y h = (refl, ok-injective h)

neither : (a b : Bool) → (a || b) ≡ false → (a ≡ false) × (b ≡ false)
neither a b h = ground arith

ne-empty : (s : String) → (s == "") ≡ false → s ≢ ""
ne-empty s h e = cc (h, (eq_iff s "").1 e)

check_agent-ok :
    (c cfg : AgentConfig)
    → check_agent c ≡ ok cfg
    → (cfg.worker_id ≢ "") × (cfg.master_url ≢ "") × (cfg.token ≢ "")
unfolding check_agent
check_agent-ok c cfg h =
    let (g, same) = guarded _ _ c cfg h in
    let (w, r) = neither (c.worker_id == "") _ g in
    let (m, t) = neither (c.master_url == "") _ r in
    rw (← same) (ne-empty c.worker_id w, ne-empty c.master_url m, ne-empty c.token t)

check_receiver-ok : (c cfg : ReceiverConfig) → check_receiver c ≡ ok cfg → cfg.token ≢ ""
unfolding check_receiver
check_receiver-ok c cfg h = let (g, same) = guarded _ _ c cfg h in rw (← same) (ne-empty c.token g)

ok-check_stub :
    (c cfg : StubConfig)
    → check_stub c ≡ ok cfg
    → (cfg.target_url ≢ "") × (cfg.token ≢ "") × (cfg.container_id ≢ "") × (cfg.service_name ≢ "")
unfolding check_stub
ok-check_stub c cfg h =
    let (g, same) = guarded _ _ c cfg h in
    let (u, r) = neither (c.target_url == "") _ g in
    let (t, q) = neither (c.token == "") _ r in
    let (i, n) = neither (c.container_id == "") _ q in
    rw (← same) (
      ne-empty c.target_url u,
      ne-empty c.token t,
      ne-empty c.container_id i,
      ne-empty c.service_name n,
    )

check_test_app-ok :
    (c cfg : TestAppConfig)
    → check_test_app c ≡ ok cfg
    → (cfg.listen_addr ≢ "") × (cfg.name ≢ "") × (not_positive cfg.file_size ≡ false)
unfolding check_test_app
check_test_app-ok c cfg h =
    let (g, same) = guarded _ _ c cfg h in
    let (l, r) = neither (c.listen_addr == "") _ g in
    let (n, f) = neither (c.name == "") _ r in
    rw (← same) (ne-empty c.listen_addr l, ne-empty c.name n, f)

-- Whatever the environment and the arguments are: an agent that starts has an id, a master and a
-- token; a master that starts has a token; a stub that starts has a target, a token, a container and
-- a service; and a test application that starts has an address, a name and a file size above 0.
pub load_lem :
    (env : Environment) (args : List String) (agent : AgentConfig) (receiver : ReceiverConfig)
    (stub : StubConfig) (app : TestAppConfig)
    → load_agent env args ≡ ok agent
    → load_receiver env args ≡ ok receiver
    → load_stub env args ≡ ok stub
    → load_test_app env args ≡ ok app
    → ((agent.worker_id ≢ "") × (agent.master_url ≢ "") × (agent.token ≢ ""))
      × (receiver.token ≢ "")
      × ((stub.target_url ≢ "")
          × (stub.token ≢ "")
          × (stub.container_id ≢ "")
          × (stub.service_name ≢ ""))
      × ((app.listen_addr ≢ "") × (app.name ≢ "") × (not_positive app.file_size ≡ false))
unfolding load_agent load_receiver load_stub load_test_app
load_lem env args agent receiver stub app a r s t =
    let (c₁, _, h₁) =
      >>=-eq-ok (parse_flags (agent_flags env) args (agent_defaults env)) check_agent {b = agent}
        a in
    let (c₂, _, h₂) =
      >>=-eq-ok (parse_flags (receiver_flags env) args (receiver_defaults env)) check_receiver
        {b = receiver} r in
    let (c₃, _, h₃) =
      >>=-eq-ok (parse_flags stub_flags args (stub_defaults env)) check_stub {b = stub} s in
    let (c₄, _, h₄) =
      >>=-eq-ok (parse_flags (test_app_flags env) args (test_app_defaults env)) check_test_app
        {b = app} t in
    (
      check_agent-ok c₁ agent h₁,
      check_receiver-ok c₂ receiver h₂,
      ok-check_stub c₃ stub h₃,
      check_test_app-ok c₄ app h₄,
    )
