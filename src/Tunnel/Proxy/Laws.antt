-- ===== src/Tunnel/Proxy/Laws.antt =====
-- internal/worker/proxy.go: who may open a tunnel.
use traefik_connect.Common.{
  ℕ, String, Bool, true, false, not, ◌||◌, ◌==◌, ◌≡◌, refl, List, Result, if◌then◌else◌, arith,
}
use traefik_connect.Model.{Snapshot}
use traefik_connect.Websocket.{Frame}
use traefik_connect.Tunnel.Headers.{Header, get, is_websocket_upgrade}
use traefik_connect.Tunnel.Stub.{token_key, container_key, service_key}
use traefik_connect.Tunnel.Proxy.{
  ProxySettings, Backend, Tunnelled, turned_down, served, handle_tunnel,
}

is_served : {S : Type 0} → Tunnelled S → Bool
is_served (turned_down code text) = false
is_served (served r s) = true

-- A guard in front of what is served.
behind :
    {S : Type 0} (b : Bool) (code : ℕ) (text : String) (t : Tunnelled S)
    → is_served (if b then turned_down code text else t) ≡ true
    → (b ≡ false) × (is_served t ≡ true)
unfolding is_served
behind true code text t h = cc
behind false code text t h = (refl, h)

-- A tunnel is accepted only where the request asks for a websocket, has the worker's token, and names a
-- container and a service; otherwise nothing is written to a tunnel or to a backend.
pub handle_tunnel-served :
    {U S : Type 0} (settings : ProxySettings U S) (snap : Snapshot) (header : Header)
    (frames : List Frame) (ending : String) (backend : Backend) (s s' : S) (r : Result (Unit {0}))
    → handle_tunnel settings snap header frames ending backend s ≡ served r s'
    → (is_websocket_upgrade settings.unicode settings.canonical header ≡ true)
      × ((get settings.unicode settings.canonical header token_key == settings.token) ≡ true)
      × ((get settings.unicode settings.canonical header container_key == "") ≡ false)
      × ((get settings.unicode settings.canonical header service_key == "") ≡ false)
unfolding handle_tunnel is_served
handle_tunnel-served settings snap header frames ending backend s s' r h =
    let open_ : is_served (handle_tunnel settings snap header frames ending backend s) ≡ true =
      rw h refl in
    let (upgrade, h₁) =
      behind (not (is_websocket_upgrade settings.unicode settings.canonical header)) _ _ _ open_ in
    let (token, h₂) =
      behind (not (get settings.unicode settings.canonical header token_key == settings.token)) _ _
        _ h₁ in
    let (named, _) =
      behind
        (get settings.unicode settings.canonical header container_key == ""
          || get settings.unicode settings.canonical header service_key == "")
        400 "missing tunnel metadata" _ h₂ in
    (ground (arith, upgrade), ground (arith, token), ground (arith, named), ground (arith, named))
