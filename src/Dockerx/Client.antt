-- ===== src/Dockerx/Client.antt =====
-- internal/dockerx/client.go: the requests that the client makes of the Docker engine, and what it
-- makes of the answers.
pub mod Laws
pub mod Tests
use Prim.Native.String.{◌++◌}
use traefik_connect.Common.{
  ℕ, String, Bool, true, false, not, ◌&&◌, ◌||◌, Option, none, some, List, [], ◌∷◌, ◌==◌,
  if◌then◌else◌, Result, ok, err, ◌>>=◌, eqb, leb, take, itoa, ℤ, trim_space, is_some,
}
use traefik_connect.Dockerx.{ContainerInspect, ContainerCreateRequest}
use traefik_connect.Websocket.{Bytes}

-- A request: the path is without the query, whose keys and values are not yet escaped. A body is JSON.
pub record HttpRequest : Type 0 where
  pub method : String
  pub path : String
  pub query : List (String × String)
  pub body : Option Bytes

pub record HttpResponse : Type 0 where
  pub status : ℕ
  pub status_text : String
  pub body : Bytes

pub record Event : Type 0 where
  pub action : String
  pub id : String

-- Encoding, decoding and http.Client: `send` also stands for http.NewRequestWithContext, `events` for the
-- events that are decoded from a response's body with the error behind them, and `canceled` for ctx.Err.
pub record Library (W : Type 0) : Type 0 where
  pub send : HttpRequest → W → Result HttpResponse × W
  pub text : Bytes → String
  pub decode_ids : Bytes → Result (List String)
  pub decode_inspect : Bytes → Result ContainerInspect
  pub decode_id : Bytes → Result String
  pub encode_create : ContainerCreateRequest → Result Bytes
  pub encode_connect : String → Result Bytes
  pub events : HttpResponse → W → (List Event × String) × W
  pub canceled : W → Option String

abbrev pub get_request : String → HttpRequest
get_request path = record { method = "GET"; path = path; query = []; body = none }

abbrev pub post_request : String → Option Bytes → HttpRequest
post_request path body = record { method = "POST"; path = path; query = []; body = body }

-- The calls of onEvent, in the order of the events.
unfoldable pub each_event : {S : Type 0} → (Event → S → S) → List Event → S → S
each_event on_event [] s = s
each_event on_event (ev ∷ events) s = each_event on_event events (on_event ev s)

module _ {W : Type 0} (lib : Library W) where
  -- The error for a response that is not wanted: what was asked, and the start of the body.
  abbrev pub refused : {A : Type 0} → String → HttpResponse → Result A
  refused asked r = err (asked ++ (": " ++ trim_space (lib.text (take 4096 r.body))))

  abbrev pub decoded :
      {A : Type 0} → HttpRequest → (Bytes → Result A) → Result HttpResponse → Result A
  decoded req decode (err e) = err e
  decoded req decode (ok r) =
      if leb 300 r.status then refused (req.method ++ (" " ++ req.path)) r else decode r.body

  -- doJSON
  pub do_json : {A : Type 0} → HttpRequest → (Bytes → Result A) → W → Result A × W
  do_json req decode w = let (r, w') = lib.send req w in (decoded req decode r, w')

  -- The ids of the containers.
  pub list_containers : W → Result (List String) × W
  list_containers =
      do_json (record (get_request "/containers/json") { query = ("all", "1") ∷ [] }) lib.decode_ids

  pub inspect_container : String → W → Result ContainerInspect × W
  inspect_container id =
      do_json (get_request ("/containers/" ++ (id ++ "/json"))) lib.decode_inspect

  -- The id of the image.
  pub inspect_image : String → W → Result String × W
  inspect_image name = do_json (get_request ("/images/" ++ (name ++ "/json"))) lib.decode_id

  abbrev pub send_create : String → Result Bytes → W → Result String × W
  send_create name (err e) w = (err e, w)
  send_create name (ok body) w =
      do_json
        (record (post_request "/containers/create" (some body)) { query = ("name", name) ∷ [] })
        lib.decode_id w

  -- The id of the new container.
  pub create_container : String → ContainerCreateRequest → W → Result String × W
  create_container name req = send_create name (lib.encode_create req)

  -- A response whose body is not read, unless it is an error other than the one that is let pass.
  abbrev pub accepted : String → Option ℕ → Result HttpResponse → Result (Unit {0})
  accepted asked pass (err e) = err e
  accepted asked pass (ok r) =
      if leb 300 r.status && not (passes pass r.status) then refused asked r else ok tt
    where
      passes : Option ℕ → ℕ → Bool
      passes none status = false
      passes (some code) status = eqb status code

  abbrev pub send_plain : HttpRequest → String → Option ℕ → W → Result (Unit {0}) × W
  send_plain req asked pass w = let (r, w') = lib.send req w in (accepted asked pass r, w')

  pub start_container : String → W → Result (Unit {0}) × W
  start_container id =
      let path = "/containers/" ++ (id ++ "/start") in
      send_plain (post_request path none) ("POST " ++ path) none

  -- A container that is not there counts as removed.
  pub remove_container : String → Bool → W → Result (Unit {0}) × W
  remove_container id force =
      let path = "/containers/" ++ id in
      send_plain
        (record {
          method = "DELETE";
          path = path;
          query = if force then ("force", "1") ∷ [] else [];
          body = none;
        })
        ("DELETE " ++ path) (some 404)

  abbrev pub send_connect : String → Result Bytes → W → Result (Unit {0}) × W
  send_connect network (err e) w = (err e, w)
  send_connect network (ok body) w =
      let path = "/networks/" ++ (network ++ "/connect") in
      send_plain (post_request path (some body)) ("POST " ++ path) (some 409) w

  -- A container that is connected already counts as connected.
  pub connect_network : String → String → W → Result (Unit {0}) × W
  connect_network network container = send_connect network (lib.encode_connect container)

  -- How a stream of events ends: WatchEvents returns the context's error, which is nil where there is
  -- none, at the end of the stream.
  unfoldable pub stream_end : String → Option String → Option String
  stream_end e canceled = if e == "EOF" || is_some canceled then canceled else some e

  abbrev pub watched :
      {S : Type 0} → (Event → S → S) → Result HttpResponse × W → S → Option String × (S × W)
  watched on_event (err e, w) s = (some e, (s, w))
  watched on_event (ok r, w) s =
      let ((events, e), w') = lib.events r w in
      let refused =
        "docker events: "
        ++ (r.status_text ++ (": " ++ trim_space (lib.text (take 4096 r.body)))) in
      if leb 300 r.status
      then (some refused, (s, w))
      else (stream_end e (lib.canceled w'), (each_event on_event events s, w'))

  -- WatchEvents, from a time on in seconds, with the state that onEvent changes; `none` is nil.
  unfoldable pub watch_events : {S : Type 0} → ℤ → (Event → S → S) → S → W → Option String × (S × W)
  watch_events since on_event s w =
      watched on_event
        (lib.send
          (record (get_request "/events") {
            query = ("since", itoa since) ∷ ("type", "container") ∷ [];
          })
          w)
        s
