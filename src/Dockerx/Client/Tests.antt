-- ===== src/Dockerx/Client/Tests.antt =====
-- The client on an engine that notes the requests it gets.
use traefik_connect.Common.{ℕ, String, true, trim_space, none, List, [], ◌∷◌, ok, err, ◌≡◌, refl}
use traefik_connect.Dockerx.Client.{Library, remove_container, start_container, connect_network}

-- It answers everything with one status.
abbrev answering : ℕ → Library (List String)
answering status = record {
  send =
      λ req w. (ok (record { status = status; status_text = "answered"; body = [] }), req.path ∷ w);
  text = λ body. "no such container";
  decode_ids = λ body. ok [];
  decode_inspect = λ body. err "EOF";
  decode_id = λ body. ok "id";
  encode_create = λ req. ok [];
  encode_connect = λ id. ok [];
  events = λ resp w. (([], "EOF"), w);
  canceled = λ w. none;
}

removed : remove_container (answering 404) "web" true [] ≡ (ok tt, "/containers/web" ∷ [])
unfolding remove_container
removed = refl

not_started :
    (start_container (answering 404) "web" []).0
    ≡ err "POST /containers/web/start: no such container"
unfolding start_container trim_space
not_started = refl

connected_before :
    connect_network (answering 409) "proxy" "web" [] ≡ (ok tt, "/networks/proxy/connect" ∷ [])
unfolding connect_network
connected_before = refl
