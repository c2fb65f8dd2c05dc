-- ===== src/Dockerx/Client/Laws.antt =====
-- internal/dockerx/client.go: which answers of the engine the client takes for a success.
use traefik_connect.Common.{◌<◌, Result, ok, err, ◌≡◌, refl, inl, inr, leb, Bool-cases, arith}
use traefik_connect.Dockerx.Client.{HttpRequest, HttpResponse, Library, decoded, do_json}

module _ {W : Type 0} (lib : Library W) where
  decoded-ok :
      {A : Type 0} (req : HttpRequest) (decode : _ → Result A) (r : Result HttpResponse) (a : A)
      → decoded lib req decode r ≡ ok a
      → (resp : HttpResponse) × (r ≡ ok resp) × (resp.status < 300) × (decode resp.body ≡ ok a)
  decoded-ok req decode (err e) a h = cc
  decoded-ok req decode (ok resp) a h = elim (Bool-cases (leb 300 resp.status)) [
    | inl e ↦ ground (arith, e, h)
    | inr e ↦ (resp, refl, ground (arith, e), rw e at h)
  ]

  -- What doJSON returns, the engine answered with a status below 300.
  do_json-ok :
      {A : Type 0} (req : HttpRequest) (decode : _ → Result A) (w : W) (a : A)
      → (do_json lib req decode w).0 ≡ ok a
      → (resp : HttpResponse) × ((lib.send req w).0 ≡ ok resp)
        × (resp.status < 300)
        × (decode resp.body ≡ ok a)
  unfolding do_json
  do_json-ok req decode w a h = decoded-ok req decode (lib.send req w).0 a h
