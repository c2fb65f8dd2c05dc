-- ===== src/Parse/Middlewares.antt =====
-- internal/parse/labels.go: parseMiddlewares and parseHeadersLabel.
use Prim.Native.String.{◌++◌ as text_append}
use traefik_connect.Common.{
  String, Bool, false, Option, none, some, List, [], ◌∷◌, ◌==◌, if◌then◌else◌, Dict, insert,
  Unicode, trim_space, trim_prefix, has_prefix, ℤ, atoi,
}
use traefik_connect.Model.{RedirectScheme, HeadersSpec, MiddlewareSpec}
use traefik_connect.Parse.Values.{parse_bool, csv, collect_names}

-- &model.HeadersSpec{...} with its two maps empty
abbrev pub no_headers : HeadersSpec
no_headers = record {
  custom_request_headers = [];
  custom_response_headers = [];
  ssl_redirect = none;
  sts_seconds = none;
  sts_include_subdomains = none;
  sts_preload = none;
  force_sts_header = none;
  browser_xss_filter = none;
  content_type_nosniff = none;
  frame_deny = none;
  access_control_allow_origin_list = [];
  access_control_allow_methods = [];
  access_control_allow_headers = [];
  access_control_expose_headers = [];
  access_control_max_age = "";
  add_vary_header = none;
}

abbrev pub no_redirect : RedirectScheme
no_redirect = record { scheme = ""; permanent = none }

abbrev pub no_middleware : String → MiddlewareSpec
no_middleware name = record {
  name = name;
  redirect_scheme = none;
  headers = none;
  basic_auth_users = [];
  strip_prefix_prefixes = [];
}

abbrev pub or_default {ℓ} : {A : Type ℓ} → A → Option A → A
or_default a none = a
or_default a (some b) = b

-- A number that does not parse leaves the field as it was.
abbrev pub or_kept : Option ℤ → Option ℤ → Option ℤ
or_kept none old = old
or_kept (some n) old = some n

module _ (u : Unicode) where
  pub parse_headers_label : HeadersSpec → String → String → HeadersSpec
  parse_headers_label h key value =
      let flag : Option Bool = some (parse_bool u value false) in
      if has_prefix key "customrequestheaders."
      then record h {
        custom_request_headers =
            insert (trim_prefix key "customrequestheaders.") value h.custom_request_headers;
      }
      else if has_prefix key "customresponseheaders."
      then record h {
        custom_response_headers =
            insert (trim_prefix key "customresponseheaders.") value h.custom_response_headers;
      }
      else if key == "sslredirect"
      then record h { ssl_redirect = flag }
      else if key == "stsseconds"
      then record h { sts_seconds = or_kept (atoi (trim_space value)) h.sts_seconds }
      else if key == "stsincludeddomains"
      then record h { sts_include_subdomains = flag }
      else if key == "stspreload"
      then record h { sts_preload = flag }
      else if key == "forcestsheader"
      then record h { force_sts_header = flag }
      else if key == "browserxssfilter"
      then record h { browser_xss_filter = flag }
      else if key == "contenttypenosniff"
      then record h { content_type_nosniff = flag }
      else if key == "framedeny"
      then record h { frame_deny = flag }
      else if key == "accesscontrolalloworiginlist"
      then record h { access_control_allow_origin_list = csv value }
      else if key == "accesscontrolallowmethods"
      then record h { access_control_allow_methods = csv value }
      else if key == "accesscontrolallowheaders"
      then record h { access_control_allow_headers = csv value }
      else if key == "accesscontrolexposeheaders"
      then record h { access_control_expose_headers = csv value }
      else if key == "accesscontrolmaxage"
      then record h { access_control_max_age = trim_space value }
      else if key == "addvaryheader"
      then record h { add_vary_header = flag }
      else h

  -- A round of the loop over the labels, for a label with the middleware's prefix.
  pub parse_middleware_label : MiddlewareSpec → String → String → MiddlewareSpec
  parse_middleware_label mw suffix v =
      let redirect = or_default no_redirect mw.redirect_scheme in
      let headers =
        parse_headers_label (or_default no_headers mw.headers) (trim_prefix suffix "headers.") v in
      if suffix == "redirectscheme.scheme"
      then record mw { redirect_scheme = some (record redirect { scheme = trim_space v }) }
      else if suffix == "redirectscheme.permanent"
      then record mw {
        redirect_scheme = some (record redirect { permanent = some (parse_bool u v false) });
      }
      else if suffix == "basicauth.users"
      then record mw { basic_auth_users = csv v }
      else if suffix == "stripprefix.prefixes"
      then record mw { strip_prefix_prefixes = csv v }
      else if has_prefix suffix "headers."
      then record mw { headers = some headers }
      else mw

  pub parse_middleware : String → Dict String → MiddlewareSpec → MiddlewareSpec
  parse_middleware prefix [] mw = mw
  parse_middleware prefix ((k, v) ∷ labels) mw =
      let read = parse_middleware_label mw (trim_prefix k prefix) v in
      parse_middleware prefix labels (if has_prefix k prefix then read else mw)

  abbrev pub middleware_prefix : String → String
  middleware_prefix name = text_append "traefik.http.middlewares." (text_append name ".")

  unfoldable pub middlewares_from : Dict String → List String → Dict MiddlewareSpec
  middlewares_from labels [] = []
  middlewares_from labels (name ∷ names) =
      (name, parse_middleware (middleware_prefix name) labels (no_middleware name))
      ∷ middlewares_from labels names

  unfoldable pub parse_middlewares : Dict String → Dict MiddlewareSpec
  parse_middlewares labels =
      middlewares_from labels (collect_names labels "traefik.http.middlewares.")
