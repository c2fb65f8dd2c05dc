-- ===== src/Receiver/Labels.antt =====
-- internal/receiver/store.go: middlewareLabels and tcpRuleFromHTTPRule
pub mod Touches
use Prim.Native.String.{◌++◌}
use traefik_connect.Common.{
  String, Bool, Option, none, some, List, [], ◌∷◌, ◌==◌, if◌then◌else◌, Dict, insert, ℤ, itoa,
  format_bool, join, is_empty, trim_space, has_prefix, trim_prefix,
}
use traefik_connect.Model.{RedirectScheme, HeadersSpec, MiddlewareSpec}

-- One statement that assigns to a map of labels, or does not.
abbrev pub Edit : Type 0
Edit = Dict String → Dict String

-- The statements in their order.
unfoldable pub run : List Edit → Edit
run [] m = m
run (e ∷ es) m = run es (e m)

-- m[k] = v
abbrev pub put : String → String → Edit
put k v m = insert k v m

-- if v != "" { m[k] = v }
abbrev pub put_text : String → String → Edit
put_text k v m = if v == "" then m else insert k v m

-- if v != nil { m[k] = strconv.FormatBool(*v) }
abbrev pub put_bool : String → Option Bool → Edit
put_bool k none m = m
put_bool k (some b) m = insert k (format_bool b) m

-- if v != nil { m[k] = strconv.Itoa(*v) }
abbrev pub put_int : String → Option ℤ → Edit
put_int k none m = m
put_int k (some n) m = insert k (itoa n) m

-- if len(v) > 0 { m[k] = strings.Join(v, ",") }
abbrev pub put_list : String → List String → Edit
put_list k v m = if is_empty v then m else insert k (join v ",") m

-- for k, v := range from { m[prefix+k] = v }
unfoldable pub put_all : String → Dict String → Edit
put_all prefix [] m = m
put_all prefix ((k, v) ∷ from) m = put_all prefix from (insert (prefix ++ k) v m)

redirect_edits : String → RedirectScheme → List Edit
redirect_edits p r =
    put_text (p ++ ".redirectscheme.scheme") r.scheme
    ∷ put_bool (p ++ ".redirectscheme.permanent") r.permanent
    ∷ []

headers_edits : String → HeadersSpec → List Edit
headers_edits p h =
    put_all (p ++ ".headers.customrequestheaders.") h.custom_request_headers
    ∷ put_all (p ++ ".headers.customresponseheaders.") h.custom_response_headers
    ∷ put_bool (p ++ ".headers.sslredirect") h.ssl_redirect
    ∷ put_int (p ++ ".headers.stsseconds") h.sts_seconds
    ∷ put_bool (p ++ ".headers.stsincludeddomains") h.sts_include_subdomains
    ∷ put_bool (p ++ ".headers.stspreload") h.sts_preload
    ∷ put_bool (p ++ ".headers.forcestsheader") h.force_sts_header
    ∷ put_bool (p ++ ".headers.browserxssfilter") h.browser_xss_filter
    ∷ put_bool (p ++ ".headers.contenttypenosniff") h.content_type_nosniff
    ∷ put_bool (p ++ ".headers.framedeny") h.frame_deny
    ∷ put_list (p ++ ".headers.accesscontrolalloworiginlist") h.access_control_allow_origin_list
    ∷ put_list (p ++ ".headers.accesscontrolallowmethods") h.access_control_allow_methods
    ∷ put_list (p ++ ".headers.accesscontrolallowheaders") h.access_control_allow_headers
    ∷ put_list (p ++ ".headers.accesscontrolexposeheaders") h.access_control_expose_headers
    ∷ put_text (p ++ ".headers.accesscontrolmaxage") h.access_control_max_age
    ∷ put_bool (p ++ ".headers.addvaryheader") h.add_vary_header
    ∷ []

abbrev when_some : {A : Type 0} → (A → List Edit) → Option A → Edit
when_some edits none m = m
when_some edits (some a) m = run (edits a) m

middleware_edits : String → MiddlewareSpec → List Edit
middleware_edits name mw =
    let p = "traefik.http.middlewares." ++ name in
    when_some (redirect_edits p) mw.redirect_scheme
    ∷ when_some (headers_edits p) mw.headers
    ∷ put_list (p ++ ".basicauth.users") mw.basic_auth_users
    ∷ put_list (p ++ ".stripprefix.prefixes") mw.strip_prefix_prefixes
    ∷ []

unfoldable pub middleware_labels : String → MiddlewareSpec → Dict String
unfolding run put_all redirect_edits headers_edits middleware_edits
middleware_labels name mw = run (middleware_edits name mw) []

unfoldable pub tcp_rule_from_http_rule : String → String
unfolding trim_space has_prefix trim_prefix
tcp_rule_from_http_rule rule =
    let r = trim_space rule in
    if has_prefix r "Host(" then "HostSNI(" ++ trim_prefix r "Host(" else r
