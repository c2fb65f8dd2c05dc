-- ===== src/Render/Middleware.antt =====
-- renderMiddleware of internal/render/render.go.
use Prim.Native.String.{◌++◌}
use traefik_connect.Common.{String, Bool, Option, List, Dict, not, is_empty, itoa, format_bool, ℤ}
use traefik_connect.Model.{MiddlewareSpec, HeadersSpec, RedirectScheme}
use traefik_connect.Render.{
  Block, heading, key_value, when, when_given, unless_empty, string_map, unless_none,
}

abbrev flag : String → Option Bool → String
flag key given = when_given given (λ b. key_value 4 key (format_bool b))

abbrev number : String → Option ℤ → String
number key given = when_given given (λ n. key_value 4 key (itoa n))

module _ (quote : String → String) where
  unfoldable pub render_redirect_scheme : RedirectScheme → String
  render_redirect_scheme r =
      heading 3 "redirectScheme"
      ++ (unless_empty r.scheme (λ s. key_value 4 "scheme" (quote s))
          ++ flag "permanent" r.permanent)

  abbrev header_map : String → Dict String → String
  header_map key values = when (not (is_empty values)) (heading 4 key ++ string_map quote 5 values)

  unfoldable pub render_headers : HeadersSpec → String
  render_headers h =
      heading 3 "headers"
      ++ (header_map "customRequestHeaders" h.custom_request_headers
          ++ (header_map "customResponseHeaders" h.custom_response_headers
              ++ (flag "sslRedirect" h.ssl_redirect
                  ++ (number "stsSeconds" h.sts_seconds
                      ++ (flag "stsIncludeSubdomains" h.sts_include_subdomains
                          ++ (flag "stsPreload" h.sts_preload
                              ++ (flag "forceSTSHeader" h.force_sts_header
                                  ++ (flag "browserXSSFilter" h.browser_xss_filter
                                      ++ (flag "contentTypeNosniff" h.content_type_nosniff
                                          ++ (flag "frameDeny" h.frame_deny
                                              ++ access_control h))))))))))
    where
      list : String → List String → String
      list = unless_none quote 4

      access_control : HeadersSpec → String
      access_control h =
          list "accessControlAllowOriginList" h.access_control_allow_origin_list
          ++ (list "accessControlAllowMethods" h.access_control_allow_methods
              ++ (list "accessControlAllowHeaders" h.access_control_allow_headers
                  ++ (list "accessControlExposeHeaders" h.access_control_expose_headers
                      ++ (unless_empty h.access_control_max_age
                            (λ s. key_value 4 "accessControlMaxAge" (quote s))
                          ++ flag "addVaryHeader" h.add_vary_header))))

  abbrev under : String → String → List String → String
  under section key values =
      when (not (is_empty values)) (heading 3 section ++ unless_none quote 4 key values)

  unfoldable pub render_middleware : String → MiddlewareSpec → Block
  render_middleware name m = record {
    name = name;
    body =
        heading 2 name
        ++ (when_given m.redirect_scheme render_redirect_scheme
            ++ (when_given m.headers render_headers
                ++ (under "basicAuth" "users" m.basic_auth_users
                    ++ under "stripPrefix" "prefixes" m.strip_prefix_prefixes)));
  }
