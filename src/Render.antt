-- ===== src/Render.antt =====
-- internal/render/render.go: the Traefik configuration that a snapshot calls for. A text stands for
-- what is written to a buffer, and `quote` for strconv.Quote. The functions that return an error
-- with every block return nil for it, so that they return the block alone here.
pub mod Middleware
pub mod Snapshot
use Prim.Native.String.{◌++◌, slice, len}
use traefik_connect.Common.{
  ℕ, zero, suc, ◌+◌, String, Bool, true, false, Option, none, some, List, [], ◌∷◌, ◌==◌, not,
  if◌then◌else◌, Dict, lookup, insert, keys, text_at, is_empty, itoa, format_bool, sort_texts, ltb,
  Unicode,
}
use traefik_connect.Model.{RouterSpec, ServiceSpec, TlsSpec, ContainerSpec}
use traefik_connect.Names.{sanitize_name}

pub record Block : Type 0 where
  pub name : String
  pub body : String

-- writeIndent
pub indentation : ℕ → String
indentation zero = ""
indentation (suc n) = "  " ++ indentation n

-- The line of a key with nothing behind it.
pub heading : ℕ → String → String
heading indent key = indentation indent ++ (key ++ ":\n")

-- writeKeyValue
pub key_value : ℕ → String → String → String
key_value indent key value = indentation indent ++ (key ++ (": " ++ (value ++ "\n")))

-- What is written where a test holds, where there is a value, and where a text is not empty.
abbrev pub when : Bool → String → String
when true text = text
when false text = ""

abbrev pub when_given : {A : Type 0} → Option A → (A → String) → String
when_given none write = ""
when_given (some a) write = write a

abbrev pub unless_empty : String → (String → String) → String
unless_empty s write = when (not (s == "")) (write s)

abbrev pub add_name : Option String → List String → List String
add_name none found = found
add_name (some g) found = g ∷ found

-- The names of the middlewares that the container has itself.
pub resolved_names : Dict String → List String → List String
resolved_names names [] = []
resolved_names names (local ∷ rest) = add_name (lookup local names) (resolved_names names rest)

module _ (quote : String → String) where
  -- The loop of writeStringList.
  pub list_items : ℕ → List String → String
  list_items indent [] = ""
  list_items indent (value ∷ values) =
      indentation indent ++ ("- " ++ (quote value ++ ("\n" ++ list_items indent values)))

  pub string_list : ℕ → String → List String → String
  string_list indent key values = heading indent key ++ list_items (indent + 1) (sort_texts values)

  -- The loop of writeStringMap, over the sorted keys.
  pub map_items : ℕ → Dict String → List String → String
  map_items indent values [] = ""
  map_items indent values (key ∷ rest) =
      key_value indent key (quote (text_at values key)) ++ map_items indent values rest

  pub string_map : ℕ → Dict String → String
  string_map indent values = map_items indent values (sort_texts (keys values))

  pub render_tls : TlsSpec → String
  render_tls tls =
      indentation 3
      ++ ("tls"
          ++ (if tls.cert_resolver == ""
              then ": {}\n"
              else ":\n" ++ key_value 4 "certResolver" (quote tls.cert_resolver)))

  abbrev pub unless_none : ℕ → String → List String → String
  unless_none indent key values = when (not (is_empty values)) (string_list indent key values)

  pub render_router : String → RouterSpec → Dict String → Dict String → Block
  render_router name r service_map mw_map =
      let service_name = if r.service == "" then none else lookup r.service service_map in
      record {
        name = name;
        body =
            heading 2 name
            ++ (unless_empty r.rule (λ rule. key_value 3 "rule" (quote rule))
                ++ (unless_none 3 "entryPoints" r.entry_points
                    ++ (when_given r.tls render_tls
                        ++ (unless_none 3 "middlewares" (resolved_names mw_map r.middlewares)
                            ++ (when_given service_name (λ g. key_value 3 "service" (quote g))
                                ++ when_given r.priority
                                    (λ p. key_value 3 "priority" (itoa p)))))));
      }

  abbrev is_true : Option Bool → Bool
  is_true none = false
  is_true (some b) = b

  pub render_service : String → ServiceSpec → Block
  render_service name s = record {
    name = name;
    body =
        heading 2 name
        ++ (heading 3 "loadBalancer"
            ++ (heading 4 "servers"
                ++ (indentation 5
                    ++ ("- url: "
                        ++ (quote s.backend_url
                            ++ ("\n"
                                ++ (when_given s.pass_host_header
                                      (λ b. key_value 4 "passHostHeader" (format_bool b))
                                    ++ when (is_true s.sticky)
                                        (indentation 4 ++ "sticky: {}\n"))))))));
  }

-- c.ID[:12] of an id of more than 12 bytes
abbrev pub shortened : String → String
shortened id = if ltb 12 (len id) then slice id 0 12 else id

module _ (u : Unicode) where
  pub qualified_name : String → ContainerSpec → String → String
  qualified_name worker_id c local =
      sanitize_name u worker_id
      ++ ("-"
          ++ (sanitize_name u c.name
              ++ ("-" ++ (sanitize_name u (shortened c.id) ++ ("-" ++ sanitize_name u local)))))

-- routerMap, serviceMap and mwMap, from the sorted local names
pub name_map : (String → String) → List String → Dict String
name_map qualify [] = []
name_map qualify (local ∷ rest) = insert local (qualify local) (name_map qualify rest)
