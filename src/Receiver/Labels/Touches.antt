-- ===== src/Receiver/Labels/Touches.antt =====
-- Which labels an edit can change: rules, one for each way to build an edit.
use Prim.Native.String.{◌++◌}
use text.Mathlib.TextLemmas.{cons-append}
use traefik_connect.Common.{
  String, ◌≡◌, ◌≢◌, refl, ◌∙◌, Bool, true, Option, none, some, List, [], ◌∷◌, All, eq_iff, arith,
  Dict, lookup, insert, lookup-insert, ℤ, has_prefix, after_prefix, inl, inr, Option-cases, is_some,
  ap,
}
use traefik_connect.Model.{RedirectScheme, HeadersSpec, MiddlewareSpec}
use traefik_connect.Receiver.Labels.{
  Edit, run, put, put_text, put_bool, put_int, put_list, put_all, when_some, redirect_edits,
  headers_edits, middleware_edits, middleware_labels,
}

-- The edit changes labels of which `P` holds, and no others.
pub record Touches (P : String → Type 0) (e : Edit) : Type 0 where
  pub same : (k : String) → ¬ P k → (m : Dict String) → lookup k (e m) ≡ lookup k m

module _ (P : String → Type 0) where
  insert_same :
      (j v k : String) (m : Dict String) → P j → ¬ P k → lookup k (insert j v m) ≡ lookup k m
  insert_same j v k m h n = ground (arith, lookup-insert j k v m, eq_iff j k, ne)
    where
      ne : j ≢ k
      ne e = n (rw e at h)

  pub Touches-put : (j v : String) → P j → Touches P (put j v)
  Touches-put j v h = record { same = λ k n m. insert_same j v k m h n }

  pub Touches-put_text : (j v : String) → P j → Touches P (put_text j v)
  Touches-put_text j v h = record { same = λ k n m. ground (arith, insert_same j v k m h n) }

  pub Touches-put_bool : (j : String) (v : Option Bool) → P j → Touches P (put_bool j v)
  Touches-put_bool j none h = record { same = λ k n m. refl }
  Touches-put_bool j (some b) h = record { same = λ k n m. insert_same j _ k m h n }

  pub Touches-put_int : (j : String) (v : Option ℤ) → P j → Touches P (put_int j v)
  Touches-put_int j none h = record { same = λ k n m. refl }
  Touches-put_int j (some b) h = record { same = λ k n m. insert_same j _ k m h n }

  pub Touches-put_list : (j : String) (v : List String) → P j → Touches P (put_list j v)
  Touches-put_list j [] h = record { same = λ k n m. refl }
  Touches-put_list j (x ∷ xs) h = record { same = λ k n m. insert_same j _ k m h n }

  put_all_same :
      (p : String) (from : Dict String) (k : String) (m : Dict String)
      → ((x : String) → P (p ++ x))
      → ¬ P k
      → lookup k (put_all p from m) ≡ lookup k m
  unfolding put_all
  put_all_same p [] k m h n = refl
  put_all_same p ((j, v) ∷ from) k m h n =
      put_all_same p from k (insert (p ++ j) v m) h n ∙ insert_same (p ++ j) v k m (h j) n

  pub Touches-put_all :
      (p : String) (from : Dict String) → ((x : String) → P (p ++ x)) → Touches P (put_all p from)
  Touches-put_all p from h = record { same = λ k n m. put_all_same p from k m h n }

  run_same :
      (es : List Edit) (k : String) (m : Dict String)
      → All (Touches P) es
      → ¬ P k
      → lookup k (run es m) ≡ lookup k m
  unfolding run
  run_same [] k m hs n = refl
  run_same (e ∷ es) k m (h, hs) n = run_same es k (e m) hs n ∙ h.same k n m

  pub Touches-run : (es : List Edit) → All (Touches P) es → Touches P (run es)
  Touches-run es hs = record { same = λ k n m. run_same es k m hs n }

  pub Touches-when_some :
      {A : Type 0} (edits : A → List Edit) (o : Option A)
      → ((a : A) → All (Touches P) (edits a))
      → Touches P (when_some edits o)
  Touches-when_some edits none h = record { same = λ k n m. refl }
  Touches-when_some edits (some a) h = Touches-run (edits a) (h a)

pub ruleset touches_rules = (
  Touches-put, Touches-put_text, Touches-put_bool, Touches-put_int, Touches-put_list,
  Touches-put_all, Touches-run, Touches-when_some,
)

-- Labels that Traefik reads, as against the receiver's own.
abbrev pub IsRouting : String → Type 0
IsRouting k = has_prefix k "traefik." ≡ true

after_prefix-append :
    (s t p r : String) → after_prefix s p ≡ some r → after_prefix (s ++ t) p ≡ some (r ++ t)
unfolding after_prefix
after_prefix-append String.[] t String.[] r h = ground arith
after_prefix-append (String.◌∷◌ c s) t String.[] r h = ground arith
after_prefix-append String.[] t (String.◌∷◌ d p) r h = cc
after_prefix-append (String.◌∷◌ c s) t (String.◌∷◌ d p) r h =
    rw cons-append (ground (arith, after_prefix-append s t p r))

pub IsRouting-append : (s t : String) → IsRouting s → IsRouting (s ++ t)
unfolding has_prefix
IsRouting-append s t h = elim (Option-cases (after_prefix s "traefik.")) [
  | inl e ↦ cc (ap (is_some {A = String}) e)
  | inr (r, e) ↦ rw (after_prefix-append s t "traefik." r e) refl
]

middlewares_prefix : IsRouting "traefik.http.middlewares."
unfolding has_prefix
middlewares_prefix = refl

-- A key of three parts, of which the first is routing.
IsRouting-append₂ : (s t w : String) → IsRouting s → IsRouting ((s ++ t) ++ w)
IsRouting-append₂ s t w h = IsRouting-append (s ++ t) w (IsRouting-append s t h)

module _ (name : String) where
  abbrev prefix : String
  prefix = "traefik.http.middlewares." ++ name

  key : (field : String) → IsRouting (prefix ++ field)
  key field = IsRouting-append₂ "traefik.http.middlewares." name field middlewares_prefix

  field_key : (field x : String) → IsRouting ((prefix ++ field) ++ x)
  field_key field x = IsRouting-append (prefix ++ field) x (key field)

  redirect_edits-Touches : (r : RedirectScheme) → All (Touches IsRouting) (redirect_edits prefix r)
  unfolding redirect_edits
  redirect_edits-Touches r = search (touches_rules, key)

  headers_edits-Touches : (h : HeadersSpec) → All (Touches IsRouting) (headers_edits prefix h)
  unfolding headers_edits
  headers_edits-Touches h = search (touches_rules, key, field_key)

  middleware_edits-Touches :
      (mw : MiddlewareSpec) → All (Touches IsRouting) (middleware_edits name mw)
  unfolding middleware_edits
  middleware_edits-Touches mw =
      search (touches_rules, key, redirect_edits-Touches, headers_edits-Touches)

  -- A middleware's labels are all routing labels.
  pub lookup-middleware_labels :
      (mw : MiddlewareSpec) (k : String)
      → ¬ IsRouting k
      → lookup k (middleware_labels name mw) ≡ none
  unfolding middleware_labels lookup
  lookup-middleware_labels mw k n =
      run_same IsRouting (middleware_edits name mw) k [] (middleware_edits-Touches mw) n
