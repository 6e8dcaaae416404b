-- ===== src/Router/Merging.antt =====
-- `include_router`: which routes appear, in which order, and their merged tags.
use hyperfastapi.Prelude.{
  ◌≡◌, refl, sym, ap, ◌∙◌, Bool, true, false, ◌||◌, Option, List, [], ◌∷◌, ◌++◌, map, append-nil,
  append_assoc, arith, unwrap_or, or_option, Bool-cases, inl, inr,
}
use hyperfastapi.Prelude.Text.{Str, str_eq, str_eq_iff}
use hyperfastapi.Value.{Host, Value}
use hyperfastapi.Route.{Route}
use hyperfastapi.App.{FastApi}
use hyperfastapi.Router.{ApiRouter, has_tag, add_tags, app_included, push_all, include_router}

-- No tag twice.
abbrev pub Distinct : List Str → Type 0
Distinct [] = Unit
Distinct (t ∷ ts) = (has_tag t ts ≡ false) × Distinct ts

has_tag-append :
    (u : Str) (xs ys : List Str) → has_tag u (xs ++ ys) ≡ (has_tag u xs || has_tag u ys)
has_tag-append u [] ys = refl
has_tag-append u (x ∷ xs) ys = ground (arith, has_tag-append u xs ys)

str_eq_comm : (s t : Str) → str_eq s t ≡ str_eq t s
str_eq_comm s t = ground (arith, str_eq_iff s t, str_eq_iff t s)

Distinct-snoc :
    (xs : List Str) (t : Str) → Distinct xs → has_tag t xs ≡ false → Distinct (xs ++ t ∷ [])
Distinct-snoc [] t d e = (refl, tt)
Distinct-snoc (x ∷ xs) t (n, d) e = (
  ground (arith, has_tag-append x xs (t ∷ []), str_eq_comm x t),
  Distinct-snoc xs t d (ground arith),
)

has_tag-add_tags :
    (u : Str) (merged more : List Str)
    → has_tag u (add_tags merged more) ≡ (has_tag u merged || has_tag u more)
unfolding add_tags
has_tag-add_tags u merged [] = ground arith
has_tag-add_tags u merged (t ∷ more) = elim (Bool-cases (has_tag t merged)) [
  | inl there ↦
      rw there (has_tag-add_tags u merged more ∙ ground (arith, tag_there u t merged there))
  | inr fresh ↦ rw fresh (
      has_tag-add_tags u (merged ++ t ∷ []) more ∙ ground (arith, has_tag-append u merged (t ∷ [])))
]
  where
    tag_there :
        (u t : Str) (xs : List Str) → has_tag t xs ≡ true → str_eq t u ≡ true → has_tag u xs ≡ true
    tag_there u t xs e k = rw (← (str_eq_iff t u).0 k) e

add_tags-Distinct : (merged more : List Str) → Distinct merged → Distinct (add_tags merged more)
unfolding add_tags
add_tags-Distinct merged [] d = d
add_tags-Distinct merged (t ∷ more) d = elim (Bool-cases (has_tag t merged)) [
  | inl there ↦ rw there (add_tags-Distinct merged more d)
  | inr fresh ↦
      rw fresh (add_tags-Distinct (merged ++ t ∷ []) more (Distinct-snoc merged t d fresh))
]

module _ {h : Host} where
  pub push_all-map :
      (make : Route h → Route h) (rs out : List (Route h))
      → push_all make rs out ≡ out ++ map make rs
  unfolding push_all
  push_all-map make [] out = sym (append-nil out)
  push_all-map make (r ∷ rs) out =
      push_all-map make rs (out ++ make r ∷ []) ∙ append_assoc out (make r ∷ []) (map make rs)

  -- The tags of a route that `FastAPI.include_router` adds are the tags of the route, of the router
  -- and of the call.
  pub app_included-tags :
      (prefix : Str) (router : ApiRouter h) (extra : List Str) (in_schema : Bool)
      (effective : Option (Value h)) (r : Route h) (u : Str)
      → has_tag u (app_included prefix router extra in_schema effective r).tags
        ≡ (has_tag u r.tags || (has_tag u router.tags || has_tag u extra))
  unfolding app_included
  app_included-tags prefix router extra in_schema effective r u =
      has_tag-add_tags u (add_tags r.tags router.tags) extra
      ∙ ground (arith, has_tag-add_tags u r.tags router.tags)

  -- If the tags of a route are distinct, so are those of the route that `FastAPI.include_router`
  -- adds for it.
  pub app_included-Distinct :
      (prefix : Str) (router : ApiRouter h) (extra : List Str) (in_schema : Bool)
      (effective : Option (Value h)) (r : Route h)
      → Distinct r.tags
      → Distinct (app_included prefix router extra in_schema effective r).tags
  unfolding app_included
  app_included-Distinct prefix router extra in_schema effective r d =
      add_tags-Distinct _ extra (add_tags-Distinct r.tags router.tags d)

  -- `FastAPI.include_router` appends one route for each route of the router, in order, and leaves
  -- the older routes and every other part of the application as they were.
  pub include_router-routes :
      (app : FastApi h) (router : ApiRouter h) (prefix : Str) (tags : Option (List Str))
      (in_schema : Bool) (rc : Option (Value h))
      → include_router app router prefix tags in_schema rc ≡ record app {
        routes =
            app.routes
            ++ map
                (app_included prefix router
                  (unwrap_or tags [])
                  in_schema
                  (or_option rc router.default_response_class))
                router.routes;
      }
  unfolding include_router
  include_router-routes app router prefix tags in_schema rc =
      ap (λ rs. record app { routes = rs }) (push_all-map _ router.routes app.routes)
