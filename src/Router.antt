-- ===== src/Router.antt =====
-- crates/fr-pyiface/src/app.rs: `APIRouter`, and the two `include_router` methods.
pub mod Methods
pub mod Merging
pub mod Nesting
use hyperfastapi.Prelude.{
  Bool, true, ◌&&◌, Option, none, some, List, [], ◌∷◌, ◌++◌, if◌then◌else◌, unwrap_or, or_option,
  any,
}
use hyperfastapi.Prelude.Text.{Str, str_eq}
use hyperfastapi.Value.{Host, Value}
use hyperfastapi.Route.{Route}
use hyperfastapi.App.{FastApi}

pub record ApiRouter (h : Host) : Type 0 where
  pub prefix : Str
  pub tags : List Str
  pub routes : List (Route h)
  pub default_response_class : Option (Value h)
  pub dependencies : List (Value h)

-- `merged_tags.contains(t)`
abbrev pub has_tag : Str → List Str → Bool
has_tag t tags = any (λ u. str_eq u t) tags

-- `for t in more { if !merged.contains(t) { merged.push(t) } }`
unfoldable pub add_tags : List Str → List Str → List Str
add_tags merged [] = merged
add_tags merged (t ∷ more) = add_tags (if has_tag t merged then merged else merged ++ t ∷ []) more

module _ {h : Host} where
  unfoldable pub new_router :
      Str → Option (List Str) → Option (Value h) → Option (List (Value h)) → ApiRouter h
  new_router prefix tags default_response_class dependencies = record {
    prefix = prefix;
    tags = unwrap_or tags [];
    routes = [];
    default_response_class = default_response_class;
    dependencies = unwrap_or dependencies [];
  }

  -- The route that `include_router` pushes for a route of the included router. The fields that are
  -- not written are cloned.
  abbrev included :
      (prefix : Str)
      → ApiRouter h
      → (extra_tags : List Str) → Option (Value h)
      → (in_schema : Bool) → Route h
      → Route h
  included prefix router extra_tags response_class in_schema r = record r {
    path = prefix ++ (router.prefix ++ r.path);
    tags = add_tags (add_tags r.tags router.tags) extra_tags;
    response_class = response_class;
    include_in_schema = in_schema;
    dependencies = router.dependencies ++ r.dependencies;
  }

  -- One turn of the loop of `FastAPI.include_router`.
  unfoldable pub app_included :
      (prefix : Str)
      → ApiRouter h
      → (extra_tags : List Str) → (in_schema : Bool) → (effective : Option (Value h)) → Route h
      → Route h
  app_included prefix router extra_tags in_schema effective r =
      included prefix router extra_tags (or_option r.response_class effective)
        (r.include_in_schema && in_schema) r

  -- One turn of the loop of `APIRouter.include_router`.
  unfoldable pub router_included :
      (prefix : Str) → ApiRouter h → (extra_tags : List Str) → Route h → Route h
  router_included prefix router extra_tags r =
      included prefix router extra_tags r.response_class r.include_in_schema r

  unfoldable pub push_all : (Route h → Route h) → List (Route h) → List (Route h) → List (Route h)
  push_all make [] out = out
  push_all make (r ∷ rs) out = push_all make rs (out ++ make r ∷ [])

  -- `FastAPI.include_router`
  unfoldable pub include_router :
      FastApi h
      → ApiRouter h
      → (prefix : Str) → Option (List Str)
      → (in_schema : Bool) → Option (Value h)
      → FastApi h
  unfolding push_all app_included
  include_router app router prefix tags in_schema default_response_class =
      let effective = or_option default_response_class router.default_response_class in
      record app {
        routes =
            push_all (app_included prefix router (unwrap_or tags []) in_schema effective)
              router.routes app.routes;
      }

  -- `APIRouter.include_router`
  unfoldable pub nest_router :
      ApiRouter h → ApiRouter h → (prefix : Str) → Option (List Str) → ApiRouter h
  unfolding push_all router_included
  nest_router outer router prefix tags = record outer {
    routes =
        push_all (router_included prefix router (unwrap_or tags [])) router.routes outer.routes;
  }
