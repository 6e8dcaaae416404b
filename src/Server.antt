-- ===== src/Server.antt =====
-- crates/fr-pyiface/src/server.rs: the snapshot of trivial routes that `run_native` takes once, and
-- the lookup in it that `handle_request` makes before it calls the dispatcher. A `HashMap` is an
-- association list without double keys.
pub mod Status
pub mod Trivial
pub mod Config
pub mod Drive
pub mod Native
pub mod Tasks
pub mod Net
pub mod Snapshot
pub mod Agreement
pub mod Default
pub mod Tests
use hyperfastapi.Prelude.{
  ℕ, suc, ◌-◌, ◌%◌, ◌^◌, Bool, true, false, ◌&&◌, not, Option, none, some, List, [], ◌∷◌,
  if◌then◌else◌, unwrap_or, is_empty,
}
use hyperfastapi.Prelude.Int.{ℤ, pos, negsuc}
use hyperfastapi.Prelude.Text.{Str, bytes, str_eq, contains}
use hyperfastapi.Value.{Host, Value}
use hyperfastapi.Route.{Route}
use hyperfastapi.App.{FastApi, is_bare}
use hyperfastapi.Server.Status.{to_u16}

pub record TrivialRoute (h : Host) : Type 0 where
  pub handler : Value h
  pub status_code : ℕ
  pub is_async : Bool
  pub is_head : Bool

abbrev pub TrivialRoutes : Host → Type 0
TrivialRoutes h = List (Str × Str × TrivialRoute h)

abbrev pub is_key : Str → Str → Str → Str → Bool
is_key m p method path = str_eq m method && str_eq p path

module _ {h : Host} where
  abbrev pub trivial_of : Route h → Bool → TrivialRoute h
  trivial_of r is_head = record {
    handler = r.handler;
    status_code = to_u16 (unwrap_or r.status_code (pos 200));
    is_async = r.is_async;
    is_head = is_head;
  }

  -- `HashMap::insert`
  unfoldable pub insert : Str → Str → TrivialRoute h → TrivialRoutes h → TrivialRoutes h
  insert method path t [] = (method, path, t) ∷ []
  insert method path t ((m, p, u) ∷ rest) =
      if is_key m p method path
      then (method, path, t) ∷ rest
      else (m, p, u) ∷ insert method path t rest

  unfoldable pub lookup_trivial : TrivialRoutes h → Str → Str → Option (TrivialRoute h)
  lookup_trivial [] method path = none
  lookup_trivial ((m, p, t) ∷ rest) method path =
      if is_key m p method path then some t else lookup_trivial rest method path

  -- One turn of the loop over the routes.
  unfoldable pub snapshot_route : Route h → TrivialRoutes h → TrivialRoutes h
  unfolding insert
  snapshot_route r out =
      if contains b'{' r.path
      then out
      else if not (is_bare r)
      then out
      else let own = insert r.method r.path (trivial_of r (str_eq r.method (bytes "HEAD"))) out in
        if str_eq r.method (bytes "GET")
        then insert (bytes "HEAD") r.path (trivial_of r true) own
        else own

  unfoldable pub snapshot_routes : List (Route h) → TrivialRoutes h → TrivialRoutes h
  unfolding snapshot_route
  snapshot_routes [] out = out
  snapshot_routes (r ∷ rs) out = snapshot_routes rs (snapshot_route r out)

  unfoldable pub snapshot_trivial_routes : FastApi h → TrivialRoutes h
  unfolding snapshot_routes
  snapshot_trivial_routes app =
      if not (is_empty app.dependencies) then [] else snapshot_routes app.routes []
