-- ===== src/App/Openapi/Tests.antt =====
-- The schema of an application with one protected route.
use hyperfastapi.Prelude.{◌≡◌, some, [], ◌∷◌}
use hyperfastapi.Prelude.Text.{bytes}
use hyperfastapi.Value.{other}
use hyperfastapi.Route.{SecurityEntry}
use hyperfastapi.App.{FastApi}
use hyperfastapi.App.Openapi.{openapi}
use hyperfastapi.App.Openapi.Laws.{last_operation, first_scheme, listed_security}
use hyperfastapi.App.Openapi.Document.{at, openapi-paths, openapi-schemes}
use hyperfastapi.Samples.{host, app, get_item_route}

abbrev bearer : SecurityEntry host
bearer = record { scheme_name = bytes "bearer"; scopes = []; model = other 4 }

abbrev guarded_app : FastApi host
guarded_app = record app { routes = record get_item_route { security = bearer ∷ [] } ∷ [] }

openapi-paths_example :
    at
      (bytes "paths" ∷ bytes "/items/{id}" ∷ bytes "GET" ∷ [])
      (some (openapi (λ s. s) guarded_app))
    ≡ last_operation (λ s. s) guarded_app.routes (bytes "/items/{id}") (bytes "GET")
openapi-paths_example = openapi-paths (λ s. s) guarded_app (bytes "/items/{id}") (bytes "GET")

openapi-schemes_example :
    at
      (bytes "components" ∷ bytes "securitySchemes" ∷ bytes "bearer" ∷ [])
      (some (openapi (λ s. s) guarded_app))
    ≡ first_scheme (bytes "bearer") (listed_security guarded_app.routes)
openapi-schemes_example = openapi-schemes (λ s. s) guarded_app (bytes "bearer")
