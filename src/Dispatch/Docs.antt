-- ===== src/Dispatch/Docs.antt =====
-- crates/fr-pyiface/src/app.rs: the schema and documentation pages that `_dispatch` serves itself,
-- `build_docs_html` and `build_redoc_html`.
use hyperfastapi.Prelude.{
  Bool, false, ◌&&◌, ◌||◌, Option, none, some, List, [], ◌∷◌, ◌++◌, if◌then◌else◌, unwrap_or,
}
use hyperfastapi.Prelude.Text.{Str, bytes, str_eq}
use hyperfastapi.Value.{Host}
use hyperfastapi.Json.{Formats}
use hyperfastapi.App.{FastApi}
use hyperfastapi.App.Openapi.{openapi}
use hyperfastapi.Dispatch.Fast.{Runtime, Answer, response, encoded, serialize_value_to_json}

unfoldable pub build_docs_html : Str → Str → Str
build_docs_html title openapi_url =
    bytes "<!DOCTYPE html>\n<html>\n<head>\n<title>"
    ++ title
    ++ bytes
        " - Swagger UI</title>\n<link rel=\"stylesheet\" type=\"text/css\" href=\"https://cdn.jsdelivr.net/npm/swagger-ui-dist@5/swagger-ui.css\">\n</head>\n<body>\n<div id=\"swagger-ui\"></div>\n<script src=\"https://cdn.jsdelivr.net/npm/swagger-ui-dist@5/swagger-ui-bundle.js\"></script>\n<script>\nconst ui = SwaggerUIBundle({\n    url: \""
    ++ openapi_url
    ++ bytes
        "\",\n    dom_id: \"#swagger-ui\",\n    deepLinking: true\n});\n</script>\n</body>\n</html>"

unfoldable pub build_redoc_html : Str → Str → Str
build_redoc_html title openapi_url =
    bytes "<!DOCTYPE html>\n<html>\n<head>\n<title>"
    ++ title
    ++ bytes
        " - ReDoc</title>\n<link href=\"https://fonts.googleapis.com/css?family=Montserrat:300,400,700|Roboto:300,400,700\" rel=\"stylesheet\">\n<style>body { margin: 0; padding: 0; }</style>\n</head>\n<body>\n<redoc spec-url=\""
    ++ openapi_url
    ++ bytes
        "\"></redoc>\n<script src=\"https://cdn.jsdelivr.net/npm/redoc@next/bundles/redoc.standalone.js\"></script>\n</body>\n</html>"

abbrev html_headers : List (Str × Str)
html_headers = (bytes "content-type", bytes "text/html; charset=utf-8") ∷ []

-- A page is served at its own URL, to GET and HEAD.
unfoldable pub is_page : Option Str → Str → Str → Bool
is_page none method path = false
is_page (some url) method path =
    str_eq path url && (str_eq method (bytes "GET") || str_eq method (bytes "HEAD"))

module _ {h : Host} where
  abbrev pub html_page : Bool → Str → Answer h
  html_page is_head html =
      response
        (record { status = 200; headers = html_headers; body = if is_head then [] else html })

module _ {h : Host} (fmt : Formats h) (rt : Runtime h) (to_lowercase : Str → Str) where
  -- The pages, in the order in which they are tried.
  unfoldable pub auto_served : FastApi h → Str → Str → Option (Answer h)
  unfolding is_page openapi serialize_value_to_json build_docs_html build_redoc_html
  auto_served app method path =
      let is_head = str_eq method (bytes "HEAD") in
      let openapi_url = unwrap_or app.openapi_url (bytes "/openapi.json") in
      if is_page app.openapi_url method path
      then some
          (encoded fmt rt 200 is_head (serialize_value_to_json fmt rt (openapi to_lowercase app)))
      else if is_page app.docs_url method path
      then some (html_page is_head (build_docs_html app.title openapi_url))
      else if is_page app.redoc_url method path
      then some (html_page is_head (build_redoc_html app.title openapi_url))
      else none
