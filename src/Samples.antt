-- ===== src/Samples.antt =====
-- Concrete instances of the parameters, and an application with a few routes.
use hyperfastapi.Prelude.{ℕ, true, false, Option, none, some, [], ◌∷◌, ltb, leb}
use hyperfastapi.Prelude.Int.{ℤ, pos}
use hyperfastapi.Prelude.Text.{Str, bytes}
use hyperfastapi.Value.{Host, Value, Items, null, int, str, other, dict, list, end}
use hyperfastapi.Json.{Formats}
use hyperfastapi.Route.{Route, ParamSpec, Plan, nil, cons, spec, Validators}
use hyperfastapi.Route.Decorator.{Reflection}
use hyperfastapi.Route.Options.{MethodKwargs}
use hyperfastapi.App.{FastApi, plain_route}
use hyperfastapi.Router.{ApiRouter}
use hyperfastapi.Params.Cast.{Coercions}
use hyperfastapi.Params.Extract.{Request}
use hyperfastapi.Dispatch.Fast.{Runtime}
use hyperfastapi.Body.{Validation, returned, BodyState}
use hyperfastapi.Dispatch.Respond.{Rendering}
use hyperfastapi.Dispatch.Handle.{Framework, Called}
use hyperfastapi.Dispatch.Arguments.{Parsers}
use hyperfastapi.Dispatch.Whole.{Platform}
use hyperfastapi.Body.Laws.{Reporting}

-- Floats are natural numbers, objects their addresses.
abbrev pub host : Host
host = record { F64 = ℕ; Obj = ℕ }

abbrev pub formats : Formats host
formats = record {
  itoa = λ z. bytes "7";
  ryu = λ x. bytes "1.5";
  is_nan = λ x. false;
  is_infinite = λ x. false;
  to_text = λ v. some (bytes "7");
}

abbrev to_f64 : Value host → Option ℕ
to_f64 (int (pos n)) = some n
to_f64 _ = none

abbrev pub coercions : Coercions host
coercions = record {
  parse_f64 = λ s. none;
  lt_f64 = λ x y. ltb x y;
  le_f64 = λ x y. leb x y;
  uuid_module = true;
  uuid_class = true;
  uuid = λ s. some (str s);
  to_f64 = to_f64;
  fullmatch = λ p t. some true;
  to_bytes = λ v. none;
  read_file = λ v. none;
  py_bytes = λ b. str b;
}

-- Every function is annotated with the object 1, which is not `None`.
abbrev pub reflection : Reflection host
reflection = record {
  compile_route_plan = λ f path. some nil;
  extract_security_info = λ plan deps. some [];
  import_inspect = true;
  iscoroutinefunction = λ f. some true;
  isasyncgenfunction = λ f. some false;
  isgeneratorfunction = λ f. some false;
  return_hint = λ f. some (other 1);
  eq_none = λ v. some false;
  repr = λ v. some (bytes "<class 'int'>");
}

-- The models take any body as a text, and `json.loads` any bytes as `null`.
abbrev pub validation : Validation host
validation = record {
  model_validate_json = λ m b. returned (str b);
  model_validate_python = λ m v. returned v;
  list_validate_json = λ m b. returned (str b);
  list_validate_python = λ m v. returned v;
  loads = λ b. returned null;
}

abbrev pub reporting : Reporting validation
reporting = record {
  model_json = λ m b. tt;
  model_python = λ m v. tt;
  list_json = λ m b. tt;
  list_python = λ m v. tt;
}

abbrev pub method_kwargs : Option ℤ → MethodKwargs host
method_kwargs status = record {
  status_code = status;
  tags = none;
  deprecated = false;
  include_in_schema = true;
  summary = none;
  description = none;
  response_model = none;
  response_class = none;
  response_model_exclude_unset = false;
  response_model_exclude_none = false;
  response_model_exclude_defaults = false;
  response_model_by_alias = true;
  response_model_include = none;
  response_model_exclude = none;
  dependencies = none;
  extra = none;
}

abbrev pub route : Str → Str → Route host
route method path = plain_route method path (other 5) nil none false

abbrev pub get_item_route : Route host
get_item_route = route (bytes "GET") (bytes "/items/{id}")

abbrev pub app : FastApi host
app = record {
  title = bytes "FastAPI";
  version = bytes "0.1.0";
  description = [];
  summary = none;
  debug = false;
  docs_url = none;
  redoc_url = none;
  openapi_url = none;
  root_path = [];
  terms_of_service = none;
  routes = route (bytes "POST") (bytes "/items") ∷ get_item_route ∷ [];
  dependency_overrides = dict end;
  exception_handlers = dict end;
  user_middleware = list Items.nil;
  default_response_class = none;
  dependencies = [];
}

abbrev pub router : ApiRouter host
router = record {
  prefix = bytes "/users";
  tags = bytes "users" ∷ [];
  routes = route (bytes "GET") (bytes "/me") ∷ [];
  default_response_class = none;
  dependencies = other 9 ∷ [];
}

abbrev pub no_validators : Validators host
no_validators = record {
  gt = none;
  ge = none;
  lt = none;
  le = none;
  min_length = none;
  max_length = none;
  pattern = none;
}

abbrev pub param : Str → Str → ParamSpec host
param name source = record {
  name = some (some name);
  source = some source;
  type_kind = none;
  alias = none;
  required = none;
  convert_underscores = none;
  embed = none;
  media_type = none;
  model = some (other 2);
  validators = none;
}

abbrev pub body_plan : Plan host
body_plan = cons (spec (param (bytes "item") (bytes "body")) nil) nil

abbrev pub request : Request host
request = record {
  path_params = [];
  query = (bytes "q", bytes "a" ∷ []) ∷ [];
  headers = [];
  cookies = [];
  form = [];
}

abbrev pub no_arguments : BodyState host
no_arguments = record { kwargs = []; error_dicts = [] }

abbrev pub with_item : BodyState host
with_item = record { kwargs = (bytes "item", str (bytes "{}")) ∷ []; error_dicts = [] }

-- Every handler returns 7.
abbrev pub runtime : Runtime host
runtime = record {
  call0 = λ f. some (int (pos 7));
  call_async = λ f. some (int (pos 7));
  drive_async = λ f. some (int (pos 7));
  is_response = λ v. false;
  is_streamed = λ v. false;
  status_code = λ v. none;
  body = λ v. none;
  raw_headers = λ v. none;
  header_items = λ v. none;
  from_utf8_lossy = λ s. s;
  dumps = λ v. none;
}

abbrev pub rendering : Rendering host
rendering = record {
  model_validate = λ m v. some v;
  model_dump = λ v kwargs. some v;
  construct = λ cls v status. none;
  json_response = true;
  is_json_response = λ v. true;
  builtins = true;
  issubclass = λ v. some true;
}

-- The dependencies give no arguments.
abbrev pub framework : Framework host
framework = record {
  expand = λ deps. some (some nil);
  resolve = λ overrides plan req body. some ([], none);
  call = λ f kwargs. Called.returned (int (pos 7));
}

-- Every query string gives `q=a`.
abbrev pub parsers : Parsers host
parsers = record {
  parse_qs = λ qs. some ((bytes "q", bytes "a" ∷ []) ∷ []);
  parse_form_body = λ body content_type. some [];
}

abbrev pub platform : Platform host
platform = record {
  formats = formats;
  runtime = runtime;
  rendering = rendering;
  framework = framework;
  coercions = coercions;
  validation = validation;
  parsers = parsers;
  to_lowercase = λ s. s;
}
