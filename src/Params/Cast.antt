-- ===== src/Params/Cast.antt =====
-- crates/fr-pyiface/src/app.rs: `cast_scalar`. Floats, UUIDs and regular expressions are Python's
-- or the platform's: parameters.

use hyperfastapi.Prelude.{Bool, true, false, ◌||◌, Option, none, some, if◌then◌else◌}
use hyperfastapi.Prelude.Text.{Str, bytes, str_eq, to_ascii_lowercase}
use hyperfastapi.Value.{Host, Value, bool, int, float, str}
use hyperfastapi.Params.Errors.{ValidationErrorEntry, cast_source, generic, Checked, ok, err}
use hyperfastapi.Params.Parse.{parse_i64}

pub record Coercions (h : Host) : Type 0 where
  -- `str::parse::<f64>()`
  pub parse_f64 : Str → Option h.F64
  -- `<` and `<=` on `f64`, both false at NaN
  pub lt_f64 : h.F64 → h.F64 → Bool
  pub le_f64 : h.F64 → h.F64 → Bool
  -- whether `uuid` imports, and has `UUID`; and the constructor, `none` where it raises
  pub uuid_module : Bool
  pub uuid_class : Bool
  pub uuid : Str → Option (Value h)
  -- `value.extract::<f64>()`
  pub to_f64 : Value h → Option h.F64
  -- `re.fullmatch(pattern, text) is not None`; `none` where it raises
  pub fullmatch : Str → Str → Option Bool
  -- `item.extract::<Vec<u8>>()`, and the contents of `item.file`
  pub to_bytes : Value h → Option Str
  pub read_file : Value h → Option Str
  pub py_bytes : Str → Value h

abbrev pub is_true_word : Str → Bool
is_true_word s =
    str_eq s (bytes "true")
    || str_eq s (bytes "1")
    || str_eq s (bytes "yes")
    || str_eq s (bytes "on")

abbrev pub is_false_word : Str → Bool
is_false_word s =
    str_eq s (bytes "false")
    || str_eq s (bytes "0")
    || str_eq s (bytes "no")
    || str_eq s (bytes "off")

abbrev pub parsed {ℓ κ} :
    {A : Type ℓ} {B : Type κ} → (A → B) → ValidationErrorEntry → Option A → Checked B
parsed f e none = err e
parsed f e (some a) = ok (f a)

module _ {h : Host} (py : Coercions h) where
  open py use {parse_f64, uuid_module, uuid_class, uuid}

  unfoldable pub cast_int : Str → Str → Str → Checked (Value h)
  unfolding bytes
  cast_int value loc name =
      parsed int
        (generic loc name value (bytes "int_parsing")
          (bytes "Input should be a valid integer, unable to parse string as an integer"))
        (parse_i64 value)

  unfoldable pub cast_float : Str → Str → Str → Checked (Value h)
  unfolding bytes
  cast_float value loc name =
      parsed float
        (generic loc name value (bytes "float_parsing")
          (bytes "Input should be a valid number, unable to parse string as a number"))
        (parse_f64 value)

  unfoldable pub cast_bool : Str → Str → Str → Checked (Value h)
  unfolding bytes
  cast_bool value loc name =
      let lc = to_ascii_lowercase value in
      if is_true_word lc
      then ok (bool true)
      else if is_false_word lc
      then ok (bool false)
      else err (
          generic loc name value (bytes "bool_parsing")
            (bytes "Input should be a valid boolean, unable to interpret input"))

  unfoldable pub cast_uuid : Str → Str → Str → Checked (Value h)
  unfolding bytes
  cast_uuid value loc name =
      if uuid_module
      then (if uuid_class
          then parsed (λ v. v)
              (generic loc name value (bytes "uuid_parsing")
                (bytes "Input should be a valid UUID, unable to parse string as a UUID"))
              (uuid value)
          else err (generic loc name value (bytes "uuid_parsing") (bytes "UUID class unavailable")))
      else err (generic loc name value (bytes "uuid_parsing") (bytes "UUID module unavailable"))

  unfoldable pub cast_scalar : Str → Str → Str → Str → Checked (Value h)
  unfolding cast_int cast_float cast_bool cast_uuid
  cast_scalar value type_kind source name =
      let loc = cast_source source in
      if str_eq type_kind (bytes "int")
      then cast_int value loc name
      else if str_eq type_kind (bytes "float")
      then cast_float value loc name
      else if str_eq type_kind (bytes "bool")
      then cast_bool value loc name
      else if str_eq type_kind (bytes "uuid")
      then cast_uuid value loc name
      else ok (str value)
