-- ===== src/Params/PathCast.antt =====
-- crates/fr-pyiface/src/app.rs: `cast_path_param`, which no other code calls.
use hyperfastapi.Prelude.{◌≡◌, refl, ◌++◌, if◌then◌else◌}
use hyperfastapi.Prelude.Text.{Str, bytes, str_eq}
use hyperfastapi.Value.{Host, Value, str}
use hyperfastapi.Params.Errors.{cast_source, missing_source, Checked, ok}
use hyperfastapi.Params.Cast.{Coercions, cast_int, cast_float, cast_bool, cast_uuid, cast_scalar}

module _ {h : Host} (py : Coercions h) where
  unfoldable pub cast_path_param : Str → Str → Str → Checked (Value h)
  unfolding cast_int cast_float cast_bool cast_uuid
  cast_path_param value kind name =
      if str_eq kind (bytes "path:int")
      then cast_int py value (bytes "path") name
      else if str_eq kind (bytes "path:float")
      then cast_float py value (bytes "path") name
      else if str_eq kind (bytes "path:bool")
      then cast_bool py value (bytes "path") name
      else if str_eq kind (bytes "path:uuid")
      then cast_uuid py value (bytes "path") name
      else ok (str value)

  -- On every type, the unused cast of path parameters does what `cast_scalar` does for the source
  -- "path", its errors included.
  pub cast_path_param-cast_scalar :
      (value type_kind name : Str)
      → cast_path_param value (bytes "path:" ++ type_kind) name
        ≡ cast_scalar py value type_kind (bytes "path") name
  unfolding cast_path_param cast_scalar cast_source missing_source bytes str_eq
  cast_path_param-cast_scalar value type_kind name = refl
