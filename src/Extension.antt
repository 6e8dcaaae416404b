-- ===== src/Extension.antt =====
-- crates/fr-pyiface/src/lib.rs, the module `hyperfastapi._core`, with `register_pyclass` of ws.rs; and
-- the references that are imported once, `get_cached_bg_module` of app.rs and `intern_dispatch_native`
-- of server.rs.
use hyperfastapi.Prelude.{
  ◌≡◌, refl, Bool, true, Option, none, some, List, [], ◌∷◌, ◌++◌, All, if◌then◌else◌,
}
use hyperfastapi.Prelude.Text.{Str, bytes}
use hyperfastapi.Cpu.{Flags, swap}

-- The names that are added, in order.
abbrev pub class_names : List Str
class_names =
    bytes "FastAPI"
    ∷ bytes "APIRouter"
    ∷ bytes "RouteDecorator"
    ∷ bytes "ApiRouteDecorator"
    ∷ bytes "IdentityDecorator"
    ∷ bytes "Body"
    ∷ bytes "Query"
    ∷ bytes "Path"
    ∷ bytes "Header"
    ∷ bytes "Cookie"
    ∷ bytes "Form"
    ∷ bytes "File"
    ∷ bytes "Depends"
    ∷ bytes "Security"
    ∷ []

-- A module that is being filled: `none` where an `add` raises, which `?` passes on.
abbrev pub add_class : (Str → Bool) → Str → Option (List Str) → Option (List Str)
add_class adds name none = none
add_class adds name (some names) = if adds name then some (names ++ name ∷ []) else none

unfoldable pub add_classes : (Str → Bool) → List Str → Option (List Str) → Option (List Str)
add_classes adds [] m = m
add_classes adds (name ∷ more) m = add_classes adds more (add_class adds name m)

-- `ws::register_pyclass`
unfoldable pub register_pyclass : (Str → Bool) → Option (List Str) → Option (List Str)
register_pyclass adds m = add_class adds (bytes "WsSendHandle") m

-- `_core`: the flags of the processor after `fr_json::init` has been entered, and the module's names.
unfoldable pub core : (Str → Bool) → Flags → Flags × Option (List Str)
unfolding swap add_classes register_pyclass
core adds flags = (
  swap flags,
  register_pyclass adds
      (add_classes adds class_names (add_class adds (bytes "__version__") (some []))),
)

-- If every `add` works, the module has its version, the classes and the socket handle.
pub core_lem :
    (adds : Str → Bool) (flags : Flags)
    → ((n : Str) → adds n ≡ true)
    → (core adds flags).1 ≡ some (bytes "__version__" ∷ class_names ++ bytes "WsSendHandle" ∷ [])
unfolding core add_classes register_pyclass
core_lem adds flags works = simp works

module _ {ℓ} {A : Type ℓ} where
  -- One call that goes through a `OnceCell`: the cell afterwards, and the result; `load` is `none`
  -- where it raises.
  unfoldable pub get_cached : Option A → Option A → Option A × Option A
  get_cached (some obj) load = (some obj, some obj)
  get_cached none none = (none, none)
  get_cached none (some m) = (some m, some m)

  -- Several calls, each with what the import would give at that time.
  unfoldable pub calls : Option A → List (Option A) → List (Option A)
  unfolding get_cached
  calls cell [] = []
  calls cell (load ∷ loads) = (get_cached cell load).1 ∷ calls (get_cached cell load).0 loads

  calls-some :
      (obj : A) (loads : List (Option A)) → All (λ r. r ≡ some obj) (calls (some obj) loads)
  unfolding calls
  calls-some obj [] = tt
  calls-some obj (load ∷ loads) = (refl, calls-some obj loads)

  -- Once a call has succeeded, every later one gives the same object, whatever an import would give.
  pub calls_stable :
      (cell : Option A) (obj : A) (load : Option A) (loads : List (Option A))
      → (get_cached cell load).1 ≡ some obj
      → All (λ r. r ≡ some obj) (calls (get_cached cell load).0 loads)
  unfolding get_cached
  calls_stable (some x) obj load loads e = rw e (calls-some obj loads)
  calls_stable none obj none loads e = cc
  calls_stable none obj (some m) loads e = rw e (calls-some obj loads)

  -- `get_cached_bg_module`: importing `_bg` may raise.
  unfoldable pub get_cached_bg_module : Option A → Option A → Option A × Option A
  unfolding get_cached
  get_cached_bg_module cell bg = get_cached cell bg

  -- `intern_dispatch_native`: a text can always be interned.
  unfoldable pub intern_dispatch_native : Option A → A → Option A × Option A
  unfolding get_cached
  intern_dispatch_native cell name = get_cached cell (some name)
