-- ===== src/Markers.antt =====
-- crates/fr-pyiface/src/params.rs: the marker classes Body, Query, Path, Header, Cookie, Form and File,
-- which are one macro, and Depends and Security. An argument that a caller leaves out is `none`.
use hyperfastapi.Prelude.{
  ◌≡◌, refl, Bool, true, Option, none, some, List, [], ◌++◌, if◌then◌else◌, unwrap_or, is_some,
}
use hyperfastapi.Prelude.Text.{Str, bytes}
use hyperfastapi.Value.{
  Host, Value, Kwargs, null, bool, int, float, str, surrogates, dict, list, tuple, other, entries,
}

module _ {h : Host} where
  -- PyO3 reads a Python `None` as Rust's `None`.
  abbrev from_py : Option (Value h) → Option (Value h)
  from_py none = none
  from_py (some null) = none
  from_py (some v) = some v

  abbrev to_py : Option (Value h) → Value h
  to_py none = null
  to_py (some v) = v

-- What `make_param!` defines.
pub record Param (h : Host) : Type 0 where
  pub default : Option (Value h)
  pub kwargs : Value h

pub record Depends (h : Host) : Type 0 where
  pub dependency : Option (Value h)
  pub use_cache : Bool

pub record Security (h : Host) : Type 0 where
  pub dependency : Option (Value h)
  pub scopes : List Str
  pub use_cache : Bool

module _ {h : Host} where
  unfoldable pub new_param : Option (Value h) → Option (Kwargs h) → Param h
  unfolding entries
  new_param default kwargs = record {
    default = from_py default;
    kwargs = dict (entries (unwrap_or kwargs []));
  }

  -- The getter `default`.
  abbrev pub get_default : Param h → Value h
  get_default p = to_py p.default

  -- The getter `kwargs`.
  abbrev pub get_kwargs : Param h → Value h
  get_kwargs p = p.kwargs

  unfoldable pub new_depends : Option (Value h) → Option Bool → Depends h
  new_depends dependency use_cache = record {
    dependency = from_py dependency;
    use_cache = unwrap_or use_cache true;
  }

  -- The getters of `Depends`.
  abbrev pub depends_dependency : Depends h → Value h
  depends_dependency d = to_py d.dependency

  abbrev pub depends_use_cache : Depends h → Bool
  depends_use_cache d = d.use_cache

  unfoldable pub depends_repr : Depends h → Str
  depends_repr d =
      bytes "Depends("
      ++ (if is_some d.dependency then bytes "<dependency>" else bytes "None")
      ++ bytes ")"

  unfoldable pub new_security : Option (Value h) → Option (List Str) → Option Bool → Security h
  new_security dependency scopes use_cache = record {
    dependency = from_py dependency;
    scopes = unwrap_or scopes [];
    use_cache = unwrap_or use_cache true;
  }

  -- The getters of `Security`.
  abbrev pub security_dependency : Security h → Value h
  security_dependency s = to_py s.dependency

  abbrev pub security_scopes : Security h → List Str
  security_scopes s = s.scopes

  abbrev pub security_use_cache : Security h → Bool
  security_use_cache s = s.use_cache

  to_py-from_py : (v : Value h) → to_py (from_py (some v)) ≡ v
  to_py-from_py null = refl
  to_py-from_py (bool b) = refl
  to_py-from_py (int n) = refl
  to_py-from_py (float x) = refl
  to_py-from_py (str s) = refl
  to_py-from_py (surrogates o) = refl
  to_py-from_py (dict d) = refl
  to_py-from_py (list l) = refl
  to_py-from_py (tuple l) = refl
  to_py-from_py (other o) = refl

  -- A marker gives back the default that it was made with; one made without a default cannot be told
  -- from one made with `None`.
  pub get_default-new_param :
      (v : Value h) (kwargs : Option (Kwargs h))
      → (get_default (new_param (some v) kwargs) ≡ v)
        × (new_param none kwargs ≡ new_param (some null) kwargs)
  unfolding new_param
  get_default-new_param v kwargs = (to_py-from_py v, refl)

  -- `Depends` and `Security` give back the dependency and the scopes that they were made with.
  pub depends-security_getters :
      (v : Value h) (scopes : List Str) (use_cache : Option Bool)
      → (depends_dependency (new_depends (some v) use_cache) ≡ v)
        × (security_dependency (new_security (some v) (some scopes) use_cache) ≡ v)
        × (security_scopes (new_security (some v) (some scopes) use_cache) ≡ scopes)
  unfolding new_depends new_security
  depends-security_getters v scopes use_cache = (to_py-from_py v, to_py-from_py v, refl)
