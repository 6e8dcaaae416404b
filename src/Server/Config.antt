-- ===== src/Server/Config.antt =====
-- crates/fr-pyiface/src/server.rs: the start of `run_native` and `load_tls_config`. The runtime, the
-- files and rustls are parameters, `none` where they fail.
pub mod Laws
pub mod Tests
use hyperfastapi.Prelude.{
  ℕ, ◌≤◌, ◌≡◌, ◌↔◌, refl, ap, Bool, true, false, ◌&&◌, not, Option, none, some, List, [], ◌∷◌, ◌++◌,
  arith, if◌then◌else◌, is_none, is_some, is_empty, ltb, ◌==◌, unwrap_or,
}
use hyperfastapi.Prelude.Int.{show_nat}
use hyperfastapi.Prelude.Text.{Str, bytes}

-- A PEM file's certificates and key, and rustls's acceptance of the two.
pub record Tls : Type 1 where
  pub File : Type 0
  pub Cert : Type 0
  pub Key : Type 0
  pub open_file : Str → Option File
  pub certs : File → Option (List Cert)
  pub private_key : File → Option (Option Key)
  pub single_cert : List Cert → Key → Bool

pub record ServerConfig (tls : Tls) : Type 0 where
  pub chain : List tls.Cert
  pub key : tls.Key
  pub alpn_protocols : List Str

-- The messages, without the library's part of the text.
pub data TlsError : Type 0 where
  open_cert parse_cert no_certs open_key parse_key no_private_key rustls_cfg : TlsError

pub data Loaded (tls : Tls) : Type 0 where
  loaded : ServerConfig tls → Loaded tls
  refused : TlsError → Loaded tls

-- What stops `run_native` before it listens.
pub data StartError : Type 0 where
  tokio_runtime bad_addr one_of_two no_plaintext_http3 : StartError
  tls_config : TlsError → StartError

pub record Serving (tls : Tls) : Type 0 where
  pub worker_threads : ℕ
  pub config : Option (ServerConfig tls)
  pub http3 : Bool
  pub alt_svc : Option Str
  pub scheme : Str
  pub proto_label : Str

pub data Start (tls : Tls) : Type 0 where
  serving : Serving tls → Start tls
  stopped : StartError → Start tls

module _ (tls : Tls) where
  open tls use {File, Cert, Key, open_file, certs, private_key, single_cert}

  abbrev pub configured : List Cert → Key → Loaded tls
  configured chain key =
      if single_cert chain key
      then loaded
          (record { chain = chain; key = key; alpn_protocols = bytes "h2" ∷ bytes "http/1.1" ∷ [] })
      else refused rustls_cfg

  abbrev pub with_key : List Cert → Option (Option Key) → Loaded tls
  with_key chain none = refused parse_key
  with_key chain (some none) = refused no_private_key
  with_key chain (some (some key)) = configured chain key

  abbrev pub with_key_file : List Cert → Option File → Loaded tls
  with_key_file chain none = refused open_key
  with_key_file chain (some file) = with_key chain (private_key file)

  abbrev pub with_certs : Str → Option (List Cert) → Loaded tls
  with_certs key_path none = refused parse_cert
  with_certs key_path (some chain) =
      if is_empty chain then refused no_certs else with_key_file chain (open_file key_path)

  abbrev pub with_cert_file : Str → Option File → Loaded tls
  with_cert_file key_path none = refused open_cert
  with_cert_file key_path (some file) = with_certs key_path (certs file)

  unfoldable pub load_tls_config : Str → Str → Loaded tls
  load_tls_config cert_path key_path = with_cert_file key_path (open_file cert_path)

  -- The header that announces HTTP/3.
  unfoldable pub alt_svc_of : Bool → ℕ → Option Str
  unfolding show_nat
  alt_svc_of http3 port =
      if http3 then some (bytes "h3=\":" ++ show_nat port ++ bytes "\"; ma=86400") else none

  abbrev label : Bool → Bool → Str
  label true true = bytes "HTTP/1.1 + HTTP/2 (TLS, ALPN) + HTTP/3 (QUIC)"
  label true false = bytes "HTTP/1.1 + HTTP/2 (TLS, ALPN)"
  label false http3 = bytes "HTTP/1.1 + HTTP/2 cleartext (h2c)"

  abbrev pub guarded : ℕ → ℕ → Bool → Option (ServerConfig tls) → Start tls
  guarded port workers http3 config =
      if http3 && is_none config
      then stopped no_plaintext_http3
      else serving (record {
        worker_threads = if ltb workers 1 then 1 else workers;
        config = config;
        http3 = http3;
        alt_svc = alt_svc_of http3 port;
        scheme = if is_some config then bytes "https" else bytes "http";
        proto_label = label (is_some config) http3;
      })

  abbrev pub with_tls : ℕ → ℕ → Bool → Loaded tls → Start tls
  with_tls port workers http3 (loaded config) = guarded port workers http3 (some config)
  with_tls port workers http3 (refused e) = stopped (tls_config e)

  abbrev pub with_paths : ℕ → ℕ → Option Str → Option Str → Bool → Start tls
  with_paths port workers (some c) (some k) http3 =
      with_tls port workers http3 (load_tls_config c k)
  with_paths port workers none none http3 = guarded port workers http3 none
  with_paths port workers _ _ http3 = stopped one_of_two

  -- `built` and `addressed`: whether the runtime is built, and `host:port` parsed.
  unfoldable pub run_native : Bool → Bool → ℕ → ℕ → Option Str → Option Str → Bool → Start tls
  unfolding load_tls_config alt_svc_of
  run_native built addressed port workers cert_path key_path http3 =
      if not built
      then stopped tokio_runtime
      else if not addressed
      then stopped bad_addr
      else with_paths port workers cert_path key_path http3

  -- `FastAPI.run_native` of app.rs: no number of workers stands for the number of processors, `none`
  -- where that is unknown.
  unfoldable pub run_app :
      Option ℕ → Bool → Bool → ℕ → ℕ → Option Str → Option Str → Bool → Start tls
  unfolding run_native
  run_app parallelism built addressed port workers cert_path key_path http3 =
      let n_workers = if workers == 0 then unwrap_or parallelism 1 else workers in
      run_native built addressed port n_workers cert_path key_path http3
