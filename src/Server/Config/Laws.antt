-- ===== src/Server/Config/Laws.antt =====
-- What is known of a server that has started.
use hyperfastapi.Prelude.{
  ℕ, ◌≤◌, ◌≡◌, refl, subst, Bool, true, false, ◌&&◌, not, Option, none, some, List, [], ◌∷◌, arith,
  is_none, is_some, is_empty, if-cases,
}
use hyperfastapi.Prelude.Text.{Str, bytes}
use hyperfastapi.Server.Config.{
  Tls, ServerConfig, Loaded, loaded, refused, Serving, Start, serving, stopped, configured,
  with_key, with_key_file, with_certs, with_cert_file, load_tls_config, alt_svc_of, guarded,
  with_tls, with_paths, run_native,
}

module _ (tls : Tls) where
  -- A configuration has certificates, and the key that goes with them.
  pub record Usable (c : ServerConfig tls) : Type 0 where
    pub certified : is_empty c.chain ≡ false
    pub accepted : tls.single_cert c.chain c.key ≡ true
    pub protocols : c.alpn_protocols ≡ bytes "h2" ∷ bytes "http/1.1" ∷ []

  abbrev UsableIfLoaded : Loaded tls → Type 0
  UsableIfLoaded (loaded c) = Usable c
  UsableIfLoaded (refused e) = Unit

  configured-Usable :
      (chain : List tls.Cert) (key : tls.Key)
      → is_empty chain ≡ false
      → UsableIfLoaded (configured tls chain key)
  configured-Usable chain key full =
      if-cases UsableIfLoaded (tls.single_cert chain key) _ _
        (λ ok. record { certified = full; accepted = ok; protocols = refl }) (λ _. tt)

  with_key-Usable :
      (chain : List tls.Cert) (o : Option (Option tls.Key))
      → is_empty chain ≡ false
      → UsableIfLoaded (with_key tls chain o)
  with_key-Usable chain none full = tt
  with_key-Usable chain (some none) full = tt
  with_key-Usable chain (some (some key)) full = configured-Usable chain key full

  with_key_file-Usable :
      (chain : List tls.Cert) (o : Option tls.File)
      → is_empty chain ≡ false
      → UsableIfLoaded (with_key_file tls chain o)
  with_key_file-Usable chain none full = tt
  with_key_file-Usable chain (some file) full = with_key-Usable chain (tls.private_key file) full

  with_certs-Usable :
      (key_path : Str) (o : Option (List tls.Cert)) → UsableIfLoaded (with_certs tls key_path o)
  with_certs-Usable key_path none = tt
  with_certs-Usable key_path (some chain) =
      if-cases UsableIfLoaded (is_empty chain) _ _ (λ _. tt)
        (λ full. with_key_file-Usable chain (tls.open_file key_path) full)

  with_cert_file-Usable :
      (key_path : Str) (o : Option tls.File) → UsableIfLoaded (with_cert_file tls key_path o)
  with_cert_file-Usable key_path none = tt
  with_cert_file-Usable key_path (some file) = with_certs-Usable key_path (tls.certs file)

  load_tls_config-Usable :
      (cert_path key_path : Str) → UsableIfLoaded (load_tls_config tls cert_path key_path)
  unfolding load_tls_config
  load_tls_config-Usable cert_path key_path =
      with_cert_file-Usable key_path (tls.open_file cert_path)

  abbrev pub UsableIfSome : Option (ServerConfig tls) → Type 0
  UsableIfSome none = Unit
  UsableIfSome (some c) = Usable c

  -- The server has a worker; it encrypts just when it was given its files, and then with a usable
  -- configuration; HTTP/3 is switched on only with encryption, and an announcement is prepared just
  -- when it is.
  pub record Sound (cert_path key_path : Option Str) (s : Serving tls) : Type 0 where
    pub has_worker : 1 ≤ s.worker_threads
    pub with_cert : is_some s.config ≡ is_some cert_path
    pub with_key_path : is_some s.config ≡ is_some key_path
    pub usable : UsableIfSome s.config
    pub encrypted_http3 : s.http3 ≡ true → is_some s.config ≡ true
    pub announced : is_some s.alt_svc ≡ s.http3

  abbrev SoundIfServing : Option Str → Option Str → Start tls → Type 0
  SoundIfServing cert_path key_path (serving s) = Sound cert_path key_path s
  SoundIfServing cert_path key_path (stopped e) = Unit

  guarded-Sound :
      (cert_path key_path : Option Str) (port workers : ℕ) (http3 : Bool)
      (config : Option (ServerConfig tls))
      → is_some config ≡ is_some cert_path
      → is_some config ≡ is_some key_path
      → UsableIfSome config
      → SoundIfServing cert_path key_path (guarded tls port workers http3 config)
  unfolding alt_svc_of
  guarded-Sound cert_path key_path port workers http3 config c k u =
      if-cases (SoundIfServing cert_path key_path) (http3 && is_none config) _ _ (λ _. tt)
        (λ e. record {
          has_worker = ground arith;
          with_cert = c;
          with_key_path = k;
          usable = u;
          encrypted_http3 = λ on. tls_on http3 config e on;
          announced = announces http3;
        })
    where
      tls_on :
          (http3 : Bool) (config : Option (ServerConfig tls))
          → (http3 && is_none config) ≡ false
          → http3 ≡ true
          → is_some config ≡ true
      tls_on true none e on = absurd cc
      tls_on true (some c) e on = refl
      tls_on false config e on = absurd cc

      announces : (http3 : Bool) → is_some (alt_svc_of tls http3 port) ≡ http3
      announces true = refl
      announces false = refl

  with_tls-Sound :
      (c k : Str) (port workers : ℕ) (http3 : Bool) (o : Loaded tls)
      → UsableIfLoaded o
      → SoundIfServing (some c) (some k) (with_tls tls port workers http3 o)
  with_tls-Sound c k port workers http3 (loaded config) u =
      guarded-Sound (some c) (some k) port workers http3 (some config) refl refl u
  with_tls-Sound c k port workers http3 (refused e) u = tt

  with_paths-Sound :
      (port workers : ℕ) (cert_path key_path : Option Str) (http3 : Bool)
      → SoundIfServing cert_path key_path (with_paths tls port workers cert_path key_path http3)
  with_paths-Sound port workers (some c) (some k) http3 =
      with_tls-Sound c k port workers http3 (load_tls_config tls c k) (load_tls_config-Usable c k)
  with_paths-Sound port workers none none http3 =
      guarded-Sound none none port workers http3 none refl refl tt
  with_paths-Sound port workers (some c) none http3 = tt
  with_paths-Sound port workers none (some k) http3 = tt

  started-Sound :
      (cert_path key_path : Option Str) (o : Start tls) (s : Serving tls)
      → SoundIfServing cert_path key_path o
      → o ≡ serving s
      → Sound cert_path key_path s
  started-Sound cert_path key_path o s holds e = subst (SoundIfServing cert_path key_path) e holds

  -- A server that `run_native` starts has at least one worker thread; it encrypts just when it was given
  -- a certificate and just when it was given a key, and then with a certificate chain that is not empty,
  -- that rustls accepts with the key, and with `h2` before `http/1.1`; HTTP/3 is switched on only with
  -- encryption; and the value of an alt-svc header is prepared just when HTTP/3 is switched on, whether
  -- or not its endpoint then starts.
  pub run_native-Sound :
      (built addressed : Bool) (port workers : ℕ) (cert_path key_path : Option Str) (http3 : Bool)
      (s : Serving tls)
      → run_native tls built addressed port workers cert_path key_path http3 ≡ serving s
      → Sound cert_path key_path s
  unfolding run_native
  run_native-Sound built addressed port workers cert_path key_path http3 s e =
      started-Sound cert_path key_path _ s
        (if-cases (SoundIfServing cert_path key_path) (not built) _ _ (λ _. tt)
          (λ _.
            if-cases (SoundIfServing cert_path key_path) (not addressed) _ _ (λ _. tt)
              (λ _. with_paths-Sound port workers cert_path key_path http3)))
        e
