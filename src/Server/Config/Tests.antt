-- ===== src/Server/Config/Tests.antt =====
-- A server with HTTP/3 whose files are read, and a coroutine that awaits.
use hyperfastapi.Prelude.{ℕ, ◌≡◌, refl, true, some, [], ◌∷◌}
use hyperfastapi.Prelude.Text.{bytes}
use hyperfastapi.Server.Config.{Tls, ServerConfig, Serving, serving, alt_svc_of, run_native}
use hyperfastapi.Server.Config.Laws.{Sound, run_native-Sound}

-- Files, certificates and keys are numbers.
abbrev pub tls : Tls
tls = record {
  File = ℕ;
  Cert = ℕ;
  Key = ℕ;
  open_file = λ path. some 1;
  certs = λ file. some (2 ∷ []);
  private_key = λ file. some (some 3);
  single_cert = λ chain key. true;
}

abbrev pub config : ServerConfig tls
config = record { chain = 2 ∷ []; key = 3; alpn_protocols = bytes "h2" ∷ bytes "http/1.1" ∷ [] }

abbrev pub with_http3 : Serving tls
with_http3 = record {
  worker_threads = 1;
  config = some config;
  http3 = true;
  alt_svc = alt_svc_of tls true 8443;
  scheme = bytes "https";
  proto_label = bytes "HTTP/1.1 + HTTP/2 (TLS, ALPN) + HTTP/3 (QUIC)";
}

http3_serves :
    run_native tls true true 8443 0 (some (bytes "cert.pem")) (some (bytes "key.pem")) true
    ≡ serving with_http3
unfolding run_native
http3_serves = refl

run_native-Sound_example : Sound tls (some (bytes "cert.pem")) (some (bytes "key.pem")) with_http3
run_native-Sound_example =
    run_native-Sound tls true true 8443 0 (some (bytes "cert.pem")) (some (bytes "key.pem")) true
      with_http3 http3_serves
