-- ===== src/Startup/Servers/Http2.antt =====
-- What the options make of the two servers.
use cillion.Base.{
  String, ◌==◌, string_eq, if◌then◌else◌, ◌≡◌, refl, Bool, false, List, [], ◌∷◌, All, arith,
}
use cillion.Startup.Flags.{Flags, Argument, parsed, parse}
use cillion.Startup.Flags.Defaults.{parse-enable_http2}
use cillion.Startup.Servers.{
  TlsConfig, configured, webhook_server_options, with_filter, with_certs, metrics_server_options,
}

configured_webhook :
    (flags : Flags) (c : TlsConfig)
    → configured (webhook_server_options flags).tls_opts c
      ≡ (if flags.enable_http2 then c else record c { next_protos = "http/1.1" ∷ [] })
unfolding webhook_server_options configured
configured_webhook flags c = ground arith

configured_metrics :
    (flags : Flags) (c : TlsConfig)
    → configured (metrics_server_options flags).tls_opts c
      ≡ (if flags.enable_http2 then c else record c { next_protos = "http/1.1" ∷ [] })
unfolding metrics_server_options with_filter with_certs configured
configured_metrics flags c = ground arith

-- If the command line is accepted and does not name "enable-http2", then the webhook server and the
-- metrics server both offer "http/1.1" and nothing else, whatever else it says and whatever their
-- TLS configurations were.
pub http2_stays_off :
    (other : Argument → Bool) (args : List Argument) (flags : Flags) (c : TlsConfig)
    → parse other args ≡ parsed flags
    → All (λ (a : Argument). (a.0 == "enable-http2") ≡ false) args
    → ((configured (webhook_server_options flags).tls_opts c).next_protos ≡ "http/1.1" ∷ [])
      × ((configured (metrics_server_options flags).tls_opts c).next_protos ≡ "http/1.1" ∷ [])
http2_stays_off other args flags c h ne =
    let off = parse-enable_http2 other args flags h ne in
    (rw (configured_webhook flags c, off) refl, rw (configured_metrics flags c, off) refl)

-- A directory, the name of a certificate and the name of its key.
abbrev pub Certs : Type 0
Certs = String × String × String

abbrev pub certs_named : String → String → String → Certs
certs_named path name key = if path == "" then ("", "", "") else (path, name, key)

-- The metrics server is served over TLS exactly if it asks for authentication and authorization. It
-- binds to the address of its flag, and each server takes its certificate from its own three flags
-- if the path is set and has none named if it is not.
servers_lem :
    (flags : Flags)
    → let m = metrics_server_options flags in
      let w = webhook_server_options flags in
      let metrics_certs : Certs = (m.cert_dir, m.cert_name, m.key_name) in
      let webhook_certs : Certs = (w.cert_dir, w.cert_name, w.key_name) in
      (m.secure_serving ≡ m.with_authentication_and_authorization)
      × (m.bind_address ≡ flags.metrics_addr)
      × (metrics_certs
          ≡ certs_named flags.metrics_cert_path flags.metrics_cert_name flags.metrics_cert_key)
      × (webhook_certs
          ≡ certs_named flags.webhook_cert_path flags.webhook_cert_name flags.webhook_cert_key)
unfolding metrics_server_options with_filter with_certs webhook_server_options
servers_lem flags = (ground arith, ground arith, ground arith, ground arith)
