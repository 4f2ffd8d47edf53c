-- ===== src/Startup/Servers.antt =====
-- cmd/main.go: the options of the two servers.
pub mod Http2
use cillion.Base.{
  String, ◌==◌, string_eq, if◌then◌else◌, Bool, true, false, not, List, [], ◌∷◌, ◌++◌,
}
use cillion.Startup.Flags.{Flags}

-- `tls.Config`, by what the program sets.
pub record TlsConfig : Type 0 where
  pub next_protos : List String

-- The program only ever sets one field of it.
abbrev pub disable_http2 : TlsConfig → TlsConfig
disable_http2 c = record c { next_protos = "http/1.1" ∷ [] }

abbrev pub tls_opts : Flags → List (TlsConfig → TlsConfig)
tls_opts flags = if not flags.enable_http2 then disable_http2 ∷ [] else []

-- A server applies its options to its configuration in their order.
unfoldable pub configured : List (TlsConfig → TlsConfig) → TlsConfig → TlsConfig
configured [] c = c
configured (f ∷ fs) c = configured fs (f c)

-- `webhook.Options`
pub record WebhookOptions : Type 0 where
  pub tls_opts : List (TlsConfig → TlsConfig)
  pub cert_dir : String
  pub cert_name : String
  pub key_name : String

-- `metricsserver.Options`
pub record MetricsOptions : Type 0 where
  pub bind_address : String
  pub secure_serving : Bool
  pub tls_opts : List (TlsConfig → TlsConfig)
  -- Whether it is `filters.WithAuthenticationAndAuthorization`; it is nil otherwise.
  pub with_authentication_and_authorization : Bool
  pub cert_dir : String
  pub cert_name : String
  pub key_name : String

unfoldable pub webhook_server_options : Flags → WebhookOptions
webhook_server_options flags =
    let options : WebhookOptions = record {
      tls_opts = tls_opts flags;
      cert_dir = "";
      cert_name = "";
      key_name = "";
    } in
    if not (flags.webhook_cert_path == "")
    then record options {
      cert_dir = flags.webhook_cert_path;
      cert_name = flags.webhook_cert_name;
      key_name = flags.webhook_cert_key;
    }
    else options

-- The options with their filter, and with the certificates.
unfoldable pub with_filter : Flags → MetricsOptions → MetricsOptions
with_filter flags options =
    if flags.secure_metrics
    then record options { with_authentication_and_authorization = true }
    else options

unfoldable pub with_certs : Flags → MetricsOptions → MetricsOptions
with_certs flags options =
    if not (flags.metrics_cert_path == "")
    then record options {
      cert_dir = flags.metrics_cert_path;
      cert_name = flags.metrics_cert_name;
      key_name = flags.metrics_cert_key;
    }
    else options

unfoldable pub metrics_server_options : Flags → MetricsOptions
unfolding with_filter with_certs
metrics_server_options flags = with_certs flags (
    with_filter flags (record {
      bind_address = flags.metrics_addr;
      secure_serving = flags.secure_metrics;
      tls_opts = tls_opts flags;
      with_authentication_and_authorization = false;
      cert_dir = "";
      cert_name = "";
      key_name = "";
    }))
