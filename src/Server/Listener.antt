-- ===== src/Server/Listener.antt =====
-- saphir/src/server.rs: the configuration of the listener. The build has the feature `https`; a signal is a value of
-- `Signal`.
use saphir.Base.{ℕ, Bool, false, Option, none, some, unwrap_or}
use saphir.Text.{Str, codes}

pub data SslConfig : Type 0 where
  file_path file_data : Str → SslConfig

abbrev pub default_request_timeout_ms : ℕ
default_request_timeout_ms = 30000

abbrev pub default_listener_iface : Str
default_listener_iface = codes "0.0.0.0:0"

abbrev pub default_server_name : Str
default_server_name = codes "Saphir"

pub record ListenerBuilder (Signal : Type 0) : Type 0 where
  pub iface : Option Str
  pub server_name : Option Str
  pub request_timeout_ms : Option ℕ
  pub request_body_max : Option ℕ
  pub cert_config : Option SslConfig
  pub key_config : Option SslConfig
  pub shutdown_signal : Option Signal
  pub graceful_shutdown : Bool

-- `ServerShutdown`, with its flag `draining`; `pending()` has no signal.
pub record ServerShutdown (Signal : Type 0) : Type 0 where
  pub graceful : Bool
  pub draining : Bool
  pub signal : Option Signal

pub record ListenerConfig (Signal : Type 0) : Type 0 where
  pub iface : Str
  pub request_timeout_ms : Option ℕ
  pub request_body_max : Option ℕ
  pub server_name : Str
  pub cert_config : Option SslConfig
  pub key_config : Option SslConfig
  pub shutdown : ServerShutdown Signal

module _ {Signal : Type 0} where
  -- `Default`
  abbrev pub default_listener : ListenerBuilder Signal
  default_listener = record {
    iface = none;
    server_name = none;
    request_timeout_ms = none;
    request_body_max = none;
    cert_config = none;
    key_config = none;
    shutdown_signal = none;
    graceful_shutdown = false;
  }

  abbrev pub new_listener : ListenerBuilder Signal
  new_listener = record default_listener { request_timeout_ms = some default_request_timeout_ms }

  unfoldable pub interface : Str → ListenerBuilder Signal → ListenerBuilder Signal
  interface s b = record b { iface = some s }

  unfoldable pub request_timeout : Option ℕ → ListenerBuilder Signal → ListenerBuilder Signal
  request_timeout timeout_ms b = record b { request_timeout_ms = timeout_ms }

  unfoldable pub set_server_name : Str → ListenerBuilder Signal → ListenerBuilder Signal
  set_server_name name b = record b { server_name = some name }

  unfoldable pub request_body_max_bytes : Option ℕ → ListenerBuilder Signal → ListenerBuilder Signal
  request_body_max_bytes size b = record b { request_body_max = size }

  unfoldable pub shutdown_on : Signal → Bool → ListenerBuilder Signal → ListenerBuilder Signal
  shutdown_on signal graceful b = record b {
    shutdown_signal = some signal;
    graceful_shutdown = graceful;
  }

  unfoldable pub set_ssl_config :
      SslConfig → SslConfig → ListenerBuilder Signal → ListenerBuilder Signal
  set_ssl_config cert key b = record b { cert_config = some cert; key_config = some key }

  unfoldable pub set_ssl_certificates : Str → Str → ListenerBuilder Signal → ListenerBuilder Signal
  unfolding set_ssl_config
  set_ssl_certificates cert_path key_path =
      set_ssl_config (file_path cert_path) (file_path key_path)

  unfoldable pub new_shutdown : Bool → Signal → ServerShutdown Signal
  new_shutdown graceful signal = record {
    graceful = graceful;
    draining = false;
    signal = some signal;
  }

  unfoldable pub pending_shutdown : ServerShutdown Signal
  pending_shutdown = record { graceful = false; draining = false; signal = none }

  unfoldable pub build_listener : ListenerBuilder Signal → ListenerConfig Signal
  unfolding new_shutdown pending_shutdown
  build_listener b = record {
    iface = unwrap_or b.iface default_listener_iface;
    request_timeout_ms = b.request_timeout_ms;
    request_body_max = b.request_body_max;
    server_name = unwrap_or b.server_name default_server_name;
    cert_config = b.cert_config;
    key_config = b.key_config;
    shutdown = elim b.shutdown_signal [
      | some sig ↦ new_shutdown b.graceful_shutdown sig
      | none ↦ pending_shutdown
    ];
  }
