-- ===== src/Config.antt =====
-- config.rs: the configuration that `main` builds from the arguments.
use mini_realtime_server_rs.Prelude.{String, Bool}

pub record Auth : Type 0 where
  pub enable_bearer : Bool
  pub bearer : String

pub record Tls : Type 0 where
  pub enable : Bool
  pub cert_file_path : String
  pub key_file_path : String

pub record Config : Type 0 where
  pub auth : Auth
  pub tls : Tls
