-- ===== src/Network/Keys.antt =====
-- src/network_protocol/tcp.rs: the certificates and the key that TLS needs.
use mathlib.Core.List.{map}
use mini_realtime_server_rs.Prelude.{
  ◌≡◌, String, true, Option, none, some, List, [], ◌∷◌, Result, ok, err, ◌>>=◌, bind_ok,
  if◌then◌else◌, arith,
}
use mini_realtime_server_rs.Config.{Tls}

-- What is used of the file system, rustls-pemfile and tokio-rustls. An `anyhow::Error` is made of
-- each of their errors, and of a text.
pub record Rustls : Type 1 where
  pub Error : Type 0
  pub anyhow : String → Error
  pub File : Type 0
  pub Der : Type 0
  pub open_file : String → Result File Error
  pub certs : File → Result (List Der) Error
  pub pkcs8_private_keys : File → Result (List Der) Error
  pub Certificate : Type 0
  pub certificate : Der → Certificate
  pub PrivateKey : Type 0
  pub private_key : Der → PrivateKey
  pub ServerConfig : Type 0
  pub with_single_cert : List Certificate → PrivateKey → Result ServerConfig Error
  pub TlsAcceptor : Type 0
  pub acceptor_from : ServerConfig → TlsAcceptor
  pub TcpStream : Type 0
  pub TlsStream : Type 0
  pub accept : TlsAcceptor → TcpStream → Result TlsStream Error

module _ ⦃rustls : Rustls⦄ where
  -- `load_certs`.
  unfoldable pub load_certs : String → Result (List rustls.Certificate) rustls.Error
  load_certs path = do
    fd ← rustls.open_file path
    certs ← rustls.certs fd
    ok (map rustls.certificate certs)

  -- `next` and `ok_or_else`.
  abbrev pub first_key : List rustls.PrivateKey → Result rustls.PrivateKey rustls.Error
  first_key [] = err (rustls.anyhow "failed to load private key")
  first_key (key ∷ rest) = ok key

  -- `load_key`.
  unfoldable pub load_key : String → Result rustls.PrivateKey rustls.Error
  load_key path = do
    fd ← rustls.open_file path
    keys ← rustls.pkcs8_private_keys fd
    first_key (map rustls.private_key keys)

  -- The branch of `run` for TLS.
  unfoldable pub load_acceptor : Tls → Result (Option rustls.TlsAcceptor) rustls.Error
  load_acceptor tls = do
    certs ← load_certs tls.cert_file_path
    key ← load_key tls.key_file_path
    config ← rustls.with_single_cert certs key
    ok (some (rustls.acceptor_from config))

  -- The acceptor that `run` makes, if TLS is enabled.
  unfoldable pub tls_acceptor : Tls → Result (Option rustls.TlsAcceptor) rustls.Error
  tls_acceptor tls = if tls.enable then load_acceptor tls else ok none

  -- With TLS enabled there is no acceptor but one made of the certificates and the first key of the
  -- two files; so if a file cannot be read, or no key is in it, the server does not start.
  pub tls_acceptor_lem :
      (tls : Tls) (acceptor : Option rustls.TlsAcceptor)
      → tls.enable ≡ true
      → tls_acceptor tls ≡ ok acceptor
      → (certs : List rustls.Certificate) × (key : rustls.PrivateKey)
        × (config : rustls.ServerConfig) × (load_certs tls.cert_file_path ≡ ok certs)
        × (load_key tls.key_file_path ≡ ok key)
        × (rustls.with_single_cert certs key ≡ ok config)
        × (acceptor ≡ some (rustls.acceptor_from config))
  unfolding load_acceptor
  tls_acceptor_lem tls acceptor on e =
      let loaded : load_acceptor tls ≡ ok acceptor = unfold tls_acceptor in ground arith in
      let (certs, certs_loaded, e1) = bind_ok (load_certs tls.cert_file_path) _ acceptor loaded in
      let (key, key_loaded, e2) = bind_ok (load_key tls.key_file_path) _ acceptor e1 in
      let (config, made, e3) = bind_ok (rustls.with_single_cert certs key) _ acceptor e2 in
      (certs, key, config, certs_loaded, key_loaded, made, ground arith)
