-- ===== src/Bootstrap/Load.antt =====
-- `LoadTransportConfig` and `readRequiredFile` of pkg/bootstrap/transport.go.
use openshell_drivers_contri.Prelude.{
  ℕ, ◌*◌, String, Bool, List, [], ◌∷◌, ◌++◌, length, ltb, ◌==◌, if◌then◌else◌,
}
use openshell_drivers_contri.Prelude.Result.{Result, ok, err}
use openshell_drivers_contri.Bootstrap.Config.{Bytes, TransportConfig}
use openshell_drivers_contri.Bootstrap.Library.{Library}
use openshell_drivers_contri.Bootstrap.Transport.{TransportError, validate}

abbrev pub max_tls_file_size : ℕ
max_tls_file_size = 256 * 1024

pub data FileError : Type 0 where
  no_path unreadable too_large : String → FileError

pub data LoadError : Type 0 where
  bad_files : List FileError → LoadError
  bad_transport : TransportError → LoadError

abbrev of_size : String → Bytes → Bytes × List FileError
of_size name contents =
    if ltb max_tls_file_size (length contents) then ([], too_large name ∷ []) else (contents, [])

unfoldable pub read_result : String → Result String Bytes → Bytes × List FileError
read_result name (ok contents) = of_size name contents
read_result name (err e) = ([], unreadable name ∷ [])

module _ (lib : Library) where
  open lib use {read_file}

  -- The contents, and the errors that are appended to those before.
  unfoldable pub read_required_file : String → String → Bytes × List FileError
  unfolding read_result
  read_required_file name path =
      if path == "" then ([], no_path name ∷ []) else read_result name (read_file path)

  unfoldable pub as_load_error :
      TransportConfig → Result TransportError (Unit {0}) → Result LoadError TransportConfig
  as_load_error c (ok _) = ok c
  as_load_error c (err e) = err (bad_transport e)

  unfoldable pub validated : TransportConfig → Result LoadError TransportConfig
  unfolding as_load_error
  validated c = as_load_error c (validate lib c)

  unfoldable pub all_or_errors : TransportConfig → List FileError → Result LoadError TransportConfig
  unfolding validated
  all_or_errors c [] = validated c
  all_or_errors c (e ∷ es) = err (bad_files (e ∷ es))

  unfoldable pub load_transport_config :
      String → String → String → String → Bool → Result LoadError TransportConfig
  unfolding read_required_file all_or_errors
  load_transport_config endpoint ca_path cert_path key_path insecure =
      let (ca, no_ca) = read_required_file "gateway CA certificate" ca_path in
      let (cert, no_cert) = read_required_file "gateway client certificate" cert_path in
      let (key, no_key) = read_required_file "gateway client key" key_path in
      let plain : TransportConfig = record {
        gateway_endpoint = endpoint;
        ca_cert_pem = [];
        client_cert_pem = [];
        client_key_pem = [];
        insecure = insecure;
      } in
      if insecure
      then validated plain
      else all_or_errors
          (record plain { ca_cert_pem = ca; client_cert_pem = cert; client_key_pem = key })
          (no_ca ++ (no_cert ++ no_key))
