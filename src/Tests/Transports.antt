-- ===== src/Tests/Transports.antt =====
-- A small stand-in for the standard library that pkg/bootstrap/transport.go uses, and transports that
-- it accepts.
use openshell_drivers_contri.Prelude.{String, true, false, none, some, [], ◌∷◌, ◌==◌, if◌then◌else◌}
use openshell_drivers_contri.Prelude.Int.{pos}
use openshell_drivers_contri.Prelude.Result.{ok, err}
use openshell_drivers_contri.Bootstrap.Config.{TransportConfig, SecurityBlockParams}
use openshell_drivers_contri.Bootstrap.Library.{Url, Library}

abbrev url_of : String → Url
url_of scheme = record {
  scheme = scheme;
  hostname = "gateway";
  port = "8443";
  has_user = false;
  escaped_path = "";
  raw_query = "";
  fragment = "";
}

abbrev pub toy_library : Library
toy_library = record {
  CertPool = Unit {0};
  Certificate = Unit {0};
  parse_request_uri = λ s.
      if s == "https://gateway:8443"
      then some (url_of "https")
      else if s == "http://gateway:8443"
      then some (url_of "http")
      else none;
  atoi = λ _. some (pos 8443);
  append_certs_from_pem = λ _. some tt;
  x509_key_pair = λ cert _. some (cert, []);
  parse_certificate = λ _. some tt;
  verify_client = λ _ _ _. true;
  quote = λ s. s;
  base64_text = λ s. s;
  base64_bytes = λ _. "bytes";
  read_file = λ path. if path == "" then err "no such file" else ok (7 ∷ []);
}

abbrev pub secure_transport : TransportConfig
secure_transport = record {
  gateway_endpoint = "https://gateway:8443";
  ca_cert_pem = 7 ∷ [];
  client_cert_pem = 7 ∷ [];
  client_key_pem = 7 ∷ [];
  insecure = false;
}

abbrev pub plain_transport : TransportConfig
plain_transport = record {
  gateway_endpoint = "http://gateway:8443";
  ca_cert_pem = [];
  client_cert_pem = [];
  client_key_pem = [];
  insecure = true;
}

abbrev pub block_params : SecurityBlockParams
block_params = record {
  sandbox_id = "box";
  sandbox_token = "secret";
  log_level = "info";
  max_lifetime = "8h";
}
