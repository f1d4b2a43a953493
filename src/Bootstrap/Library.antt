-- ===== src/Bootstrap/Library.antt =====
-- What pkg/bootstrap/transport.go takes from Go's standard library: net/url, strconv, crypto/x509,
-- crypto/tls, encoding/base64 and os.
use openshell_drivers_contri.Prelude.{String, Bool, Option, List}
use openshell_drivers_contri.Prelude.Int.{ℤ}
use openshell_drivers_contri.Prelude.Result.{Result}
use openshell_drivers_contri.Bootstrap.Config.{Bytes}

-- url.URL, with what its methods return.
pub record Url : Type 0 where
  pub scheme : String
  pub hostname : String
  pub port : String
  pub has_user : Bool
  pub escaped_path : String
  pub raw_query : String
  pub fragment : String

pub record Library : Type 1 where
  pub CertPool : Type 0
  pub Certificate : Type 0
  pub parse_request_uri : String → Option Url
  pub atoi : String → Option ℤ
  -- a new pool with the certificates of the PEM text, `none` where AppendCertsFromPEM finds none
  pub append_certs_from_pem : Bytes → Option CertPool
  -- the chain of a certificate and key that match: the leaf and what follows it
  pub x509_key_pair : Bytes → Bytes → Option (Bytes × List Bytes)
  pub parse_certificate : Bytes → Option Certificate
  -- leaf.Verify with these roots and intermediates, for client authentication
  pub verify_client : Certificate → CertPool → List Certificate → Bool
  -- strconv.Quote
  pub quote : String → String
  -- base64.StdEncoding.EncodeToString, of a text and of bytes
  pub base64_text : String → String
  pub base64_bytes : Bytes → String
  -- os.ReadFile
  pub read_file : String → Result String Bytes
