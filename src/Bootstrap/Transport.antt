-- ===== src/Bootstrap/Transport.antt =====
-- `TransportConfig.Validate` of pkg/bootstrap/transport.go.
use openshell_drivers_contri.Prelude.{
  String, Bool, true, false, not, ◌&&◌, ◌||◌, Option, none, some, List, [], ◌∷◌, ◌==◌,
  if◌then◌else◌,
}
use openshell_drivers_contri.Prelude.Int.{ℤ, pos, ltb_ℤ}
use openshell_drivers_contri.Prelude.Result.{Result, ok, err, ◌>>=◌, ◌>>◌}
use openshell_drivers_contri.Bootstrap.Config.{Bytes, TransportConfig}
use openshell_drivers_contri.Bootstrap.Library.{Url, Library}

pub data TransportError : Type 0 where
  not_absolute has_extra_parts bad_port no_ca_certificate bad_key_pair : TransportError
  bad_leaf bad_chain not_verified : TransportError
  wrong_scheme : String → Bool → TransportError

abbrev pub Check : Type 0
Check = Result TransportError (Unit {0})

unfoldable pub want_scheme : Bool → String
want_scheme insecure = if insecure then "http" else "https"

-- if … { return err }
unfoldable pub refuse_if : Bool → TransportError → Check
refuse_if true e = err e
refuse_if false e = ok tt

module _ (lib : Library) where
  open lib use {
    CertPool, Certificate, parse_request_uri, atoi, append_certs_from_pem, x509_key_pair,
    parse_certificate, verify_client,
  }

  unfoldable pub port_is_bad : Option ℤ → Bool
  port_is_bad none = true
  port_is_bad (some value) = ltb_ℤ value (pos 1) || ltb_ℤ (pos 65535) value

  unfoldable pub validate_url : Bool → Url → Check
  unfolding refuse_if port_is_bad want_scheme
  validate_url insecure u = do
    refuse_if (u.hostname == "") not_absolute
    refuse_if
        (u.has_user
          || (not (u.escaped_path == "") && not (u.escaped_path == "/"))
          || not (u.raw_query == "")
          || not (u.fragment == ""))
        has_extra_parts
    refuse_if (not (u.port == "") && port_is_bad (atoi u.port)) bad_port
    refuse_if (not (u.scheme == want_scheme insecure))
        (wrong_scheme (want_scheme insecure) insecure)

  -- The certificates behind the leaf, if all of them parse.
  unfoldable pub parse_chain : List Bytes → Option (List Certificate)
  parse_chain [] = some []
  parse_chain (raw ∷ rest) = elim (parse_certificate raw) [
    | none ↦ none
    | some cert ↦ elim (parse_chain rest) [ none ↦ none | some certs ↦ some (cert ∷ certs) ]
  ]

  unfoldable pub is_empty : Bytes → Bool
  is_empty [] = true
  is_empty (b ∷ bs) = false

  unfoldable pub or_error : {A : Type 0} → TransportError → Option A → Result TransportError A
  or_error e none = err e
  or_error e (some a) = ok a

  unfoldable pub validate_certificates : TransportConfig → Check
  unfolding is_empty or_error parse_chain refuse_if
  validate_certificates c = do
    refuse_if (is_empty c.ca_cert_pem) no_ca_certificate
    pool ← or_error no_ca_certificate (append_certs_from_pem c.ca_cert_pem)
    pair ← or_error bad_key_pair (x509_key_pair c.client_cert_pem c.client_key_pem)
    leaf ← or_error bad_leaf (parse_certificate pair.0)
    intermediates ← or_error bad_chain (parse_chain pair.1)
    refuse_if (not (verify_client leaf pool intermediates)) not_verified

  unfoldable pub validate : TransportConfig → Check
  unfolding validate_url validate_certificates or_error
  validate c = do
    u ← or_error not_absolute (parse_request_uri c.gateway_endpoint)
    validate_url c.insecure u
    if c.insecure then ok tt else validate_certificates c
