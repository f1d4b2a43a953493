-- ===== src/Bootstrap/Safety.antt =====
-- What a transport that `Validate` of pkg/bootstrap/transport.go accepts guarantees.
use openshell_drivers_contri.Prelude.{
  ◌≡◌, refl, Bool, true, false, not, ◌&&◌, ◌||◌, Option, none, some, List, arith, ◌==◌,
  if◌then◌else◌, eq_iff, ℕ, ◌≤◌, String, ◌⊎◌, inl, inr, Bool-cases,
}
use openshell_drivers_contri.Prelude.Int.{ℤ, pos, negsuc}
use openshell_drivers_contri.Prelude.Result.{ok, bind-ok, then-ok}
use openshell_drivers_contri.Bootstrap.Config.{Bytes, TransportConfig}
use openshell_drivers_contri.Bootstrap.Library.{Url, Library}
use openshell_drivers_contri.Bootstrap.Transport.{
  TransportError, want_scheme, refuse_if, is_empty, or_error, parse_chain, port_is_bad,
  validate_url, validate_certificates, validate,
}

-- No port, or a number of 16 bits that is not zero.
abbrev pub IsPort : (String → Option ℤ) → String → Type 0
IsPort atoi text = (text ≡ "") ⊎ ((n : ℕ) × (atoi text ≡ some (pos n)) × (1 ≤ n) × (n ≤ 65535))

-- The endpoint is a bare absolute URL of the scheme that is wanted.
pub record IsBareUrl (atoi : String → Option ℤ) (insecure : Bool) (u : Url) : Type 0 where
  pub host_given : (u.hostname == "") ≡ false
  pub no_path : (u.escaped_path ≡ "") ⊎ (u.escaped_path ≡ "/")
  pub port : IsPort atoi u.port
  pub no_user : u.has_user ≡ false
  pub no_query : u.raw_query ≡ ""
  pub no_fragment : u.fragment ≡ ""
  pub scheme : u.scheme ≡ (if insecure then "http" else "https")

module _ (lib : Library) where
  open lib use {
    CertPool, Certificate, parse_request_uri, atoi, append_certs_from_pem, x509_key_pair,
    parse_certificate, verify_client,
  }

  -- The client's certificate is verified against the certificates of the configured CA.
  pub record IsVerified (c : TransportConfig) : Type 0 where
    pub pool : CertPool
    pub chain : Bytes × List Bytes
    pub leaf : Certificate
    pub intermediates : List Certificate
    pub pool_of_ca : append_certs_from_pem c.ca_cert_pem ≡ some pool
    pub of_pair : x509_key_pair c.client_cert_pem c.client_key_pem ≡ some chain
    pub leaf_of_chain : parse_certificate chain.0 ≡ some leaf
    pub rest_of_chain : parse_chain lib chain.1 ≡ some intermediates
    pub verified : verify_client leaf pool intermediates ≡ true

  -- What the transport rests on: plain HTTP only on demand, else HTTPS with a verified client.
  pub record IsSafe (c : TransportConfig) : Type 0 where
    pub url : Url
    pub of_endpoint : parse_request_uri c.gateway_endpoint ≡ some url
    pub bare : IsBareUrl atoi c.insecure url
    pub client : c.insecure ≡ false → IsVerified c

  or_error-ok :
      {A : Type 0} (e : TransportError) (o : Option A) (a : A)
      → or_error lib e o ≡ ok a
      → o ≡ some a
  unfolding or_error
  or_error-ok e none a h = cc
  or_error-ok e (some b) a h = cc

  refuse_if-ok : (b : Bool) (e : TransportError) → refuse_if b e ≡ ok tt → b ≡ false
  unfolding refuse_if
  refuse_if-ok true e h = cc
  refuse_if-ok false e h = refl

  path_lem :
      (path : String) → (not (path == "") && not (path == "/")) ≡ false → (path ≡ "") ⊎ (path ≡ "/")
  path_lem path h = elim (Bool-cases (path == "")) [
    | inl empty ↦ inl ((eq_iff path "").0 empty)
    | inr given ↦ inr ((eq_iff path "/").0 (ground (arith, given)))
  ]

  port_lem :
      (port : String) → (not (port == "") && port_is_bad lib (atoi port)) ≡ false → IsPort atoi port
  unfolding port_is_bad
  port_lem port h = elim (Bool-cases (port == "")) [
    | inl empty ↦ inl ((eq_iff port "").0 empty)
    | inr given ↦ inr (of_number (atoi port) (rw given at h))
  ]
    where
      of_number :
          (o : Option ℤ)
          → port_is_bad lib o ≡ false
          → (n : ℕ) × (o ≡ some (pos n)) × (1 ≤ n) × (n ≤ 65535)
      of_number none h = cc
      of_number (some (pos n)) h = (n, refl, ground arith, ground arith)
      of_number (some (negsuc n)) h = absurd (ground arith)

  validate_url-IsBareUrl :
      (insecure : Bool) (u : Url) → validate_url lib insecure u ≡ ok tt → IsBareUrl atoi insecure u
  unfolding validate_url want_scheme
  validate_url-IsBareUrl insecure u h =
      let (host, h₁) = then-ok (refuse_if (u.hostname == "") TransportError.not_absolute) _ h in
      let (parts, h₂) =
        then-ok
          (refuse_if
            (u.has_user
              || (not (u.escaped_path == "") && not (u.escaped_path == "/"))
              || not (u.raw_query == "")
              || not (u.fragment == ""))
            TransportError.has_extra_parts)
          _ h₁ in
      let (port, scheme) =
        then-ok _
          (refuse_if (not (u.scheme == want_scheme insecure))
            (TransportError.wrong_scheme (want_scheme insecure) insecure))
          h₂ in
      let bare = refuse_if-ok _ _ parts in
      let fits = refuse_if-ok _ _ scheme in
      record {
        host_given = refuse_if-ok _ _ host;
        no_path = path_lem u.escaped_path (ground (arith, bare));
        port = port_lem u.port (refuse_if-ok _ _ port);
        no_user = ground (arith, bare);
        no_query = ground (arith, bare, eq_iff u.raw_query "");
        no_fragment = ground (arith, bare, eq_iff u.fragment "");
        scheme = ground (arith, fits, eq_iff u.scheme (want_scheme insecure));
      }

  validate_certificates-IsVerified :
      (c : TransportConfig) → validate_certificates lib c ≡ ok tt → IsVerified c
  unfolding validate_certificates
  validate_certificates-IsVerified c h =
      let (_, h₁) =
        then-ok (refuse_if (is_empty lib c.ca_cert_pem) TransportError.no_ca_certificate) _ h in
      let (pool, p, h₂) =
        bind-ok
          (or_error lib TransportError.no_ca_certificate (append_certs_from_pem c.ca_cert_pem)) _ tt
          h₁ in
      let (chain, q, h₃) =
        bind-ok
          (or_error lib TransportError.bad_key_pair
            (x509_key_pair c.client_cert_pem c.client_key_pem))
          _ tt h₂ in
      let (leaf, r, h₄) =
        bind-ok (or_error lib TransportError.bad_leaf (parse_certificate chain.0)) _ tt h₃ in
      let (rest, s, h₅) =
        bind-ok (or_error lib TransportError.bad_chain (parse_chain lib chain.1)) _ tt h₄ in
      let checked = refuse_if-ok (not (verify_client leaf pool rest)) _ h₅ in
      record {
        pool = pool;
        chain = chain;
        leaf = leaf;
        intermediates = rest;
        pool_of_ca = or_error-ok _ _ pool p;
        of_pair = or_error-ok _ _ chain q;
        leaf_of_chain = or_error-ok _ _ leaf r;
        rest_of_chain = or_error-ok _ _ rest s;
        verified = ground (arith, checked);
      }

  -- A transport that is accepted has for its endpoint a URL with a host and no more than a port
  -- from 1 to 65535 and a slash after it, of the scheme http if plaintext is asked for and else https;
  -- where it is not, the client's certificate is verified against the configured CA.
  pub validate-IsSafe : (c : TransportConfig) → validate lib c ≡ ok tt → IsSafe c
  unfolding validate
  validate-IsSafe c h =
      let (u, p, h₁) =
        bind-ok (or_error lib TransportError.not_absolute (parse_request_uri c.gateway_endpoint)) _
          tt h in
      let (url_ok, h₂) = then-ok (validate_url lib c.insecure u) _ h₁ in
      record {
        url = u;
        of_endpoint = or_error-ok _ _ u p;
        bare = validate_url-IsBareUrl c.insecure u url_ok;
        client = λ secure. validate_certificates-IsVerified c (rw secure at h₂);
      }
