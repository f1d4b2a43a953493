-- ===== src/Bootstrap/Loaded.antt =====
-- What `LoadTransportConfig` of pkg/bootstrap/transport.go returns where it succeeds.
use openshell_drivers_contri.Prelude.{
  ◌≤◌, ◌≡◌, refl, String, Bool, true, false, List, [], ◌∷◌, ◌++◌, arith, length, ltb, ◌==◌,
  Bool-cases, inl, inr,
}
use openshell_drivers_contri.Prelude.Result.{Result, ok, err, Result-cases}
use openshell_drivers_contri.Bootstrap.Config.{Bytes, TransportConfig}
use openshell_drivers_contri.Bootstrap.Library.{Library}
use openshell_drivers_contri.Bootstrap.Transport.{validate}
use openshell_drivers_contri.Bootstrap.Load.{
  max_tls_file_size, FileError, read_result, read_required_file, as_load_error, validated,
  all_or_errors, load_transport_config,
}

-- A file of the configuration: read from its path, and of at most the largest size.
pub record IsRead (lib : Library) (path : String) (contents : Bytes) : Type 0 where
  pub is_read : lib.read_file path ≡ ok contents
  pub small : length contents ≤ max_tls_file_size

-- A configuration that is loaded is valid, and secured by three files that were read whole,
-- or insecure on demand and without any.
pub data IsLoaded (lib : Library) (ca cert key : String) (c : TransportConfig) : Type 0 where
  plaintext :
      c.insecure ≡ true
      → c.ca_cert_pem ≡ []
      → c.client_cert_pem ≡ []
      → c.client_key_pem ≡ []
      → IsLoaded lib ca cert key c
  secured :
      c.insecure ≡ false
      → IsRead lib ca c.ca_cert_pem
      → IsRead lib cert c.client_cert_pem
      → IsRead lib key c.client_key_pem
      → IsLoaded lib ca cert key c

module _ (lib : Library) where
  read_result-small :
      (name : String) (r : Result String Bytes)
      → (read_result name r).1 ≡ []
      → (r ≡ ok (read_result name r).0) × (length (read_result name r).0 ≤ max_tls_file_size)
  unfolding read_result
  read_result-small name (err e) h = absurd (cc)
  read_result-small name (ok contents) h =
      elim (Bool-cases (ltb max_tls_file_size (length contents))) [
        | inl big ↦ absurd (big_fails big)
        | inr small ↦ rw small (refl, ground arith)
      ]
    where
      big_fails : ltb max_tls_file_size (length contents) ≡ true → ⊥
      big_fails big = ground arith

  read_required_file-IsRead :
      (name path : String)
      → (read_required_file lib name path).1 ≡ []
      → IsRead lib path (read_required_file lib name path).0
  unfolding read_required_file
  read_required_file-IsRead name path h = elim (Bool-cases (path == "")) [
    | inl missing ↦ absurd (no_path_fails missing)
    | inr given ↦ rw given (
        let (a, b) = read_result-small name (lib.read_file path) (rw given at h) in
        record { is_read = a; small = b })
  ]
    where
      no_path_fails : (path == "") ≡ true → ⊥
      no_path_fails missing = ground arith

  validated-ok :
      (c c' : TransportConfig) → validated lib c ≡ ok c' → (c' ≡ c) × (validate lib c ≡ ok tt)
  unfolding validated as_load_error
  validated-ok c c' h = elim (Result-cases (validate lib c)) [
    | inl (u, p) ↦ ground (arith, p)
    | inr (e, p) ↦ ground (arith, p)
  ]

  nil_parts :
      (xs ys zs : List FileError) → xs ++ (ys ++ zs) ≡ [] → (xs ≡ []) × (ys ≡ []) × (zs ≡ [])
  nil_parts [] [] zs h = (refl, refl, h)
  nil_parts [] (y ∷ ys) zs h = cc
  nil_parts (x ∷ xs) ys zs h = cc

  all_or_errors-ok :
      (c c' : TransportConfig) (es : List FileError)
      → all_or_errors lib c es ≡ ok c'
      → (es ≡ []) × (validated lib c ≡ ok c')
  unfolding all_or_errors
  all_or_errors-ok c c' [] h = (refl, h)
  all_or_errors-ok c c' (e ∷ es) h = absurd (cc)

  -- A configuration that is loaded passed its validation, and is either insecure on demand and
  -- without certificates, or made of three files that were read whole and are not too large.
  pub load_transport_config-IsLoaded :
      (endpoint ca cert key : String) (insecure : Bool) (c : TransportConfig)
      → load_transport_config lib endpoint ca cert key insecure ≡ ok c
      → (validate lib c ≡ ok tt) × (c.insecure ≡ insecure) × IsLoaded lib ca cert key c
  unfolding load_transport_config
  load_transport_config-IsLoaded endpoint ca cert key true c h =
      let (same, valid) = validated-ok _ c h in
      (rw same valid, rw same refl, rw same (plaintext refl refl refl refl))
  load_transport_config-IsLoaded endpoint ca cert key false c h =
      let (clean, valid_c) = all_or_errors-ok _ c _ h in
      let (a, b, d) = nil_parts _ _ _ clean in
      let (same, valid) = validated-ok _ c valid_c in
      (
        rw same valid,
        rw same refl,
        rw same (
            secured refl (read_required_file-IsRead "gateway CA certificate" ca a)
              (read_required_file-IsRead "gateway client certificate" cert b)
              (read_required_file-IsRead "gateway client key" key d)),
      )

  -- It has the endpoint that it was asked for.
  pub load_transport_config-endpoint :
      (endpoint ca cert key : String) (insecure : Bool) (c : TransportConfig)
      → load_transport_config lib endpoint ca cert key insecure ≡ ok c
      → c.gateway_endpoint ≡ endpoint
  unfolding load_transport_config
  load_transport_config-endpoint endpoint ca cert key true c h =
      let (same, valid) = validated-ok _ c h in rw same refl
  load_transport_config-endpoint endpoint ca cert key false c h =
      let (clean, valid_c) = all_or_errors-ok _ c _ h in
      let (same, valid) = validated-ok _ c valid_c in rw same refl
