-- ===== src/Bootstrap/Files.antt =====
-- Which files `RenderSecurityBlock` of pkg/bootstrap/transport.go hands over.
use openshell_drivers_contri.Prelude.{
  ◌≡◌, refl, String, false, not, List, arith, select, ◌==◌, All, Bool-cases, inl, inr,
}
use openshell_drivers_contri.Prelude.Result.{ok, bind-ok, then-ok}
use openshell_drivers_contri.Text.{has_control}
use openshell_drivers_contri.Bootstrap.Config.{TransportConfig, SecurityBlockParams}
use openshell_drivers_contri.Bootstrap.Library.{Library}
use openshell_drivers_contri.Bootstrap.Transport.{validate}
use openshell_drivers_contri.Bootstrap.Render.{
  File, sandbox_token_path, check_value, check_params, as_render_error, files,
  render_security_block, env,
}

abbrev pub other_files : List File → List File
other_files = select (λ f. not (f.path == sandbox_token_path))

-- The files that only the owner may read: all but the CA's certificate.
abbrev pub IsPrivate : File → Type 0
IsPrivate f = (f.path == "/etc/openshell/tls/client/ca.crt") ≡ false → f.permissions ≡ "0600"

module _ (lib : Library) (c : TransportConfig) where
  -- The sandbox token stands in no file but its own: the other files are the same for every token.
  pub files-token :
      (p : SecurityBlockParams) (token : String)
      → other_files (files lib c (record p { sandbox_token = token })) ≡ other_files (files lib c p)
  unfolding files env
  files-token p token = elim (Bool-cases c.insecure) [
    | inl plain ↦ rw plain refl
    | inr secure ↦ rw secure refl
  ]

  -- Every file but the CA's certificate is readable by its owner alone.
  pub files-IsPrivate : (p : SecurityBlockParams) → All IsPrivate (files lib c p)
  unfolding files
  files-IsPrivate p = elim (Bool-cases c.insecure) [
    | inl plain ↦ rw plain ((λ _. refl), ((λ _. refl), tt))
    | inr secure ↦
        rw secure
          ((λ _. refl), ((λ _. refl), ((λ h. absurd (cc)), ((λ _. refl), ((λ _. refl), tt)))))
  ]

  check_value-ok :
      (name value : String)
      → (name == "log level") ≡ false
      → check_value name value ≡ ok tt
      → ((value == "") ≡ false) × (has_control value ≡ false)
  unfolding check_value
  check_value-ok name value required h = ground arith

  -- A block is rendered only for a valid transport, and for an ID, a token and a lifetime that are
  -- given and hold no control character.
  pub render_security_block-ok :
      (p : SecurityBlockParams) (block : String)
      → render_security_block lib c p ≡ ok block
      → (validate lib c ≡ ok tt)
        × (((p.sandbox_id == "") ≡ false) × (has_control p.sandbox_id ≡ false))
        × (((p.sandbox_token == "") ≡ false) × (has_control p.sandbox_token ≡ false))
        × (((p.max_lifetime == "") ≡ false) × (has_control p.max_lifetime ≡ false))
  unfolding render_security_block check_params as_render_error
  render_security_block-ok p block h =
      let (_, valid, h₁) = bind-ok (as_render_error (validate lib c)) _ block h in
      let (_, checked, _) = bind-ok (check_params p) _ block h₁ in
      let (id, h₂) = then-ok (check_value "sandbox ID" p.sandbox_id) _ checked in
      let (token, h₃) = then-ok (check_value "sandbox token" p.sandbox_token) _ h₂ in
      let (_, h₄) = then-ok (check_value "log level" p.log_level) _ h₃ in
      (
        transport valid,
        check_value-ok "sandbox ID" p.sandbox_id refl id,
        check_value-ok "sandbox token" p.sandbox_token refl token,
        check_value-ok "max lifetime" p.max_lifetime refl h₄,
      )
    where
      transport : as_render_error (validate lib c) ≡ ok tt → validate lib c ≡ ok tt
      transport e = ground arith
