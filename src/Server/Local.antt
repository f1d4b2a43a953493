-- ===== src/Server/Local.antt =====
-- Who can reach a server that listens as `listen` of pkg/server/server.go lets it.
use openshell_drivers_contri.Prelude.{
  ◌≡◌, refl, String, true, false, not, ◌&&◌, ◌||◌, ◌⊎◌, inl, inr, Option, none, some, ◌==◌,
  Bool-cases, arith, eq_iff,
}
use openshell_drivers_contri.Prelude.Result.{Result, ok, err}
use openshell_drivers_contri.Server.Options.{Options}
use openshell_drivers_contri.Server.Listen.{
  FileInfo, not_there, socket, other_file, unknown, ListenError, System, Listening, opened_tcp,
  listen_host, permitted, opened_unix, after_remove, listen_path, listen,
}

module _ {S L : Type 0} (sys : System S L) where
  -- A TCP listener on a loopback address.
  pub record IsLoopback (address : String) (lis : L) (s s' : S) : Type 0 where
    pub host : String
    pub of_address : sys.split_host address ≡ ok host
    pub loopback : (host == "localhost" || sys.is_loopback host) ≡ true
    pub opened : sys.listen_tcp address s ≡ (ok lis, s')

  -- A Unix listener for whose socket only its owner has permissions, and which took the place of
  -- nothing but another socket.
  pub record IsPrivate (path : String) (lis : L) (s s' : S) : Type 0 where
    pub before : S
    pub opened_in : S
    pub cleared :
        ((sys.lstat path s ≡ not_there) × (before ≡ s))
        ⊎ ((sys.lstat path s ≡ socket) × (sys.remove path s ≡ (none, before)))
    pub opened : sys.listen_unix path before ≡ (ok lis, opened_in)
    pub restricted : sys.chmod_600 path opened_in ≡ (none, s')

  abbrev pub IsLocal : Options → L → S → S → Type 0
  IsLocal opts lis s s' =
      (((opts.bind_address == "") ≡ false) × IsLoopback opts.bind_address lis s s')
      ⊎ ((opts.bind_address ≡ "") × IsPrivate opts.socket_path lis s s')

  -- What a result with a listener is made of.
  Listening_inj :
      {l l' : L} {c c' : S → S} {s s' : S}
      → ◌≡◌ {A = Listening sys} (ok (l, c), s) (ok (l', c'), s')
      → (l ≡ l') × (s ≡ s')
  Listening_inj h = (cc, cc)

  refused :
      {e : ListenError} {p : L × (S → S)} {s s' : S}
      → ¬ ◌≡◌ {A = Listening sys} (err e, s) (ok p, s')
  refused h = cc

  opened_tcp-ok :
      (r : Result String L × S) (lis : L) (cleanup : S → S) (s' : S)
      → opened_tcp sys r ≡ (ok (lis, cleanup), s')
      → r ≡ (ok lis, s')
  unfolding opened_tcp
  opened_tcp-ok (ok l, s) lis cleanup s' h =
      let (same, end) = Listening_inj h in rw same (rw end refl)
  opened_tcp-ok (err e, s) lis cleanup s' h = absurd cc

  listen_host-ok :
      (address : String) (r : Result String String) (s s' : S) (lis : L) (cleanup : S → S)
      → sys.split_host address ≡ r
      → listen_host sys address r s ≡ (ok (lis, cleanup), s')
      → IsLoopback address lis s s'
  unfolding listen_host
  listen_host-ok address (err e) s s' lis cleanup split h = absurd cc
  listen_host-ok address (ok host) s s' lis cleanup split h =
      elim (Bool-cases (not (host == "localhost") && not (sys.is_loopback host))) [
        | inl far ↦ absurd (refused (rw far at h))
        | inr near ↦ record {
          host = host;
          of_address = split;
          loopback = ground (arith, near);
          opened = opened_tcp-ok (sys.listen_tcp address s) lis cleanup s' (rw near at h);
        }
      ]

  permitted-ok :
      (path : String) (l : L) (r : Option String × S) (lis : L) (cleanup : S → S) (s' : S)
      → permitted sys path l r ≡ (ok (lis, cleanup), s')
      → (l ≡ lis) × (r ≡ (none, s'))
  unfolding permitted
  permitted-ok path l (none, s) lis cleanup s' h =
      let (same, end) = Listening_inj h in (same, rw end refl)
  permitted-ok path l (some e, s) lis cleanup s' h = absurd cc

  opened_unix-ok :
      (path : String) (r : Result String L × S) (lis : L) (cleanup : S → S) (s' : S)
      → opened_unix sys path r ≡ (ok (lis, cleanup), s')
      → (m : S) × (r ≡ (ok lis, m)) × (sys.chmod_600 path m ≡ (none, s'))
  unfolding opened_unix
  opened_unix-ok path (ok l, m) lis cleanup s' h =
      let (same, restricted) = permitted-ok path l (sys.chmod_600 path m) lis cleanup s' h in
      (m, rw same refl, restricted)
  opened_unix-ok path (err e, m) lis cleanup s' h = absurd cc

  after_remove-ok :
      (path : String) (r : Option String × S) (lis : L) (cleanup : S → S) (s' : S)
      → after_remove sys path r ≡ (ok (lis, cleanup), s')
      → (before : S) × (r ≡ (none, before))
        × (opened_unix sys path (sys.listen_unix path before) ≡ (ok (lis, cleanup), s'))
  unfolding after_remove
  after_remove-ok path (none, s) lis cleanup s' h = (s, refl, h)
  after_remove-ok path (some e, s) lis cleanup s' h = absurd cc

  listen_path-ok :
      (path : String) (i : FileInfo) (s s' : S) (lis : L) (cleanup : S → S)
      → sys.lstat path s ≡ i
      → listen_path sys path i s ≡ (ok (lis, cleanup), s')
      → IsPrivate path lis s s'
  unfolding listen_path
  listen_path-ok path not_there s s' lis cleanup e h =
      let (m, opens, restricts) = opened_unix-ok path (sys.listen_unix path s) lis cleanup s' h in
      record {
        before = s;
        opened_in = m;
        cleared = inl (e, refl);
        opened = opens;
        restricted = restricts;
      }
  listen_path-ok path socket s s' lis cleanup e h =
      let (clear, removed, opening) = after_remove-ok path (sys.remove path s) lis cleanup s' h in
      let (m, opens, restricts) =
        opened_unix-ok path (sys.listen_unix path clear) lis cleanup s' opening in
      record {
        before = clear;
        opened_in = m;
        cleared = inr (e, removed);
        opened = opens;
        restricted = restricts;
      }
  listen_path-ok path other_file s s' lis cleanup e h = absurd cc
  listen_path-ok path (unknown _) s s' lis cleanup e h = absurd cc

  -- A server that listens is reached over a loopback address only, or over a Unix socket of which only
  -- the owner has permissions, and which took the place of nothing but another socket.
  pub listen-IsLocal :
      (opts : Options) (s s' : S) (lis : L) (cleanup : S → S)
      → listen sys opts s ≡ (ok (lis, cleanup), s')
      → IsLocal opts lis s s'
  unfolding listen
  listen-IsLocal opts s s' lis cleanup h = elim (Bool-cases (opts.bind_address == "")) [
    | inl unset ↦ (elim (Bool-cases (opts.socket_path == "")) [
      | inl no_path ↦ absurd (refused (rw no_path at (rw unset at h)))
      | inr path ↦ inr (
        (eq_iff opts.bind_address "").0 unset,
        listen_path-ok opts.socket_path (sys.lstat opts.socket_path s) s s' lis cleanup refl
            (rw path at (rw unset at h)),
      )
    ])
    | inr given ↦ inl (
      given,
      listen_host-ok opts.bind_address (sys.split_host opts.bind_address) s s' lis cleanup refl
          (rw given at h),
    )
  ]
