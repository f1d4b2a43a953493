-- ===== src/Server/Listen.antt =====
-- `listen` of pkg/server/server.go, over the calls of Go's net and os packages that it makes: on a
-- loopback TCP address in development, else on a Unix socket.
use openshell_drivers_contri.Prelude.{
  String, Bool, not, ◌&&◌, Option, none, some, ◌==◌, if◌then◌else◌,
}
use openshell_drivers_contri.Prelude.Result.{Result, ok, err}
use openshell_drivers_contri.Server.Options.{Options}

-- What os.Lstat finds.
pub data FileInfo : Type 0 where
  not_there socket other_file : FileInfo
  unknown : String → FileInfo

pub data ListenError : Type 0 where
  bad_address not_removed not_inspected not_opened no_permissions : String → ListenError
  not_loopback not_a_socket : ListenError
  socket_path_required : ListenError

-- The calls, which change a state S of the machine; `is_loopback` is that net.ParseIP reads an address
-- and IsLoopback holds of it. An option is an error, with its text.
pub record System (S L : Type 0) : Type 0 where
  pub split_host : String → Result String String
  pub is_loopback : String → Bool
  pub listen_tcp : String → S → Result String L × S
  pub lstat : String → S → FileInfo
  pub remove : String → S → Option String × S
  pub listen_unix : String → S → Result String L × S
  pub chmod_600 : String → S → Option String × S
  pub close : L → S → S

module _ {S L : Type 0} (sys : System S L) where
  -- What the caller runs when the server has stopped.
  unfoldable pub close_only : L → S → S
  close_only lis s = sys.close lis s

  unfoldable pub close_and_remove : String → L → S → S
  close_and_remove path lis s = (sys.remove path (sys.close lis s)).1

  abbrev pub Listening : Type 0
  Listening = Result ListenError (L × (S → S)) × S

  unfoldable pub opened_tcp : Result String L × S → Listening
  unfolding close_only
  opened_tcp (ok lis, s) = (ok (lis, close_only lis), s)
  opened_tcp (err e, s) = (err (not_opened e), s)

  unfoldable pub listen_host : String → Result String String → S → Listening
  unfolding opened_tcp
  listen_host address (err e) s = (err (bad_address e), s)
  listen_host address (ok host) s =
      if not (host == "localhost") && not (sys.is_loopback host)
      then (err not_loopback, s)
      else opened_tcp (sys.listen_tcp address s)

  -- os.Chmod of the new socket, which is closed and removed again if that fails.
  unfoldable pub permitted : String → L → Option String × S → Listening
  unfolding close_and_remove
  permitted path lis (none, s) = (ok (lis, close_and_remove path lis), s)
  permitted path lis (some e, s) = (err (no_permissions e), close_and_remove path lis s)

  unfoldable pub opened_unix : String → Result String L × S → Listening
  unfolding permitted
  opened_unix path (ok lis, s) = permitted path lis (sys.chmod_600 path s)
  opened_unix path (err e, s) = (err (not_opened e), s)

  unfoldable pub after_remove : String → Option String × S → Listening
  unfolding opened_unix
  after_remove path (none, s) = opened_unix path (sys.listen_unix path s)
  after_remove path (some e, s) = (err (not_removed e), s)

  unfoldable pub listen_path : String → FileInfo → S → Listening
  unfolding after_remove opened_unix
  listen_path path not_there s = opened_unix path (sys.listen_unix path s)
  listen_path path socket s = after_remove path (sys.remove path s)
  listen_path path other_file s = (err not_a_socket, s)
  listen_path path (unknown e) s = (err (not_inspected e), s)

  unfoldable pub listen : Options → S → Listening
  unfolding listen_host listen_path
  listen opts s =
      if not (opts.bind_address == "")
      then listen_host opts.bind_address (sys.split_host opts.bind_address) s
      else if opts.socket_path == ""
      then (err socket_path_required, s)
      else listen_path opts.socket_path (sys.lstat opts.socket_path s) s
