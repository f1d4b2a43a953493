-- ===== src/Server/Limit.antt =====
-- `unaryLimit` of `Run` in pkg/server/server.go, the interceptor that bounds how many unary RPCs are
-- handled at once: the channel `sem` as the number of its elements, and the RPCs whose handlers run.
use openshell_drivers_contri.Prelude.{
  ℕ, zero, suc, ◌≡◌, Option, none, some, List, [], ◌∷◌, ◌++◌, ltb, if◌then◌else◌,
}
use openshell_drivers_contri.Prelude.Int.{pos_part}
use openshell_drivers_contri.Server.Options.{Options, with_defaults}

pub record Limiter : Type 0 where
  pub sem : ℕ
  pub handling : List ℕ

unfoldable pub idle : Limiter
idle = record { sem = 0; handling = [] }

-- make(chan struct{}, opts.MaxConcurrentRPCs)
unfoldable pub capacity : Options → ℕ
unfolding with_defaults
capacity opts = pos_part (with_defaults opts).max_concurrent_rpcs

-- The send to `sem` in a select with a default: none where the RPC fails with ResourceExhausted.
unfoldable pub arrive : Options → ℕ → Limiter → Option Limiter
unfolding capacity
arrive opts rpc l =
    if ltb l.sem (capacity opts)
    then some (record { sem = suc l.sem; handling = rpc ∷ l.handling })
    else none

abbrev pub taken : ℕ → List ℕ → Option Limiter
taken zero rest = none
taken (suc n) rest = some (record { sem = n; handling = rest })

-- The deferred receive from `sem` of a handler that has returned or panicked, with the handlers that
-- still run: none where the receive blocks.
unfoldable pub finish : List ℕ → Limiter → Option Limiter
finish rest l = taken l.sem rest

-- One step of the server: an RPC arrives and is admitted or refused, or one of the handlers ends.
pub data Step (opts : Options) : Limiter → Limiter → Type 0 where
  admitted : {l l' : Limiter} (rpc : ℕ) → arrive opts rpc l ≡ some l' → Step opts l l'
  refused : {l : Limiter} (rpc : ℕ) → arrive opts rpc l ≡ none → Step opts l l
  ended :
      {l l' : Limiter} (before : List ℕ) (rpc : ℕ) (after : List ℕ)
      → l.handling ≡ before ++ rpc ∷ after
      → finish (before ++ after) l ≡ some l'
      → Step opts l l'

-- What a server that starts idle can come to.
pub data Reachable (opts : Options) : Limiter → Type 0 where
  started : Reachable opts idle
  later : {l l' : Limiter} → Reachable opts l → Step opts l l' → Reachable opts l'
