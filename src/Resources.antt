-- ===== src/Resources.antt =====
-- internal/app/resources.go: the connections of a process, and their release. What opens and closes a
-- connection is a parameter.
pub mod Release
use api_example.Prelude.{
  Bool, true, false, Option, none, some, List, [], ◌∷◌, ◌++◌, reverse, if◌then◌else◌,
}
use api_example.Errors.{Error, joined, wrapped, sentinel, canceled, server_closed, is_sentinel}
use api_example.Text.{text}
use api_example.Exec.{Result, ok, err, Exec}
use api_example.Ports.{ObjectStorage}

-- A function that closes a connection.
abbrev pub Closer : Type 0 → Type 0
Closer W = W → Option Error × W

-- `resourceStack`; `is_closed` is its sync.Once.
pub record ResourceStack (W : Type 0) : Type 0 where
  pub closers : List (Closer W)
  pub error : Option Error
  pub is_closed : Bool

-- errors.Join, which drops a nil error.
unfoldable pub join_errors : Option Error → Option Error → Option Error
join_errors none o = o
join_errors (some e) none = some e
join_errors (some e) (some d) = some (joined e d)

-- The connections that `Build` opens, each with the function that closes it, and the storage, which
-- has none.
pub record Connections (W : Type 0) : Type 0 where
  pub open_postgres : Exec W (Closer W)
  pub open_redis : Exec W (Closer W)
  pub open_storage : Exec W (ObjectStorage W)

-- How the select of `RunServer` ends: with the error of ListenAndServe, or, when the context is done,
-- with that of Shutdown.
pub data ServerEnd : Type 0 where
  served : Error → ServerEnd
  shut_down : Option Error → ServerEnd

abbrev server_error : ServerEnd → Option Error
server_error (served e) =
    if is_sentinel e server_closed then none else some (wrapped (text "serve HTTP: ") e [])
server_error (shut_down none) = none
server_error (shut_down (some e)) = some (wrapped (text "shutdown HTTP server: ") e [])

module _ {W : Type 0} where
  abbrev pub empty_stack : ResourceStack W
  empty_stack = record { closers = []; error = none; is_closed = false }

  -- `resourceStack.Add`
  abbrev pub add : Closer W → ResourceStack W → ResourceStack W
  add c s = record s { closers = s.closers ++ c ∷ [] }

  -- The calls of the closers, the first of the list first.
  unfoldable pub close_each : List (Closer W) → Option Error → W → Option Error × W
  unfolding join_errors
  close_each [] e w = (e, w)
  close_each (c ∷ cs) e w = let (d, w') = c w in close_each cs (join_errors e d) w'

  abbrev pub closed : ResourceStack W → Option Error × W → (Option Error × ResourceStack W) × W
  closed s (e, w) = ((e, record s { error = e; is_closed = true }), w)

  -- `resourceStack.Close`: the last connection is closed first.
  unfoldable pub close : ResourceStack W → W → (Option Error × ResourceStack W) × W
  unfolding close_each
  close s w =
      let now = closed s (close_each (reverse s.closers) s.error w) in
      if s.is_closed then ((s.error, s), w) else now

  abbrev release : ResourceStack W → Error → W → Result (ResourceStack W) × W
  release s e w = let ((d, s'), w') = close s w in (err (with_close e d), w')
    where
      with_close : Error → Option Error → Error
      with_close e none = e
      with_close e (some d) = joined e d

  module _ (k : Connections W) where
    abbrev with_storage :
        ResourceStack W → Result (ObjectStorage W) × W → Result (ResourceStack W) × W
    with_storage s (ok storage, w) = (ok s, w)
    with_storage s (err e, w) = release s e w

    abbrev with_redis : ResourceStack W → Result (Closer W) × W → Result (ResourceStack W) × W
    with_redis s (ok c, w) = with_storage (add c s) (k.open_storage w)
    with_redis s (err e, w) = release s e w

    abbrev with_postgres : ResourceStack W → Result (Closer W) × W → Result (ResourceStack W) × W
    with_postgres s (ok c, w) = with_redis (add c s) (k.open_redis w)
    with_postgres s (err e, w) = release s e w

    -- `Build`, with the stack of the runtime; the services that it makes of the connections change no
    -- state.
    unfoldable pub build : W → Result (ResourceStack W) × W
    build w = with_postgres empty_stack (k.open_postgres w)

    -- The end of a process: its connections are closed, and what closing them returns is logged.
    abbrev with_runtime : (W → Option Error × W) → Result (ResourceStack W) × W → Option Error × W
    with_runtime run (err e, w) = (some e, w)
    with_runtime run (ok s, w) = let (e, w') = run w in (e, (close s w').1)

    abbrev unless_canceled : Option Error → Option Error
    unless_canceled none = none
    unless_canceled (some e) = if is_sentinel e canceled then none else some e

    -- `RunWorker`; `work` is the worker's Run.
    unfoldable pub run_worker : (W → Option Error × W) → W → Option Error × W
    run_worker work w =
        with_runtime (λ v. let (e, v') = work v in (unless_canceled e, v')) (build w)

    -- `RunServer`; `serve` says how the server ends.
    unfoldable pub run_server : (W → ServerEnd × W) → W → Option Error × W
    run_server serve w = with_runtime (λ v. let (e, v') = serve v in (server_error e, v')) (build w)
