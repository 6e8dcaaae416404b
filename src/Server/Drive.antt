-- ===== src/Server/Drive.antt =====
-- crates/fr-pyiface/src/server.rs: `try_drive_async`. What Python does may change Python's state, which
-- is passed on.
use hyperfastapi.Prelude.{ℕ, ◌+◌, ◌≡◌, Bool, true, false, arith, if◌then◌else◌}
use hyperfastapi.Value.{Host, Value}

-- The end of a turn of a coroutine.
pub data Sent (h : Host) : Type 0 where
  stop_iteration : Value h → Sent h
  yielded : Sent h
  threw : h.Obj → Sent h

pub data Result (h : Host) : Type 0 where
  ok : Value h → Result h
  err : h.Obj → Result h

-- Python: `handler()`, `coro.send(None)`, `coro.close()` and `_run_coro_blocking(coro)`.
pub record Coroutines (h : Host) : Type 1 where
  pub State : Type 0
  pub call0 : Value h → State → Result h × State
  pub send : Value h → State → Sent h × State
  pub close : Value h → State → State
  pub run_coro_blocking : Value h → State → Result h × State

module _ {h : Host} (py : Coroutines h) where
  open py use {State, call0, send, close, run_coro_blocking}

  abbrev run_new : Result h × State → Result h × State
  run_new (err e, w) = (err e, w)
  run_new (ok new_coro, w) = run_coro_blocking new_coro w

  abbrev pub after_send : Value h → Value h → Sent h × State → Result h × State
  after_send coro handler (stop_iteration v, w) = (ok v, w)
  after_send coro handler (threw e, w) = (err e, w)
  after_send coro handler (yielded, w) = run_new (call0 handler (close coro w))

  unfoldable pub try_drive_async : Value h → Value h → State → Result h × State
  try_drive_async coro handler w = after_send coro handler (send coro w)

  -- The asynchronous branch of `dispatch_trivial`.
  abbrev pub drive_called : Value h → Result h × State → Result h × State
  drive_called handler (err e, w) = (err e, w)
  drive_called handler (ok coro, w) = try_drive_async coro handler w

  unfoldable pub drive_async : Value h → State → Result h × State
  unfolding try_drive_async
  drive_async handler w = drive_called handler (call0 handler w)

-- How often the body of a coroutine function is started: `send` and `_run_coro_blocking` start it,
-- `handler()` and `close` do not.
pub record Counting {h : Host} (py : Coroutines h) : Type 0 where
  pub starts : py.State → ℕ
  pub of_call0 : (f : Value h) (w : py.State) → starts (py.call0 f w).1 ≡ starts w
  pub of_send : (c : Value h) (w : py.State) → starts (py.send c w).1 ≡ starts w + 1
  pub of_close : (c : Value h) (w : py.State) → starts (py.close c w) ≡ starts w
  pub of_run : (c : Value h) (w : py.State) → starts (py.run_coro_blocking c w).1 ≡ starts w + 1

abbrev pub called : {h : Host} → Result h → Bool
called (ok v) = true
called (err e) = false

abbrev pub suspends : {h : Host} → Sent h → Bool
suspends yielded = true
suspends _ = false

module _ {h : Host} (py : Coroutines h) (c : Counting py) where
  -- Where the handler can be called, its body is started once if the coroutine ends on its first turn,
  -- and twice if it awaits.
  pub try_drive_async-starts :
      (coro handler : Value h) (w : py.State)
      → ((v : py.State) → called (py.call0 handler v).0 ≡ true)
      → c.starts (try_drive_async py coro handler w).1
        ≡ c.starts w + (if suspends (py.send coro w).0 then 2 else 1)
  unfolding try_drive_async
  try_drive_async-starts coro handler w callable = go (py.send coro w) (c.of_send coro w)
    where
      again :
          (x : Result h × py.State)
          → called x.0 ≡ true
          → c.starts (run_new py x).1 ≡ c.starts x.1 + 1
      again (ok new_coro, v) e = c.of_run new_coro v
      again (err x, v) e = absurd cc

      go :
          (x : Sent h × py.State)
          → c.starts x.1 ≡ c.starts w + 1
          → c.starts (after_send py coro handler x).1 ≡ c.starts w + (if suspends x.0 then 2 else 1)
      go (stop_iteration v, u) e = e
      go (threw x, u) e = e
      go (yielded, u) e = omega (
        arith,
        again (py.call0 handler (py.close coro u)) (callable (py.close coro u)),
        c.of_call0 handler (py.close coro u),
        c.of_close coro u,
        e,
      )
