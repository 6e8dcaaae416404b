-- ===== src/Websocket/Ending.antt =====
-- How a connection ends, and when it does not.
use hyperfastapi.Prelude.{
  ℕ, suc, ◌≤◌, length, ◌≡◌, refl, ap, ◌∙◌, subst, Bool, true, false, ◌||◌, not, List, [], ◌∷◌, ◌++◌,
  any, arith,
}
use hyperfastapi.Websocket.Connection.{
  Message, Incoming, OutFrame, PyFramePayload, pushes, reads_on, writes_on, disconnects, Connection,
  started, read, write, next, Step, reads, takes, sends_text, sends_bytes, closes, writes, hangs_up,
  releases, returns, Reach, ended, failed, message, ping, pong, frame,
}
use hyperfastapi.Websocket.Order.{
  pushed, pushed-append, send_inv, close_ws_elim, Reach-keeps, Reach-pushed,
}

any-append :
    (test : PyFramePayload → Bool) (xs ys : List PyFramePayload)
    → any test (xs ++ ys) ≡ any test xs || any test ys
any-append test [] ys = refl
any-append test (x ∷ xs) ys = ground (arith, any-append test xs ys)

-- A reader's turn pushes a disconnect just when it is the last.
pushes-reads_on : (m : Incoming) → any disconnects (pushes m) ≡ not (reads_on m)
unfolding pushes reads_on
pushes-reads_on ended = refl
pushes-reads_on failed = refl
pushes-reads_on (message (Message.text t)) = refl
pushes-reads_on (message (Message.binary b)) = refl
pushes-reads_on (message (Message.close c)) = refl
pushes-reads_on (message (ping _)) = refl
pushes-reads_on (message (pong _)) = refl
pushes-reads_on (message (frame _)) = refl

-- A disconnect was pushed just when the reader has ended.
abbrev Announced : Connection → Type 0
Announced s = any disconnects (pushed s.read_log) ≡ not s.reading

read-Announced :
    (m : Incoming) (s : Connection) → s.reading ≡ true → Announced s → Announced (read m s)
unfolding read
read-Announced m s on e =
    ap (any disconnects) (pushed-append s.read_log m)
    ∙ any-append disconnects (pushed s.read_log) (pushes m)
    ∙ ground (arith, e, on, pushes-reads_on m)

Step-Announced : {s t : Connection} → Step s t → Announced s → Announced t
unfolding next write
Step-Announced {s = s} (reads m on) e = read-Announced m s on e
Step-Announced (takes p rest q) e = e
Step-Announced {s = s} {t = t} (sends_text d a c x) e =
    subst Announced (send_inv (OutFrame.text d) s t x).1 e
Step-Announced {s = s} {t = t} (sends_bytes d a c x) e =
    subst Announced (send_inv (OutFrame.binary d) s t x).1 e
Step-Announced {s = s} (closes code reason a) e =
    close_ws_elim Announced code reason s e e (λ w c. e)
Step-Announced (writes ok f rest on q) e = e
Step-Announced (hangs_up on q a b) e = e
Step-Announced releases e = e
Step-Announced (returns a b) e = e

-- In every state that is reached, a disconnect was received by the handler or waits in its queue just
-- when the reader has ended: the handler is never left waiting, and never told too early.
pub Reach-Announced :
    {s : Connection} → Reach started s → any disconnects (s.taken ++ s.queue) ≡ not s.reading
unfolding started pushed
Reach-Announced r =
    ap (any disconnects) (Reach-pushed r)
    ∙ Reach-keeps Announced (λ u v x p. Step-Announced x p) refl r

-- While the writer runs, `drive_websocket` has its own sender.
abbrev Held : Connection → Type 0
Held s = s.writing ≡ true → s.own_sender ≡ true

Step-Held : {s t : Connection} → Step s t → Held s → Held t
unfolding read next write
Step-Held (reads m on) e = e
Step-Held (takes p rest q) e = e
Step-Held {s = s} {t = t} (sends_text d a c x) e = subst Held (send_inv (OutFrame.text d) s t x).1 e
Step-Held {s = s} {t = t} (sends_bytes d a c x) e =
    subst Held (send_inv (OutFrame.binary d) s t x).1 e
Step-Held {s = s} (closes code reason a) e = close_ws_elim Held code reason s e e (λ w c. e)
Step-Held (writes ok f rest on q) e = λ w. e on
Step-Held (hangs_up on q a b) e = λ w. absurd cc
Step-Held releases e = e
Step-Held (returns a b) e = λ w. absurd cc

-- The handler's side is closed, the writer waits on an empty outbox.
abbrev Stuck : Connection → Type 0
Stuck s = (s.closed ≡ true) × (s.writing ≡ true) × (s.outbox ≡ []) × (s.own_sender ≡ true)

Step-Stuck : {s t : Connection} → Step s t → Stuck s → Stuck t
unfolding read next write
Step-Stuck (reads m on) k = k
Step-Stuck (takes p rest q) (c, w, o, own) = (ground (arith, c), w, o, own)
Step-Stuck (sends_text d a open_ x) (c, w, o, own) = absurd cc
Step-Stuck (sends_bytes d a open_ x) (c, w, o, own) = absurd cc
Step-Stuck {s = s} (closes code reason a) (c, w, o, own) =
    close_ws_elim Stuck code reason s (c, w, o, own) (refl, w, o, own) (λ _ open_. absurd cc)
Step-Stuck (writes ok f rest on q) (c, w, o, own) = absurd cc
Step-Stuck (hangs_up on q a b) (c, w, o, own) = absurd cc
Step-Stuck releases k = k
Step-Stuck (returns a b) (c, w, o, own) = absurd cc

-- When the handler's side is closed, by a disconnect that it received or by itself, and the outbox is
-- empty while the writer still runs, then whatever the peer and the handler do, the writer runs on and
-- `drive_websocket` keeps its own sender, so it does not return.
pub Reach-Stuck :
    {s t : Connection}
    → Reach started s
    → s.closed ≡ true
    → s.outbox ≡ []
    → s.writing ≡ true
    → Reach s t
    → (t.writing ≡ true) × (t.own_sender ≡ true)
unfolding started
Reach-Stuck r c o w more =
    let (_, runs, _, own) =
      Reach-keeps Stuck (λ u v x p. Step-Stuck x p)
        (c, w, o, Reach-keeps Held (λ u v x p. Step-Held x p) (λ e. refl) r w) more in
    (runs, own)

-- A Close frame waits.
abbrev is_close : OutFrame → Bool
is_close (OutFrame.text d) = false
is_close (OutFrame.binary d) = false
is_close (OutFrame.close code reason) = true

abbrev pub close_queued : List OutFrame → Bool
close_queued = any is_close

-- A number of turns of the writer alone; `accepts` says which frames can be sent.
pub data Writes (accepts : OutFrame → Bool) : ℕ → Connection → Connection → Type 0 where
  done : {s : Connection} → Writes accepts 0 s s
  turn :
      {n : ℕ} {s t : Connection} {f : OutFrame} {rest : List OutFrame}
      → s.writing ≡ true
      → s.outbox ≡ f ∷ rest
      → Writes accepts n (write (accepts f) f rest s) t
      → Writes accepts (suc n) s t

-- With a Close frame in the outbox the writer ends, whichever frames can be sent, after at most as many
-- turns as there are frames.
pub writer-ends :
    (accepts : OutFrame → Bool) (s : Connection)
    → s.writing ≡ true
    → close_queued s.outbox ≡ true
    → (n : ℕ) × (t : Connection) × Writes accepts n s t
      × (n ≤ length s.outbox)
      × (t.writing ≡ false)
unfolding write writes_on
writer-ends accepts s on queued = go s.outbox s refl on queued
  where
    after :
        (f : OutFrame) (rest : List OutFrame) (s : Connection) (b : Bool)
        → writes_on f (accepts f) ≡ b
        → s.writing ≡ true
        → s.outbox ≡ f ∷ rest
        → (b ≡ true → close_queued rest ≡ true)
        → ((u : Connection)
            → u.outbox ≡ rest
            → u.writing ≡ true
            → close_queued rest ≡ true
            → (n : ℕ) × (t : Connection) × Writes accepts n u t
              × (n ≤ length rest)
              × (t.writing ≡ false))
        → (n : ℕ) × (t : Connection) × Writes accepts n s t
          × (n ≤ suc (length rest))
          × (t.writing ≡ false)
    after f rest s false e on q later ih =
        (1, write (accepts f) f rest s, turn on q done, omega arith, e)
    after f rest s true e on q later ih =
        let (n, t, w, bound, off) = ih (write (accepts f) f rest s) refl e (later refl) in
        (suc n, t, turn on q w, omega (arith, bound), off)

    later :
        (f : OutFrame) (rest : List OutFrame)
        → close_queued (f ∷ rest) ≡ true
        → writes_on f (accepts f) ≡ true
        → close_queued rest ≡ true
    later (OutFrame.text d) rest c e = c
    later (OutFrame.binary d) rest c e = c
    later (OutFrame.close code reason) rest c e = absurd cc

    go :
        (fs : List OutFrame) (s : Connection)
        → s.outbox ≡ fs
        → s.writing ≡ true
        → close_queued fs ≡ true
        → (n : ℕ) × (t : Connection) × Writes accepts n s t × (n ≤ length fs) × (t.writing ≡ false)
    go [] s q on c = absurd cc
    go (f ∷ rest) s q on c =
        after f rest s (writes_on f (accepts f)) refl on q (later f rest c)
          (λ u q' on' c'. go rest u q' on' c')
