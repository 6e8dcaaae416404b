-- ===== src/Websocket/Order.antt =====
-- The order of the frames in both directions.
use hyperfastapi.Prelude.{
  ℕ, ◌≡◌, refl, sym, ap, ◌∙◌, subst, Bool, true, false, Option, none, some, List, [], ◌∷◌, ◌++◌,
  append-nil, append_assoc, All, if◌then◌else◌,
}
use hyperfastapi.Prelude.Text.{Str}
use hyperfastapi.Websocket.Connection.{
  Message, ping, pong, frame, Incoming, ended, failed, message, disconnect, reads_on, OutFrame,
  PyFramePayload, pushes, Connection, or_same, started, read, write, next, send, close_ws, Step,
  reads, takes, sends_text, sends_bytes, closes, writes, hangs_up, releases, returns, Reach, here,
  then_step,
}

-- What the reader pushes for all that the source gave.
unfoldable pub pushed : List Incoming → List PyFramePayload
unfolding pushes
pushed [] = []
pushed (m ∷ ms) = pushes m ++ pushed ms

pub pushed-append :
    (ms : List Incoming) (m : Incoming) → pushed (ms ++ m ∷ []) ≡ pushed ms ++ pushes m
unfolding pushed
pushed-append [] m = append-nil (pushes m)
pushed-append (k ∷ ms) m =
    ap (λ x. pushes k ++ x) (pushed-append ms m)
    ∙ sym (append_assoc (pushes k) (pushed ms) (pushes m))

abbrev pub handed_over : OutFrame → Connection → Connection
handed_over f s = record s { handed = s.handed ++ f ∷ []; outbox = s.outbox ++ f ∷ [] }

pub send_inv :
    (f : OutFrame) (s t : Connection)
    → send f s ≡ some t
    → (s.writing ≡ true) × (handed_over f s ≡ t)
unfolding send
send_inv f s t e = go s.writing refl e
  where
    go :
        (b : Bool)
        → s.writing ≡ b
        → (if b then some (handed_over f s) else none) ≡ some t
        → (s.writing ≡ true) × (handed_over f s ≡ t)
    go true w e = (w, cc)
    go false w e = absurd cc

-- What holds of every way to close holds after `close`.
pub close_ws_elim {ℓ} :
    (Holds : Connection → Type ℓ) (code : ℕ) (reason : Str) (s : Connection)
    → Holds s
    → Holds (record s { closed = true })
    → (s.writing ≡ true
        → s.closed ≡ false
        → Holds (handed_over (OutFrame.close code reason) (record s { closed = true })))
    → Holds (close_ws code reason s)
unfolding close_ws send
close_ws_elim Holds code reason s same only sent = go s.closed refl
  where
    t : Connection
    t = record s { closed = true }

    queued :
        (o : Option Connection)
        → send (OutFrame.close code reason) t ≡ o
        → s.closed ≡ false
        → Holds (or_same t o)
    queued none e c = only
    queued (some u) e c =
        let (w, same_u) = send_inv (OutFrame.close code reason) t u e in
        subst Holds same_u (sent w c)

    go :
        (b : Bool)
        → s.closed ≡ b
        → Holds (if b then s else or_same t (send (OutFrame.close code reason) t))
    go true c = same
    go false c = queued (send (OutFrame.close code reason) t) refl c

-- The handler has received, and has still to receive, what the reader was given, in that order.
abbrev pub Inbound : Connection → Type 0
Inbound s = s.taken ++ s.queue ≡ pushed s.read_log

read-Inbound : (m : Incoming) (s : Connection) → Inbound s → Inbound (read m s)
unfolding read
read-Inbound m s e =
    sym (append_assoc s.taken s.queue (pushes m))
    ∙ ap (λ x. x ++ pushes m) e
    ∙ sym (pushed-append s.read_log m)

next-Inbound :
    (p : PyFramePayload) (rest : List PyFramePayload) (s : Connection)
    → s.queue ≡ p ∷ rest
    → Inbound s
    → Inbound (next p rest s)
unfolding next
next-Inbound p rest s q e = append_assoc s.taken (p ∷ []) rest ∙ ap (λ x. s.taken ++ x) (sym q) ∙ e

Step-Inbound : {s t : Connection} → Step s t → Inbound s → Inbound t
unfolding write
Step-Inbound {s = s} (reads m on) e = read-Inbound m s e
Step-Inbound {s = s} (takes p rest q) e = next-Inbound p rest s q e
Step-Inbound {s = s} {t = t} (sends_text d a c x) e =
    subst Inbound (send_inv (OutFrame.text d) s t x).1 e
Step-Inbound {s = s} {t = t} (sends_bytes d a c x) e =
    subst Inbound (send_inv (OutFrame.binary d) s t x).1 e
Step-Inbound {s = s} (closes code reason a) e = close_ws_elim Inbound code reason s e e (λ w c. e)
Step-Inbound {s = s} (writes ok f rest on q) e = e
Step-Inbound (hangs_up on q o p) e = e
Step-Inbound releases e = e
Step-Inbound (returns a b) e = e

-- What every step keeps holds in every state that is reached.
pub Reach-keeps {ℓ} :
    (Holds : Connection → Type ℓ) {s t : Connection}
    → ((u v : Connection) → Step u v → Holds u → Holds v)
    → Holds s
    → Reach s t
    → Holds t
Reach-keeps Holds keeps p here = p
Reach-keeps Holds keeps p (then_step r x) = keeps _ _ x (Reach-keeps Holds keeps p r)

-- What the handler received and has still to receive is what the reader pushed.
pub Reach-pushed : {s : Connection} → Reach started s → s.taken ++ s.queue ≡ pushed s.read_log
unfolding started pushed
Reach-pushed r = Reach-keeps Inbound (λ u v x p. Step-Inbound x p) refl r

-- The texts and the bytes that a peer has sent, in order, as the handler is to see them.
unfoldable pub carried : List Incoming → List PyFramePayload
carried [] = []
carried (message (Message.text t) ∷ ms) = PyFramePayload.text t ∷ carried ms
carried (message (Message.binary b) ∷ ms) = PyFramePayload.binary b ∷ carried ms
carried (message (Message.close c) ∷ ms) = carried ms
carried (message (ping _) ∷ ms) = carried ms
carried (message (pong _) ∷ ms) = carried ms
carried (message (frame _) ∷ ms) = carried ms
carried (ended ∷ ms) = carried ms
carried (failed ∷ ms) = carried ms

carried-append : (ms more : List Incoming) → carried (ms ++ more) ≡ carried ms ++ carried more
unfolding carried
carried-append [] more = refl
carried-append (message (Message.text t) ∷ ms) more =
    ap (λ x. PyFramePayload.text t ∷ x) (carried-append ms more)
carried-append (message (Message.binary b) ∷ ms) more =
    ap (λ x. PyFramePayload.binary b ∷ x) (carried-append ms more)
carried-append (message (Message.close c) ∷ ms) more = carried-append ms more
carried-append (message (ping _) ∷ ms) more = carried-append ms more
carried-append (message (pong _) ∷ ms) more = carried-append ms more
carried-append (message (frame _) ∷ ms) more = carried-append ms more
carried-append (ended ∷ ms) more = carried-append ms more
carried-append (failed ∷ ms) more = carried-append ms more

-- `all` is what the peer has sent, then nothing but disconnects, of which there are none as long as the
-- reader goes on.
pub record Told (log : List Incoming) (reading : Bool) (all : List PyFramePayload) : Type 0 where
  pub told : List PyFramePayload
  pub split : all ≡ carried log ++ told
  pub farewell : All (λ p. p ≡ disconnect) told
  pub none_yet : reading ≡ true → told ≡ []

pushes-Told : (m : Incoming) → Told (m ∷ []) (reads_on m) (pushes m)
unfolding pushes reads_on carried
pushes-Told ended = record {
  told = disconnect ∷ [];
  split = refl;
  farewell = (refl, tt);
  none_yet = λ e. cc;
}
pushes-Told failed = record {
  told = disconnect ∷ [];
  split = refl;
  farewell = (refl, tt);
  none_yet = λ e. cc;
}
pushes-Told (message (Message.text t)) = record {
  told = [];
  split = refl;
  farewell = tt;
  none_yet = λ e. refl;
}
pushes-Told (message (Message.binary b)) = record {
  told = [];
  split = refl;
  farewell = tt;
  none_yet = λ e. refl;
}
pushes-Told (message (Message.close c)) = record {
  told = disconnect ∷ disconnect ∷ [];
  split = refl;
  farewell = (refl, (refl, tt));
  none_yet = λ e. cc;
}
pushes-Told (message (ping _)) = record {
  told = [];
  split = refl;
  farewell = tt;
  none_yet = λ e. refl;
}
pushes-Told (message (pong _)) = record {
  told = [];
  split = refl;
  farewell = tt;
  none_yet = λ e. refl;
}
pushes-Told (message (frame _)) = record {
  told = [];
  split = refl;
  farewell = tt;
  none_yet = λ e. refl;
}

abbrev ToldSo : Connection → Type 0
ToldSo s = Told s.read_log s.reading (pushed s.read_log)

read-ToldSo : (m : Incoming) (s : Connection) → s.reading ≡ true → ToldSo s → ToldSo (read m s)
unfolding read
read-ToldSo m s on t =
    let now = pushes-Told m in
    record {
      told = now.told;
      split =
          pushed-append s.read_log m
          ∙ ap (λ x. x ++ pushes m) (t.split ∙ ap (λ x. carried s.read_log ++ x) (t.none_yet on))
          ∙ ap (λ x. x ++ pushes m) (append-nil (carried s.read_log))
          ∙ ap (λ x. carried s.read_log ++ x) now.split
          ∙ sym (append_assoc (carried s.read_log) (carried (m ∷ [])) now.told)
          ∙ ap (λ x. x ++ now.told) (sym (carried-append s.read_log (m ∷ [])));
      farewell = now.farewell;
      none_yet = now.none_yet;
    }

Step-ToldSo : {s t : Connection} → Step s t → ToldSo s → ToldSo t
unfolding write next
Step-ToldSo {s = s} (reads m on) e = read-ToldSo m s on e
Step-ToldSo (takes p rest q) e = e
Step-ToldSo {s = s} {t = t} (sends_text d a c x) e =
    subst ToldSo (send_inv (OutFrame.text d) s t x).1 e
Step-ToldSo {s = s} {t = t} (sends_bytes d a c x) e =
    subst ToldSo (send_inv (OutFrame.binary d) s t x).1 e
Step-ToldSo {s = s} (closes code reason a) e = close_ws_elim ToldSo code reason s e e (λ w c. e)
Step-ToldSo (writes ok f rest on q) e = e
Step-ToldSo (hangs_up on q o p) e = e
Step-ToldSo releases e = e
Step-ToldSo (returns a b) e = e

-- In every order of the steps of the reader, the writer and the handler, what the handler has received,
-- followed by what is queued for it, is every text and every binary message that the peer was read to
-- send, each once and in order, and after them nothing but disconnects, of which there are none as long
-- as the reader goes on. A push to the handler's queue does not fail.
pub Reach-Inbound :
    {s : Connection} → Reach started s → Told s.read_log s.reading (s.taken ++ s.queue)
unfolding started pushed carried
Reach-Inbound {s = s} r = subst (Told s.read_log s.reading) (sym (Reach-pushed r)) (
    Reach-keeps ToldSo (λ u v x p. Step-ToldSo x p)
      (record { told = []; split = refl; farewell = tt; none_yet = λ e. refl }) r)
