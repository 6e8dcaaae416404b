-- ===== src/Server/Net/Requests.antt =====
-- One HTTP/3 request on its connection.
use hyperfastapi.Prelude.{
  ℕ, ◌≡◌, refl, sym, ap, ◌∙◌, Bool, true, false, append-nil, append_assoc, ◌++◌, ◌==◌, ==_iff,
  Option, some, List, [], ◌∷◌, get_elem?, modify, get_elem?-modify_self, get_elem?-modify_ne,
  get_elem?-append_left, get_elem?-append_length, length, Bool-cases, inl, inr,
}
use hyperfastapi.Dispatch.Fast.{Response}
use hyperfastapi.Server.Native.{HttpRequest}
use hyperfastapi.Prelude.Text.{Str}
use hyperfastapi.Server.Tasks.{
  Received, chunk, finished, failed, RequestTask, resolving, draining, answered, RequestEvent,
  resolved, unresolved, received, QuicPhase, connecting, establishing, accepting, left,
  QuicConnection, QuicEvent, connected, refused, accepted, no_more, accept_failed, progress,
  request_step, quic_step,
}

abbrev pub keep_own {ℓ} : {A : Type ℓ} → Bool → A → List A → List A
keep_own true a old = a ∷ old
keep_own false a old = old

-- The events of one request.
unfoldable pub own_request : ℕ → List QuicEvent → List RequestEvent
own_request k [] = []
own_request k (progress i e ∷ es) = keep_own (i == k) e (own_request k es)
own_request k (connected ∷ es) = own_request k es
own_request k (refused ∷ es) = own_request k es
own_request k (accepted ∷ es) = own_request k es
own_request k (no_more ∷ es) = own_request k es
own_request k (accept_failed ∷ es) = own_request k es

-- All bytes of a body that arrives in pieces.
unfoldable pub whole : List Str → Str
whole [] = []
whole (buf ∷ bufs) = buf ++ whole bufs

-- The pieces arrive one by one, then the end or a failure, then whatever else.
unfoldable pub arrives : List Str → Received → List RequestEvent → List RequestEvent
arrives [] last es = received last ∷ es
arrives (buf ∷ bufs) last es = received (chunk buf) ∷ arrives bufs last es

abbrev pub Ends : Received → Type 0
Ends (chunk buf) = ⊥
Ends finished = Unit
Ends failed = Unit

-- A request with another body.
abbrev pub carrying : HttpRequest → Str → HttpRequest
carrying req body = record req { body = some body }

module _ (answer : HttpRequest → Option Response) where
  abbrev pub request_alone : RequestTask → List RequestEvent → RequestTask
  request_alone t [] = t
  request_alone t (e ∷ es) = request_alone (request_step answer e t) es

  answered_stays :
      (a : Option Response) (es : List RequestEvent) → request_alone (answered a) es ≡ answered a
  unfolding request_step
  answered_stays a [] = refl
  answered_stays a (resolved _ ∷ es) = answered_stays a es
  answered_stays a (unresolved ∷ es) = answered_stays a es
  answered_stays a (received (chunk _) ∷ es) = answered_stays a es
  answered_stays a (received finished ∷ es) = answered_stays a es
  answered_stays a (received failed ∷ es) = answered_stays a es

  drained :
      (req_head : HttpRequest) (body : Str) (bufs : List Str) (last : Received)
      (es : List RequestEvent)
      → Ends last
      → request_alone (draining req_head body) (arrives bufs last es)
        ≡ answered (answer (carrying req_head (body ++ whole bufs)))
  unfolding request_step whole arrives
  drained req_head body [] finished es over =
      answered_stays _ es
      ∙ ap (λ b. answered (answer (carrying req_head b))) (sym (append-nil body))
  drained req_head body [] failed es over =
      answered_stays _ es
      ∙ ap (λ b. answered (answer (carrying req_head b))) (sym (append-nil body))
  drained req_head body [] (chunk _) es over = absurd over
  drained req_head body (buf ∷ bufs) last es over =
      drained req_head (body ++ buf) bufs last es over
      ∙ ap (λ b. answered (answer (carrying req_head b))) (append_assoc body buf (whole bufs))

  pub request_alone-arrives :
      (req_head : HttpRequest) (bufs : List Str) (last : Received) (es : List RequestEvent)
      → Ends last
      → request_alone resolving (resolved req_head ∷ arrives bufs last es)
        ≡ answered (answer (carrying req_head (whole bufs)))
  unfolding request_step
  request_alone-arrives req_head bufs last es over = drained req_head [] bufs last es over

  abbrev pub quic_alone : QuicConnection → List QuicEvent → QuicConnection
  quic_alone c [] = c
  quic_alone c (e ∷ es) = quic_alone (quic_step answer e c) es

  -- One event, and one request that is there.
  abbrev Steps : QuicConnection → QuicEvent → ℕ → RequestTask → Type 0
  Steps c e k t =
      (t' : RequestTask) × (get_elem? (quic_step answer e c).tasks k ≡ some t')
      × ((es : List QuicEvent)
          → request_alone t' (own_request k es) ≡ request_alone t (own_request k (e ∷ es)))

  modify-Steps :
      (ts : List RequestTask) (i k : ℕ) (e : RequestEvent) (t : RequestTask)
      → get_elem? ts k ≡ some t
      → (t' : RequestTask) × (get_elem? (modify i (request_step answer e) ts) k ≡ some t')
        × ((es : List RequestEvent)
            → request_alone t' es ≡ request_alone t (keep_own (i == k) e es))
  modify-Steps ts i k e t there = elim (Bool-cases (i == k)) [
    | inl same ↦ (
      request_step answer e t,
      rw ((==_iff i k).0 same) (get_elem?-modify_self k (request_step answer e) ts t there),
      λ es. rw same refl,
    )
    | inr other ↦
        (t, get_elem?-modify_ne k i (request_step answer e) ts other ∙ there, λ es. rw other refl)
  ]

  quic-Steps :
      (phase : QuicPhase) (ts : List RequestTask) (e : QuicEvent) (k : ℕ) (t : RequestTask)
      → get_elem? ts k ≡ some t
      → Steps (record { phase = phase; tasks = ts }) e k t
  unfolding quic_step own_request
  quic-Steps connecting ts (progress i e) k t there =
      let (t', at, same) = modify-Steps ts i k e t there in (t', at, λ es. same (own_request k es))
  quic-Steps establishing ts (progress i e) k t there =
      let (t', at, same) = modify-Steps ts i k e t there in (t', at, λ es. same (own_request k es))
  quic-Steps accepting ts (progress i e) k t there =
      let (t', at, same) = modify-Steps ts i k e t there in (t', at, λ es. same (own_request k es))
  quic-Steps left ts (progress i e) k t there =
      let (t', at, same) = modify-Steps ts i k e t there in (t', at, λ es. same (own_request k es))
  quic-Steps accepting ts accepted k t there =
      (t, get_elem?-append_left k ts (resolving ∷ []) t there, λ es. refl)
  quic-Steps _ ts _ k t there = (t, there, λ es. refl)

  pub quic_alone-task :
      (es : List QuicEvent) (c : QuicConnection) (k : ℕ) (t : RequestTask)
      → get_elem? c.tasks k ≡ some t
      → get_elem? (quic_alone c es).tasks k ≡ some (request_alone t (own_request k es))
  unfolding own_request
  quic_alone-task [] c k t there = there
  quic_alone-task (e ∷ es) c k t there =
      let (t', at, same) = quic-Steps c.phase c.tasks e k t there in
      quic_alone-task es (quic_step answer e c) k t' at ∙ ap some (same es)

  pub accepted_task :
      (c : QuicConnection)
      → c.phase ≡ accepting
      → get_elem? (quic_step answer accepted c).tasks (length c.tasks) ≡ some resolving
  unfolding quic_step
  accepted_task c e = rw e (get_elem?-append_length c.tasks resolving)
