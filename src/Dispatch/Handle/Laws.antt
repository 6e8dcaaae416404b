-- ===== src/Dispatch/Handle/Laws.antt =====
-- Which dependencies are resolved, what the handler is called with, and what is cleaned up after it.
use hyperfastapi.Prelude.{
  ◌≡◌, refl, sym, subst, Bool, true, false, Option, none, some, List, [], ◌∷◌, Memᴰ, if-cases,
  unwrap_or, ℕ, All, All-map, ◌⊎◌, inl, inr,
}
use hyperfastapi.Prelude.Text.{Str}
use hyperfastapi.Value.{Host, Value, Kwargs, set_item}
use hyperfastapi.Value.Dicts.{has, has-set_item, All-set_item}
use hyperfastapi.Json.{Formats}
use hyperfastapi.Route.{Route, Plan}
use hyperfastapi.App.{FastApi}
use hyperfastapi.Params.Extract.{Request}
use hyperfastapi.Dispatch.Fast.{Runtime, Response, Answer}
use hyperfastapi.Dispatch.Respond.{Rendering, effective_class}
use hyperfastapi.Dispatch.Respond.Laws.{Bodied, failed, respond-Bodied}
use hyperfastapi.Dispatch.Handle.{
  Called, returned, threw, DependencyError, Framework, Event, resolving, calling, draining, Run,
  needs_deps, merge, resolver_plan, error_answer, dependency_error, after_call, call_handler,
  after_resolve, resolved, handle,
}

-- Every argument is still there.
abbrev pub Keeps : {h : Host} → Kwargs h → Kwargs h → Type 0
Keeps kwargs kw = (n : Str) → has n kwargs ≡ true → has n kw ≡ true

pub merge-Keeps : {h : Host} (dep_kwargs kwargs : Kwargs h) → Keeps kwargs (merge dep_kwargs kwargs)
unfolding merge
merge-Keeps [] kwargs n e = e
merge-Keeps ((k, v) ∷ dep_kwargs) kwargs n e =
    merge-Keeps dep_kwargs (set_item k v kwargs) n (has-set_item k n v kwargs e)

module _ {h : Host} (fw : Framework h) (overrides : Value h) where
  -- What the handler is called with: the arguments, or with the resolver's put over them.
  pub data Given (kwargs : Kwargs h) : Kwargs h → Type 0 where
    alone : Given kwargs kwargs
    with_resolved :
        {plan : Plan h} {req : Request h} {body : Str} {dep_kwargs : Kwargs h}
        → fw.resolve overrides plan req body ≡ some (dep_kwargs, none)
        → Given kwargs (merge dep_kwargs kwargs)

  -- An argument that the resolver gives.
  pub data IsResolved (arg : Str × Value h) : Type 0 where
    resolved_by :
        {plan : Plan h} {req : Request h} {body : Str} {dep_kwargs : Kwargs h}
        → fw.resolve overrides plan req body ≡ some (dep_kwargs, none)
        → Memᴰ arg dep_kwargs
        → IsResolved arg

  pub Given-Keeps : (kwargs kw : Kwargs h) → Given kwargs kw → Keeps kwargs kw
  Given-Keeps kwargs _ alone = λ n e. e
  Given-Keeps kwargs _ (with_resolved {dep_kwargs = dep_kwargs} e) = merge-Keeps dep_kwargs kwargs

  merge-All :
      (P : Str × Value h → Type 0) (dep_kwargs kwargs : Kwargs h)
      → ((k : Str) (v : Value h) → Memᴰ (k, v) dep_kwargs → P (k, v))
      → All P kwargs
      → All P (merge dep_kwargs kwargs)
  unfolding merge
  merge-All P [] kwargs f q = q
  merge-All P ((k, v) ∷ dep_kwargs) kwargs f q =
      merge-All P dep_kwargs (set_item k v kwargs) (λ j w mem. f j w (Memᴰ.tail mem))
        (All-set_item P k v kwargs (f k v (Memᴰ.head refl)) q)

  pub Given-All :
      (P : Str × Value h → Type 0) (kwargs kw : Kwargs h)
      → Given kwargs kw
      → All P kwargs
      → All (λ arg. P arg ⊎ IsResolved arg) kw
  Given-All P kwargs _ alone q = All-map (λ arg. inl) kwargs q
  Given-All P kwargs _ (with_resolved {dep_kwargs = dep_kwargs} e) q =
      merge-All (λ arg. P arg ⊎ IsResolved arg) dep_kwargs kwargs
        (λ k v mem. inr (resolved_by e mem)) (All-map (λ arg. inl) kwargs q)

-- An exception, or a response of a status.
abbrev pub HasStatus : {h : Host} → ℕ → Answer h → Type 0
HasStatus {h = h} status a =
    (a ≡ Answer.raised) ⊎ ((resp : Response) × (a ≡ Answer.response resp) × (resp.status ≡ status))

-- A call of the handler: right after it the `yield` dependencies are cleaned up, with the handler's
-- exception if it threw one; and the answer is an exception if it threw one, and else obeys the rule on
-- bodies.
pub data CalledWith {h : Host} (fw : Framework h) (handler : Value h) (is_head : Bool)
    (kw : Kwargs h) : List (Event h) → Answer h → Type 0 where
  answered :
      {v : Value h} {a : Answer h}
      → fw.call handler kw ≡ returned v
      → Bodied is_head a
      → CalledWith fw handler is_head kw (calling handler kw ∷ draining none ∷ []) a
  rethrown :
      {e : h.Obj}
      → fw.call handler kw ≡ threw e
      → CalledWith fw handler is_head kw (calling handler kw ∷ draining (some e) ∷ []) Answer.raised

-- The traces that the handler's stage leaves, each with its answers. Without dependencies the handler
-- is called with its arguments. With them, the plan for the resolver may fail to be made, an exception;
-- and else the resolver is asked just once and first. It may raise, an exception; it may report an
-- error, which is answered with the error's status or 500; or it gives further arguments, which the
-- handler gets beside its own. In no other case is the handler called.
pub data Handled {h : Host} (fw : Framework h) (app : FastApi h) (r : Route h) (is_head : Bool)
    (req : Request h) (body : Str) (kwargs : Kwargs h) : List (Event h) → Answer h → Type 0 where
  called :
      {es : List (Event h)} {a : Answer h}
      → needs_deps app r ≡ false
      → CalledWith fw r.handler is_head kwargs es a
      → Handled fw app r is_head req body kwargs es a
  unplanned :
      needs_deps app r ≡ true
      → resolver_plan fw app r ≡ none
      → Handled fw app r is_head req body kwargs [] Answer.raised
  unresolved :
      {plan : Plan h}
      → needs_deps app r ≡ true
      → resolver_plan fw app r ≡ some plan
      → fw.resolve app.dependency_overrides plan req body ≡ none
      → Handled fw app r is_head req body kwargs (resolving plan ∷ []) Answer.raised
  refused :
      {plan : Plan h} {dep_kwargs : Kwargs h} {e : DependencyError h} {a : Answer h}
      → needs_deps app r ≡ true
      → resolver_plan fw app r ≡ some plan
      → fw.resolve app.dependency_overrides plan req body ≡ some (dep_kwargs, some e)
      → HasStatus (unwrap_or e.status 500) a
      → Handled fw app r is_head req body kwargs (resolving plan ∷ []) a
  called_resolved :
      {plan : Plan h} {dep_kwargs : Kwargs h} {es : List (Event h)} {a : Answer h}
      → needs_deps app r ≡ true
      → resolver_plan fw app r ≡ some plan
      → fw.resolve app.dependency_overrides plan req body ≡ some (dep_kwargs, none)
      → CalledWith fw r.handler is_head (merge dep_kwargs kwargs) es a
      → Handled fw app r is_head req body kwargs (resolving plan ∷ es) a

module _ {h : Host} where
  pub calling_same :
      {f g : Value h} {kw kw' : Kwargs h}
      → ◌≡◌ {A = Event h} (calling f kw) (calling g kw')
      → (f ≡ g) × (kw ≡ kw')
  calling_same e = (cc, cc)

  not_draining :
      {f : Value h} {kw : Kwargs h} {o : Option h.Obj}
      → ◌≡◌ {A = Event h} (calling f kw) (draining o)
      → ⊥
  not_draining e = cc

  called_pair :
      (f g : Value h) (kw kw' : Kwargs h) (o : Option h.Obj)
      → Memᴰ (calling f kw) (calling g kw' ∷ draining o ∷ [])
      → (f ≡ g) × (kw ≡ kw')
  called_pair f g kw kw' o (Memᴰ.head same) = calling_same same
  called_pair f g kw kw' o (Memᴰ.tail (Memᴰ.head same)) = absurd (not_draining same)
  called_pair f g kw kw' o (Memᴰ.tail (Memᴰ.tail mem)) = elim mem [ ]

module _ {h : Host} (fw : Framework h) where
  -- Which handler a call names, and with which arguments.
  CalledWith-called :
      (handler : Value h) (is_head : Bool) (kwargs : Kwargs h) (es : List (Event h)) (a : Answer h)
      (f : Value h) (kw : Kwargs h)
      → CalledWith fw handler is_head kwargs es a
      → Memᴰ (calling f kw) es
      → (f ≡ handler) × (kw ≡ kwargs) × Bodied is_head a
  CalledWith-called handler is_head kwargs es a f kw (answered c b) mem =
      let (fs, ks) = called_pair f handler kw kwargs _ mem in (fs, ks, b)
  CalledWith-called handler is_head kwargs es a f kw (rethrown c) mem =
      let (fs, ks) = called_pair f handler kw kwargs _ mem in (fs, ks, failed)

  not_calling :
      {f : Value h} {kw : Kwargs h} {plan : Plan h}
      → ◌≡◌ {A = Event h} (calling f kw) (resolving plan)
      → ⊥
  not_calling e = cc

  pub Handled-called :
      (app : FastApi h) (r : Route h) (is_head : Bool) (req : Request h) (body : Str)
      (kwargs : Kwargs h) (es : List (Event h)) (a : Answer h) (f : Value h) (kw : Kwargs h)
      → Handled fw app r is_head req body kwargs es a
      → Memᴰ (calling f kw) es
      → (f ≡ r.handler) × Given fw app.dependency_overrides kwargs kw × Bodied is_head a
  Handled-called app r is_head req body kwargs es a f kw (called n c) mem =
      let (fs, ks, b) = CalledWith-called r.handler is_head kwargs es a f kw c mem in
      (fs, subst (Given fw app.dependency_overrides kwargs) (sym ks) alone, b)
  Handled-called app r is_head req body kwargs es a f kw (unplanned n p) mem = elim mem [ ]
  Handled-called app r is_head req body kwargs es a f kw (unresolved n p e) (Memᴰ.head same) =
      absurd (not_calling same)
  Handled-called app r is_head req body kwargs es a f kw (unresolved n p e) (Memᴰ.tail mem) =
      elim mem [ ]
  Handled-called app r is_head req body kwargs es a f kw (refused n p e s) (Memᴰ.head same) =
      absurd (not_calling same)
  Handled-called app r is_head req body kwargs es a f kw (refused n p e s) (Memᴰ.tail mem) =
      elim mem [ ]
  Handled-called app r is_head req body kwargs es a f kw (called_resolved n p e c)
        (Memᴰ.head same) =
      absurd (not_calling same)
  Handled-called app r is_head req body kwargs es a f kw
        (called_resolved {dep_kwargs = dep_kwargs} n p e c) (Memᴰ.tail mem) =
      let (fs, ks, b) =
        CalledWith-called r.handler is_head (merge dep_kwargs kwargs) _ a f kw c mem in
      (fs, subst (Given fw app.dependency_overrides kwargs) (sym ks) (with_resolved e), b)

module _ {h : Host} (fmt : Formats h) (rt : Runtime h) where
  pub error_answer-HasStatus :
      (status : ℕ) (headers : List (Str × Str)) (o : Option Str)
      → HasStatus status (error_answer fmt rt status headers o)
  error_answer-HasStatus status headers none = inl refl
  error_answer-HasStatus status headers (some text) = inr (_, refl, refl)

module _ {h : Host} (fmt : Formats h) (rt : Runtime h) (py : Rendering h) (fw : Framework h)
    (app : FastApi h) (r : Route h) (is_head : Bool) (req : Request h) (body : Str)
    (kwargs : Kwargs h) where
  abbrev HandledRun : Run h → Type 0
  HandledRun run = Handled fw app r is_head req body kwargs run.events run.answer

  call_handler-CalledWith :
      (rc : Option (Value h)) (kw : Kwargs h)
      → CalledWith fw r.handler is_head kw
          (call_handler fmt rt py fw r rc is_head kw).events
          (call_handler fmt rt py fw r rc is_head kw).answer
  unfolding call_handler
  call_handler-CalledWith rc kw = go (fw.call r.handler kw) refl
    where
      go :
          (c : Called h)
          → fw.call r.handler kw ≡ c
          → CalledWith fw r.handler is_head kw
              (after_call fmt rt py fw r rc is_head kw c).events
              (after_call fmt rt py fw r rc is_head kw c).answer
      go (returned v) e = answered e (respond-Bodied fmt rt py r rc is_head v)
      go (threw x) e = rethrown e

  dependency_error-HasStatus :
      (e : DependencyError h) → HasStatus (unwrap_or e.status 500) (dependency_error fmt rt e)
  unfolding dependency_error
  dependency_error-HasStatus e = error_answer-HasStatus fmt rt (unwrap_or e.status 500) _ _

  resolved-Handled :
      (rc : Option (Value h)) (plan : Plan h) (o : Option (Kwargs h × Option (DependencyError h)))
      → needs_deps app r ≡ true
      → resolver_plan fw app r ≡ some plan
      → fw.resolve app.dependency_overrides plan req body ≡ o
      → Handled fw app r is_head req body kwargs
          (resolving plan ∷ (after_resolve fmt rt py fw r rc is_head kwargs o).events)
          (after_resolve fmt rt py fw r rc is_head kwargs o).answer
  resolved-Handled rc plan none n p e = unresolved n p e
  resolved-Handled rc plan (some (dep_kwargs, some x)) n p e =
      refused n p e (dependency_error-HasStatus x)
  resolved-Handled rc plan (some (dep_kwargs, none)) n p e =
      called_resolved n p e (call_handler-CalledWith rc (merge dep_kwargs kwargs))

  planned-Handled :
      (rc : Option (Value h)) (o : Option (Plan h))
      → needs_deps app r ≡ true
      → resolver_plan fw app r ≡ o
      → HandledRun (resolved fmt rt py fw app.dependency_overrides r rc is_head req body kwargs o)
  planned-Handled rc none n p = unplanned n p
  planned-Handled rc (some plan) n p =
      resolved-Handled rc plan (fw.resolve app.dependency_overrides plan req body) n p refl

  pub handle-Handled : HandledRun (handle fmt rt py fw app r is_head req body kwargs)
  unfolding handle
  handle-Handled =
      let rc = effective_class app r in
      if-cases HandledRun (needs_deps app r) _ _
        (λ n. planned-Handled rc (resolver_plan fw app r) n refl)
        (λ n. called n (call_handler-CalledWith rc kwargs))
