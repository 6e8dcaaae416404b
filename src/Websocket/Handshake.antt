-- ===== src/Websocket/Handshake.antt =====
-- The upgrade test and the handshake together.
use hyperfastapi.Prelude.{
  ◌≡◌, ◌↔◌, refl, Bool, true, false, ◌&&◌, Option, none, some, ◌++◌, ◌∙◌, if◌then◌else◌, is_some,
  List, [], ◌∷◌, any, Memᴰ, subst, Bool-cases, inl, inr,
}
use hyperfastapi.Prelude.Text.{Str, bytes, str_eq, str_eq_iff, split, to_ascii_lowercase}
use hyperfastapi.Prelude.Text.Trim.{trim}
use hyperfastapi.Value.{Host, Value, get_item}
use hyperfastapi.Websocket.{
  Head, Handshaking, Reply, ws_guid, holds, then_str, header_str, is_websocket_token, names_upgrade,
  is_version, is_websocket_upgrade, ws_accept_key, looked_up, keyed, handle_websocket,
}

-- A test that some item of a list passes.
any_inv :
    (test : Str → Bool) (items : List Str)
    → any test items ≡ true
    → (item : Str) × Memᴰ item items × (test item ≡ true)
any_inv test [] e = absurd cc
any_inv test (x ∷ xs) e = elim (Bool-cases (test x)) [
  | inl t ↦ (x, Memᴰ.head refl, t)
  | inr f ↦ let (item, mem, t) = any_inv test xs (rw f at e) in (item, Memᴰ.tail mem, t)
]

any_found :
    (test : Str → Bool) (item : Str) (items : List Str)
    → Memᴰ item items
    → test item ≡ true
    → any test items ≡ true
any_found test item [] mem t = elim mem [ ]
any_found test item (x ∷ xs) (Memᴰ.head same) t = rw (subst (λ y. test y ≡ true) same t) refl
any_found test item (x ∷ xs) (Memᴰ.tail mem) t = elim (Bool-cases (test x)) [
  | inl t' ↦ rw t' refl
  | inr f ↦ rw f (any_found test item xs mem t)
]

any_iff :
    (test : Str → Bool) (items : List Str)
    → (any test items ≡ true) ↔ ((item : Str) × Memᴰ item items × (test item ≡ true))
any_iff test items = (any_inv test items, λ (item, mem, t). any_found test item items mem t)

module _ {h : Host} (hs : Handshaking h) where
  -- The first header of a name has a value that is the text.
  pub record Reads (req : Head) (name s : Str) : Type 0 where
    pub value : Str
    pub first : get_item name req.headers ≡ some value
    pub as_str : hs.to_str value ≡ some s

  -- A GET request with four headers, of which the first of each name counts: `Upgrade` is "websocket"
  -- in any case, `Connection` lists "upgrade" in any case among items between commas,
  -- `Sec-WebSocket-Version` is 13, and `Sec-WebSocket-Key` is there. The version of HTTP and the form
  -- of the key do not matter.
  pub record Asks (req : Head) : Type 0 where
    pub is_get : req.method ≡ bytes "GET"
    pub upgrade :
        (s : Str) × Reads req (bytes "upgrade") s × (to_ascii_lowercase s ≡ bytes "websocket")
    pub connection :
        (s : Str) × Reads req (bytes "connection") s
        × ((item : Str) × Memᴰ item (split b',' (to_ascii_lowercase s))
            × (trim item ≡ bytes "upgrade"))
    pub version : (s : Str) × Reads req (bytes "sec-websocket-version") s × (trim s ≡ bytes "13")
    pub key : (s : Str) × (get_item (bytes "sec-websocket-key") req.headers ≡ some s)

  abbrev tests : Head → Bool
  tests req =
      holds hs (is_websocket_token hs) (header_str hs req (bytes "upgrade"))
      && holds hs (names_upgrade hs) (header_str hs req (bytes "connection"))
      && holds hs (is_version hs) (header_str hs req (bytes "sec-websocket-version"))
      && is_some (get_item (bytes "sec-websocket-key") req.headers)

  then_str-Reads :
      (req : Head) (name s : Str) (o : Option Str)
      → get_item name req.headers ≡ o
      → then_str hs o ≡ some s
      → Reads req name s
  then_str-Reads req name s none first e = absurd cc
  then_str-Reads req name s (some v) first e = record { value = v; first = first; as_str = e }

  holds_inv :
      (test : Str → Bool) (req : Head) (name : Str) (o : Option Str)
      → header_str hs req name ≡ o
      → holds hs test o ≡ true
      → (s : Str) × Reads req name s × (test s ≡ true)
  unfolding header_str
  holds_inv test req name none e t = absurd cc
  holds_inv test req name (some s) e t =
      (s, then_str-Reads req name s (get_item name req.headers) refl e, t)

  holds_found :
      (test : Str → Bool) (req : Head) (name s : Str)
      → Reads req name s
      → test s ≡ true
      → holds hs test (header_str hs req name) ≡ true
  unfolding header_str
  holds_found test req name s r t = rw (r.first, r.as_str) t

  is_some_inv : (o : Option Str) → is_some o ≡ true → (s : Str) × (o ≡ some s)
  is_some_inv none e = absurd cc
  is_some_inv (some s) e = (s, refl)

  all_four :
      (a b c d : Bool)
      → (a && b && c && d) ≡ true
      → (a ≡ true) × (b ≡ true) × (c ≡ true) × (d ≡ true)
  all_four true true true true e = (refl, refl, refl, refl)
  all_four true true true false e = absurd cc
  all_four true true false d e = absurd cc
  all_four true false c d e = absurd cc
  all_four false b c d e = absurd cc

  upgraded :
      (req : Head) (g : Bool)
      → str_eq req.method (bytes "GET") ≡ g
      → (if g then tests req else false) ≡ true
      → Asks req
  upgraded req true g e =
      let (u, c, v, k) = all_four _ _ _ _ e in
      let (us, up, is_token) = holds_inv (is_websocket_token hs) req (bytes "upgrade") _ refl u in
      let (cs, con, named) = holds_inv (names_upgrade hs) req (bytes "connection") _ refl c in
      let (item, mem, it) = (any_iff _ (split b',' (to_ascii_lowercase cs))).0 named in
      let (vs, ver, is_13) =
        holds_inv (is_version hs) req (bytes "sec-websocket-version") _ refl v in
      record {
        is_get = (str_eq_iff req.method (bytes "GET")).0 g;
        upgrade = (us, up, (str_eq_iff (to_ascii_lowercase us) (bytes "websocket")).0 is_token);
        connection = (cs, con, (item, mem, (str_eq_iff (trim item) (bytes "upgrade")).0 it));
        version = (vs, ver, (str_eq_iff (trim vs) (bytes "13")).0 is_13);
        key = is_some_inv (get_item (bytes "sec-websocket-key") req.headers) k;
      }
  upgraded req false g e = absurd cc

  tested : (req : Head) → Asks req → tests req ≡ true
  tested req a =
      let (us, up, is_token) = a.upgrade in
      let (cs, con, (item, mem, it)) = a.connection in
      let (vs, ver, is_13) = a.version in
      let (k, there) = a.key in
      rw
        (
          holds_found (is_websocket_token hs) req (bytes "upgrade") us up
              ((str_eq_iff (to_ascii_lowercase us) (bytes "websocket")).1 is_token),
          holds_found (names_upgrade hs) req (bytes "connection") cs con (
              (any_iff _ (split b',' (to_ascii_lowercase cs))).1
                (item, mem, (str_eq_iff (trim item) (bytes "upgrade")).1 it)),
          holds_found (is_version hs) req (bytes "sec-websocket-version") vs ver
              ((str_eq_iff (trim vs) (bytes "13")).1 is_13),
          there,
        )
        refl

  -- A request is taken for a WebSocket upgrade just when it is a GET request with four headers, of
  -- which the first of each name counts: `Upgrade` is "websocket" in any case, `Connection` lists
  -- "upgrade" in any case among items between commas, `Sec-WebSocket-Version` is 13 but for white
  -- space around it, and `Sec-WebSocket-Key` is there. The version of HTTP and the form of the key do
  -- not matter.
  pub is_websocket_upgrade_iff : (req : Head) → (is_websocket_upgrade hs req ≡ true) ↔ Asks req
  unfolding is_websocket_upgrade
  is_websocket_upgrade_iff req = (
    upgraded req (str_eq req.method (bytes "GET")) refl,
    λ a. rw ((str_eq_iff req.method (bytes "GET")).1 a.is_get) (tested req a),
  )

  -- A handler with the answer that hands it the connection.
  unfoldable pub Granted : Head → Str → Value h → Reply h → Type 0
  Granted req path f reply =
      (key : Str) × (header_str hs req (bytes "sec-websocket-key") ≡ some key)
      × (hs.lookup_websocket path ≡ some f)
      × (reply.response.status ≡ 101)
      × (get_item (bytes "sec-websocket-accept") reply.response.headers
          ≡ some (hs.base64 (hs.sha1 (key ++ ws_guid))))

  looked_up-Granted :
      (req : Head) (path key : Str) (o : Option (Value h)) (f : Value h)
      → header_str hs req (bytes "sec-websocket-key") ≡ some key
      → hs.lookup_websocket path ≡ o
      → (looked_up hs (ws_accept_key hs key) o).driven ≡ some f
      → Granted req path f (looked_up hs (ws_accept_key hs key) o)
  unfolding ws_accept_key get_item bytes str_eq Granted
  looked_up-Granted req path key none f k l e = absurd cc
  looked_up-Granted req path key (some g) f k l e = (key, k, l ∙ e, refl, refl)

  keyed-Granted :
      (req : Head) (path : Str) (o : Option Str) (f : Value h)
      → header_str hs req (bytes "sec-websocket-key") ≡ o
      → (keyed hs path o).driven ≡ some f
      → Granted req path f (keyed hs path o)
  keyed-Granted req path none f k e = absurd cc
  keyed-Granted req path (some key) f k e =
      looked_up-Granted req path key (hs.lookup_websocket path) f k refl e

  -- A connection is handed to a handler only with the answer 101; the handler is then the one of the
  -- path, and the answer's accept key is made of the key that was read from the request.
  pub handle_websocket-Granted :
      (req : Head) (path : Str) (f : Value h)
      → (handle_websocket hs req path).driven ≡ some f
      → Granted req path f (handle_websocket hs req path)
  unfolding handle_websocket
  handle_websocket-Granted req path f e =
      keyed-Granted req path (header_str hs req (bytes "sec-websocket-key")) f refl e
