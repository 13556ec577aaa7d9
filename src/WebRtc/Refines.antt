-- ===== src/WebRtc/Refines.antt =====
-- http_server/handle/webrtc_websocket.go: the relay as two functions, the connection of a cid and the
-- cid of a connection, which forget the order of the maps, what they hold twice, and the messages.
use mathlib.Core.Path.{fun_ext}
use das_multi_device.Prelude.{
  String, Bool, true, false, Option, none, some, List, [], ◌∷◌, ◌==◌, ◌≡◌, refl, ap, ap₂, ◌∙◌,
  str_eq, if◌then◌else◌,
}
use das_multi_device.WebRtc.{
  Conn, MsgData, Peers, Event, receives, closes, find_conn, find_cid_of, join, relay, deliver,
  cid_or_empty, close, serve, handle_message,
}
use das_multi_device.WebRtc.Laws.{
  find_conn-join, find_cid_of-join, find_conn-drop, find_cid_of-drop, write_json-peers,
}

pub record Registry : Type 0 where
  pub conn_of : String → Option Conn
  pub cid_at : Conn → Option String

abbrev pub registry : Peers → Registry
registry s = record {
  conn_of = λ cid. find_conn cid s.peers;
  cid_at = λ conn. find_cid_of conn s.cid_of;
}

abbrev enter : Conn → String → Registry → Registry
enter conn from r = record {
  conn_of = λ cid. if str_eq from cid then some conn else r.conn_of cid;
  cid_at = λ c. if conn == c then some from else r.cid_at c;
}

abbrev leave : Conn → Registry → Registry
leave conn r = record {
  conn_of = λ cid. if str_eq (cid_or_empty (r.cid_at conn)) cid then none else r.conn_of cid;
  cid_at = λ c. if conn == c then none else r.cid_at c;
}

-- A join enters the sender, the end of a connection takes its cid away, and nothing else matters.
abbrev pub track : Event → Registry → Registry
track (receives conn msg) r = if str_eq msg.kind "join" then enter conn msg.from r else r
track (closes conn) r = leave conn r

abbrev pub track_all : List Event → Registry → Registry
track_all [] r = r
track_all (e ∷ es) r = track_all es (track e r)

if_either :
    {r q : Registry} (b : Bool) (s t : Peers)
    → registry s ≡ r
    → registry t ≡ q
    → registry (if b then s else t) ≡ (if b then r else q)
if_either true s t h k = h
if_either false s t h k = k

if_both :
    {r : Registry} (b : Bool) (s t : Peers)
    → registry s ≡ r
    → registry t ≡ r
    → registry (if b then s else t) ≡ r
if_both true s t h k = h
if_both false s t h k = k

module _ (is_open : Conn → Bool) where
  unfoldable pub serve_all : List Event → Peers → Peers
  serve_all [] s = s
  serve_all (e ∷ es) s = serve_all es (serve is_open e s)

  same_registry :
      (f g : Registry)
      → ((cid : String) → f.conn_of cid ≡ g.conn_of cid)
      → ((c : Conn) → f.cid_at c ≡ g.cid_at c)
      → f ≡ g
  same_registry f g h k = ap₂ (λ a b. record { conn_of = a; cid_at = b }) (fun_ext h) (fun_ext k)

  registry-join :
      (conn : Conn) (from : String) (s : Peers)
      → registry (join is_open conn from s) ≡ enter conn from (registry s)
  registry-join conn from s =
      same_registry _ _ (λ cid. find_conn-join is_open conn from cid s)
        (λ c. find_cid_of-join is_open conn from c s)

  registry-close : (conn : Conn) (s : Peers) → registry (close conn s) ≡ leave conn (registry s)
  unfolding close
  registry-close conn s =
      same_registry _ _ (λ cid. find_conn-drop cid _ s.peers)
        (λ c. find_cid_of-drop c conn s.cid_of)

  deliver-registry :
      (to : Option Conn) (msg : MsgData) (s : Peers)
      → registry (deliver is_open to msg s) ≡ registry s
  unfolding deliver
  deliver-registry none msg s = refl
  deliver-registry (some c) msg s =
      ap₂ (λ p q. registry (record s { peers = p; cid_of = q }))
        (write_json-peers is_open c msg s).0 (write_json-peers is_open c msg s).1

  registry-handle_message :
      (conn : Conn) (msg : MsgData) (s : Peers)
      → registry (handle_message is_open conn msg s)
        ≡ (if str_eq msg.kind "join" then enter conn msg.from (registry s) else registry s)
  unfolding handle_message relay
  registry-handle_message conn msg s =
      let relayed : registry (relay is_open msg s) ≡ registry s =
        deliver-registry (find_conn msg.to s.peers) msg s in
      if_either (str_eq msg.kind "join") _ _ (registry-join conn msg.from s) (
        if_both (str_eq msg.kind "offer") _ _ relayed (
          if_both (str_eq msg.kind "answer") _ _ relayed
            (if_both (str_eq msg.kind "candidate") _ _ relayed refl)))

  -- After any sequence of messages and ends of connections, whichever writes fail, the maps hold
  -- for each cid and for each connection what the joins and ends alone make of it.
  pub registry-serve_all :
      (es : List Event) (s : Peers) → registry (serve_all es s) ≡ track_all es (registry s)
  unfolding serve_all serve
  registry-serve_all [] s = refl
  registry-serve_all (receives conn msg ∷ es) s =
      registry-serve_all es (handle_message is_open conn msg s)
      ∙ ap (track_all es) (registry-handle_message conn msg s)
  registry-serve_all (closes conn ∷ es) s =
      registry-serve_all es (close conn s) ∙ ap (track_all es) (registry-close conn s)
