-- ===== src/WebRtc.antt =====
-- http_server/handle/webrtc_websocket.go: the relay between the devices of a user. `peers` and
-- `cid_of` are PeersMap and Conn2Cid; connections are numbers.
--
-- `written` are the messages that the server wrote, the last first. The order in which a joiner is
-- announced to the others, that of a map's iteration, has no meaning. A failed write is only logged:
-- the `break` after it leaves the switch, not the loop. The pings are left out.
pub mod Laws
pub mod Refines
pub mod Sections
mod Examples
use das_multi_device.Prelude.{
  ℕ, String, Bool, false, Option, none, some, List, [], ◌∷◌, ◌==◌, str_eq, if◌then◌else◌,
}

abbrev pub Conn : Type 0
Conn = ℕ

-- The `data` of a message: the joiner, the cids of the others, or what a device sends to another.
pub data Data : Type 0 where
  joiner : String → Data
  cids : List String → Data
  raw : String → Data

-- MsgData
pub record MsgData : Type 0 where
  pub from : String
  pub to : String
  pub answer : Bool
  pub kind : String
  pub content : Data

pub record Peers : Type 0 where
  pub peers : List (String × Conn)
  pub cid_of : List (Conn × String)
  pub written : List (Conn × MsgData)

unfoldable pub find_conn : String → List (String × Conn) → Option Conn
find_conn cid [] = none
find_conn cid ((k, c) ∷ ps) = let rest = find_conn cid ps in if str_eq k cid then some c else rest

unfoldable pub find_cid_of : Conn → List (Conn × String) → Option String
find_cid_of conn [] = none
find_cid_of conn ((c, k) ∷ cs) =
    let rest = find_cid_of conn cs in if c == conn then some k else rest

-- delete(PeersMap, cid), delete(Conn2Cid, conn)
unfoldable pub drop_cid : String → List (String × Conn) → List (String × Conn)
drop_cid cid [] = []
drop_cid cid ((k, c) ∷ ps) =
    let rest = drop_cid cid ps in if str_eq k cid then rest else (k, c) ∷ rest

unfoldable pub drop_conn : Conn → List (Conn × String) → List (Conn × String)
drop_conn conn [] = []
drop_conn conn ((c, k) ∷ cs) =
    let rest = drop_conn conn cs in if c == conn then rest else (c, k) ∷ rest

-- WriteJSON on a connection that still takes messages.
unfoldable pub write_json : (Conn → Bool) → Conn → MsgData → Peers → Peers
write_json is_open conn msg s =
    if is_open conn then record s { written = (conn, msg) ∷ s.written } else s

-- Every peer is told of the joiner; a peer that cannot be told does not stop the others.
unfoldable pub announce : (Conn → Bool) → String → List (String × Conn) → Peers → Peers
unfolding write_json
announce is_open from [] s = s
announce is_open from ((cid, conn) ∷ ps) s = announce is_open from ps (
    write_json is_open conn
      (record { from = ""; to = cid; answer = false; kind = "peers"; content = joiner from }) s)

unfoldable pub other_cids : String → List (String × Conn) → List String
other_cids from [] = []
other_cids from ((k, c) ∷ ps) =
    let rest = other_cids from ps in if str_eq k from then rest else k ∷ rest

-- PeersMap[msg.From] = conn; Conn2Cid[conn] = msg.From
unfoldable pub register : Conn → String → Peers → Peers
unfolding drop_cid drop_conn
register conn from s = record s {
  peers = (from, conn) ∷ drop_cid from s.peers;
  cid_of = (conn, from) ∷ drop_conn conn s.cid_of;
}

unfoldable pub tell_joiner : (Conn → Bool) → Conn → String → List String → Peers → Peers
unfolding write_json
tell_joiner is_open conn from [] s = s
tell_joiner is_open conn from (c ∷ cs) s =
    write_json is_open conn
      (record { from = ""; to = from; answer = false; kind = "peers"; content = cids (c ∷ cs) }) s

-- case "join"
unfoldable pub join : (Conn → Bool) → Conn → String → Peers → Peers
unfolding register announce tell_joiner other_cids
join is_open conn from s =
    let s' = register conn from (announce is_open from s.peers s) in
    tell_joiner is_open conn from (other_cids from s'.peers) s'

unfoldable pub deliver : (Conn → Bool) → Option Conn → MsgData → Peers → Peers
unfolding write_json
deliver is_open none msg s = s
deliver is_open (some c) msg s = write_json is_open c msg s

-- case "offer", "answer", "candidate"
unfoldable pub relay : (Conn → Bool) → MsgData → Peers → Peers
unfolding deliver find_conn
relay is_open msg s = deliver is_open (find_conn msg.to s.peers) msg s

-- Conn2Cid[conn] of a connection that never joined is "".
unfoldable pub cid_or_empty : Option String → String
cid_or_empty none = ""
cid_or_empty (some cid) = cid

-- The deferred clean-up when the connection ends.
unfoldable pub close : Conn → Peers → Peers
unfolding drop_cid drop_conn find_cid_of cid_or_empty
close conn s = record s {
  peers = drop_cid (cid_or_empty (find_cid_of conn s.cid_of)) s.peers;
  cid_of = drop_conn conn s.cid_of;
}

-- switch msg.Type
unfoldable pub handle_message : (Conn → Bool) → Conn → MsgData → Peers → Peers
unfolding join relay
handle_message is_open conn msg s =
    if str_eq msg.kind "join"
    then join is_open conn msg.from s
    else if str_eq msg.kind "offer"
    then relay is_open msg s
    else if str_eq msg.kind "answer"
    then relay is_open msg s
    else if str_eq msg.kind "candidate"
    then relay is_open msg s
    else s

-- What one connection does to the shared maps: a message, or its end.
pub data Event : Type 0 where
  receives : Conn → MsgData → Event
  closes : Conn → Event

unfoldable pub serve : (Conn → Bool) → Event → Peers → Peers
unfolding handle_message close
serve is_open (receives conn msg) s = handle_message is_open conn msg s
serve is_open (closes conn) s = close conn s
