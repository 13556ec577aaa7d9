-- ===== src/WebRtc/Sections/Owners.antt =====
-- http_server/handle/webrtc_websocket.go: which sections leave the maps with a cid at its connection.
use das_multi_device.Prelude.{
  Bool, true, false, ◌&&◌, String, Option, none, some, List, [], ◌∷◌, ◌≡◌, sym, ap, ◌∙◌, str_eq,
  if◌then◌else◌, ◌==◌, arith, eq_iff,
}
use das_multi_device.WebRtc.{
  Conn, MsgData, Peers, find_conn, find_cid_of, drop_conn, announce, register, other_cids, relay,
  deliver, cid_or_empty, close,
}
use das_multi_device.WebRtc.Laws.{
  find_conn-drop, find_cid_of-drop, announce-peers, tell_joiner-peers, write_json-peers,
}
use das_multi_device.WebRtc.Sections.{Section, enters, lists, relays, ends, section, run_sections}

-- The maps hold the cid at the connection, and no other connection stands for it.
pub record Owns (cid : String) (conn : Conn) (s : Peers) : Type 0 where
  pub found : find_conn cid s.peers ≡ some conn
  pub alone : (c : Conn) → find_cid_of c s.cid_of ≡ some cid → (c == conn) ≡ true

-- No section enters the cid again or ends its connection.
unfoldable pub spares : String → Conn → Section → Bool
spares cid conn (enters c from) = if str_eq from cid then false else true
spares cid conn (lists c from) = true
spares cid conn (relays msg) = true
spares cid conn (ends c) = if c == conn then false else true

unfoldable pub spare : String → Conn → List Section → Bool
unfolding spares
spare cid conn [] = true
spare cid conn (x ∷ xs) = spares cid conn x && spare cid conn xs

Owns-same :
    (cid : String) (conn : Conn) (s t : Peers)
    → t.peers ≡ s.peers
    → t.cid_of ≡ s.cid_of
    → Owns cid conn s
    → Owns cid conn t
Owns-same cid conn s t p q o = record {
  found = ap (find_conn cid) p ∙ o.found;
  alone = λ c h. o.alone c (sym (ap (find_cid_of c) q) ∙ h);
}

-- What a connection stands for after it registers a cid other than this one, or ends.
kept_cid :
    (cid k : String) (c d : Conn) (cs : List (Conn × String))
    → str_eq k cid ≡ false
    → find_cid_of d ((c, k) ∷ drop_conn c cs) ≡ some cid
    → find_cid_of d cs ≡ some cid
unfolding find_cid_of
kept_cid cid k c d cs h g = ground (arith, h, g, eq_iff k cid, find_cid_of-drop d c cs)

dropped_cid :
    (cid : String) (c d : Conn) (cs : List (Conn × String))
    → find_cid_of d (drop_conn c cs) ≡ some cid
    → find_cid_of d cs ≡ some cid
dropped_cid cid c d cs g = ground (arith, g, find_cid_of-drop d c cs)

Owns-register :
    (cid : String) (conn c : Conn) (k : String) (s : Peers)
    → str_eq k cid ≡ false
    → Owns cid conn s
    → Owns cid conn (register c k s)
unfolding register find_conn
Owns-register cid conn c k s h o = record {
  found = ground (arith, h, find_conn-drop cid k s.peers, o.found);
  alone = λ d g. o.alone d (kept_cid cid k c d s.cid_of h g);
}

-- The cid that a connection stands for when it ends is another one, unless it is the owner.
other_cid :
    (cid : String) (conn c : Conn) (s : Peers)
    → str_eq cid "" ≡ false
    → (c == conn) ≡ false
    → Owns cid conn s
    → str_eq (cid_or_empty (find_cid_of c s.cid_of)) cid ≡ false
unfolding cid_or_empty
other_cid cid conn c s h n o =
    let owner = o.alone c in
    ground (arith, h, n, owner, eq_iff (cid_or_empty (find_cid_of c s.cid_of)) cid)

Owns-close :
    (cid : String) (conn c : Conn) (s : Peers)
    → str_eq cid "" ≡ false
    → (c == conn) ≡ false
    → Owns cid conn s
    → Owns cid conn (close c s)
unfolding close
Owns-close cid conn c s h n o = record {
  found =
      find_conn-drop cid (cid_or_empty (find_cid_of c s.cid_of)) s.peers
      ∙ ground (arith, other_cid cid conn c s h n o, o.found);
  alone = λ d g. o.alone d (dropped_cid cid c d s.cid_of g);
}

module _ (is_open : Conn → Bool) where
  Owns-announce :
      (cid from : String) (conn : Conn) (ps : List (String × Conn)) (s : Peers)
      → Owns cid conn s
      → Owns cid conn (announce is_open from ps s)
  Owns-announce cid from conn ps s =
      Owns-same cid conn s _ (announce-peers is_open from ps s).0
        (announce-peers is_open from ps s).1

  Owns-deliver :
      (cid : String) (conn : Conn) (to : Option Conn) (msg : MsgData) (s : Peers)
      → Owns cid conn s
      → Owns cid conn (deliver is_open to msg s)
  unfolding deliver
  Owns-deliver cid conn none msg s o = o
  Owns-deliver cid conn (some c) msg s o =
      Owns-same cid conn s _ (write_json-peers is_open c msg s).0
        (write_json-peers is_open c msg s).1 o

  pub Owns-section :
      (cid : String) (conn : Conn) (x : Section) (s : Peers)
      → str_eq cid "" ≡ false
      → spares cid conn x ≡ true
      → Owns cid conn s
      → Owns cid conn (section is_open x s)
  unfolding section spares relay
  Owns-section cid conn (enters c from) s h k o =
      Owns-register cid conn c from _ (ground (arith, k)) (Owns-announce cid from conn s.peers s o)
  Owns-section cid conn (lists c from) s h k o =
      Owns-same cid conn s _ (tell_joiner-peers is_open c from (other_cids from s.peers) s).0
        (tell_joiner-peers is_open c from (other_cids from s.peers) s).1 o
  Owns-section cid conn (relays msg) s h k o =
      Owns-deliver cid conn (find_conn msg.to s.peers) msg s o
  Owns-section cid conn (ends c) s h k o = Owns-close cid conn c s h (ground (arith, k)) o

  pub Owns-run_sections :
      (cid : String) (conn : Conn) (xs : List Section) (s : Peers)
      → str_eq cid "" ≡ false
      → spare cid conn xs ≡ true
      → Owns cid conn s
      → Owns cid conn (run_sections is_open xs s)
  unfolding run_sections spare
  Owns-run_sections cid conn [] s h k o = o
  Owns-run_sections cid conn (x ∷ xs) s h k o =
      Owns-run_sections cid conn xs _ h (ground (arith, k))
        (Owns-section cid conn x s h (ground (arith, k)) o)

  owned_after :
      (a : String) (c e : Conn) (cs : List (Conn × String))
      → (find_cid_of e cs ≡ some a → (e == c) ≡ true)
      → find_cid_of e ((c, a) ∷ drop_conn c cs) ≡ some a
      → (e == c) ≡ true
  unfolding find_cid_of
  owned_after a c e cs alone h = ground (arith, h, alone, find_cid_of-drop e c cs)

  pub Owns-enters :
      (a : String) (c : Conn) (s : Peers)
      → ((e : Conn) → find_cid_of e s.cid_of ≡ some a → (e == c) ≡ true)
      → Owns a c (section is_open (enters c a) s)
  unfolding section register find_conn
  Owns-enters a c s alone =
      let kept = (announce-peers is_open a s.peers s).1 in
      record {
        found = ground (arith, eq_iff a a);
        alone = λ e h. owned_after a c e _ (λ g. alone e (sym (ap (find_cid_of e) kept) ∙ g)) h;
      }
