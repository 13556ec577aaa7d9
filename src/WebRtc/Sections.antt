-- ===== src/WebRtc/Sections.antt =====
-- http_server/handle/webrtc_websocket.go: the goroutines of the connections share the two maps under a
-- lock. What each does while it holds the lock is a section, and the sections of several connections
-- follow each other in any order. A message that is written after the lock is released is taken with the
-- section that made it.
pub mod Owners
pub mod Discovery
use das_multi_device.Prelude.{
  Bool, true, false, String, List, [], ◌∷◌, ◌++◌, ◌≡◌, refl, str_eq, if◌then◌else◌,
}
use das_multi_device.WebRtc.{
  Conn, MsgData, Peers, Event, receives, closes, announce, register, tell_joiner, other_cids, relay,
  join, close, serve, handle_message,
}

-- A join that tells the others and enters the maps; the list for the joiner; a message to another
-- device; the end of a connection.
pub data Section : Type 0 where
  enters : Conn → String → Section
  lists : Conn → String → Section
  relays : MsgData → Section
  ends : Conn → Section

module _ (is_open : Conn → Bool) where
  unfoldable pub section : Section → Peers → Peers
  unfolding announce register tell_joiner other_cids relay close
  section (enters conn from) s = register conn from (announce is_open from s.peers s)
  section (lists conn from) s = tell_joiner is_open conn from (other_cids from s.peers) s
  section (relays msg) s = relay is_open msg s
  section (ends conn) s = close conn s

  unfoldable pub run_sections : List Section → Peers → Peers
  unfolding section
  run_sections [] s = s
  run_sections (x ∷ xs) s = run_sections xs (section x s)

-- The sections of a message, and of the end of a connection.
unfoldable sections_of : Event → List Section
sections_of (receives conn msg) =
    if str_eq msg.kind "join"
    then enters conn msg.from ∷ lists conn msg.from ∷ []
    else if str_eq msg.kind "offer"
    then relays msg ∷ []
    else if str_eq msg.kind "answer"
    then relays msg ∷ []
    else if str_eq msg.kind "candidate"
    then relays msg ∷ []
    else []
sections_of (closes conn) = ends conn ∷ []

run_either :
    (is_open : Conn → Bool) (b : Bool) (xs ys : List Section) (s t u : Peers)
    → run_sections is_open xs s ≡ t
    → run_sections is_open ys s ≡ u
    → run_sections is_open (if b then xs else ys) s ≡ (if b then t else u)
run_either is_open true xs ys s t u h k = h
run_either is_open false xs ys s t u h k = k

-- Handling a message or an end in one step is running its sections with nothing in between.
run_sections-sections_of :
    (is_open : Conn → Bool) (e : Event) (s : Peers)
    → run_sections is_open (sections_of e) s ≡ serve is_open e s
unfolding sections_of run_sections section serve handle_message join
run_sections-sections_of is_open (closes conn) s = refl
run_sections-sections_of is_open (receives conn msg) s =
    run_either is_open (str_eq msg.kind "join") _ _ s _ _ refl (
      run_either is_open (str_eq msg.kind "offer") _ _ s _ _ refl (
        run_either is_open (str_eq msg.kind "answer") _ _ s _ _ refl
          (run_either is_open (str_eq msg.kind "candidate") _ _ s _ _ refl refl)))
