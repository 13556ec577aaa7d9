-- ===== src/WebRtc/Laws.antt =====
-- http_server/handle/webrtc_websocket.go: whom a message reaches.
use das_multi_device.Prelude.{
  String, Bool, true, false, none, some, List, [], ◌∷◌, ◌≡◌, refl, ap, ◌∙◌, arith, str_eq, eq_iff,
  if◌then◌else◌, ◌==◌,
}
use das_multi_device.WebRtc.{
  Conn, MsgData, Peers, find_conn, find_cid_of, drop_cid, drop_conn, write_json, announce, register,
  tell_joiner, join, cid_or_empty, close,
}

-- The maps are changed by joins and ends of connections only.
pub write_json-peers :
    (is_open : Conn → Bool) (c : Conn) (msg : MsgData) (s : Peers)
    → ((write_json is_open c msg s).peers ≡ s.peers)
      × ((write_json is_open c msg s).cid_of ≡ s.cid_of)
unfolding write_json
write_json-peers is_open c msg s = ground arith

pub announce-peers :
    (is_open : Conn → Bool) (from : String) (ps : List (String × Conn)) (s : Peers)
    → ((announce is_open from ps s).peers ≡ s.peers)
      × ((announce is_open from ps s).cid_of ≡ s.cid_of)
unfolding announce write_json
announce-peers is_open from [] s = (refl, refl)
announce-peers is_open from ((k, c) ∷ ps) s = (
  (announce-peers is_open from ps _).0 ∙ (write_json-peers is_open c _ s).0,
  (announce-peers is_open from ps _).1 ∙ (write_json-peers is_open c _ s).1,
)

pub tell_joiner-peers :
    (is_open : Conn → Bool) (conn : Conn) (from : String) (cs : List String) (s : Peers)
    → ((tell_joiner is_open conn from cs s).peers ≡ s.peers)
      × ((tell_joiner is_open conn from cs s).cid_of ≡ s.cid_of)
unfolding tell_joiner write_json
tell_joiner-peers is_open conn from [] s = (refl, refl)
tell_joiner-peers is_open conn from (c ∷ cs) s = ground arith

pub find_conn-drop :
    (cid k : String) (ps : List (String × Conn))
    → find_conn cid (drop_cid k ps) ≡ (if str_eq k cid then none else find_conn cid ps)
unfolding find_conn drop_cid
find_conn-drop cid k [] = ground arith
find_conn-drop cid k ((j, c) ∷ ps) =
    let ih = find_conn-drop cid k ps in ground (arith, ih, eq_iff j k, eq_iff j cid, eq_iff k cid)

pub find_cid_of-drop :
    (conn c : Conn) (cs : List (Conn × String))
    → find_cid_of conn (drop_conn c cs) ≡ (if c == conn then none else find_cid_of conn cs)
unfolding find_cid_of drop_conn
find_cid_of-drop conn c [] = ground arith
find_cid_of-drop conn c ((d, k) ∷ cs) = let ih = find_cid_of-drop conn c cs in ground (arith, ih)

join-peers :
    (is_open : Conn → Bool) (conn : Conn) (from : String) (s : Peers)
    → ((join is_open conn from s).peers ≡ (from, conn) ∷ drop_cid from s.peers)
      × ((join is_open conn from s).cid_of ≡ (conn, from) ∷ drop_conn conn s.cid_of)
unfolding join register
join-peers is_open conn from s = (
  (tell_joiner-peers is_open conn from _ _).0
      ∙ ap (λ p. (from, conn) ∷ drop_cid from p) (announce-peers is_open from s.peers s).0,
  (tell_joiner-peers is_open conn from _ _).1
      ∙ ap (λ p. (conn, from) ∷ drop_conn conn p) (announce-peers is_open from s.peers s).1,
)

-- After a join the cid is found at the joiner, and every other cid where it was.
pub find_conn-join :
    (is_open : Conn → Bool) (conn : Conn) (from cid : String) (s : Peers)
    → find_conn cid (join is_open conn from s).peers
      ≡ (if str_eq from cid then some conn else find_conn cid s.peers)
unfolding find_conn
find_conn-join is_open conn from cid s =
    ap (find_conn cid) (join-peers is_open conn from s).0
    ∙ ground (arith, find_conn-drop cid from s.peers)

pub find_cid_of-join :
    (is_open : Conn → Bool) (conn : Conn) (from : String) (c : Conn) (s : Peers)
    → find_cid_of c (join is_open conn from s).cid_of
      ≡ (if conn == c then some from else find_cid_of c s.cid_of)
unfolding find_cid_of
find_cid_of-join is_open conn from c s =
    ap (find_cid_of c) (join-peers is_open conn from s).1
    ∙ ground (arith, find_cid_of-drop c conn s.cid_of)

str_eq_refl : (a : String) → str_eq a a ≡ true
str_eq_refl a = ground (arith, eq_iff a a)

-- When a device connects again before its first connection has ended, the end of the first one
-- makes its cid unreachable, although the second connection still stands for it.
pub find_conn-close_stale :
    (is_open : Conn → Bool) (c₁ c₂ : Conn) (cid : String) (s : Peers)
    → (c₂ == c₁) ≡ false
    → (find_conn cid (close c₁ (join is_open c₂ cid (join is_open c₁ cid s))).peers ≡ none)
      × (find_cid_of c₂ (close c₁ (join is_open c₂ cid (join is_open c₁ cid s))).cid_of ≡ some cid)
unfolding close cid_or_empty
find_conn-close_stale is_open c₁ c₂ cid s h =
    let s₁ = join is_open c₁ cid s in
    let s₂ = join is_open c₂ cid s₁ in
    let old : find_cid_of c₁ s₂.cid_of ≡ some cid =
      find_cid_of-join is_open c₂ cid c₁ s₁
      ∙ ground (arith, h, find_cid_of-join is_open c₁ cid c₁ s) in
    let new : find_cid_of c₂ s₂.cid_of ≡ some cid =
      find_cid_of-join is_open c₂ cid c₂ s₁ ∙ ground arith in
    let apart : (c₁ == c₂) ≡ false = ground (arith, h) in
    (
      ap (λ o. find_conn cid (drop_cid (cid_or_empty o) s₂.peers)) old
          ∙ find_conn-drop cid cid s₂.peers
          ∙ ground (arith, str_eq_refl cid),
      find_cid_of-drop c₂ c₁ s₂.cid_of ∙ ground (arith, apart, new),
    )
