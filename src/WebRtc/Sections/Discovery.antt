-- ===== src/WebRtc/Sections/Discovery.antt =====
-- http_server/handle/webrtc_websocket.go: two devices that join learn of each other.
use das_multi_device.Prelude.{
  Bool, true, false, ◌||◌, ◌&&◌, String, Option, none, some, List, [], ◌∷◌, ◌++◌, ◌≡◌, refl, ap,
  ◌∙◌, ◌⊎◌, inl, inr, str_eq, if◌then◌else◌, ◌==◌, arith, eq_iff,
}
use das_multi_device.WebRtc.{
  Conn, MsgData, Data, joiner, cids, raw, Peers, find_conn, find_cid_of, write_json, announce,
  register, tell_joiner, other_cids, relay, deliver, close,
}
use das_multi_device.WebRtc.Sections.{Section, enters, lists, relays, ends, section, run_sections}
use das_multi_device.WebRtc.Sections.Owners.{
  spares, spare, Owns-section, Owns-run_sections, Owns-enters,
}

unfoldable pub has_cid : String → List String → Bool
has_cid cid [] = false
has_cid cid (k ∷ ks) = str_eq k cid || has_cid cid ks

unfoldable pub names : String → Data → Bool
unfolding has_cid
names cid (joiner k) = str_eq k cid
names cid (cids ks) = has_cid cid ks
names cid (raw t) = false

-- Among the messages, one of type "peers" to the connection names the cid.
unfoldable pub is_told : Conn → String → List (Conn × MsgData) → Bool
unfolding names
is_told conn cid [] = false
is_told conn cid ((c, msg) ∷ ms) =
    (c == conn && (str_eq msg.kind "peers" && names cid msg.content)) || is_told conn cid ms

-- One device enters as a, later another as b, which is then listed the others.
abbrev pub two_joins : String → String → Conn → Conn → List Section → List Section → List Section
two_joins a b c d xs ys = enters c a ∷ (xs ++ (enters d b ∷ (ys ++ (lists d b ∷ []))))

at_head : {A : Type 0} (b : Bool) (x y z : A) → (if b then x else y) ≡ z → (x ≡ z) ⊎ (y ≡ z)
at_head true x y z h = inl h
at_head false x y z h = inr h

module _ (is_open : Conn → Bool) where
  -- What a connection was told it stays told of.
  told-write_json :
      (conn c : Conn) (cid : String) (msg : MsgData) (s : Peers)
      → is_told conn cid s.written ≡ true
      → is_told conn cid (write_json is_open c msg s).written ≡ true
  unfolding write_json is_told
  told-write_json conn c cid msg s h = ground (arith, h)

  told-announce :
      (conn : Conn) (cid from : String) (ps : List (String × Conn)) (s : Peers)
      → is_told conn cid s.written ≡ true
      → is_told conn cid (announce is_open from ps s).written ≡ true
  unfolding announce
  told-announce conn cid from [] s h = h
  told-announce conn cid from ((k, c) ∷ ps) s h =
      told-announce conn cid from ps _ (told-write_json conn c cid _ s h)

  told-tell_joiner :
      (conn c : Conn) (cid from : String) (ks : List String) (s : Peers)
      → is_told conn cid s.written ≡ true
      → is_told conn cid (tell_joiner is_open c from ks s).written ≡ true
  unfolding tell_joiner
  told-tell_joiner conn c cid from [] s h = h
  told-tell_joiner conn c cid from (k ∷ ks) s h = told-write_json conn c cid _ s h

  told-deliver :
      (conn : Conn) (cid : String) (to : Option Conn) (msg : MsgData) (s : Peers)
      → is_told conn cid s.written ≡ true
      → is_told conn cid (deliver is_open to msg s).written ≡ true
  unfolding deliver
  told-deliver conn cid none msg s h = h
  told-deliver conn cid (some c) msg s h = told-write_json conn c cid msg s h

  told-section :
      (conn : Conn) (cid : String) (x : Section) (s : Peers)
      → is_told conn cid s.written ≡ true
      → is_told conn cid (section is_open x s).written ≡ true
  unfolding section register relay close
  told-section conn cid (enters c from) s h = told-announce conn cid from s.peers s h
  told-section conn cid (lists c from) s h =
      told-tell_joiner conn c cid from (other_cids from s.peers) s h
  told-section conn cid (relays msg) s h = told-deliver conn cid (find_conn msg.to s.peers) msg s h
  told-section conn cid (ends c) s h = h

  told-run_sections :
      (conn : Conn) (cid : String) (xs : List Section) (s : Peers)
      → is_told conn cid s.written ≡ true
      → is_told conn cid (run_sections is_open xs s).written ≡ true
  unfolding run_sections
  told-run_sections conn cid [] s h = h
  told-run_sections conn cid (x ∷ xs) s h =
      told-run_sections conn cid xs _ (told-section conn cid x s h)

  told_at_once :
      (conn c : Conn) (k from : String) (s : Peers)
      → is_open conn ≡ true
      → some c ≡ some conn
      → is_told conn from
          (write_json is_open c
            (record { from = ""; to = k; answer = false; kind = "peers"; content = joiner from })
            s).written
        ≡ true
  unfolding write_json is_told names
  told_at_once conn c k from s h g = ground (arith, h, g, eq_iff from from)

  -- A peer that still takes messages is told of a joiner.
  told-joiner :
      (conn : Conn) (cid from : String) (ps : List (String × Conn)) (s : Peers)
      → is_open conn ≡ true
      → find_conn cid ps ≡ some conn
      → is_told conn from (announce is_open from ps s).written ≡ true
  unfolding announce find_conn
  told-joiner conn cid from [] s h f = ground (arith, f)
  told-joiner conn cid from ((k, c) ∷ ps) s h f =
      elim (at_head (str_eq k cid) (some c) (find_conn cid ps) (some conn) f) [
        | inl g ↦ told-announce conn from from ps _ (told_at_once conn c k from s h g)
        | inr g ↦ told-joiner conn cid from ps _ h g
      ]

  has_cid-other_cids :
      (conn : Conn) (cid from : String) (ps : List (String × Conn))
      → str_eq from cid ≡ false
      → find_conn cid ps ≡ some conn
      → has_cid cid (other_cids from ps) ≡ true
  unfolding find_conn other_cids has_cid
  has_cid-other_cids conn cid from [] h f = ground (arith, f)
  has_cid-other_cids conn cid from ((k, c) ∷ ps) h f =
      let ih = has_cid-other_cids conn cid from ps h in
      ground (arith, h, f, ih, eq_iff k cid, eq_iff k from, eq_iff from cid)

  told-lists :
      (conn : Conn) (cid from : String) (ks : List String) (s : Peers)
      → is_open conn ≡ true
      → has_cid cid ks ≡ true
      → is_told conn cid (tell_joiner is_open conn from ks s).written ≡ true
  unfolding tell_joiner write_json is_told names
  told-lists conn cid from [] s h f = ground (arith, f)
  told-lists conn cid from (k ∷ ks) s h f = ground (arith, h, f)

  run_sections-append :
      (xs ys : List Section) (s : Peers)
      → run_sections is_open (xs ++ ys) s ≡ run_sections is_open ys (run_sections is_open xs s)
  unfolding run_sections
  run_sections-append [] ys s = refl
  run_sections-append (x ∷ xs) ys s = run_sections-append xs ys (section is_open x s)

  -- Two devices with different cids join, the first one under a cid that is not empty, each on a
  -- connection that takes messages, and other sections come in between in any way. If no other
  -- connection stands for the first cid before, and until the second device gets its list nobody
  -- enters the first cid again and the first connection does not end, then afterwards the first
  -- device was told of the second one and the second one of the first.
  pub discovery :
      (a b : String) (c d : Conn) (xs ys : List Section) (s : Peers)
      → is_open c ≡ true
      → is_open d ≡ true
      → str_eq a "" ≡ false
      → str_eq b a ≡ false
      → ((e : Conn) → find_cid_of e s.cid_of ≡ some a → (e == c) ≡ true)
      → spare a c xs ≡ true
      → spare a c ys ≡ true
      → (is_told c b (run_sections is_open (two_joins a b c d xs ys) s).written ≡ true)
        × (is_told d a (run_sections is_open (two_joins a b c d xs ys) s).written ≡ true)
  unfolding section run_sections spares register
  discovery a b c d xs ys s hc hd ha hb alone kx ky =
      let s₁ = section is_open (enters c a) s in
      let s₂ = run_sections is_open xs s₁ in
      let s₃ = section is_open (enters d b) s₂ in
      let s₄ = run_sections is_open ys s₃ in
      let in₂ = Owns-run_sections is_open a c xs s₁ ha kx (Owns-enters is_open a c s alone) in
      let in₃ = Owns-section is_open a c (enters d b) s₂ ha (ground (arith, hb)) in₂ in
      let in₄ = Owns-run_sections is_open a c ys s₃ ha ky in₃ in
      let first = told-run_sections c b ys s₃ (told-joiner c a b s₂.peers s₂ hc in₂.found) in
      let whole : run_sections is_open (two_joins a b c d xs ys) s
          ≡ section is_open (lists d b) s₄ =
        run_sections-append xs _ s₁ ∙ run_sections-append ys _ s₃ in
      (
        ap (λ t. is_told c b t.written) whole ∙ told-section c b (lists d b) s₄ first,
        ap (λ t. is_told d a t.written) whole
            ∙ told-lists d a b (other_cids b s₄.peers) s₄ hd
                (has_cid-other_cids c a b s₄.peers hb in₄.found),
      )
