-- ===== src/KeyList/Devices.antt =====
-- The key list of a master as the set of its devices, where neither the order of the keys nor a
-- repetition counts: what buildUpdateAuthorizeTx makes of the list is an operation on the set.
use mathlib.Core.Quot
use mathlib.Core.Quot.{Quot, Quot-set}
use das_multi_device.Prelude.{
  ℕ, ◌+◌, ◌-◌, ◌≡◌, refl, sym, ap, ◌∙◌, Bool, true, false, not, ◌&&◌, ◌||◌, List, [], ◌∷◌, ◌++◌,
  arith, ltb, eq_iff, if◌then◌else◌, length, length-append,
}
use das_multi_device.Outcome.{Error, Result, ok, err}
use das_multi_device.KeyList.{
  WebauthnKey, KeyOperate, add, delete, other, same_key, has_key, add_key, delete_key, update_keys,
}
use das_multi_device.KeyList.Laws.{
  IsKeyList, Distinct, update_keys-IsKeyList, others, others-absent, has_key-append, has_key-others,
  delete_key-eq-others,
}

abbrev pub SameDevices : List WebauthnKey → List WebauthnKey → Type 0
SameDevices xs ys = (k : WebauthnKey) → has_key k xs ≡ has_key k ys

abbrev pub DeviceSet : Type 0
DeviceSet = Quot SameDevices

abbrev pub devices : List WebauthnKey → DeviceSet
devices = Quot.mk

unfoldable pub holds : WebauthnKey → DeviceSet → Bool
holds k = Quot.lift (hlevel) (has_key k) λ xs ys h. h k

-- Two sets that hold the same devices are one.
ext : (x y : DeviceSet) → ((k : WebauthnKey) → holds k x ≡ holds k y) → x ≡ y
unfolding holds
ext = Quot.ind (λ _. hlevel Quot-set) λ xs. Quot.ind (λ _. hlevel Quot-set) λ ys. Quot.sound

unfoldable pub insert : WebauthnKey → DeviceSet → DeviceSet
unfolding has_key
insert k =
    Quot.lift Quot-set (λ xs. devices (k ∷ xs))
      λ xs ys h. Quot.sound λ j. ap (λ b. same_key k j || b) (h j)

unfoldable pub remove : WebauthnKey → DeviceSet → DeviceSet
remove k =
    Quot.lift Quot-set (λ xs. devices (others k xs))
      λ xs ys h. Quot.sound λ j.
        has_key-others j k xs
        ∙ ap (λ b. b && not (same_key k j)) (h j)
        ∙ sym (has_key-others j k ys)

pub holds-insert :
    (j k : WebauthnKey) (x : DeviceSet) → holds j (insert k x) ≡ (same_key k j || holds j x)
unfolding holds insert has_key
holds-insert j k = Quot.ind (λ _. hlevel) λ xs. refl

pub holds-remove :
    (j k : WebauthnKey) (x : DeviceSet) → holds j (remove k x) ≡ (holds j x && not (same_key k j))
unfolding holds remove
holds-remove j k = Quot.ind (λ _. hlevel) (has_key-others j k)

-- Additions and deletions of different devices commute.
insert-remove_comm :
    (j k : WebauthnKey) (x : DeviceSet)
    → same_key j k ≡ false
    → insert j (remove k x) ≡ remove k (insert j x)
insert-remove_comm j k x h = ext _ _ λ i. ground (
  arith,
  holds-insert i j (remove k x),
  holds-remove i k x,
  holds-remove i k (insert j x),
  holds-insert i j x,
  eq_iff j.cid i.cid,
  eq_iff j.pub_key i.pub_key,
  eq_iff k.cid i.cid,
  eq_iff k.pub_key i.pub_key,
  eq_iff j.cid k.cid,
  eq_iff j.pub_key k.pub_key,
)

-- The set of devices with their number.
pub record Roster : Type 0 where
  pub count : ℕ
  pub set : DeviceSet

abbrev pub roster : List WebauthnKey → Roster
roster keys = record { count = length keys; set = devices keys }

-- What an operation does to a set of at most ten devices: nothing when it is refused.
abbrev pub changed : KeyOperate → WebauthnKey → Roster → Roster
changed add k r =
    if ltb r.count 10 && not (holds k r.set)
    then record { count = r.count + 1; set = insert k r.set }
    else r
changed delete k r =
    if holds k r.set then record { count = r.count - 1; set = remove k r.set } else r
changed other k r =
    if holds k r.set then record { count = r.count - 1; set = remove k r.set } else r

abbrev pub all_changed : List (KeyOperate × WebauthnKey) → Roster → Roster
all_changed [] r = r
all_changed ((operation, k) ∷ os) r = all_changed os (changed operation k r)

abbrev pub kept_or : List WebauthnKey → Result Error (List WebauthnKey) → List WebauthnKey
kept_or keys (ok keys') = keys'
kept_or keys (err e) = keys

-- The requests for one list, one after another, each on the list that the one before left.
unfoldable pub update_all : List (KeyOperate × WebauthnKey) → List WebauthnKey → List WebauthnKey
unfolding update_keys
update_all [] keys = keys
update_all ((operation, k) ∷ os) keys = update_all os (kept_or keys (update_keys operation k keys))

devices-append :
    (k : WebauthnKey) (keys : List WebauthnKey) → devices (keys ++ k ∷ []) ≡ insert k (devices keys)
unfolding insert has_key
devices-append k keys = Quot.sound λ j. has_key-append j k keys ∙ ground arith

roster-add :
    (k : WebauthnKey) (keys : List WebauthnKey)
    → roster (kept_or keys (add_key k keys)) ≡ changed add k (roster keys)
unfolding add_key holds
roster-add k keys = ground (arith, length-append keys (k ∷ []), devices-append k keys)

has_key-same :
    (v k : WebauthnKey) (keys : List WebauthnKey)
    → same_key v k ≡ true
    → has_key k keys ≡ has_key v keys
unfolding has_key
has_key-same v k [] h = refl
has_key-same v k (w ∷ ws) h = ground (
  arith,
  h,
  has_key-same v k ws h,
  eq_iff v.cid k.cid,
  eq_iff v.pub_key k.pub_key,
  eq_iff w.cid k.cid,
  eq_iff w.pub_key k.pub_key,
  eq_iff w.cid v.cid,
  eq_iff w.pub_key v.pub_key,
)

length-others :
    (k : WebauthnKey) (keys : List WebauthnKey)
    → Distinct keys
    → has_key k keys ≡ true
    → length (others k keys) + 1 ≡ length keys
unfolding others has_key
length-others k [] d h = ground (arith, h)
length-others k (v ∷ vs) d h =
    ground (arith, d, h, has_key-same v k vs, others-absent k vs, length-others k vs)

roster-delete :
    (k : WebauthnKey) (keys : List WebauthnKey)
    → Distinct keys
    → roster (kept_or keys (delete_key k keys)) ≡ changed delete k (roster keys)
unfolding holds remove
roster-delete k keys d = ground (arith, delete_key-eq-others k keys, length-others k keys d)

kept_or-IsKeyList :
    (keys : List WebauthnKey) (r : Result Error (List WebauthnKey))
    → IsKeyList keys
    → ((keys' : List WebauthnKey) → r ≡ ok keys' → IsKeyList keys')
    → IsKeyList (kept_or keys r)
kept_or-IsKeyList keys (ok keys') l h = h keys' refl
kept_or-IsKeyList keys (err e) l h = l

roster-update_keys :
    (operation : KeyOperate) (k : WebauthnKey) (keys : List WebauthnKey)
    → IsKeyList keys
    → roster (kept_or keys (update_keys operation k keys)) ≡ changed operation k (roster keys)
unfolding update_keys
roster-update_keys add k keys l = roster-add k keys
roster-update_keys delete k keys l = roster-delete k keys l.distinct
roster-update_keys other k keys l = roster-delete k keys l.distinct

-- From a list of at most ten keys without repetition, after any sequence of operations, of which
-- each works on the list that the ones before left and a refused one leaves it, the devices of the
-- list and their number are what the same operations make of a set of devices with its number: an
-- addition is refused exactly if the set holds ten or holds the device, a deletion exactly if it
-- does not hold it.
pub roster-update_all :
    (os : List (KeyOperate × WebauthnKey)) (keys : List WebauthnKey)
    → IsKeyList keys
    → roster (update_all os keys) ≡ all_changed os (roster keys)
unfolding update_all
roster-update_all [] keys l = refl
roster-update_all ((operation, k) ∷ os) keys l =
    let l' : IsKeyList (kept_or keys (update_keys operation k keys)) =
      kept_or-IsKeyList keys (update_keys operation k keys) l
        λ keys'. update_keys-IsKeyList operation k keys keys' l in
    roster-update_all os (kept_or keys (update_keys operation k keys)) l'
    ∙ ap (all_changed os) (roster-update_keys operation k keys l)
