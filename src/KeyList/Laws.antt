-- ===== src/KeyList/Laws.antt =====
-- The list of keys as a set of at most ten devices.
use mathlib.Core.List.{append-nil, append_assoc}
use das_multi_device.Prelude.{
  ◌≤◌, ◌≡◌, refl, Bool, true, false, not, ◌&&◌, ◌||◌, List, [], ◌∷◌, ◌++◌, arith, eq_iff,
  if◌then◌else◌, length, length-append, select,
}
use das_multi_device.Outcome.{plain, ok, err}
use das_multi_device.KeyList.{
  WebauthnKey, KeyOperate, add, delete, other, same_key, has_key, add_key, delete_loop, delete_key,
  update_keys,
}

-- The keys other than `k`, in their order.
unfoldable pub others : WebauthnKey → List WebauthnKey → List WebauthnKey
unfolding select
others k keys = select (λ v. not (same_key v k)) keys

loop-eq :
    (k : WebauthnKey) (vs : List WebauthnKey) (e : Bool) (new : List WebauthnKey)
    → ◌≡◌ {A = Bool × List WebauthnKey}
        (delete_loop k vs e new)
        (e || has_key k vs, new ++ others k vs)
unfolding delete_loop has_key others
loop-eq k [] e new = ground (arith, append-nil new)
loop-eq k (v ∷ vs) e new = ground (
  arith,
  append_assoc new (v ∷ []) (others k vs),
  loop-eq k vs true new,
  loop-eq k vs e (new ++ v ∷ []),
)

-- Deleting removes every copy of the key, keeps the others in order, and fails exactly if there is none.
pub delete_key-eq-others :
    (k : WebauthnKey) (keys : List WebauthnKey)
    → delete_key k keys
      ≡ (if has_key k keys then ok (others k keys) else err (plain "this deviceKey isn`t exist"))
unfolding delete_key
delete_key-eq-others k keys = rw loop-eq

same_key_refl : (k : WebauthnKey) → same_key k k ≡ true
same_key_refl k = ground (arith, eq_iff k.cid k.cid, eq_iff k.pub_key k.pub_key)

pub has_key-append :
    (j k : WebauthnKey) (keys : List WebauthnKey)
    → has_key j (keys ++ k ∷ []) ≡ (has_key j keys || same_key k j)
unfolding has_key
has_key-append j k [] = ground arith
has_key-append j k (v ∷ vs) = ground (arith, has_key-append j k vs)

pub has_key-others :
    (j k : WebauthnKey) (keys : List WebauthnKey)
    → has_key j (others k keys) ≡ (has_key j keys && not (same_key k j))
unfolding has_key others
has_key-others j k [] = refl
has_key-others j k (v ∷ vs) = ground (
  arith,
  has_key-others j k vs,
  eq_iff v.cid j.cid,
  eq_iff v.pub_key j.pub_key,
  eq_iff v.cid k.cid,
  eq_iff v.pub_key k.pub_key,
  eq_iff k.cid j.cid,
  eq_iff k.pub_key j.pub_key,
)

pub others-absent :
    (k : WebauthnKey) (keys : List WebauthnKey) → has_key k keys ≡ false → others k keys ≡ keys
unfolding has_key others
others-absent k [] h = refl
others-absent k (v ∷ vs) h = ground (arith, others-absent k vs)

others-append :
    (k : WebauthnKey) (keys : List WebauthnKey) → others k (keys ++ k ∷ []) ≡ others k keys
unfolding others
others-append k [] = ground (arith, same_key_refl k)
others-append k (v ∷ vs) = ground (arith, others-append k vs)

-- No key occurs twice.
abbrev pub Distinct : List WebauthnKey → Type 0
Distinct [] = Unit
Distinct (v ∷ vs) = (has_key v vs ≡ false) × Distinct vs

same_key_sym : (j k : WebauthnKey) → same_key j k ≡ same_key k j
same_key_sym j k = ground (
  arith,
  eq_iff j.cid k.cid,
  eq_iff k.cid j.cid,
  eq_iff j.pub_key k.pub_key,
  eq_iff k.pub_key j.pub_key,
)

Distinct-append :
    (k : WebauthnKey) (keys : List WebauthnKey)
    → has_key k keys ≡ false
    → Distinct keys
    → Distinct (keys ++ k ∷ [])
unfolding has_key
Distinct-append k [] absent d = (refl, tt)
Distinct-append k (v ∷ vs) absent d =
    ground (arith, has_key-append v k vs, same_key_sym v k, Distinct-append k vs)

Distinct-others :
    (k : WebauthnKey) (keys : List WebauthnKey) → Distinct keys → Distinct (others k keys)
unfolding others
Distinct-others k [] d = tt
Distinct-others k (v ∷ vs) d = ground (arith, has_key-others v k vs, Distinct-others k vs)

length-others-le :
    (k : WebauthnKey) (keys : List WebauthnKey) → length (others k keys) ≤ length keys
unfolding others
length-others-le k [] = omega arith
length-others-le k (v ∷ vs) = ground (arith, length-others-le k vs)

-- A key list: at most ten keys, none of them twice.
pub record IsKeyList (keys : List WebauthnKey) : Type 0 where
  pub fits : length keys ≤ 10
  pub distinct : Distinct keys

add-IsKeyList :
    (k : WebauthnKey) (keys keys' : List WebauthnKey)
    → IsKeyList keys
    → add_key k keys ≡ ok keys'
    → IsKeyList keys'
unfolding add_key
add-IsKeyList k keys keys' l h = ground (arith, length-append keys (k ∷ []), Distinct-append k keys)

delete-IsKeyList :
    (k : WebauthnKey) (keys keys' : List WebauthnKey)
    → IsKeyList keys
    → delete_key k keys ≡ ok keys'
    → IsKeyList keys'
delete-IsKeyList k keys keys' l h =
    ground (arith, delete_key-eq-others k keys, length-others-le k keys, Distinct-others k keys)

-- Whatever the operation, a successful update leaves at most ten keys and none twice.
pub update_keys-IsKeyList :
    (operation : KeyOperate) (k : WebauthnKey) (keys keys' : List WebauthnKey)
    → IsKeyList keys
    → update_keys operation k keys ≡ ok keys'
    → IsKeyList keys'
unfolding update_keys
update_keys-IsKeyList add k keys keys' l h = add-IsKeyList k keys keys' l h
update_keys-IsKeyList delete k keys keys' l h = delete-IsKeyList k keys keys' l h
update_keys-IsKeyList other k keys keys' l h = delete-IsKeyList k keys keys' l h

-- Deleting the key that was just added gives the old list back.
pub delete_key-add_key :
    (k : WebauthnKey) (keys keys' : List WebauthnKey)
    → add_key k keys ≡ ok keys'
    → delete_key k keys' ≡ ok keys
unfolding add_key
delete_key-add_key k keys keys' h = ground (
  arith,
  delete_key-eq-others k keys',
  has_key-append k k keys,
  same_key_refl k,
  others-append k keys,
  others-absent k keys,
)

-- Whether a device is in the list after an operation on `k`, where `was` says whether it was in the
-- list before, and `is_k` whether it is the device `k`.
abbrev pub stays_in : KeyOperate → Bool → Bool → Bool
stays_in add was is_k = was || is_k
stays_in delete was is_k = was && not is_k
stays_in other was is_k = was && not is_k

-- After a successful addition a device is in the list exactly if it was, or if it is the new one;
-- after a successful deletion exactly if it was, and is not the deleted one.
pub has_key-update_keys :
    (operation : KeyOperate) (j k : WebauthnKey) (keys keys' : List WebauthnKey)
    → update_keys operation k keys ≡ ok keys'
    → has_key j keys' ≡ stays_in operation (has_key j keys) (same_key k j)
unfolding update_keys add_key
has_key-update_keys add j k keys keys' h = ground (arith, has_key-append j k keys)
has_key-update_keys delete j k keys keys' h =
    ground (arith, delete_key-eq-others k keys, has_key-others j k keys)
has_key-update_keys other j k keys keys' h =
    ground (arith, delete_key-eq-others k keys, has_key-others j k keys)
