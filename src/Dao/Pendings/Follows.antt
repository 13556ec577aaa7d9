-- ===== src/Dao/Pendings/Follows.antt =====
-- dao/t_webauthn_pending_info.go: rows that become later versions of themselves, each in its place.
use das_multi_device.Prelude.{
  ℕ, ◌≤◌, Bool, true, false, List, [], ◌∷◌, ◌++◌, ◌≡◌, refl, subst, ◌∙◌, arith, update_where,
  if◌then◌else◌, some, find_first,
}
use das_multi_device.Dao.{PendingInfo, Status, pending, rejected, confirm}
use das_multi_device.Dao.Pendings.{confirmed, is_pending, maybe_rejected}

-- A row may go from pending to rejected and from both to confirmed, never back.
abbrev pub rank : Status → ℕ
rank pending = 0
rank rejected = 1
rank confirm = 2

-- The same row, later.
pub record Later (r r' : PendingInfo) : Type 0 where
  pub same_id : r'.id ≡ r.id
  pub same_action : r'.action ≡ r.action
  pub same_outpoint : r'.outpoint ≡ r.outpoint
  pub not_back : rank r.status ≤ rank r'.status

-- Every row is still in its place, as it is later; new rows come behind them.
unfoldable pub Follows : List PendingInfo → List PendingInfo → Type 0
Follows [] rows' = Unit
Follows (r ∷ rows) [] = ⊥
Follows (r ∷ rows) (r' ∷ rows') = Later r r' × Follows rows rows'

Later-refl : (r : PendingInfo) → Later r r
Later-refl r = record {
  same_id = refl;
  same_action = refl;
  same_outpoint = refl;
  not_back = omega arith;
}

Later-trans : {r s t : PendingInfo} → Later r s → Later s t → Later r t
Later-trans a b = record {
  same_id = b.same_id ∙ a.same_id;
  same_action = b.same_action ∙ a.same_action;
  same_outpoint = b.same_outpoint ∙ a.same_outpoint;
  not_back = omega (arith, a.not_back, b.not_back);
}

pub Follows-append : (rows new : List PendingInfo) → Follows rows (rows ++ new)
unfolding Follows
Follows-append [] new = tt
Follows-append (r ∷ rows) new = (Later-refl r, Follows-append rows new)

pub Follows-refl : (rows : List PendingInfo) → Follows rows rows
unfolding Follows
Follows-refl [] = tt
Follows-refl (r ∷ rows) = (Later-refl r, Follows-refl rows)

pub Follows-trans :
    (rows rows' rows'' : List PendingInfo)
    → Follows rows rows'
    → Follows rows' rows''
    → Follows rows rows''
unfolding Follows
Follows-trans [] rows' rows'' h k = tt
Follows-trans (r ∷ rows) [] rows'' h k = absurd h
Follows-trans (r ∷ rows) (r' ∷ rows') [] h k = absurd k
Follows-trans (r ∷ rows) (r' ∷ rows') (r'' ∷ rows'') h k =
    (Later-trans h.0 k.0, Follows-trans rows rows' rows'' h.1 k.1)

-- An update that makes a row later where its condition holds.
module _ (test : PendingInfo → Bool) (f : PendingInfo → PendingInfo)
    (later : (r : PendingInfo) → test r ≡ true → Later r (f r)) where
  updated-Later : (r : PendingInfo) (b : Bool) → test r ≡ b → Later r (if b then f r else r)
  updated-Later r true e = later r e
  updated-Later r false e = Later-refl r

  pub Follows-update_where : (rows : List PendingInfo) → Follows rows (update_where test f rows)
  unfolding Follows update_where
  Follows-update_where [] = tt
  Follows-update_where (r ∷ rows) = (updated-Later r (test r) refl, Follows-update_where rows)

rank_most : (s : Status) → rank s ≤ 2
rank_most pending = omega arith
rank_most rejected = omega arith
rank_most confirm = omega arith

rank_pending : (s : Status) → is_pending s ≡ true → rank s ≤ 1
rank_pending pending e = omega arith
rank_pending rejected e = omega arith
rank_pending confirm e = cc

pub confirmed-Later :
    (number timestamp : ℕ) (r : PendingInfo) → Later r (confirmed number timestamp r)
confirmed-Later number timestamp r = record {
  same_id = refl;
  same_action = refl;
  same_outpoint = refl;
  not_back = rank_most r.status;
}

pub rejected-Later :
    (timestamp : ℕ) (r : PendingInfo)
    → maybe_rejected timestamp r ≡ true
    → Later r (record r { status = rejected })
unfolding maybe_rejected
rejected-Later timestamp r e = record {
  same_id = refl;
  same_action = refl;
  same_outpoint = refl;
  not_back = rank_pending r.status (ground arith);
}

-- The first row with an outpoint is the same one, later.
module _ (test : PendingInfo → Bool)
    (stays : (r r' : PendingInfo) → Later r r' → test r' ≡ test r) where
  find_first-cons :
      (r r' : PendingInfo) (rows rows' : List PendingInfo) (b : Bool) (found : PendingInfo)
      → test r ≡ b
      → Later r r'
      → find_first test (r ∷ rows) ≡ some found
      → (find_first test rows ≡ some found
          → (found' : PendingInfo) × (find_first test rows' ≡ some found') × Later found found')
      → (found' : PendingInfo) × (find_first test (r' ∷ rows') ≡ some found') × Later found found'
  unfolding find_first
  find_first-cons r r' rows rows' true found e l h rest =
      let e' : test r' ≡ true = stays r r' l ∙ e in
      let same : r ≡ found = ground arith in (r', rw e' refl, subst (λ x. Later x r') same l)
  find_first-cons r r' rows rows' false found e l h rest =
      let e' : test r' ≡ false = stays r r' l ∙ e in
      let old : find_first test rows ≡ some found = ground arith in
      let (found', here, later) = rest old in (found', rw e' here, later)

  pub find_first-Follows :
      (rows rows' : List PendingInfo) (found : PendingInfo)
      → Follows rows rows'
      → find_first test rows ≡ some found
      → (found' : PendingInfo) × (find_first test rows' ≡ some found') × Later found found'
  unfolding Follows find_first
  find_first-Follows [] rows' found h e = cc
  find_first-Follows (r ∷ rows) [] found h e = absurd h
  find_first-Follows (r ∷ rows) (r' ∷ rows') found h e =
      find_first-cons r r' rows rows' (test r) found refl h.0 e
        (find_first-Follows rows rows' found h.1)
