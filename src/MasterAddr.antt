-- ===== src/MasterAddr.antt =====
-- http_server/handle/master_addr.go: the addresses of the masters of a backup device, its public key,
-- and the address of a new key.
pub mod Effects
use das_multi_device.Prelude.{ℕ, String, Option, none, some, List, [], ◌∷◌}
use das_multi_device.Outcome.{wrap, Result, ok, err, change_err, Exec, pure, lift, on_err, ◌>>=◌}
use das_multi_device.Api.{db_error, Handled, fail, untouched, handled, answer}
use das_multi_device.Dao.{Db, CidPk, Authorize}
use das_multi_device.Dao.ParserTables.{get_cid_pk, get_masters}
use das_multi_device.OldCid.{Codec, decode_coordinates}

-- Bytes2Hex of CalculateCid1, and the payload of a cid and a public key given in hexadecimal.
pub record Cids : Type 0 where
  pub cid1_of : String → String
  pub payload_of : String → String → String

-- The loop over the rows. An error of HexToNormal leaves the response as it was made.
unfoldable pub master_addresses :
    Codec → Cids → List Authorize → Result (Handled (List String)) (List String)
master_addresses codec cids [] = ok []
master_addresses codec cids (v ∷ vs) =
    let rest = master_addresses codec cids vs in
    elim (codec.hex_to_normal (cids.payload_of v.master_cid v.master_pk)) [
      | err e ↦ err (untouched (some e))
      | ok address ↦ elim rest [ err h ↦ err h | ok addresses ↦ ok (address ∷ addresses) ]
    ]

unfoldable pub masters_body : Codec → Cids → String → Exec Db (Handled (List String)) (List String)
unfolding ◌>>=◌ master_addresses
masters_body codec cids cid = do
  authorizes ←
      on_err (λ e. fail db_error "getMaster err" (wrap "GetMasters" e))
        (get_masters (cids.cid1_of cid))
  lift (master_addresses codec cids authorizes)

-- doGetMasters
unfoldable pub do_get_masters : Codec → Cids → String → Db → Handled (List String) × Db
unfolding masters_body
do_get_masters codec cids cid = handled (masters_body codec cids cid)

-- The zero row of a missing cid has an empty key.
unfoldable pub origin_pk_of : Option CidPk → String
origin_pk_of none = ""
origin_pk_of (some r) = r.origin_pk

unfoldable pub original_pk_body : Cids → String → Exec Db (Handled String) String
unfolding ◌>>=◌ origin_pk_of
original_pk_body cids cid = do
  found ←
      on_err (λ e. fail db_error "GetCidPk err" (wrap "GetMasters" e))
        (get_cid_pk (cids.cid1_of cid))
  pure (origin_pk_of found)

-- doGetOriginalPk
unfoldable pub do_get_original_pk : Cids → String → Db → Handled String × Db
unfolding original_pk_body
do_get_original_pk cids cid = handled (original_pk_body cids cid)

-- An error of HexToNormal leaves the response as it was made.
abbrev address_result : Codec → String → Result (Handled String) String
address_result codec payload =
    change_err (λ e. untouched (some (wrap "HexToNormal" e))) (codec.hex_to_normal payload)

key_address :
    Codec → String → Result (Handled String) (List ℕ × List ℕ) → Result (Handled String) String
key_address codec cid (err h) = err h
key_address codec cid (ok (x, y)) = address_result codec (codec.webauthn_payload cid x y)

-- doCalculateCkbAddr
unfoldable pub do_calculate_ckb_addr : Codec → String → String → String → Handled String
unfolding key_address
do_calculate_ckb_addr codec cid x y = answer (key_address codec cid (decode_coordinates codec x y))
