-- ===== src/Ecdsa.antt =====
-- http_server/handle/ecdsa.go: the address of a key recovered from two signatures, and the check of a
-- signature by a device of a key list.
use das_multi_device.Prelude.{
  ℕ, String, Bool, Option, none, some, List, [], ◌∷◌, ◌++◌, str_eq, if◌then◌else◌,
}
use das_multi_device.Outcome.{Error, plain, wrap, Result, ok, err, change_err}
use das_multi_device.Api.{
  params_invalid, permission_denied, sign_error, Handled, fail, refuse, untouched, answer,
}
use das_multi_device.Service.{AddressHex}

-- WebauthnSignData
pub record WebauthnSignData : Type 0 where
  pub authenticator_data : String
  pub client_data_json : String
  pub signature : String

-- common.RecoverData
pub record RecoverData : Type 0 where
  pub sign_digest : List ℕ
  pub r : ℕ
  pub s : ℕ

-- hex.DecodeString, sha256.Sum256, asn1.Unmarshal of a signature, EcdsaRecover on P-256,
-- GetWebauthnPayload of a cid and a public key, Daf().HexToNormal
pub record Crypto : Type 0 where
  pub decode_hex : String → Result Error (List ℕ)
  pub sha256 : List ℕ → List ℕ
  pub unmarshal_signature : List ℕ → Result Error (ℕ × ℕ)
  pub ecdsa_recover : RecoverData → RecoverData → Result Error (ℕ × ℕ)
  pub webauthn_payload : String → ℕ × ℕ → String
  pub hex_to_normal : String → Result Error String

module _ {E A B : Type 0} where
  infixl 5 ◌>>=◌
  abbrev ◌>>=◌ : Result E A → (A → Result E B) → Result E B
  ok a >>= f = f a
  err e >>= f = err e

-- One turn of the loop. An error of asn1 leaves the response as it was made.
unfoldable pub recover_data : Crypto → WebauthnSignData → Result (Handled String) RecoverData
recover_data c d = do
  authenticator_data ←
      change_err
        (λ _. fail params_invalid "AuthenticatorData  error" (plain "AuthenticatorData is error"))
        (c.decode_hex d.authenticator_data)
  client_data_json ←
      change_err
        (λ _. fail params_invalid "ClientDataJson  error" (plain "ClientDataJson is error"))
        (c.decode_hex d.client_data_json)
  signature ←
      change_err (λ _. fail params_invalid "Signature  error" (plain "signature is error"))
        (c.decode_hex d.signature)
  e ←
      change_err (λ e. untouched (some (wrap "Error asn1 unmarshal signature" e)))
        (c.unmarshal_signature signature)
  ok (record {
    sign_digest = c.sha256 (authenticator_data ++ c.sha256 client_data_json);
    r = e.0;
    s = e.1;
  })

-- Two signatures at least; the others are not read. Errors of the recovery and of HexToNormal leave the
-- response as it was made.
unfoldable pub ecrecover_body :
    Crypto → String → List WebauthnSignData → Result (Handled String) String
unfolding recover_data
ecrecover_body c cid [] = err (refuse params_invalid "Webauthn sign data must exceed 2")
ecrecover_body c cid (d ∷ []) = err (refuse params_invalid "Webauthn sign data must exceed 2")
ecrecover_body c cid (d ∷ d' ∷ ds) = do
  first ← recover_data c d
  second ← recover_data c d'
  key ← change_err (λ e. untouched (some e)) (c.ecdsa_recover first second)
  change_err (λ e. untouched (some (wrap "HexToNormal" e)))
      (c.hex_to_normal (c.webauthn_payload cid key))

-- doEcrecover
unfoldable pub do_ecrecover : Crypto → String → List WebauthnSignData → Handled String
unfolding ecrecover_body
do_ecrecover c cid sign_data = answer (ecrecover_body c cid sign_data)

pub record ReqVerify : Type 0 where
  pub master_addr : String
  pub backup_addr : String
  pub msg : String
  pub signature : String

-- Daf().NormalToHex at ChainTypeWebauthn, GetIdxOfKeylist (-1 is none), AddPkIndexForSignMsg,
-- http_api.VerifySignature at the WebAuthn algorithm
pub record Verifier : Type 0 where
  pub normal_to_hex : String → Result Error AddressHex
  pub idx_of_key_list : AddressHex → AddressHex → Result Error (Option ℕ)
  pub add_pk_index : String → ℕ → String
  pub verify_signature : String → String → String → Result Error Bool

found_index : Option ℕ → Result (Handled Bool) ℕ
found_index none = err (fail permission_denied "permission denied" (plain "permission denied"))
found_index (some idx) = ok idx

-- 255 stands for the master's own key.
unfoldable pub index_of : Verifier → ReqVerify → AddressHex → Result (Handled Bool) ℕ
unfolding found_index
index_of v req backup = if str_eq req.master_addr req.backup_addr then ok 255 else (do
  master ←
      change_err (fail params_invalid "sign address NormalToHex err")
        (v.normal_to_hex req.master_addr)
  idx ←
      change_err (λ e. fail params_invalid "GetIdxOfKeylist err" (wrap "GetIdxOfKeylist" e))
        (v.idx_of_key_list master backup)
  found_index idx)

unfoldable pub verify_body : Verifier → ReqVerify → Result (Handled Bool) Bool
unfolding index_of
verify_body v req = do
  backup ←
      change_err (fail params_invalid "sign address NormalToHex err")
        (v.normal_to_hex req.backup_addr)
  idx ← index_of v req backup
  change_err (λ e. fail sign_error "VerifySignature err" (wrap "VerifySignature" e))
      (v.verify_signature req.msg (v.add_pk_index req.signature idx) backup.address_hex)

-- doVerifyWebauthnSign
unfoldable pub do_verify_webauthn_sign : Verifier → ReqVerify → Handled Bool
unfolding verify_body
do_verify_webauthn_sign v req = answer (verify_body v req)
