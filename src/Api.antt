-- ===== src/Api.antt =====
-- http_api.ApiResp, as http_server/api_code/api_code.go still shows it, and the shape of the
-- handlers: each fills the response and returns a Go error, which is only logged.
use das_multi_device.Prelude.{String, Option, none, some}
use das_multi_device.Outcome.{Error, Result, ok, err, Exec}

-- The codes that the handlers use; `success` is 0, the value of a response that nobody filled.
pub data ApiCode : Type 0 where
  success error500 params_invalid db_error cache_error : ApiCode
  transaction_not_exist tx_expired rejected_out_point operation_frequent : ApiCode
  account_not_exist permission_denied system_upgrade sign_error : ApiCode
  has_no_access_to_create create_config_cell_fail has_no_access_to_remove : ApiCode

pub ApiCode-discrete : Discrete ApiCode
ApiCode-discrete = hlevel

pub record ApiResp (D : Type 0) : Type 0 where
  pub err_no : ApiCode
  pub err_msg : String
  pub payload : Option D

-- The response, and the error that the handler returns.
pub record Handled (D : Type 0) : Type 0 where
  pub resp : ApiResp D
  pub error : Option Error

module _ {D : Type 0} where
  -- apiResp.ApiRespErr(code, msg); return err
  abbrev pub fail : ApiCode → String → Error → Handled D
  fail code msg e = record {
    resp = record { err_no = code; err_msg = msg; payload = none };
    error = some e;
  }

  -- apiResp.ApiRespErr(code, msg); return nil
  abbrev pub refuse : ApiCode → String → Handled D
  refuse code msg = record {
    resp = record { err_no = code; err_msg = msg; payload = none };
    error = none;
  }

  -- return err, with the response as it was made
  abbrev pub untouched : Option Error → Handled D
  untouched e = record {
    resp = record { err_no = ApiCode.success; err_msg = ""; payload = none };
    error = e;
  }

  -- apiResp.ApiRespOK(d); return nil
  abbrev pub respond_ok : D → Handled D
  respond_ok d = record {
    resp = record { err_no = ApiCode.success; err_msg = ""; payload = some d };
    error = none;
  }

  abbrev pub answer : Result (Handled D) D → Handled D
  answer (ok d) = respond_ok d
  answer (err h) = h

-- A handler's body ends in its data, or leaves early with what it has to say.
unfoldable pub handled : {S D : Type 0} → Exec S (Handled D) D → S → Handled D × S
handled body s = let (r, s') = body s in (answer r, s')
