-- ===== src/Notify.antt =====
-- notify/notify.go and notify/notify_discord.go: the messages to Lark and to Discord, which nothing sends
-- now. GetLarkTextNotifyStr and SendLarkErrNotify are in Metrics.
use Prim.Native.String.{◌++◌ as string_append}
use das_multi_device.Prelude.{
  ℕ, String, Bool, true, false, not, ◌&&◌, ◌||◌, List, ◌∷◌, ◌≡◌, arith, str_eq, ◌==◌, if◌then◌else◌,
}
use das_multi_device.Outcome.{Error, wrap, Result, ok, err}

-- MsgData, less the email, which is empty, and the tag and the escape of the one text.
pub record LarkMessage : Type 0 where
  pub url : String
  pub title : String
  pub text : String

lark_url : String → String
lark_url key = string_append "https://open.larksuite.com/open-apis/bot/v2/hook/" key

-- SendLarkTextNotify, as the messages that were posted: what comes back is only logged.
unfoldable pub send_lark_text_notify :
    String → String → String → List LarkMessage → List LarkMessage
unfolding lark_url
send_lark_text_notify key title text posted =
    if str_eq key "" || str_eq text ""
    then posted
    else record { url = lark_url key; title = title; text = text } ∷ posted

-- What a post of the content to a webhook brings: the errors of the client as one, or the status code.
abbrev pub Client : Type 0
Client = String → String → Result Error ℕ

check_status : Result Error ℕ → (ℕ → Error) → Result Error Unit
check_status (err e) http_code = err (wrap "errs" e)
check_status (ok status) http_code =
    if not (status == 200) && not (status == 204) then err (http_code status) else ok tt

-- SendNotifyDiscord; `http_code` is the error that names a status code.
unfoldable pub send_notify_discord : Client → (ℕ → Error) → String → String → Result Error Unit
unfolding check_status
send_notify_discord post http_code webhook content =
    if str_eq webhook "" then ok tt else check_status (post webhook content) http_code

-- Without a webhook nothing fails; else it succeeds exactly on the codes 200 and 204.
abbrev pub succeeds : {A : Type 0} → Result Error A → Bool
succeeds (ok a) = true
succeeds (err e) = false

abbrev pub accepted : Result Error ℕ → Bool
accepted (ok status) = status == 200 || status == 204
accepted (err e) = false

pub send_notify_discord-succeeds :
    (post : Client) (http_code : ℕ → Error) (webhook content : String)
    → succeeds (send_notify_discord post http_code webhook content)
      ≡ (str_eq webhook "" || accepted (post webhook content))
unfolding send_notify_discord check_status
send_notify_discord-succeeds post http_code webhook content = ground arith
