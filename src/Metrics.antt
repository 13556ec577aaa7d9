-- ===== src/Metrics.antt =====
-- prometheus/prometheus.go and notify/notify.go: the collectors that are made when they are first asked
-- for, and the alerts that are counted by one of them.
--
-- Api() and ErrNotify() test a field without the lock, and make and register the collector under it. So a
-- call is two steps: look, and, when it found nothing, make. MustRegister panics on a name that is
-- registered already.
pub mod Race
pub mod Push
pub mod Examples
use Prim.Native.String.{◌++◌ as string_append}
use das_multi_device.Prelude.{
  ℕ, zero, suc, ◌+◌, String, Bool, true, false, ◌||◌, Option, none, some, List, [], ◌∷◌, str_eq,
  if◌then◌else◌,
}

-- One field of Metric: the collector that it holds, the one that PromRegister has under its name, and how
-- many were made, each called by its number. Then the calls of the method: those that found nothing and
-- have not made a collector yet, those that have returned, and those that have panicked.
pub record Collector : Type 0 where
  pub current : Option ℕ
  pub registered : Option ℕ
  pub makes : ℕ
  pub missing : ℕ
  pub returned : ℕ
  pub panicked : ℕ

pub data CallStep : Type 0 where
  look make : CallStep

-- if m.api == nil
look_up : Option ℕ → Collector → Collector
look_up none c = record c { missing = c.missing + 1 }
look_up (some i) c = record c { returned = c.returned + 1 }

-- m.api = prometheus.NewSummaryVec(...)
new_vec : Collector → Collector
new_vec c = record c { current = some c.makes; makes = c.makes + 1 }

-- PromRegister.MustRegister(m.api)
must_register : Option ℕ → Collector → Collector
must_register none c = record c { registered = c.current; returned = c.returned + 1 }
must_register (some i) c = record c { panicked = c.panicked + 1 }

-- m.l.Lock() ... return m.api, by one of the calls that found nothing
make_it : ℕ → Collector → Collector
unfolding new_vec must_register
make_it zero c = c
make_it (suc n) c = must_register c.registered (new_vec (record c { missing = n }))

unfoldable pub call_step : CallStep → Collector → Collector
unfolding look_up make_it
call_step look c = look_up c.current c
call_step make c = make_it c.missing c

unfoldable pub call_steps : List CallStep → Collector → Collector
unfolding call_step
call_steps [] c = c
call_steps (t ∷ ts) c = call_steps ts (call_step t c)

abbrev pub new_collector : Collector
new_collector = record {
  current = none;
  registered = none;
  makes = 0;
  missing = 0;
  returned = 0;
  panicked = 0;
}

-- GetLarkTextNotifyStr
unfoldable pub get_lark_text_notify_str : String → String → String → String
get_lark_text_notify_str func_name key_info err_info = string_append "func：" (
    string_append func_name
      (string_append "\nkey：" (string_append key_info (string_append "\nerror：" err_info))))

-- SendLarkErrNotify: the labels of a counter that is increased by one.
unfoldable pub send_lark_err_notify :
    String → String → List (String × String) → List (String × String)
send_lark_err_notify title text counted =
    if str_eq title "" || str_eq text "" then counted else (title, text) ∷ counted
