-- ===== src/TxAction/Laws.antt =====
-- tables/t_transaction_info.go: how the two switches fit together.
use das_multi_device.Prelude.{
  String, Bool, List, [], ◌∷◌, ◌==◌, ◌||◌, str_eq, eq_iff, ◌≡◌, refl, All, arith, if◌then◌else◌,
}
use das_multi_device.TxAction.{
  DasActions, TxAction, switch, tx_action_cases, action_type_cases, format_tx_action,
  format_action_type, action_undefined, action_enable_sub_account, action_create_sub_account,
  action_balance_deposit, action_collect_sub_account_profit,
}

-- A code that FormatActionType does not know.
abbrev pub is_one_way : TxAction → Bool
is_one_way c =
    c == action_undefined
    || (c == action_enable_sub_account
        || (c == action_create_sub_account
            || (c == action_balance_deposit || c == action_collect_sub_account_profit)))

abbrev back : DasActions → TxAction → String → String
back a c s = if is_one_way c then "" else s

abbrev IsBack : DasActions → String × TxAction → Type 0
IsBack a (s, c) = format_action_type a c ≡ back a c s

rows : (a : DasActions) → All (IsBack a) (tx_action_cases a)
unfolding tx_action_cases format_action_type switch action_type_cases
rows a = ground arith

switch_back :
    (a : DasActions) (s : String) (cases : List (String × TxAction))
    → All (IsBack a) cases
    → IsBack a (s, switch str_eq s cases action_undefined)
unfolding switch format_action_type action_type_cases
switch_back a s [] all = refl
switch_back a s ((t, c) ∷ cases) (h, all) =
    let ih = switch_back a s cases all in ground (arith, eq_iff s t)

-- The name of the code of an action is the action again, unless the code is undefined or one of
-- the four that FormatActionType does not know, whose name is empty.
pub format_action_type-format_tx_action :
    (a : DasActions) (s : String)
    → format_action_type a (format_tx_action a s)
      ≡ (if is_one_way (format_tx_action a s) then "" else s)
unfolding format_tx_action
format_action_type-format_tx_action a s = switch_back a s (tx_action_cases a) (rows a)
