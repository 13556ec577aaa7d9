-- ===== src/TxAction.antt =====
-- tables/t_transaction_info.go: the codes of the actions in requests and responses, and the two
-- switches between a code and the name of an action in the database. A code is an int; a negative
-- one is in neither switch, like any number that is not listed.
pub mod Laws
use das_multi_device.Prelude.{
  ℕ, String, Bool, Option, none, some, List, [], ◌∷◌, ◌==◌, str_eq, if◌then◌else◌,
}

-- The action names of das-lib's common package that the switches use.
pub record DasActions : Type 0 where
  pub withdraw_from_wallet : String
  pub consolidate_income : String
  pub start_account_sale : String
  pub edit_account_sale : String
  pub cancel_account_sale : String
  pub buy_account : String
  pub transfer : String
  pub edit_records : String
  pub transfer_account : String
  pub edit_manager : String
  pub renew_account : String
  pub declare_reverse_record : String
  pub redeclare_reverse_record : String
  pub retract_reverse_record : String
  pub make_offer : String
  pub cancel_offer : String
  pub accept_offer : String
  pub enable_sub_account : String
  pub create_sub_account : String
  pub recycle_expired_account : String
  pub force_recover_account_status : String
  pub collect_sub_account_profit : String
  pub update_key_list : String

abbrev pub TxAction : Type 0
TxAction = ℕ

-- The codes.
abbrev pub action_undefined : TxAction
action_undefined = 99

abbrev pub action_withdraw_from_wallet : TxAction
action_withdraw_from_wallet = 0

abbrev pub action_consolidate_income : TxAction
action_consolidate_income = 1

abbrev pub action_start_account_sale : TxAction
action_start_account_sale = 2

abbrev pub action_edit_account_sale : TxAction
action_edit_account_sale = 3

abbrev pub action_cancel_account_sale : TxAction
action_cancel_account_sale = 4

abbrev pub action_buy_account : TxAction
action_buy_account = 5

abbrev pub action_sale_account : TxAction
action_sale_account = 6

abbrev pub action_transfer_balance : TxAction
action_transfer_balance = 7

abbrev pub action_declare_reverse_record : TxAction
action_declare_reverse_record = 8

abbrev pub action_redeclare_reverse_record : TxAction
action_redeclare_reverse_record = 9

abbrev pub action_retract_reverse_record : TxAction
action_retract_reverse_record = 10

abbrev pub action_das_balance_transfer : TxAction
action_das_balance_transfer = 11

abbrev pub action_edit_records : TxAction
action_edit_records = 12

abbrev pub action_transfer_account : TxAction
action_transfer_account = 13

abbrev pub action_edit_manager : TxAction
action_edit_manager = 14

abbrev pub action_renew_account : TxAction
action_renew_account = 15

abbrev pub action_make_offer : TxAction
action_make_offer = 16

abbrev pub action_edit_offer_add : TxAction
action_edit_offer_add = 17

abbrev pub action_cancel_offer : TxAction
action_cancel_offer = 18

abbrev pub action_accept_offer : TxAction
action_accept_offer = 19

abbrev pub action_offer_accepted : TxAction
action_offer_accepted = 20

abbrev pub action_edit_offer_sub : TxAction
action_edit_offer_sub = 21

abbrev pub action_order_refund : TxAction
action_order_refund = 22

abbrev pub action_enable_sub_account : TxAction
action_enable_sub_account = 23

abbrev pub action_create_sub_account : TxAction
action_create_sub_account = 24

abbrev pub action_balance_deposit : TxAction
action_balance_deposit = 25

abbrev pub action_recycle_expired_account : TxAction
action_recycle_expired_account = 26

abbrev pub action_force_recover_account_status : TxAction
action_force_recover_account_status = 27

abbrev pub action_cross_refund : TxAction
action_cross_refund = 28

abbrev pub action_collect_sub_account_profit : TxAction
action_collect_sub_account_profit = 29

abbrev pub action_update_device_key_list : TxAction
action_update_device_key_list = 30

-- The names that the package adds itself.
abbrev pub das_action_transfer_balance : String
das_action_transfer_balance = "transfer_balance"

abbrev pub das_action_balance_deposit : String
das_action_balance_deposit = "balance_deposit"

abbrev pub das_action_refund_pay : String
das_action_refund_pay = "refund_pay"

abbrev pub das_action_sale_account : String
das_action_sale_account = "sale_account"

abbrev pub das_action_offer_accepted : String
das_action_offer_accepted = "offer_accepted"

abbrev pub das_action_edit_offer_add : String
das_action_edit_offer_add = "offer_edit_add"

abbrev pub das_action_edit_offer_sub : String
das_action_edit_offer_sub = "offer_edit_sub"

abbrev pub das_action_order_refund : String
das_action_order_refund = "order_refund"

abbrev pub das_action_cross_refund : String
das_action_cross_refund = "cross_refund"

-- The value of the first case of a switch that agrees.
unfoldable pub switch : {A B : Type 0} → (A → A → Bool) → A → List (A × B) → B → B
switch test x [] fallback = fallback
switch test x ((y, v) ∷ cases) fallback =
    let rest = switch test x cases fallback in if test x y then v else rest

-- The cases of FormatTxAction.
unfoldable pub tx_action_cases : DasActions → List (String × TxAction)
tx_action_cases a =
    (a.withdraw_from_wallet, action_withdraw_from_wallet)
    ∷ (a.consolidate_income, action_consolidate_income)
    ∷ (a.start_account_sale, action_start_account_sale)
    ∷ (a.edit_account_sale, action_edit_account_sale)
    ∷ (a.cancel_account_sale, action_cancel_account_sale)
    ∷ (a.buy_account, action_buy_account)
    ∷ (das_action_sale_account, action_sale_account)
    ∷ (das_action_transfer_balance, action_transfer_balance)
    ∷ (a.transfer, action_das_balance_transfer)
    ∷ (a.edit_records, action_edit_records)
    ∷ (a.transfer_account, action_transfer_account)
    ∷ (a.edit_manager, action_edit_manager)
    ∷ (a.renew_account, action_renew_account)
    ∷ (a.declare_reverse_record, action_declare_reverse_record)
    ∷ (a.redeclare_reverse_record, action_redeclare_reverse_record)
    ∷ (a.retract_reverse_record, action_retract_reverse_record)
    ∷ (a.make_offer, action_make_offer)
    ∷ (das_action_edit_offer_add, action_edit_offer_add)
    ∷ (das_action_edit_offer_sub, action_edit_offer_sub)
    ∷ (a.cancel_offer, action_cancel_offer)
    ∷ (a.accept_offer, action_accept_offer)
    ∷ (das_action_offer_accepted, action_offer_accepted)
    ∷ (das_action_order_refund, action_order_refund)
    ∷ (das_action_balance_deposit, action_balance_deposit)
    ∷ (a.enable_sub_account, action_enable_sub_account)
    ∷ (a.create_sub_account, action_create_sub_account)
    ∷ (a.recycle_expired_account, action_recycle_expired_account)
    ∷ (a.force_recover_account_status, action_force_recover_account_status)
    ∷ (das_action_cross_refund, action_cross_refund)
    ∷ (a.collect_sub_account_profit, action_collect_sub_account_profit)
    ∷ (a.update_key_list, action_update_device_key_list)
    ∷ []

-- The cases of FormatActionType.
unfoldable pub action_type_cases : DasActions → List (TxAction × String)
action_type_cases a =
    (action_withdraw_from_wallet, a.withdraw_from_wallet)
    ∷ (action_consolidate_income, a.consolidate_income)
    ∷ (action_start_account_sale, a.start_account_sale)
    ∷ (action_edit_account_sale, a.edit_account_sale)
    ∷ (action_cancel_account_sale, a.cancel_account_sale)
    ∷ (action_buy_account, a.buy_account)
    ∷ (action_sale_account, das_action_sale_account)
    ∷ (action_transfer_balance, das_action_transfer_balance)
    ∷ (action_das_balance_transfer, a.transfer)
    ∷ (action_edit_records, a.edit_records)
    ∷ (action_transfer_account, a.transfer_account)
    ∷ (action_edit_manager, a.edit_manager)
    ∷ (action_renew_account, a.renew_account)
    ∷ (action_declare_reverse_record, a.declare_reverse_record)
    ∷ (action_redeclare_reverse_record, a.redeclare_reverse_record)
    ∷ (action_retract_reverse_record, a.retract_reverse_record)
    ∷ (action_make_offer, a.make_offer)
    ∷ (action_edit_offer_add, das_action_edit_offer_add)
    ∷ (action_edit_offer_sub, das_action_edit_offer_sub)
    ∷ (action_cancel_offer, a.cancel_offer)
    ∷ (action_accept_offer, a.accept_offer)
    ∷ (action_offer_accepted, das_action_offer_accepted)
    ∷ (action_order_refund, das_action_order_refund)
    ∷ (action_recycle_expired_account, a.recycle_expired_account)
    ∷ (action_force_recover_account_status, a.force_recover_account_status)
    ∷ (action_cross_refund, das_action_cross_refund)
    ∷ (action_update_device_key_list, a.update_key_list)
    ∷ []

unfoldable pub format_tx_action : DasActions → String → TxAction
unfolding switch tx_action_cases
format_tx_action a action = switch str_eq action (tx_action_cases a) action_undefined

unfoldable pub format_action_type : DasActions → TxAction → String
unfolding switch action_type_cases
format_action_type a action_type = switch ◌==◌ action_type (action_type_cases a) ""
