-- ===== src/Razorpayx/Payouts.antt =====
-- The calls of razorpayx/client.py that ask the gateway for something, and the script
-- razorpayx/provision.py. The gateway is a parameter: its answer to a GET of a path and to a POST of
-- a body, a status code and JSON, or an exception. The client's credentials are left out.
use Prim.Native.String
use revert_x.Prelude.{
  String, Bool, true, Option, none, some, List, [], ◌∷◌, ◌++◌, ◌==◌, if◌then◌else◌,
}
use revert_x.Int.{ℤ}
use revert_x.Python.{Result, ok, raised, and_then, type_error, key_error, runtime_error, other}
use revert_x.Json.{Json, bool, int, str, arr, obj, nil, cons, Fields, get, truthy}
use revert_x.Values.{to_float, is_in, body_of}
use revert_x.System.{fields}
use revert_x.Engine.PolicySanitizer.{first_chars}

-- `account_number` is `RZP_ACCOUNT_NUMBER`.
pub record Gateway : Type 0 where
  pub account_number : Option String
  pub fetch : String → Result (ℤ × Json)
  pub post : String → Fields → Result (ℤ × Json)

abbrev pub text_item : String → Option String → List (String × Json)
text_item key none = []
text_item key (some t) = if t == "" then [] else (key, str t) ∷ []

pub record NewPayout : Type 0 where
  pub fund_account_id : String
  pub amount_paise : ℤ
  pub purpose : String
  pub mode : String
  pub reference_id : Option String
  pub narration : Option String

abbrev pub payout_payload : String → NewPayout → Fields
payout_payload account p = fields (
    ("account_number", str account)
    ∷ ("fund_account_id", str p.fund_account_id)
    ∷ ("amount", int p.amount_paise)
    ∷ ("currency", str "INR")
    ∷ ("mode", str p.mode)
    ∷ ("purpose", str p.purpose)
    ∷ ("queue_if_low_balance", bool true)
    ∷ (text_item "reference_id" p.reference_id ++ text_item "narration" p.narration))

unfoldable pub create_payout : Gateway → NewPayout → Result Json
create_payout gw p = elim gw.account_number [
  | none ↦ raised runtime_error
  | some account ↦
      if account == ""
      then raised runtime_error
      else and_then (gw.post "/payouts" (payout_payload account p)) body_of
]

abbrev pub reversal_reference : String → String
reversal_reference original = first_chars 40 (String.◌++◌ "reversal-" original)

-- `narration or f"Aegis reversal of {original_payout_id}"`
abbrev pub reversal_narration : String → Option String → String
reversal_narration original narration =
    let default = String.◌++◌ "Aegis reversal of " original in
    first_chars 30 (elim narration [ none ↦ default | some t ↦ if t == "" then default else t ])

unfoldable pub reverse_payout : Gateway → String → String → ℤ → Option String → Result Json
unfolding create_payout first_chars
reverse_payout gw original self_fund_account_id amount_paise narration = create_payout gw (record {
  fund_account_id = self_fund_account_id;
  amount_paise = amount_paise;
  purpose = "refund";
  mode = "UPI";
  reference_id = some (reversal_reference original);
  narration = some (reversal_narration original narration);
})

unfoldable pub get_payout : Gateway → String → Result Json
get_payout gw payout_id = and_then (gw.fetch (String.◌++◌ "/payouts/" payout_id)) body_of

unfoldable pub create_contact : Gateway → String → Option String → String → Result Json
create_contact gw name email contact_type =
    and_then
      (gw.post "/contacts"
        (fields (("name", str name) ∷ ("type", str contact_type) ∷ text_item "email" email)))
      body_of

unfoldable pub create_fund_account_bank : Gateway → String → String → String → String → Result Json
create_fund_account_bank gw contact_id account_number ifsc name =
    let account : List (String × Json) =
      ("name", str name) ∷ ("ifsc", str ifsc) ∷ ("account_number", str account_number) ∷ [] in
    and_then
      (gw.post "/fund_accounts" (
        fields (
          ("contact_id", str contact_id)
          ∷ ("account_type", str "bank_account")
          ∷ ("bank_account", obj (fields account))
          ∷ [])))
      body_of

unfoldable pub create_fund_account_vpa : Gateway → Json → String → Result Json
create_fund_account_vpa gw contact_id address =
    and_then
      (gw.post "/fund_accounts" (
        fields (
          ("contact_id", contact_id)
          ∷ ("account_type", str "vpa")
          ∷ ("vpa", obj (fields (("address", str address) ∷ [])))
          ∷ [])))
      body_of

unfoldable pub get_balance : Gateway → Result Json
get_balance gw = and_then (gw.fetch "/banking_balances") body_of

-- `data.get("items") or [data]`, and its first item.
unfoldable pub first_item : Json → Result Json
first_item (obj m) = elim (get "items" m) [
  | none ↦ ok (obj m)
  | some v ↦
      if truthy v
      then (elim v [
        | arr xs ↦ elim xs [ nil ↦ ok (obj m) | cons x rest ↦ ok x ]
        | obj sub ↦ raised key_error
        | str t ↦ ok (str (first_chars 1 t))
        | _ ↦ raised type_error
      ])
      else ok (obj m)
]
first_item _ = raised other

-- `item[key]` of a key that is in the item.
abbrev item_at : String → Json → Result Json
item_at key (obj m) = elim (get key m) [ none ↦ raised key_error | some v ↦ ok v ]
item_at key _ = raised type_error

-- The amount under the first of the keys that the item has; it is in paise.
unfoldable pub balance_of :
    (String → String → Bool) → (String → Option ℤ) → List String → Json → Result ℤ
balance_of mentions parse [] item = raised runtime_error
balance_of mentions parse (key ∷ keys) item =
    let rest = balance_of mentions parse keys item in
    and_then (is_in mentions key item)
      (λ there. if there then and_then (item_at key item) (to_float parse) else rest)

-- In hundredths of a paisa, since the gateway counts paise.
unfoldable pub get_available_balance :
    (String → String → Bool) → (String → Option ℤ) → Gateway → Result ℤ
unfolding get_balance first_item balance_of first_chars
get_available_balance mentions parse gw = and_then (get_balance gw) (λ body.
    and_then (first_item body)
      (λ item. balance_of mentions parse ("available_amount" ∷ "balance" ∷ "amount" ∷ []) item))

-- `text + v`
abbrev appended : Json → Result String
appended (str t) = ok t
appended _ = raised type_error

-- `main` of razorpayx/provision.py: the id of the new fund account, which it prints.
unfoldable pub provision : Gateway → Bool → Result String
unfolding create_contact create_fund_account_vpa
provision gw self_account =
    let name =
      if self_account then "Aegis Reversal Account (self)" else "Rahul (Conference Registration)" in
    let kind = if self_account then "self" else "vendor" in
    let address = if self_account then "aegis-reversal@upi" else "rahul@upi" in
    and_then (create_contact gw name none kind) (λ contact.
      and_then (item_at "id" contact) (λ contact_id.
        and_then (create_fund_account_vpa gw contact_id address)
          (λ fa. and_then (item_at "id" fa) appended)))
