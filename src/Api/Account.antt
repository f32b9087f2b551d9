-- ===== src/Api/Account.antt =====
-- internal/api/handler/account.go.
use socialpublish.Prelude.{String, ◌||◌, Option, none, some, Bytes, is_empty, str_eq, if◌then◌else◌}
use socialpublish.Store.Database.{Env, S, ◌>>=◌, on_result}
use socialpublish.Store.Accounts.{get_account, list_accounts, create_account, delete_account}
use socialpublish.Store.Tokens.{Crypto, save}
use socialpublish.Api.Http.{
  Response, empty, account_body, account_list, account_status, write_json, write_error,
  internal_error,
}

pub record ConnectRequest : Type 0 where
  pub platform : String
  pub platform_user_id : String
  pub display_name : String
  pub avatar_url : String
  pub access_token : Bytes

module _ (env : Env) where
  unfoldable pub list : (workspace_id : String) → S Response
  list workspace_id = do
    listed ← list_accounts env workspace_id
    on_result listed (internal_error env) λ accounts. write_json 200 (account_list accounts)

  module _ (crypto : Crypto) (key : Bytes) where
    unfoldable pub connect : (workspace_id : String) → Option ConnectRequest → S Response
    connect workspace_id none = write_error 400 "validation_error" "invalid request body"
    connect workspace_id (some req) =
        if str_eq req.platform "" || is_empty req.access_token
        then write_error 400 "validation_error" "platform and access_token required"
        else do
          saved ← save env crypto key req.access_token
          on_result saved (internal_error env) λ token_id. do
            created ←
                create_account env workspace_id req.platform req.platform_user_id req.display_name
                  req.avatar_url token_id none
            on_result created (internal_error env) λ account. write_json 201 (account_body account)

  unfoldable pub get : (account_id : String) → S Response
  get account_id = do
    found ← get_account env account_id
    on_result found (λ e. write_error 404 "not_found" "account not found")
        λ account. write_json 200 (account_body account)

  unfoldable pub delete : (account_id : String) → S Response
  delete account_id = do
    deleted ← delete_account env account_id
    on_result deleted (λ e. write_error 404 "not_found" "account not found")
        λ _. write_json 204 empty

  unfoldable pub status : (account_id : String) → S Response
  status account_id = do
    found ← get_account env account_id
    on_result found (λ e. write_error 404 "not_found" "account not found")
        λ account.
          write_json 200 (account_status account.id account.token_healthy account.token_expires_at)
