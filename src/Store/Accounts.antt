-- ===== src/Store/Accounts.antt =====
-- internal/store/postgres.go: workspaceStore, apiKeyStore and accountStore.
use socialpublish.Prelude.{
  String, Bool, true, not, ◌&&◌, Option, some, List, [], ◌∷◌, ◌++◌, if◌then◌else◌, str_eq, Result,
  ok, err, select,
}
use socialpublish.Store.Types.{
  Time, Workspace, ApiKey, Account, TargetRow, TokenRow, AnalyticsSnapshot,
}
use socialpublish.Store.Database.{
  Env, Error, failure, plain, wrap, S, call, query, wrapped, collect_rows, one_row, update_where,
  exists_row, order_desc, named,
}

abbrev pub account_is : String → Account → Bool
account_is id a = str_eq a.id id

module _ (env : Env) where
  unfoldable pub get_workspace : String → S (Result Error Workspace)
  get_workspace workspace_id = query env (named "query workspace " workspace_id "") λ n w. (
    wrapped (named "scan workspace " workspace_id "")
        (one_row (λ (ws : Workspace). str_eq ws.id workspace_id) w.workspaces),
    w,
  )

  unfoldable pub find_by_hash : String → S (Result Error ApiKey)
  find_by_hash key_hash = query env "query api key" λ n w.
      (wrapped "scan api key" (one_row (λ (k : ApiKey). str_eq k.key_hash key_hash) w.api_keys), w)

  unfoldable pub touch_last_used : String → S (Result Error (Unit {0}))
  touch_last_used key_id = query env (named "touch api key " key_id "") λ n w. (
    ok tt,
    record w {
      api_keys =
          update_where (λ (k : ApiKey). str_eq k.id key_id)
            (λ k. record k { last_used_at = some (env.now n) }) w.api_keys;
    },
  )

  unfoldable pub get_account : String → S (Result Error Account)
  get_account account_id = query env (named "query account " account_id "") λ n w. (
    wrapped (named "scan account " account_id "") (one_row (account_is account_id) w.accounts),
    w,
  )

  unfoldable pub list_accounts : String → S (Result Error (List Account))
  list_accounts workspace_id =
      query env (named "query accounts for workspace " workspace_id "") λ n w. (
        wrapped (named "scan accounts for workspace " workspace_id "") (
            collect_rows env n (
              order_desc (λ a. a.created_at)
                (select (λ (a : Account). str_eq a.workspace_id workspace_id) w.accounts))),
        w,
      )

  -- INSERT INTO accounts: the workspace and the token must exist, and the workspace has no other
  -- account for the user of the platform.
  unfoldable pub create_account :
      (workspace_id platform platform_user_id display_name avatar_url token_id : String)
      (token_expires_at : Option Time)
      → S (Result Error Account)
  create_account workspace_id platform platform_user_id display_name avatar_url token_id
        token_expires_at =
      call env λ n w.
        let a : Account = record {
          id = env.fresh n;
          workspace_id = workspace_id;
          platform = platform;
          platform_user_id = platform_user_id;
          display_name = display_name;
          avatar_url = avatar_url;
          token_id = token_id;
          token_expires_at = token_expires_at;
          token_healthy = true;
          created_at = env.now n;
          updated_at = env.now n;
        } in
        if exists_row (λ (ws : Workspace). str_eq ws.id workspace_id) w.workspaces
          && exists_row (λ (t : TokenRow). str_eq t.id token_id) w.tokens
          && not (
              exists_row
                (λ (b : Account).
                  str_eq b.workspace_id workspace_id
                  && str_eq b.platform platform
                  && str_eq b.platform_user_id platform_user_id)
                w.accounts)
        then (ok a, record w { accounts = w.accounts ++ a ∷ [] })
        else (err failure, w)

  -- A target that refers to the account keeps it from being deleted; its snapshots go with it.
  unfoldable pub delete_account : String → S (Result Error (Unit {0}))
  delete_account account_id = query env (named "delete account " account_id "") λ n w.
      if not (exists_row (account_is account_id) w.accounts)
      then (err (plain (named "account " account_id " not found")), w)
      else if exists_row (λ (t : TargetRow). str_eq t.account_id account_id) w.targets
      then (err (wrap (named "delete account " account_id "") failure), w)
      else (
        ok tt,
        record w {
          accounts = select (λ a. not (account_is account_id a)) w.accounts;
          snapshots =
              select (λ (s : AnalyticsSnapshot). not (str_eq s.account_id account_id)) w.snapshots;
        },
      )

  -- UPDATE accounts: the token must exist.
  unfoldable pub update_token :
      (account_id token_id : String) (expires_at : Option Time) → S (Result Error (Unit {0}))
  update_token account_id token_id expires_at =
      query env (named "update token for account " account_id "") λ n w.
        if exists_row (account_is account_id) w.accounts
          && not (exists_row (λ (t : TokenRow). str_eq t.id token_id) w.tokens)
        then (err (wrap (named "update token for account " account_id "") failure), w)
        else (
          ok tt,
          record w {
            accounts =
                update_where (account_is account_id)
                  (λ a. record a {
                    token_id = token_id;
                    token_expires_at = expires_at;
                    token_healthy = true;
                    updated_at = env.now n;
                  })
                  w.accounts;
          },
        )
