-- ===== src/Server/Migrate.antt =====
-- cmd/migrate/main.go: run. The migrate library and the verb %q of fmt are parameters, the schema is
-- a state that the library changes.
use socialpublish.Prelude.{String, List, [], ◌∷◌, Bytes, str_eq, if◌then◌else◌, Result, ok, err}
use socialpublish.Store.Database.{Error, plain, wrap, named}
use socialpublish.Server.Config.{Config, load}

-- The outcome of Up and Down; `no_change` is migrate.ErrNoChange.
pub data Outcome : Type 0 where
  done : Outcome
  no_change : Outcome
  failed : Error → Outcome

pub record Migrator (Schema : Type 0) : Type 0 where
  pub connects : (database_url : Bytes) → Result Error (Unit {0})
  pub up : Schema → Outcome × Schema
  pub down : Schema → Outcome × Schema

-- An error other than ErrNoChange is returned.
after_migration : {Schema : Type 0} → String → Outcome × Schema → Result Error (Unit {0}) × Schema
after_migration text (done, schema) = (ok tt, schema)
after_migration text (no_change, schema) = (ok tt, schema)
after_migration text (failed e, schema) = (err (wrap text e), schema)

abbrev direction_of : List String → String
direction_of [] = "up"
direction_of (direction ∷ args) = direction

module _ {Schema : Type 0} (m : Migrator Schema) (getenv : String → Bytes)
    (quote : String → String) where
  migrate_in : String → Schema → Result Error (Unit {0}) × Schema
  unfolding after_migration
  migrate_in direction schema =
      if str_eq direction "up"
      then after_migration "migrate up" (m.up schema)
      else if str_eq direction "down"
      then after_migration "migrate down" (m.down schema)
      else (err (plain (named "unknown migration direction " (quote direction) "")), schema)

  connected : String → Schema → Result Error (Unit {0}) → Result Error (Unit {0}) × Schema
  unfolding migrate_in
  connected direction schema (err e) = (err (wrap "create migrator" e), schema)
  connected direction schema (ok _) = migrate_in direction schema

  loaded : String → Schema → Result Error Config → Result Error (Unit {0}) × Schema
  unfolding connected
  loaded direction schema (err e) = (err (wrap "load config" e), schema)
  loaded direction schema (ok cfg) = connected direction schema (m.connects cfg.database_url)

  -- `args` are the arguments behind the name of the program.
  unfoldable pub run : (args : List String) → Schema → Result Error (Unit {0}) × Schema
  unfolding loaded
  run args schema = loaded (direction_of args) schema (load getenv)
