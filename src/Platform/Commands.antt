-- ===== src/Platform/Commands.antt =====
-- The custom commands: platform/src/db/crud.py and platform/src/api/custom_cmd.py. The table is a
-- dict from the slug, which is unique, and a commit is the new table. The steps are kept as they
-- are, not as the text of a JSON value, and times are left out.
use Prim.Native.String.{String}
use rose_esp.Prelude.{ℕ, suc, Bool, true, Option, none, some, List, [], ◌∷◌, length, if◌then◌else◌}
use rose_esp.Prelude.Eq.{string_eq}
use rose_esp.Prelude.Dict.{Dict, get, put, remove}
use rose_esp.Platform.Service.{Service}
use rose_esp.Platform.Executor.{Config, Step, Library}
use rose_esp.Platform.Executor.Steps.{StepResult, execute_command}

pub record CustomCommand (F : Type 0) : Type 0 where
  pub id : ℕ
  pub name : String
  pub description : String
  pub steps : List (Step F)
  pub enabled : Bool
  pub execution_count : ℕ

-- A row of `execution_logs`.
pub record ExecutionLog (F : Type 0) : Type 0 where
  pub command_id : ℕ
  pub steps_results : List (StepResult F)
  pub success : Bool

-- The tables, the last log first, and the next command's id.
pub record Db (F : Type 0) : Type 0 where
  pub commands : Dict String (CustomCommand F)
  pub logs : List (ExecutionLog F)
  pub next_id : ℕ

pub record CustomCmdCreate (F : Type 0) : Type 0 where
  pub slug : String
  pub name : String
  pub description : String
  pub steps : List (Step F)

-- A field that is absent changes nothing, nor does one that is `None`; `steps` as `None`, which
-- raises, is outside the model.
pub record CustomCmdUpdate (F : Type 0) : Type 0 where
  pub name : Option String
  pub description : Option String
  pub steps : Option (List (Step F))
  pub enabled : Option Bool

pub data Response (A : Type 0) : Type 0 where
  found : A → Response A
  not_found conflict disabled : Response A

abbrev pub or_kept : {A : Type 0} → Option A → A → A
or_kept none kept = kept
or_kept (some a) kept = a

module _ {F : Type 0} where
  unfoldable pub get_by_slug : Db F → String → Option (CustomCommand F)
  get_by_slug db slug = get db.commands slug

  abbrev pub store : String → CustomCommand F → Db F → Db F
  store slug cmd db = record db { commands = put db.commands slug cmd }

  -- `crud.create_command`
  unfoldable pub insert_command : CustomCmdCreate F → Db F → CustomCommand F × Db F
  insert_command req db =
      let cmd : CustomCommand F = record {
        id = db.next_id;
        name = req.name;
        description = req.description;
        steps = req.steps;
        enabled = true;
        execution_count = 0;
      } in
      (cmd, store req.slug cmd (record db { next_id = suc db.next_id }))

  -- `create_command`
  unfoldable pub create_command : CustomCmdCreate F → Db F → Response (CustomCommand F) × Db F
  create_command req db = elim (get_by_slug db req.slug) [
    | some existing ↦ (conflict, db)
    | none ↦ let (cmd, db') = insert_command req db in (found cmd, db')
  ]

  unfoldable pub updated : CustomCmdUpdate F → CustomCommand F → CustomCommand F
  updated update_data cmd = record cmd {
    name = or_kept update_data.name cmd.name;
    description = or_kept update_data.description cmd.description;
    enabled = or_kept update_data.enabled cmd.enabled;
    steps = or_kept update_data.steps cmd.steps;
  }

  unfoldable pub update_command :
      String → CustomCmdUpdate F → Db F → Response (CustomCommand F) × Db F
  update_command slug update_data db = elim (get_by_slug db slug) [
    | none ↦ (not_found, db)
    | some cmd ↦ (found (updated update_data cmd), store slug (updated update_data cmd) db)
  ]

  unfoldable pub get_command : String → Db F → Response (CustomCommand F)
  get_command slug db = elim (get_by_slug db slug) [ none ↦ not_found | some cmd ↦ found cmd ]

  unfoldable pub delete_command : String → Db F → Response (Unit {0}) × Db F
  delete_command slug db = elim (get_by_slug db slug) [
    | none ↦ (not_found, db)
    | some cmd ↦ (found tt, record db { commands = remove db.commands slug })
  ]

  unfoldable pub record_execution : ℕ → List (StepResult F) → Bool → Db F → Db F
  record_execution command_id steps_results success db =
      let log : ExecutionLog F = record {
        command_id = command_id;
        steps_results = steps_results;
        success = success;
      } in
      record db { logs = log ∷ db.logs }

  unfoldable pub bump_execution_count : String → Db F → Db F
  bump_execution_count slug db = elim (get_by_slug db slug) [
    | none ↦ db
    | some cmd ↦ store slug (record cmd { execution_count = suc cmd.execution_count }) db
  ]

  module _ (lib : Library F) {C : Type 0} where
    -- `execute_internal` with the request's parameters; `execute_command` does not raise, since a
    -- step's exception is one of its results.
    unfoldable pub execute_internal :
        String → Config F → Db F → Service C → Response (ℕ × List (StepResult F)) × Db F × Service C
    execute_internal slug params db service = executed (get_by_slug db slug)
      where
        finish :
            CustomCommand F
            → List (StepResult F) × Service C
            → Response (ℕ × List (StepResult F)) × Db F × Service C
        finish cmd (results, service') = (
          found (length cmd.steps, results),
          bump_execution_count slug (record_execution cmd.id results true db),
          service',
        )

        executed : Option (CustomCommand F) → Response (ℕ × List (StepResult F)) × Db F × Service C
        executed none = (not_found, db, service)
        executed (some cmd) =
            if cmd.enabled
            then finish cmd (execute_command lib cmd.steps params service)
            else (disabled, db, service)

    -- `execute_public` gives no parameters.
    unfoldable pub execute_public :
        String → Db F → Service C → Response (ℕ × List (StepResult F)) × Db F × Service C
    execute_public slug db service = execute_internal slug [] db service
