-- ===== src/Plans.antt =====
-- apps/control-plane/internal/db/plans.go: the plans and their versions, as tables with the constraints
-- of the schema (db/migrations/0001_initial.up.sql): the primary key of plans, UNIQUE(plan_id, version)
-- and ON DELETE CASCADE. What a plan holds is a parameter.
pub mod Versions
pub mod Race
pub mod Listing
use open_synapse.Prelude.{
  ℕ, ◌+◌, ◌≡◌, String, Bool, true, false, ◌&&◌, Option, none, some, List, [], ◌∷◌, ◌==◌,
  if◌then◌else◌,
}
use open_synapse.Prelude.Assoc.{Map, lookup, insert, remove, string_eq}
use text.Mathlib.Text.{◌==◌ as str_eq}

-- a row of plans; the content is its name, description, tags and root
pub record PlanRow (C : Type 0) : Type 0 where
  pub content : C
  pub version : ℕ
  pub built_in : Bool

-- PlanVersion
pub record VersionRow (C : Type 0) : Type 0 where
  pub plan_id : String
  pub number : ℕ
  pub content : C

-- PlanStore
pub record PlanStore (C : Type 0) : Type 0 where
  pub plans : Map String (PlanRow C)
  pub versions : List (VersionRow C)

-- how an operation ends: well, with no such plan, with a refusal, or with an error of the database
pub data Reply : Type 0 where
  done no_plan refused failed : Reply

module _ {C : Type 0} where
  -- the row of a version
  unfoldable pub find_version : String → ℕ → List (VersionRow C) → Option C
  find_version id n [] = none
  find_version id n (v ∷ vs) =
      if str_eq v.plan_id id && v.number == n then some v.content else find_version id n vs

  -- GetVersion
  unfoldable pub get_version : String → ℕ → PlanStore C → Option C
  get_version id n s = find_version id n s.versions

  -- saveVersion
  unfoldable pub save_version : String → ℕ → C → PlanStore C → Reply × PlanStore C
  save_version id n c s = elim (find_version id n s.versions) [
    | some taken ↦ (failed, s)
    | none ↦ (
      done,
      record s { versions = record { plan_id = id; number = n; content = c } ∷ s.versions },
    )
  ]

  -- Create; the id is new unless the insertion fails
  unfoldable pub create_plan : String → C → Bool → PlanStore C → Reply × PlanStore C
  create_plan id c built_in s = elim (lookup id s.plans) [
    | some taken ↦ (failed, s)
    | none ↦ save_version id 1 c (record s {
      plans = insert id (record { content = c; version = 1; built_in = built_in }) s.plans;
    })
  ]

  -- Update, after its read of the plan's row
  unfoldable pub write_update : String → PlanRow C → C → PlanStore C → Reply × PlanStore C
  write_update id existing c s = elim (lookup id s.plans) [
    | none ↦ (failed, s)
    | some row ↦ save_version id (existing.version + 1) c (record s {
      plans = insert id (record row { content = c; version = existing.version + 1 }) s.plans;
    })
  ]

  -- Update
  unfoldable pub update_plan : String → C → PlanStore C → Reply × PlanStore C
  update_plan id c s = elim (lookup id s.plans) [
    | none ↦ (no_plan, s)
    | some existing ↦ write_update id existing c s
  ]

  -- the versions of other plans
  unfoldable pub without_plan : String → List (VersionRow C) → List (VersionRow C)
  without_plan id [] = []
  without_plan id (v ∷ vs) =
      let rest = without_plan id vs in if str_eq v.plan_id id then rest else v ∷ rest

  -- Delete
  unfoldable pub delete_plan : String → PlanStore C → Reply × PlanStore C
  delete_plan id s = elim (lookup id s.plans) [
    | none ↦ (no_plan, s)
    | some row ↦
        if row.built_in
        then (refused, s)
        else (done, record { plans = remove id s.plans; versions = without_plan id s.versions })
  ]
