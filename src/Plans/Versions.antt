-- ===== src/Plans/Versions.antt =====
-- What the versions of the plans say.
use open_synapse.Prelude.{
  ℕ, ◌+◌, ◌≡◌, inl, inr, refl, String, eq_iff, Bool, true, false, ◌&&◌, Option, none, some, List,
  [], ◌∷◌, leb, if◌then◌else◌, Bool-cases, Option-cases, arith,
}
use open_synapse.Prelude.Assoc.{lookup, string_eq, lookup-insert, lookup-remove}
use text.Mathlib.Text.{◌==◌ as str_eq}
use open_synapse.Plans.{
  PlanRow, VersionRow, PlanStore, find_version, get_version, save_version, create_plan,
  write_update, update_plan, without_plan, delete_plan,
}

-- a call of the store
pub data Call (C : Type 0) : Type 0 where
  create : String → C → Bool → Call C
  update : String → C → Call C
  delete : String → Call C

module _ {C : Type 0} where
  -- the version of a plan, 0 where there is none, and its content
  abbrev pub version_of : String → PlanStore C → ℕ
  version_of id s = elim (lookup id s.plans) [ none ↦ 0 | some row ↦ row.version ]

  abbrev pub content_of : String → PlanStore C → Option C
  content_of id s = elim (lookup id s.plans) [ none ↦ none | some row ↦ some row.content ]

  abbrev pub is_some : Option C → Bool
  is_some none = false
  is_some (some c) = true

  -- The versions of a plan are numbered from one to its own, and the last one has its content.
  abbrev pub IsRecorded : PlanStore C → Type 0
  IsRecorded s =
      (id : String)
      → (find_version id (version_of id s) s.versions ≡ content_of id s)
        × ((n : ℕ) → is_some (find_version id n s.versions) ≡ (leb 1 n && leb n (version_of id s)))

  create_plan-IsRecorded :
      (id : String) (c : C) (built_in : Bool) (s : PlanStore C)
      → IsRecorded s
      → IsRecorded (create_plan id c built_in s).1
  unfolding create_plan save_version find_version
  create_plan-IsRecorded id c built_in s h = elim (Option-cases (lookup id s.plans)) [
    | inr (row, taken) ↦ λ j. ground (arith, taken, h j)
    | inl free ↦
        let row : PlanRow C = record { content = c; version = 1; built_in = built_in } in
        elim (Option-cases (find_version id 1 s.versions)) [
          | inr (old, there) ↦ absurd (ground (arith, free, there, (h id).1 1))
          | inl fresh ↦ λ j. (
            ground (arith, free, fresh, (h j).0, lookup-insert id j row s.plans, eq_iff id j),
            λ n.
                ground (arith, free, fresh, (h j).1 n, lookup-insert id j row s.plans, eq_iff id j),
          )
        ]
  ]

  update_plan-IsRecorded :
      (id : String) (c : C) (s : PlanStore C) → IsRecorded s → IsRecorded (update_plan id c s).1
  unfolding update_plan write_update save_version find_version
  update_plan-IsRecorded id c s h = elim (Option-cases (lookup id s.plans)) [
    | inl gone ↦ λ j. ground (arith, gone, h j)
    | inr (old, there) ↦
        let row : PlanRow C = record old { content = c; version = old.version + 1 } in
        elim (Option-cases (find_version id (old.version + 1) s.versions)) [
          | inr (v, taken) ↦ absurd (ground (arith, there, taken, (h id).1 (old.version + 1)))
          | inl fresh ↦ λ j. (
            ground (arith, there, fresh, (h j).0, lookup-insert id j row s.plans, eq_iff id j),
            λ n.
                ground
                  (arith, there, fresh, (h j).1 n, lookup-insert id j row s.plans, eq_iff id j),
          )
        ]
  ]

  find_version-without_plan :
      (id j : String) (n : ℕ) (vs : List (VersionRow C))
      → find_version j n (without_plan id vs) ≡ (if str_eq id j then none else find_version j n vs)
  unfolding find_version without_plan
  find_version-without_plan id j n [] = ground arith
  find_version-without_plan id j n (v ∷ vs) = ground (
    arith,
    find_version-without_plan id j n vs,
    eq_iff v.plan_id id,
    eq_iff v.plan_id j,
    eq_iff id j,
  )

  delete_plan-IsRecorded :
      (id : String) (s : PlanStore C) → IsRecorded s → IsRecorded (delete_plan id s).1
  unfolding delete_plan
  delete_plan-IsRecorded id s h = elim (Option-cases (lookup id s.plans)) [
    | inl gone ↦ λ j. ground (arith, gone, h j)
    | inr (row, there) ↦ elim (Bool-cases row.built_in) [
      | inl fixed ↦ λ j. ground (arith, there, fixed, h j)
      | inr own ↦ λ j. (
        ground (
          arith,
          there,
          own,
          (h j).0,
          lookup-remove id j s.plans,
          eq_iff id j,
          find_version-without_plan id j (version_of j s) s.versions,
          find_version-without_plan id j 0 s.versions,
        ),
        λ n. ground (
          arith,
          there,
          own,
          (h j).1 n,
          lookup-remove id j s.plans,
          eq_iff id j,
          find_version-without_plan id j n s.versions,
        ),
      )
    ]
  ]

  unfoldable pub call : Call C → PlanStore C → PlanStore C
  call (create id c built_in) s = (create_plan id c built_in s).1
  call (update id c) s = (update_plan id c s).1
  call (delete id) s = (delete_plan id s).1

  unfoldable pub call_all : List (Call C) → PlanStore C → PlanStore C
  call_all [] s = s
  call_all (k ∷ ks) s = call_all ks (call k s)

  call_all-IsRecorded :
      (ks : List (Call C)) (s : PlanStore C) → IsRecorded s → IsRecorded (call_all ks s)
  unfolding call_all call
  call_all-IsRecorded [] s h = h
  call_all-IsRecorded (create id c built_in ∷ ks) s h =
      call_all-IsRecorded ks (create_plan id c built_in s).1
        (create_plan-IsRecorded id c built_in s h)
  call_all-IsRecorded (update id c ∷ ks) s h =
      call_all-IsRecorded ks (update_plan id c s).1 (update_plan-IsRecorded id c s h)
  call_all-IsRecorded (delete id ∷ ks) s h =
      call_all-IsRecorded ks (delete_plan id s).1 (delete_plan-IsRecorded id s h)

  abbrev pub empty_store : PlanStore C
  empty_store = record { plans = []; versions = [] }

  -- After any calls, one after the other: the versions of a plan that can be read are those from one
  -- to its own, and the last of them has its content; a plan that does not exist has none.
  pub call_all-versions :
      (ks : List (Call C)) (id : String) (n : ℕ)
      → let s = call_all ks empty_store in
        (get_version id (version_of id s) s ≡ content_of id s)
        × (is_some (get_version id n s) ≡ (leb 1 n && leb n (version_of id s)))
  unfolding get_version find_version lookup
  call_all-versions ks id n =
      let recorded = call_all-IsRecorded ks empty_store (λ j. (refl, λ m. ground arith)) in
      ((recorded id).0, (recorded id).1 n)
