-- ===== src/Plans/Race.antt =====
-- Two updates of a plan at once.
use open_synapse.Prelude.{◌+◌, ◌≡◌, String, eq_iff, none, some, arith}
use open_synapse.Prelude.Assoc.{lookup, insert, string_eq, lookup-insert}
use open_synapse.Plans.{
  PlanRow, PlanStore, done, failed, find_version, get_version, save_version, write_update,
}
use open_synapse.Plans.Versions.{content_of}

-- Where two updates of a plan both read its row before either writes, the second one fails, but the
-- plan has its content, while the version of the plan that can be read has that of the first one.
pub write_update_twice :
    {C : Type 0} (id : String) (row : PlanRow C) (c d : C) (s : PlanStore C)
    → lookup id s.plans ≡ some row
    → get_version id (row.version + 1) s ≡ none
    → let first = write_update id row c s in
      let second = write_update id row d first.1 in
      (first.0 ≡ done)
      × (second.0 ≡ failed)
      × (content_of id second.1 ≡ some d)
      × (get_version id (row.version + 1) second.1 ≡ some c)
unfolding write_update save_version get_version find_version
write_update_twice {C = C} id row c d s there fresh =
    let mine : PlanRow C = record row { content = c; version = row.version + 1 } in
    let theirs : PlanRow C = record mine { content = d } in
    ground (
      arith,
      there,
      fresh,
      eq_iff id id,
      lookup-insert id id mine s.plans,
      lookup-insert id id theirs (insert id mine s.plans),
    )
