-- ===== src/Engine/Instances.antt =====
-- apps/control-plane/internal/engine/aggregator.go: what is known of the instances of a run, which are
-- their VU counts and how far their output has come, and emitUpTo of engine.go.
use open_synapse.Prelude.{◌/◌, String, Bool, not, ◌&&◌, ◌||◌, none, some, [], ◌∷◌, if◌then◌else◌}
use open_synapse.Prelude.Int.{ℤ, pos, negsuc, ◌+ℤ◌, ◌-ℤ◌, ltb_ℤ, eqb_ℤ, max_ℤ}
use open_synapse.Prelude.Assoc.{string_eq, int_eq, Map, lookup, insert}

-- the zero `time.Time`, year 1
abbrev pub zero_time : ℤ
zero_time = negsuc 62135596799999999999

-- ts.Unix() rounds down
unfoldable pub unix : ℤ → ℤ
unix (pos n) = pos (n / 1000000000)
unix (negsuc n) = negsuc (n / 1000000000)

-- ts.UnixMilli()
unfoldable pub unix_milli : ℤ → ℤ
unix_milli (pos n) = pos (n / 1000000)
unix_milli (negsuc n) = negsuc (n / 1000000)

-- The VU counts of the instances.
pub record VuGauge : Type 0 where
  pub current_vus : ℤ
  pub peak_vus : ℤ
  pub instance_vus : Map String ℤ
  pub vu_offset : ℤ

abbrev pub sum_vus : Map String ℤ → ℤ
sum_vus [] = pos 0
sum_vus ((k, n) ∷ m) = n +ℤ sum_vus m

-- setInstanceVUs, less the write of the sum to the second's bucket
unfoldable pub set_instance_vus : String → ℤ → VuGauge → VuGauge
set_instance_vus inst gauge g =
    let own = gauge -ℤ g.vu_offset in
    let own' = if ltb_ℤ own (pos 0) then pos 0 else own in
    let counts = insert inst own' g.instance_vus in
    let n = sum_vus counts in
    record g {
      instance_vus = counts;
      current_vus = n;
      peak_vus = if ltb_ℤ g.peak_vus n then n else g.peak_vus;
    }

-- the newest sample time of each running instance, moved forward only
unfoldable pub advance : String → ℤ → Map String ℤ → Map String ℤ
advance inst ts latest =
    let last : ℤ = elim (lookup inst latest) [ none ↦ zero_time | some t ↦ t ] in
    if ltb_ℤ last ts then insert inst ts latest else latest

-- the loop of watermark
unfoldable pub oldest_from : ℤ → Map String ℤ → ℤ
oldest_from oldest [] = oldest
oldest_from oldest ((k, t) ∷ m) =
    oldest_from (if eqb_ℤ oldest zero_time || ltb_ℤ t oldest then t else oldest) m

-- watermark
unfoldable pub watermark : Map String ℤ → ℤ × Bool
watermark latest =
    let oldest = oldest_from zero_time latest in (unix oldest, not (eqb_ℤ oldest zero_time))

-- emitUpTo (engine.go), at the second `now`
unfoldable pub emit_up_to : Map String ℤ → ℤ → ℤ
emit_up_to latest now =
    let up_to = now -ℤ pos 1 -ℤ pos 1 in
    let (wm, present) = watermark latest in
    if present && ltb_ℤ (wm -ℤ pos 1) up_to then max_ℤ (wm -ℤ pos 1) (now -ℤ pos 30) else up_to
