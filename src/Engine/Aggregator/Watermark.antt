-- ===== src/Engine/Aggregator/Watermark.antt =====
-- How far the points of a run may be published: not past what every instance has reported, unless an
-- instance lags too far behind.
use open_synapse.Engine.Instances.{zero_time, oldest_from, unix, emit_up_to, watermark}
use open_synapse.Prelude.{
  String, ◌≡◌, refl, ◌≢◌, ◌⊎◌, inl, inr, false, some, [], ◌∷◌, arith, if◌then◌else◌, Bool-cases,
}
use open_synapse.Prelude.Int.{
  ℤ, pos, negsuc, ◌+ℤ◌, ◌-ℤ◌, ◌≤ℤ◌, ◌<ℤ◌, ltb_ℤ, eqb_ℤ, max_ℤ, int_laws, ltb_ℤ→lt,
}
use open_synapse.Prelude.Assoc.{string_eq, int_eq, Map, lookup}
use text.Mathlib.Text.{◌==◌ as str_eq}

-- Every entry of the map is at or after an instant.
abbrev AllFrom : ℤ → Map String ℤ → Type 0
AllFrom t [] = Unit
AllFrom t ((k, v) ∷ m) = (t ≤ℤ v) × AllFrom t m

-- Every sample time is later than the zero time.
abbrev pub AllReal : Map String ℤ → Type 0
AllReal [] = Unit
AllReal ((k, v) ∷ m) = (zero_time <ℤ v) × AllReal m

AllFrom-lookup :
    (t : ℤ) (k : String) (v : ℤ) (m : Map String ℤ) → AllFrom t m → lookup k m ≡ some v → t ≤ℤ v
unfolding lookup
AllFrom-lookup t k v [] h e = cc
AllFrom-lookup t k v ((j, w) ∷ m) h e = elim (Bool-cases (str_eq j k)) [
  | inl here ↦ ground arith
  | inr later ↦ AllFrom-lookup t k v m h.1 (rw later at e)
]

lookup-ne_nil : (k : String) (v : ℤ) (m : Map String ℤ) → lookup k m ≡ some v → m ≢ []
unfolding lookup
lookup-ne_nil k v [] h e = cc
lookup-ne_nil k v (x ∷ m) h e = cc

oldest_from_least :
    (oldest : ℤ) (m : Map String ℤ)
    → zero_time <ℤ oldest
    → AllReal m
    → (oldest_from oldest m ≤ℤ oldest)
      × (zero_time <ℤ oldest_from oldest m)
      × AllFrom (oldest_from oldest m) m
unfolding oldest_from
oldest_from_least oldest [] h r = (omega arith, h, tt)
oldest_from_least oldest ((k, t) ∷ m) h r = elim (Bool-cases (ltb_ℤ t oldest)) [
  | inl older ↦ let rest = oldest_from_least t m r.0 r.1 in ground (arith, rest)
  | inr newer ↦ let rest = oldest_from_least oldest m h r.1 in ground (arith, rest)
]

oldest_all :
    (m : Map String ℤ)
    → m ≢ []
    → AllReal m
    → (zero_time <ℤ oldest_from zero_time m) × AllFrom (oldest_from zero_time m) m
unfolding oldest_from
oldest_all [] e r = absurd (e refl)
oldest_all ((k, t) ∷ m) e r = let rest = oldest_from_least t m r.0 r.1 in (rest.1, (rest.0, rest.2))

unix_mono : (a b : ℤ) → a ≤ℤ b → unix a ≤ℤ unix b
unfolding unix
unix_mono (pos m) (pos n) h = ground arith
unix_mono (pos m) (negsuc n) h = absurd (omega arith)
unix_mono (negsuc m) (pos n) h = ground arith
unix_mono (negsuc m) (negsuc n) h = ground arith

-- the choice of emit_up_to, once the watermark is known
abbrev held_back : ℤ → ℤ → ℤ
held_back wm now =
    if ltb_ℤ (wm -ℤ pos 1) (now -ℤ pos 1 -ℤ pos 1)
    then max_ℤ (wm -ℤ pos 1) (now -ℤ pos 30)
    else now -ℤ pos 1 -ℤ pos 1

held_back_lag :
    (wm now second : ℤ)
    → wm ≤ℤ second
    → (held_back wm now +ℤ pos 2 ≤ℤ now)
      × ((held_back wm now <ℤ second) ⊎ (held_back wm now +ℤ pos 30 ≤ℤ now))
held_back_lag wm now second le = elim (Bool-cases (ltb_ℤ (wm -ℤ pos 1) (now -ℤ pos 1 -ℤ pos 1))) [
  | inr prompt ↦
      let up : now -ℤ pos 1 -ℤ pos 1 ≤ℤ wm -ℤ pos 1 = ground arith in
      rw prompt (omega int_laws, inl (omega int_laws))
  | inl slow ↦
      let low = ltb_ℤ→lt (wm -ℤ pos 1) (now -ℤ pos 1 -ℤ pos 1) slow in
      elim (Bool-cases (ltb_ℤ (wm -ℤ pos 1) (now -ℤ pos 30))) [
        | inl stuck ↦ rw slow (rw stuck (omega int_laws, inr (omega int_laws)))
        | inr near ↦ rw slow (rw near (omega int_laws, inl (omega int_laws)))
      ]
]

-- The last second whose points may be published is at least two seconds old, and for every instance that
-- still runs it lies before the second of its newest sample, or is 30 seconds old or older.
pub emit_up_to-lag :
    (latest : Map String ℤ) (now : ℤ) (inst : String) (ts : ℤ)
    → AllReal latest
    → lookup inst latest ≡ some ts
    → (emit_up_to latest now +ℤ pos 2 ≤ℤ now)
      × ((emit_up_to latest now <ℤ unix ts) ⊎ (emit_up_to latest now +ℤ pos 30 ≤ℤ now))
unfolding emit_up_to watermark
emit_up_to-lag latest now inst ts real found =
    let oldest = oldest_from zero_time latest in
    let some' : latest ≢ [] = lookup-ne_nil inst ts latest found in
    let (real', all) = oldest_all latest some' real in
    let before = AllFrom-lookup oldest inst ts latest all found in
    let present : eqb_ℤ oldest zero_time ≡ false = ground arith in
    rw present (held_back_lag (unix oldest) now (unix ts) (unix_mono oldest ts before))
