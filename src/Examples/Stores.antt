-- ===== src/Examples/Stores.antt =====
-- The theorems on the WebSocket server and on the plans, at concrete inputs.
use open_synapse.Httpx.{
  NetText, SecurityConfig, Request, is_handed_on, middleware, is_probe, IsKnownHost, IsKnownOrigin,
  middleware-is_handed_on,
}
use open_synapse.Prelude.Assoc.{lookup}
use open_synapse.Prelude.{
  ◌≡◌, refl, none, some, true, false, List, [], ◌∷◌, ℕ, String, Option, Bool, ◌≤◌, All, leb, arith,
  length, ◌&&◌, ◌≢◌, ◌↔◌, ◌⊎◌,
}
use text.Mathlib.Text.{◌==◌ as str_eq}
use open_synapse.WsServer.{
  Event, Frame, read, broadcast, write, session, send_queue, auth, subscribe, step, open_step,
  handle, offer, write_frame, accepts, connect, has_channel,
}
use open_synapse.WsServer.History.{session-IsOrderly, session-IsInStep, IsDue, granted, subscribed}
use open_synapse.Plans.{PlanStore, PlanRow, get_version, write_update, done, failed, find_version}
use open_synapse.Plans.Versions.{
  Call, create, update, call_all, call_all-versions, version_of, content_of, is_some, empty_store,
}
use open_synapse.Plans.Race.{write_update_twice}
use open_synapse.Plans.Listing.{ListedPlan, list_plans, list_plans_loses}

abbrev metrics : String
metrics = "runs.r1.metrics"

abbrev point : Frame
point = record { channel = "runs.r1.metrics"; payload = "{}" }

-- the last event first: a token, a subscription, two broadcasts, and a write
abbrev watched : List Event
watched =
    write
    ∷ broadcast point
    ∷ broadcast point
    ∷ read (subscribe "runs.r1.metrics")
    ∷ read (auth "t0k3n")
    ∷ []

abbrev checked : Option (String → Bool)
checked = some (λ token. str_eq token "t0k3n")

session-IsOrderly_example :
    All (IsDue checked watched) (session checked watched).written
    × (All (IsDue checked watched) (session checked watched).client.send
        × (length (session checked watched).client.send ≤ send_queue))
session-IsOrderly_example = session-IsOrderly checked watched

session-IsInStep_example :
    ((session checked watched).client.authed ≡ granted checked watched)
    × ((c : String)
        → has_channel c (session checked watched).client.channels ≡ subscribed checked c watched)
unfolding session step open_step handle offer write_frame accepts connect
session-IsInStep_example = session-IsInStep checked watched refl

-- a plan that is created and then changed once
abbrev one_change : List (Call ℕ)
one_change = create "shop" 7 false ∷ update "shop" 8 ∷ []

call_all-versions_example :
    let s = call_all one_change empty_store in
    (get_version "shop" (version_of "shop" s) s ≡ content_of "shop" s)
    × (is_some (get_version "shop" 1 s) ≡ (leb 1 1 && leb 1 (version_of "shop" s)))
call_all-versions_example = call_all-versions one_change "shop" 1

abbrev shop_row : PlanRow ℕ
shop_row = record { content = 7; version = 1; built_in = false }

abbrev one_plan : PlanStore ℕ
one_plan = record {
  plans = ("shop", shop_row) ∷ [];
  versions = record { plan_id = "shop"; number = 1; content = 7 } ∷ [];
}

write_update_twice_example :
    let first = write_update "shop" shop_row 8 one_plan in
    let second = write_update "shop" shop_row 9 first.1 in
    (first.0 ≡ done)
    × (second.0 ≡ failed)
    × (content_of "shop" second.1 ≡ some 9)
    × (get_version "shop" 2 second.1 ≡ some 8)
unfolding lookup get_version find_version
write_update_twice_example = write_update_twice "shop" shop_row 8 9 one_plan refl refl

abbrev own_plan : ListedPlan
own_plan = record { id = "shop"; built_in = false; updated_at = 200 }

abbrev fixed_plan : ListedPlan
fixed_plan = record { id = "demo"; built_in = true; updated_at = 100 }

list_plans_loses_example :
    (list_plans none 1 (own_plan ∷ fixed_plan ∷ [])
      ≡ record { items = fixed_plan ∷ []; next_cursor = some 100 })
    × (list_plans (some 100) 1 (own_plan ∷ fixed_plan ∷ [])
        ≡ record { items = []; next_cursor = none })
list_plans_loses_example = list_plans_loses own_plan fixed_plan refl refl (omega arith)

-- hosts without ports and origins without a scheme
abbrev bare_names : NetText
bare_names = record {
  host_only = λ s. s;
  url_host = λ s. some s;
  to_lower = λ s. s;
  equal_fold = λ a b. str_eq a b;
  trim_slashes = λ s. s;
}

abbrev default_security : SecurityConfig
default_security = record { allowed_hosts = []; allowed_origins = "localhost:5173" ∷ [] }

abbrev from_vite : Request
from_vite = record {
  method = "GET";
  path = "/api/v1/runs";
  host = "localhost";
  origin = "localhost:5173";
}

middleware-is_handed_on_example :
    is_handed_on (middleware bare_names default_security from_vite) ≡ true ↔ (
      (◌≢◌ {A = String} "GET" "OPTIONS")
      × ((is_probe from_vite ≡ true) ⊎ IsKnownHost bare_names default_security "localhost")
      × ((◌≡◌ {A = String} "localhost:5173" "")
          ⊎ IsKnownOrigin bare_names default_security "localhost:5173" "localhost"))
middleware-is_handed_on_example = middleware-is_handed_on bare_names default_security from_vite
