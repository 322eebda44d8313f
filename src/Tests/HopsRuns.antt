-- ===== src/Tests/HopsRuns.antt =====
-- A request that goes through two gateways.
use media_bridge.Base.{[], ◌+◌, ◌≤◌, ◌≡◌, refl, arith, length}
use media_bridge.Base.{ok}
use media_bridge.Hops.{HopMetadata, hop_accepted, make_hop, advance_hop, visiting}
use media_bridge.Hops.Budget.{IsWithin, Route, stop, hop, route_ends}

abbrev start : HopMetadata
start = record { hop_id = "h"; visited_gateways = []; max_hops = 2 }

abbrev second : HopMetadata
second = visiting (visiting start "one") "two"

first_hop : advance_hop start "one" ≡ ok (visiting start "one")
unfolding advance_hop make_hop hop_accepted
first_hop = refl

second_hop : advance_hop (visiting start "one") "two" ≡ ok second
unfolding advance_hop make_hop hop_accepted
second_hop = refl

start-IsWithin : IsWithin start
start-IsWithin = record { budget = omega arith; loop_free = refl }

route : Route start 2 second
route = hop "one" first_hop (hop "two" second_hop stop)

route_ends_example : (2 + length start.visited_gateways ≤ start.max_hops) × IsWithin second
route_ends_example = route_ends start second 2 start-IsWithin route
