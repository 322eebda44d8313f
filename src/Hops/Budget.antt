-- ===== src/Hops/Budget.antt =====
-- A route from gateway to gateway comes to its end.
use media_bridge.Base.{
  ℕ, ◌+◌, ◌≤◌, String, true, false, List, [], ◌∷◌, ◌++◌, ◌≡◌, refl, arith, contains, distinct,
  length, length-append, ◌==◌, string_eq, eq_iff,
}
use media_bridge.Base.{ok}
use media_bridge.Hops.{HopMetadata, make_hop, visiting, advance_hop}

contains-snoc :
    (g : String) (gs : List String) (x : String)
    → contains g gs ≡ false
    → (g == x) ≡ false
    → contains g (gs ++ x ∷ []) ≡ false
contains-snoc g [] x h ne = ground (arith, h, ne, eq_iff g x, eq_iff x g)
contains-snoc g (y ∷ gs) x h ne = ground (arith, h, contains-snoc g gs x)

distinct-snoc :
    (gs : List String) (x : String)
    → distinct gs ≡ true
    → contains x gs ≡ false
    → distinct (gs ++ x ∷ []) ≡ true
distinct-snoc [] x d h = ground arith
distinct-snoc (g ∷ gs) x d h =
    ground (arith, d, h, distinct-snoc gs x, contains-snoc g gs x, eq_iff g x, eq_iff x g)

-- Within its budget, and without a loop.
pub record IsWithin (h : HopMetadata) : Type 0 where
  pub budget : length h.visited_gateways ≤ h.max_hops
  pub loop_free : distinct h.visited_gateways ≡ true

-- The hops that a request makes, each of them allowed by the guard.
pub data Route : HopMetadata → ℕ → HopMetadata → Type 0 where
  stop : {h : HopMetadata} → Route h 0 h
  hop :
      {h h' k : HopMetadata} {n : ℕ} (gateway_id : String)
      → advance_hop h gateway_id ≡ ok h'
      → Route h' n k
      → Route h (1 + n) k

advance_hop-IsWithin :
    (h h' : HopMetadata) (gateway_id : String)
    → IsWithin h
    → advance_hop h gateway_id ≡ ok h'
    → IsWithin h'
      × (length h'.visited_gateways ≡ 1 + length h.visited_gateways)
      × (h'.max_hops ≡ h.max_hops)
unfolding advance_hop make_hop
advance_hop-IsWithin h h' gateway_id v made =
    let visited = h.visited_gateways in
    let same : visiting h gateway_id ≡ h' = ground (arith, made) in
    let new : contains gateway_id visited ≡ false = ground (arith, made) in
    let left : 1 + length visited ≤ h.max_hops = ground (arith, made) in
    let longer : length (visited ++ gateway_id ∷ []) ≡ 1 + length visited =
      omega (arith, length-append visited (gateway_id ∷ [])) in
    rw (← same) (
      record {
        budget = omega (arith, longer, left);
        loop_free = distinct-snoc visited gateway_id v.loop_free new;
      },
      longer,
      refl,
    )

-- A request that starts within its budget and without a loop makes at most as many hops as its budget
-- has left, and it is within its budget and without a loop wherever it gets.
pub route_ends :
    (h k : HopMetadata) (n : ℕ)
    → IsWithin h
    → Route h n k
    → (n + length h.visited_gateways ≤ h.max_hops) × IsWithin k
route_ends h k n v stop = (omega (arith, v.budget), v)
route_ends h k n v (hop {h' = h'} gateway_id made rest) =
    let (v', longer, same) = advance_hop-IsWithin h h' gateway_id v made in
    let (bound, last) = route_ends h' k _ v' rest in (omega (arith, bound, longer, same), last)
