-- ===== src/State/Query/Routes.antt =====
-- A host is routed to a running container that claims it, exact claims before wildcards.
use mathlib.Core.List.{Memᴰ}
use fghj.Prelude.{
  String, Bool, true, none, some, ◌≡◌, ◌≢◌, ◌⊎◌, arith, find, filter, Option-cases, inl, inr,
}
use fghj.Prelude.BTreeMap.{BTreeMap}
use fghj.Prelude.Search.{
  mem-find, find-eq-none, mem-find_map, find_map-eq-none, mem-filter, mem_of_mem-filter,
}
use fghj.State.Container.{ContainerInfo, PortRoute}
use fghj.State.Workspace.{WorkspaceState}
use fghj.State.Query.{
  RouteTarget, is_running, containers, target, route_in, route_in_workspace, find_route, exact,
  covers, resolve_route,
}

-- A running container of a registered workspace, with a route that passes the test.
pub record Claim (p : PortRoute → Bool) (states : BTreeMap WorkspaceState) : Type 0 where
  pub workspace : String
  pub state : WorkspaceState
  pub container : ContainerInfo
  pub route : PortRoute
  pub registered : Memᴰ (workspace, state) states
  pub held : Memᴰ container (containers state)
  pub runs : is_running container ≡ true
  pub routed : Memᴰ route container.desired.routes
  pub passes : p route ≡ true

abbrev pub claimed :
    {p : PortRoute → Bool} {states : BTreeMap WorkspaceState} → Claim p states → RouteTarget
claimed c = target c.workspace c.container c.route

module _ (p : PortRoute → Bool) (states : BTreeMap WorkspaceState) where
  route_in-some :
      (w : String) (c : ContainerInfo) (t : RouteTarget)
      → route_in p w c ≡ some t
      → (r : PortRoute) × Memᴰ r c.desired.routes × (p r ≡ true) × (t ≡ target w c r)
  unfolding route_in
  route_in-some w c t h = elim (Option-cases (find p c.desired.routes)) [
    | inl absent ↦ absurd (ground arith)
    | inr (r, there) ↦ let (m, q) = mem-find p c.desired.routes r there in (r, m, q, ground arith)
  ]

  find_route-Claim :
      (t : RouteTarget) → find_route p states ≡ some t → (c : Claim p states) × (t ≡ claimed c)
  unfolding find_route
  find_route-Claim t h =
      let (e, registered, inside) = mem-find_map (route_in_workspace p) states t h in
      let (c, m, found) =
        mem-find_map (route_in p e.0) (filter is_running (containers e.1)) t inside in
      let (held, runs) = mem_of_mem-filter is_running (containers e.1) c m in
      let (r, routed, passes, is) = route_in-some e.0 c t found in
      (
        record {
          workspace = e.0;
          state = e.1;
          container = c;
          route = r;
          registered = registered;
          held = held;
          runs = runs;
          routed = routed;
          passes = passes;
        },
        is,
      )

  route_in-ne-none :
      (w : String) (c : ContainerInfo) (r : PortRoute)
      → Memᴰ r c.desired.routes
      → p r ≡ true
      → route_in p w c ≢ none
  unfolding route_in
  route_in-ne-none w c r m q h = elim (Option-cases (find p c.desired.routes)) [
    | inl absent ↦ ground (arith, find-eq-none p c.desired.routes r absent m)
    | inr (r', there) ↦ ground arith
  ]

  find_route_complete : Claim p states → find_route p states ≢ none
  unfolding find_route
  find_route_complete c h = route_in-ne-none c.workspace c.container c.route c.routed c.passes (
      find_map-eq-none (route_in p c.workspace) (filter is_running (containers c.state)) c.container
        (find_map-eq-none (route_in_workspace p) states (c.workspace, c.state) h c.registered)
        (mem-filter is_running (containers c.state) c.container c.held c.runs))

module _ (states : BTreeMap WorkspaceState) (host : String) where
  -- A host that resolves does so to a running container that claims it: exactly, or by a wildcard
  -- when no running container of any workspace claims it exactly.
  pub resolve_route_sound :
      (t : RouteTarget)
      → resolve_route states host ≡ some t
      → ((c : Claim (exact host) states) × (t ≡ claimed c))
        ⊎ ((c : Claim (covers host) states) × (t ≡ claimed c) × ¬ Claim (exact host) states)
  unfolding resolve_route
  resolve_route_sound t h = elim (Option-cases (find_route (exact host) states)) [
    | inl absent ↦
        let (c, is) = find_route-Claim (covers host) states t (ground arith) in
        inr (c, is, λ d. find_route_complete (exact host) states d absent)
    | inr (u, there) ↦ inl (find_route-Claim (exact host) states t (ground arith))
  ]

  -- A host that some running container claims, exactly or by a wildcard, resolves.
  pub resolve_route_complete :
      Claim (exact host) states ⊎ Claim (covers host) states → resolve_route states host ≢ none
  unfolding resolve_route
  resolve_route_complete (inl c) h = ground (arith, find_route_complete (exact host) states c)
  resolve_route_complete (inr c) h = elim (Option-cases (find_route (exact host) states)) [
    | inl absent ↦ ground (arith, find_route_complete (covers host) states c)
    | inr (u, there) ↦ ground arith
  ]
