-- ===== src/Tracking/Invariant/Control.antt =====
-- A new generation and a new routing keep the invariant.
use vrcft_go.Base.{
  ℕ, ◌<◌, true, ◌==◌, ltb, ◌≡◌, arith, inl, inr, Bool-cases, Result-cases, Bytes, [], ℤ, pos, ◌≤ℤ◌,
  max_int64,
}
use vrcft_go.TrackingModel.Frame.{capability_eye, capability_expression, capability_lip}
use vrcft_go.Tracking.Routing.{
  Sources, RoutingConfig, resolve_source, SourceSelection, validate_routing, routing_eq,
}
use vrcft_go.Tracking.Merged.{compose_merged, empty_merged}
use vrcft_go.Tracking.Service.{Service, merged_of, install_merged, set_generation, set_routing}
use vrcft_go.Tracking.Invariant.{Kept, Inv}
use vrcft_go.Tracking.Invariant.Maps.{resolve_source_empty}
use vrcft_go.Tracking.Invariant.Recompute.{
  recompute_merged-Inv, publish_summary-Inv, publish_merged-Inv, publish_if-Inv, install_merged-Inv,
}

-- A service at a new generation, with no source yet.
abbrev cleared : Service → ℕ → Service
cleared s g = record s {
  generation = g;
  sources = [];
  eye_source_id = [];
  expression_source_id = [];
  lip_source_id = [];
}

cleared-Kept : (s : Service) (g : ℕ) → 0 < g → Kept s → Kept (cleared s g)
cleared-Kept s g h k = record {
  names = tt;
  received = tt;
  time_nonneg = k.time_nonneg;
  time_int64 = k.time_int64;
  sequence_uint64 = k.sequence_uint64;
  latest_numbered = k.latest_numbered;
  latest_generation = λ _. h;
}

cleared-Inv :
    (s : Service) (g : ℕ) (now : ℤ)
    → now ≤ℤ pos max_int64
    → 0 < g
    → Kept s
    → Inv (install_merged (cleared s g) (record empty_merged { generation = g }) now)
unfolding merged_of compose_merged
cleared-Inv s g now h p k =
    install_merged-Inv (cleared s g) now h p (cleared-Kept s g p k) (record {
      eye = resolve_source_empty s.routing.eye capability_eye;
      expression = resolve_source_empty s.routing.expression capability_expression;
      lip = resolve_source_empty s.routing.lip capability_lip;
    })

pub set_generation-Inv :
    (s : Service) (g : ℕ) (now : ℤ) → now ≤ℤ pos max_int64 → Inv s → Inv (set_generation s g now).0
unfolding set_generation
set_generation-Inv s g now h v = elim (Bool-cases (g == 0)) [
  | inl zero_given ↦ rw zero_given v
  | inr positive ↦ elim (Bool-cases (ltb g s.generation)) [
    | inl older ↦ rw (positive, older) v
    | inr newer ↦ elim (Bool-cases (g == s.generation)) [
      | inl same ↦ rw (positive, newer, same) v
      | inr other ↦
          rw (positive, newer, other)
            (publish_summary-Inv _
              (publish_merged-Inv _ (cleared-Inv s g now h (ground arith) v.kept)))
    ]
  ]
]

-- With another routing, before the first generation or with a frame made anew.
rerouted-Kept :
    (s : Service) (config : RoutingConfig) → Kept s → Kept (record s { routing = config })
rerouted-Kept s config k = record {
  names = k.names;
  received = k.received;
  time_nonneg = k.time_nonneg;
  time_int64 = k.time_int64;
  sequence_uint64 = k.sequence_uint64;
  latest_numbered = k.latest_numbered;
  latest_generation = k.latest_generation;
}

resolve_fresh :
    (selection : SourceSelection) (id : Bytes) (m : Sources) (c : ℕ)
    → m ≡ []
    → id ≡ []
    → resolve_source selection id m c ≡ id
resolve_fresh selection id m c e f = rw (e, f) (resolve_source_empty selection c)

rerouted-Inv :
    (s : Service) (config : RoutingConfig)
    → s.generation ≡ 0
    → Inv s
    → Inv (record s { routing = config })
unfolding merged_of
rerouted-Inv s config g v =
    let (no_source, eye, expression, lip, no_frame) = v.unset g in
    record {
      kept = rerouted-Kept s config v.kept;
      current = λ e. cc;
      settled = record {
        eye = resolve_fresh config.eye s.eye_source_id s.sources capability_eye no_source eye;
        expression =
            resolve_fresh config.expression s.expression_source_id s.sources capability_expression
              no_source expression;
        lip = resolve_fresh config.lip s.lip_source_id s.sources capability_lip no_source lip;
      };
      unset = v.unset;
      started = v.started;
    }

pub set_routing-Inv :
    (s : Service) (config : RoutingConfig) (now : ℤ)
    → now ≤ℤ pos max_int64
    → Inv s
    → Inv (set_routing s config now).0
unfolding set_routing
set_routing-Inv s config now h v = elim (Result-cases (validate_routing config)) [
  | inr (e, bad) ↦ rw (bad, set_routing) v
  | inl (_, good) ↦
      rw (good, set_routing)
        (elim (Bool-cases (routing_eq config s.routing)) [
          | inl same ↦ rw same v
          | inr other ↦ elim (Bool-cases (s.generation == 0)) [
            | inl none_yet ↦
                rw (other, none_yet)
                  (publish_summary-Inv _ (rerouted-Inv s config (ground arith) v))
            | inr some_yet ↦
                rw (other, some_yet)
                  (publish_summary-Inv _ (
                    publish_if-Inv _ _ (
                      recompute_merged-Inv true (record s { routing = config }) now h (ground arith)
                        (rerouted-Kept s config v.kept) (λ a. cc))))
          ]
        ])
]
