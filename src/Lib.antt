-- ===== src/Lib.antt =====
-- A verification library for vrcft-go, a face tracking server: plugins send tracking frames, the server
-- merges them, processes the merged frame, and sends avatar parameters over OSC. The library models the
-- way of a frame from the plugin to the values of the parameters, and how these are sent in packets of OSC:
--
--   * pkg/trackingmodel (TrackingModel.Expressions, TrackingModel.Frame): masks and sets of expressions,
--     the frame, `Validate` and `Canonicalize`. Laws stand in TrackingModel.Masks and
--     TrackingModel.Canonical.
--   * pkg/pluginapi/subscription.go (PluginApi.Subscription): which data the server asks a plugin for,
--     and the trimming of a frame to it. Laws stand in PluginApi.Trim, PluginApi.Closed and
--     PluginApi.Accepted.
--   * internal/tracking (Tracking.Routing, Tracking.Merged, Tracking.Rejections, Tracking.Service,
--     Tracking.Submit): the service that stores each plugin's last frame, selects a source for the eye,
--     the expressions and the lip, and makes the merged frame. `Service` is the struct behind the mutex,
--     and each method is a function on it (`Submit` is `submit`, `SetGeneration` is `set_generation`,
--     `SetRouting` is `set_routing`, `RemoveSource` is `remove_source`, `recomputeMergedLocked` is
--     `recompute_merged`); `Call` and `step` are the calls that goroutines make in some order. Clock
--     readings are arguments. The invariant is Tracking.Invariant with its child modules, and
--     Tracking.Order, Tracking.Refusals and Tracking.Acceptance say what a call does.
--   * internal/processing (Processing.Channel, Config, Shaping, Filter, Dropout, Mutual, Validation,
--     Pipeline, Output and Step): the pipeline that calibrates, tunes and filters each of 86 channels, fades
--     a channel whose source is lost, and lets the channels of a group exclude one another. `ProcessAt` is
--     `process_at`, on the state `Pipeline`. Laws stand in Sequencing and Runs (order of inputs), Silence
--     (dropout), Exclusion, Groups and Disjoint (mutual exclusion), Compiled (configuration), Bounds
--     (single values), Numbering (channels), Published (the frame that is given out), Readings
--     (what channels read), and Sizes, Renewal, Prepared and Renewed (the loops over
--     channels).
--   * internal/parameters (Parameters.Definition, Table with a child for each stretch of the generated table, Names
--     and Types): the definitions of the 127 parameters, their lookup and the range of their values.
--   * internal/parameterdeps (ParameterDeps.Fields, Plans and Leaves): the table of what each parameter is made
--     from, and the search for all the tracking data that a list of parameters needs.
--   * internal/evaluator (Evaluator.Instructions, Compile, Snapshot and Evaluate): `Compile` is `compile`, whose
--     search `visit` has as fuel one more than the number of parameters; `Evaluate` is `evaluate` on the
--     four arrays of a `Snapshot`. Order, Visits and Compiled say in which order the instructions come,
--     Grounded and Complete which lists are taken, Settled, Runs, Outputs and Values what is given out, and
--     Ranges the bounds.
--   * pkg/osc/packet.go (Osc.Values, Padding, Encode and Decode): messages and bundles as bytes. Each encoder has the
--     buffer that it writes behind as an argument, and each decoder the packet and an offset; a bundle's
--     loop has the packet's length as fuel, and nested bundles the depth that is left. Aligned, RoundTrip,
--     Messages, Elements and Bundles have the laws.
--   * internal/osc/scalar.go, builder.go and sender.go (Sender.Scalar, Builder, Outputs and Send): the sender of
--     parameters. `Send` is `send`, which gives the sender, the packets that the transport took, and the error;
--     `accepts` says which packets it takes, at the number of the call, and the conversions between floats and
--     integers are the parameter `Conversions`. A bundle that is built is a `Batch`. Messages compares the
--     builder with pkg/osc, Datagrams and Delivery follow a bundle while it is built and sent, and Steady,
--     Batches, Rounds and Repeats what is stored as sent last.
--
-- The service's merged frame is the pipeline's input: Processing.Validation is what the pipeline asks of it,
-- and Processing.Inputs and Processing.Handoff compare the two.
--
-- Numbers: an unsigned integer is a native number, with the bounds of its type where the code comes near
-- them (the merged frame's number stops at 2 ^ 64 - 1); an int64 is an integer whose sums and differences
-- wrap (Base.Int). A float is its IEEE 754 bit pattern (Floats): comparisons, sign and finiteness are read
-- off the bits, and the operations that round are the parameter `Arithmetic`, since they are the machine's.
-- A Go map is an association list (Base.Assoc), and a theorem says
-- where its order does not matter. Every loop is structural recursion on a list or on the number of rounds
-- left, except where fuel is named above.
--
-- Not modelled: the mutex and the goroutines (a call is one step), messages of errors (an error is the value
-- that it wraps first, and a search keeps no stack for its text), the building of OSC
-- catalogs and their discovery, avatars, the plugin processes, the settings, the application and the frontend.
--
-- Scenarios holds concrete frames, services and pipelines, and the theorems applied to them.
pub mod Base
pub mod Floats
pub mod TrackingModel
pub mod Parameters
pub mod ParameterDeps
pub mod PluginApi
pub mod Tracking
pub mod Processing
pub mod Evaluator
pub mod Osc
pub mod Sender
pub mod Scenarios
