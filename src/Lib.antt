-- ===== src/Lib.antt =====
-- A KEDA external scaler, phase-2-capstone/keda-inference-scaler: it scales a model server on a
-- composite saturation signal, the larger of two readings of Prometheus over their thresholds. All
-- paths below are under that directory of the repository.
--
-- The parts, and how they work together: `main` (main.go) reads the environment and wires one
-- scaler with its instruments and its readiness. KEDA calls the scaler's methods, which parse the
-- metadata of the ScaledObject (internal/config), ask the metric cache for two readings
-- (internal/metrics/cache.go) in front of Prometheus (internal/metrics/metrics.go), and combine them
-- to a score (internal/saturation). Each query leaves its duration, its errors and the time of a
-- success in internal/observability, which the HTTP server shows to the probes.
--
-- The files, with the code that each models:
--   Saturation       internal/saturation/saturation.go: Score (score), TargetValue.
--   Config           internal/config/config.go: Parse (parse: defaults, then overridden), floatOr,
--                    boolOr, durationOr, positiveDurationOr, positiveIntOr. A map is an association
--                    list; a missing key reads as the empty text.
--   Metrics.Source   internal/metrics/metrics.go: Sample and the interface Source.
--   Metrics.Prometheus  Prometheus.Instant (instant); Prometheus.Decode is the struct that the JSON is
--                    decoded into (decode_response).
--   Metrics.Cache    internal/metrics/cache.go: Get (get), load, store, cacheKey (cache_key). The
--                    function that Get hands to singleflight is fetch, and Do with it is flight.
--   Metrics.Cache.Concurrent  the same file with many calls of Get at once: a step relation (Move, Step)
--                    whose steps are the sections of the mutex, the queries of the source and the
--                    passages through singleflight (the parameter Singleflight).
--   Observability    internal/observability: the collectors of NewMetrics (Collectors), the methods of
--                    Metrics as a trace of calls (Instruments) and the values that the trace gives the
--                    collectors (Instruments.Values), Health, and NewServer with its routes
--                    (Server.handle).
--   Scaler           main.go: queryInstant (query_instant), saturationFor (saturation_for), IsActive,
--                    GetMetricSpec, GetMetrics, in a state monad M on the struct scaler
--                    (Scaler.State). In the methods the two goroutines of a round run one after the
--                    other in either order, and the failure of the first cancels the context of the
--                    second or comes too late for it, as Env says.
--   Scaler.Interleaved  the same two goroutines a step at a time, in any order of their steps
--                    (task_step, round_step, interleave).
--   Scaler.Goroutines  the goroutines of the rounds of many handlers at once, and between their steps
--                    what else the handlers do to the instruments (happen).
--   Stream           main.go: nextStreamBackoff, StreamIsActive. An iteration of the loop is
--                    iteration, with the branches on_failure and on_success.
--   Service          main.go: newScaler, the settings and the wiring of main (launch); the calls of
--                    the service as a step relation (Step, Reachable). Service.Main is main from its
--                    start to its exit (run_main), with the lines that it logs.
--   Go               What the code uses of Go and its library: int64 with its wrap-around, float64,
--                    errors, time.Time and time.Duration with their parser, strconv.
--   Prelude          Shared names, tests, maps and integers.
--   Tests            Runs on concrete inputs.
--
-- How the world enters: the clock and the network are functions of the number of questions asked so
-- far (World), so that each time.Now and each request may have its own answer. Env holds them with
-- the results that a call may share with another goroutine (Group, for golang.org/x/sync's
-- singleflight) and with how the two queries of a round meet. net/http, url.QueryEscape
-- and the parsing of JSON text are HttpClient. What Go leaves open for a float64 out of the range of
-- int64 is the function machine.
--
-- Numbers: an int64 is an integer with its wrap-around written out. A float64 is NaN, an infinity,
-- or a sign and a number of units of 2^-1074, the smallest positive double; its operations round to
-- the nearest, ties to even. The search for the scale of the last of 53 digits
-- (Go.Float64.Defs.shift) doubles the denominator with the numerator as its fuel; that is enough
-- because a number is below the power of two that it is the exponent of (fuel_fits and shift-fits
-- in Go/Float64/Rounding). The parser of durations has the length of the text as fuel, and each of
-- its rounds takes a character (components_enough in Go/Time/Parse/Fuel). The loop of
-- StreamIsActive is recursion on the list of the events that its select sees and needs no fuel. The
-- stream's bound, a poll interval of which 16 fit an int64 (up to about 18 years), is the range in
-- which the products of the backoff do not wrap.
--
-- Libraries that are parameters with laws: singleflight, of which Group is the result that a call
-- may share, and Singleflight the rules for who leads and who joins a flight (alone, same_key,
-- decides); and the registry of the Prometheus client (Registry). IsHonest lets a flight share
-- whatever the source gave for the address and query, a cancelled leader's error too. Answers, the
-- law of a backend whose answers are a function of address and query, lets it share only those
-- answers, so that it leaves out a leader whose context is cancelled. What net.Listen, grpc's Serve
-- and ListenAndServe return is Outside.
--
-- Not modelled: the answers of the scaler's methods while others run, of which only the rounds of
-- queries interleave (Scaler.Goroutines; each call of Get is one step there, and
-- Metrics.Cache.Concurrent has its parts); logging outside main; the texts of library errors, which
-- are shortened; how grpc and net/http serve, and what promhttp writes; objects in JSON that repeat
-- a name; times after the year 2157, where time.Now has no reading of the monotonic clock; the
-- generated stubs, the tests, the deployment files and the Python programs of the repository.
pub mod Prelude
pub mod Go
pub mod Saturation
pub mod Config
pub mod Observability
pub mod Metrics
pub mod Scaler
pub mod Stream
pub mod Service
mod Tests
