-- ===== src/Lib.antt =====
-- k8gb: a model of the operator that publishes the DNS records of Gslb resources over several
-- Kubernetes clusters, and of its correctness.
--
-- A reconciliation (controllers/gslb_controller.go) reads a Gslb, resolves its specification,
-- keeps its finalizer, saves an Ingress for it, finds the health of its hosts, has a DNS provider
-- save the records and delegate the zone, and writes the status. Each part is a module, named
-- below with its source:
--   Api            api/v1beta1: the Gslb, and the conversions of its ingress specification
--   Cluster        the API server, DNS and the gauges as records of actions: code outside the
--                  repository, so parameters of all that uses them
--   Depresolver    controllers/depresolver: configuration, validation, specification defaults
--   Utils          controllers/internal/utils: results, annotations, Dig, the YAML converters, and the
--                  fake DNS server, with the goroutines of a test as steps in any order
--   Assistant      controllers/providers/assistant: the assistant over the API server and DNS
--   Dns            controllers/providers/dns: the providers (Empty, External, Infoblox) and their
--                  factory; Dns.Zone holds the lists of name servers
--   Metrics        controllers/providers/metrics: the numbers that the gauges are set to, and their
--                  registration
--   Logging        controllers/logging: the logger and its adapter
--   Start          main.go: what the program does before the manager runs, and after
--   Controller     controllers: Health and Status (status.go), Endpoint (dnsupdate.go), Ingress
--                  (ingress.go), Finalizers (finalize.go), Reconcile and Watch (gslb_controller.go);
--                  Lifecycle is the history of one Gslb: the writes of its owner, and
--                  reconciliations with a provider that keeps the promises of LawfulProvider; its
--                  modules Infoblox… and ExternalLaws are about those two providers
--   Terratest      terratest/utils: the end-to-end tests' workflow, retries and assertions
--   Effect         errors, panics and calls that act on the world, as explicit state passing, and
--                  the rules to reason about them (Keeps, Hoare)
--   Prelude        lists, maps, texts, sorting, integers and regular expressions
--   Tests          concrete clusters, and the theorems at them
-- A Go function that can fail is a `Run W A`: from a world of any type to an outcome (a value, an
-- error, a panic) and the world after it. Function and field names are the source's in snake case.
-- Loops are recursions on their list or on the rounds that are left, so no fuel is needed; printing a
-- number has as much as its value, and has fewer digits. A loop over a Go map visits the entries in
-- the order of a parameter `visit`.
--
-- Not modelled: the log lines that components write, the texts that error messages are put together
-- to, Go's overflow of `int` (seconds and ports), the difference of nil and empty slices, the work of
-- controller-runtime, Prometheus and miekg/dns behind the calls, the mocks of the tests
-- (assistant_mock.go, infoblox-fake), and generated code. In Lifecycle there is one Gslb, and a
-- reconciliation runs to its end before the next step. Sorting is insertion sort: Go leaves the order
-- of equal items open.
pub mod Prelude
pub mod Effect
pub mod Api
pub mod Cluster
pub mod Depresolver
pub mod Logging
pub mod Utils
pub mod Assistant
pub mod Dns
pub mod Metrics
pub mod Controller
pub mod Start
pub mod Tests
pub mod Terratest
