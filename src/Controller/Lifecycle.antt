-- ===== src/Controller/Lifecycle.antt =====
-- The life of one Gslb beside the operator (controllers/gslb_controller.go): what is observed of it,
-- what the API server and the DNS provider promise, and the steps of users and of the operator.
pub mod Quiet
pub mod Contracts
pub mod Guard
pub mod Safety
pub mod Histories
pub mod InfobloxZone
pub mod InfobloxEnd
pub mod InfobloxBegin
pub mod InfobloxLaws
pub mod ExternalLaws
use k8gb.Prelude.{
  ℕ, ◌≡◌, ◌⊎◌, String, Bool, true, false, ◌&&◌, Option, none, some, List, is_empty, if◌then◌else◌,
}
use k8gb.Prelude.Dict.{Dict}
use k8gb.Effect.{Error, Outcome, ok, err, panicked, Run}
use k8gb.Effect.Keeps.{Keeps}
use k8gb.Api.{Gslb, key_of, ObjectKey, ObjectMeta}
use k8gb.Cluster.{Client, DnsEndpoint, Gauges, Ingress}
use k8gb.Controller.Finalizers.{contains, gslb_finalizer}
use k8gb.Controller.Reconcile.{reconcile}
use k8gb.Depresolver.{Config, DependencyResolver}
use k8gb.Dns.{Provider}

-- The finalizers of the Gslb, if it exists; whether its deletion has been asked for; and whether the
-- zone is delegated.
pub record Observed : Type 0 where
  pub object : Option (List String)
  pub marked : Bool
  pub delegated : Bool

-- An object that is marked for deletion is removed with its last finalizer.
abbrev pub written : List String → Observed → Observed
written fs o = record o { object = if o.marked && is_empty fs then none else some fs }

abbrev pub IsFailure : {A : Type 0} → Outcome A → Type 0
IsFailure (ok a) = ⊥
IsFailure _ = Unit

-- What an update that was written returns, if its answer arrives.
abbrev pub IsAnswer : Gslb → Bool → Outcome Gslb → Type 0
IsAnswer g marked (ok g') =
    (g'.meta.finalizers ≡ g.meta.finalizers)
    × (g'.meta.marked_for_deletion ≡ marked)
    × (key_of g'.meta ≡ key_of g.meta)
IsAnswer g marked _ = Unit

-- An update is refused, or written to an object that exists. It may be written and yet fail.
abbrev pub IsUpdate : Gslb → Observed → Outcome Gslb → Observed → Type 0
IsUpdate g o r o' =
    ((o' ≡ o) × IsFailure r)
    ⊎ ((fs : List String) × (o.object ≡ some fs)
        × (o' ≡ written g.meta.finalizers o)
        × IsAnswer g o.marked r)

abbrev pub IsRead : ObjectKey → Observed → Outcome Gslb → Type 0
IsRead key o (ok g) =
    (o.object ≡ some g.meta.finalizers)
    × (o.marked ≡ g.meta.marked_for_deletion)
    × (key_of g.meta ≡ key)
IsRead key o (err Error.not_found) = o.object ≡ none
IsRead key o _ = Unit

-- A finalization that succeeds ends the delegation, and one that fails does not begin it.
abbrev pub IsFinalization : {A : Type 0} → Observed → Outcome A → Observed → Type 0
IsFinalization o (ok a) o' = o'.delegated ≡ false
IsFinalization o _ o' = o'.delegated ≡ true → o.delegated ≡ true

-- What the operator relies on from the API server and the metrics. Any call may fail.
pub record LawfulServer {W : Type 0} (key : ObjectKey) (observe : W → Observed) (client : Client W)
    (gauges : Gauges W) : Type 0 where
  pub get_gslb : Keeps observe (client.get_gslb key)
  pub get_gslb_IsRead : (w : W) → IsRead key (observe w) (client.get_gslb key w).0
  pub update_gslb :
      (g : Gslb) (w : W)
      → IsUpdate g (observe w) (client.update_gslb g w).0 (observe (client.update_gslb g w).1)
  pub update_gslb_status : (g : Gslb) → Keeps observe (client.update_gslb_status g)
  pub get_service : (k : ObjectKey) → Keeps observe (client.get_service k)
  pub get_endpoints : (k : ObjectKey) → Keeps observe (client.get_endpoints k)
  pub get_ingress : (k : ObjectKey) → Keeps observe (client.get_ingress k)
  pub create_ingress : (i : Ingress) → Keeps observe (client.create_ingress i)
  pub update_ingress : (i : Ingress) → Keeps observe (client.update_ingress i)
  pub get_dns_endpoint : (k : ObjectKey) → Keeps observe (client.get_dns_endpoint k)
  pub set_annotation :
      (m : ObjectMeta) (k v : String) → key_of (client.set_meta_data_annotation m k v) ≡ key_of m
  pub set_owner :
      (owner m : ObjectMeta) {m' : ObjectMeta}
      → client.set_controller_reference owner m ≡ ok m'
      → key_of m' ≡ key_of m
  pub set_gauge :
      (name : String) (labels : Dict String) (n : ℕ)
      → Keeps observe (gauges.set_gauge name labels n)

-- The same for the DNS provider of the Gslb's cluster. The record set that is saved for a Gslb has
-- its name and namespace.
pub record LawfulProvider {W : Type 0} (key : ObjectKey) (observe : W → Observed)
    (provider : Provider W) : Type 0 where
  pub exposed_ips : (g : Gslb) → Keeps observe (provider.gslb_ingress_exposed_ips g)
  pub external_targets : (host : String) → Keeps observe (provider.get_external_targets host)
  pub save_dns_endpoint :
      (g : Gslb) (d : DnsEndpoint)
      → key_of g.meta ≡ key
      → key_of d.meta ≡ key
      → Keeps observe (provider.save_dns_endpoint g d)
  pub delegation_object :
      (g : Gslb) (w : W)
      → (observe (provider.create_zone_delegation g w).1).object ≡ (observe w).object
  pub finalize_object :
      (g : Gslb) (w : W) → (observe (provider.finalize g w).1).object ≡ (observe w).object
  pub finalize_IsFinalization :
      (g : Gslb) (w : W)
      → IsFinalization (observe w) (provider.finalize g w).0 (observe (provider.finalize g w).1)

pub record Lawful {W : Type 0} (key : ObjectKey) (observe : W → Observed) (client : Client W)
    (gauges : Gauges W) (provider : Provider W) : Type 0 where
  pub server : LawfulServer key observe client gauges
  pub edge : LawfulProvider key observe provider

-- What a user does. An edit leaves the operator's finalizer where it is.
pub data Change (o o' : Observed) : Type 0 where
  created :
      (fs : List String)
      → o.object ≡ none
      → o' ≡ record o { object = some fs; marked = false }
      → Change o o'
  edited :
      (fs gs : List String)
      → o.object ≡ some fs
      → (contains fs gslb_finalizer ≡ true → contains gs gslb_finalizer ≡ true)
      → o' ≡ written gs o
      → Change o o'
  deleted :
      (fs : List String)
      → o.object ≡ some fs
      → o' ≡ written fs (record o { marked = true })
      → Change o o'

module _ {W : Type 0} (key : ObjectKey) (observe : W → Observed) (client : Client W) where
  module _ (gauges : Gauges W) (provider : Provider W) where
    -- The operator may be restarted between any two steps, with another configuration, and visits
    -- maps in any order.
    pub data Step (w w' : W) : Type 0 where
      by_user : Change (observe w) (observe w') → Step w w'
      by_operator :
          (visit : Dict String → Dict String) (config : Config) (resolver : DependencyResolver)
          → (reconcile visit client gauges config provider resolver key w).1 ≡ w'
          → Step w w'

    pub data Steps (u : W) : W → Type 0 where
      done : Steps u u
      next : {v w : W} → Steps u v → Step v w → Steps u w

-- The zone is delegated only while the Gslb exists and bears the operator's finalizer.
abbrev pub IsGuarded : Observed → Type 0
IsGuarded o =
    o.delegated ≡ true
    → (fs : List String) × (o.object ≡ some fs) × (contains fs gslb_finalizer ≡ true)
