-- ===== src/Controller/Lifecycle/Contracts.antt =====
-- The contracts of a reconciliation's steps (controllers/gslb_controller.go), from the promises of
-- the API server and of the DNS provider.
use k8gb.Prelude.{
  ◌≡◌, ◌⊎◌, inl, inr, refl, sym, ◌∙◌, arith, Bool, true, false, ◌&&◌, Option, none, some, String,
  List, [], ◌∷◌, is_empty, if◌then◌else◌,
}
use k8gb.Effect.{Outcome, ok, err, panicked}
use k8gb.Effect.Hoare.{Post, Triple}
use k8gb.Api.{Gslb, key_of, ObjectKey}
use k8gb.Cluster.{Client, Gauges}
use k8gb.Controller.Finalizers.{contains, gslb_finalizer}
use k8gb.Controller.Lifecycle.{
  IsFinalization, IsGuarded, IsRead, IsUpdate, Lawful, Observed, written,
}
use k8gb.Dns.{Provider}

abbrev pub Bears : List String → Type 0
Bears fs = contains fs gslb_finalizer ≡ true

-- The Gslb in hand has the finalizers of the one that is stored, or had none and is gone.
abbrev pub IsCurrent : ObjectKey → Gslb → Observed → Type 0
IsCurrent key g o =
    IsGuarded o
    × (key_of g.meta ≡ key)
    × ((o.object ≡ some g.meta.finalizers) ⊎ ((o.object ≡ none) × (g.meta.finalizers ≡ [])))

-- The stored Gslb bears the operator's finalizer.
abbrev pub IsHeld : Observed → Type 0
IsHeld o = (fs : List String) × (o.object ≡ some fs) × Bears fs

abbrev pub IsHolding : ObjectKey → Gslb → Observed → Type 0
IsHolding key g o = IsHeld o × (key_of g.meta ≡ key)

pub Bears-ne-nil : Bears [] → ⊥
unfolding contains
Bears-ne-nil h = ground arith

written_some :
    (fs : List String) (m : Bool)
    → Bears fs
    → ◌≡◌ {A = Option (List String)} (if m && is_empty fs then none else some fs) (some fs)
written_some [] m b = absurd (Bears-ne-nil b)
written_some (f ∷ fs) m b = ground arith

pub IsHeld-written : (fs : List String) (o : Observed) → Bears fs → IsHeld (written fs o)
IsHeld-written fs o b = (fs, written_some fs o.marked b, b)

written_cases :
    (fs : List String) (m : Bool)
    → (◌≡◌ {A = Option (List String)} (if m && is_empty fs then none else some fs) (some fs))
      ⊎ ((◌≡◌ {A = Option (List String)} (if m && is_empty fs then none else some fs) none)
          × (fs ≡ []))
written_cases [] true = inr (refl, refl)
written_cases [] false = inl refl
written_cases (f ∷ fs) m = inl (ground arith)

pub some-inj : (a b : List String) → ◌≡◌ {A = Option (List String)} (some a) (some b) → a ≡ b
some-inj a b h = cc

-- A current Gslb of a delegated zone bears the finalizer.
Bears-delegated :
    {key : ObjectKey} (g : Gslb) (o : Observed)
    → IsCurrent key g o
    → o.delegated ≡ true
    → Bears g.meta.finalizers
Bears-delegated g o (guarded, k, inl e) d =
    let (fs, f, b) = guarded d in rw (some-inj _ fs (sym e ∙ f)) b
Bears-delegated g o (guarded, k, inr (e, _)) d =
    let (fs, f, b) = guarded d in absurd (ground (arith, e, f))

-- An update that keeps the finalizer, if it was there, whatever comes of it.
update-IsGuarded :
    {key : ObjectKey} (g h : Gslb) (o o' : Observed) (r : Outcome Gslb)
    → IsCurrent key g o
    → (Bears g.meta.finalizers → Bears h.meta.finalizers)
    → IsUpdate h o r o'
    → IsGuarded o'
update-IsGuarded g h o o' r c k (inl (e, _)) d = rw e (c.0 (rw e at d))
update-IsGuarded g h o o' r c k (inr (_, _, e, _)) d =
    rw e (IsHeld-written h.meta.finalizers o (k (Bears-delegated g o c (rw e at d))))

IsCurrent-read :
    (key : ObjectKey) (o : Observed) (r : Outcome Gslb)
    → IsGuarded o
    → IsRead key o r
    → Post IsGuarded (IsCurrent key) r o
IsCurrent-read key o (ok g) c (e, _, k) = (c, k, inl e)
IsCurrent-read key o (err e) c h = c
IsCurrent-read key o panicked c h = c

IsCurrent-update :
    {key : ObjectKey} (g h : Gslb) (o o' : Observed) (r : Outcome Gslb)
    → IsCurrent key g o
    → key_of h.meta ≡ key_of g.meta
    → (Bears g.meta.finalizers → Bears h.meta.finalizers)
    → IsUpdate h o r o'
    → Post IsGuarded (IsCurrent key) r o'
IsCurrent-update g h o o' (ok g') c n k (inl (_, f)) = absurd f
IsCurrent-update g h o o' (ok g') c n k (inr (fs, e, w, a)) = (
  update-IsGuarded g h o o' (ok g') c k (inr (fs, e, w, a)),
  a.2 ∙ n ∙ c.1,
  rw (w, a.0) (written_cases h.meta.finalizers o.marked),
)
IsCurrent-update g h o o' (err e) c n k u = update-IsGuarded g h o o' (err e) c k u
IsCurrent-update g h o o' panicked c n k u = update-IsGuarded g h o o' panicked c k u

IsHolding-update :
    {key : ObjectKey} (g h : Gslb) (o o' : Observed) (r : Outcome Gslb)
    → IsCurrent key g o
    → key_of h.meta ≡ key_of g.meta
    → Bears h.meta.finalizers
    → IsUpdate h o r o'
    → Post IsGuarded (IsHolding key) r o'
IsHolding-update g h o o' (ok g') c n b (inl (_, f)) = absurd f
IsHolding-update g h o o' (ok g') c n b (inr (_, _, w, a)) =
    (rw w (IsHeld-written h.meta.finalizers o b), a.2 ∙ n ∙ c.1)
IsHolding-update g h o o' (err e) c n b u = update-IsGuarded g h o o' (err e) c (λ _. b) u
IsHolding-update g h o o' panicked c n b u = update-IsGuarded g h o o' panicked c (λ _. b) u

-- The zone is not delegated.
abbrev pub IsEnded : Observed → Type 0
IsEnded o = o.delegated ≡ false

pub IsEnded-IsGuarded : (o : Observed) → IsEnded o → IsGuarded o
IsEnded-IsGuarded o e d = absurd (ground (arith, e, d))

Post-of_IsEnded :
    {A : Type 0} (o : Observed) (r : Outcome A)
    → IsEnded o
    → Post IsGuarded (λ (_ : A). IsEnded) r o
Post-of_IsEnded o (ok a) e = e
Post-of_IsEnded o (err f) e = IsEnded-IsGuarded o e
Post-of_IsEnded o panicked e = IsEnded-IsGuarded o e

IsEnded-update :
    (h : Gslb) (o o' : Observed) (r : Outcome Gslb)
    → IsEnded o
    → IsUpdate h o r o'
    → Post IsGuarded (λ _. IsEnded) r o'
IsEnded-update h o o' r e u =
    Post-of_IsEnded o' r (elim u [ inl (w, _) ↦ rw w e | inr (_, _, w, _) ↦ rw w e ])

IsEnded-finalization :
    {A : Type 0} (o o' : Observed) (r : Outcome A)
    → IsEnded o
    → IsFinalization o r o'
    → Post IsGuarded (λ _. IsEnded) r o'
IsEnded-finalization o o' (ok a) e f = f
IsEnded-finalization o o' (err x) e f = λ d. absurd (ground (arith, e, f d))
IsEnded-finalization o o' panicked e f = λ d. absurd (ground (arith, e, f d))

IsGuarded-finalization :
    {A : Type 0} (o o' : Observed) (r : Outcome A)
    → IsGuarded o
    → o'.object ≡ o.object
    → IsFinalization o r o'
    → Post IsGuarded (λ _. IsEnded) r o'
IsGuarded-finalization o o' (ok a) g s f = f
IsGuarded-finalization o o' (err x) g s f = λ d. rw s (g (f d))
IsGuarded-finalization o o' panicked g s f = λ d. rw s (g (f d))

IsHeld-delegation :
    {A : Type 0} (o o' : Observed) (r : Outcome A)
    → IsHeld o
    → o'.object ≡ o.object
    → Post IsGuarded (λ _. IsHeld) r o'
IsHeld-delegation o o' (ok a) h s = rw s h
IsHeld-delegation o o' (err x) h s = λ _. rw s h
IsHeld-delegation o o' panicked h s = λ _. rw s h

module _ {W : Type 0} {key : ObjectKey} {observe : W → Observed} {client : Client W}
    {gauges : Gauges W} {provider : Provider W}
    (laws : Lawful key observe client gauges provider) where
  pub get-Triple : Triple observe IsGuarded IsGuarded (client.get_gslb key) (IsCurrent key)
  get-Triple = record {
    holds = λ w c. rw (laws.server.get_gslb.same w) (
        IsCurrent-read key (observe w) (client.get_gslb key w).0 c (laws.server.get_gslb_IsRead w));
  }

  pub update-Triple :
      (g h : Gslb)
      → key_of h.meta ≡ key_of g.meta
      → (Bears g.meta.finalizers → Bears h.meta.finalizers)
      → Triple observe IsGuarded (IsCurrent key g) (client.update_gslb h) (IsCurrent key)
  update-Triple g h n k = record {
    holds = λ w c.
        IsCurrent-update g h (observe w) _ (client.update_gslb h w).0 c n k
          (laws.server.update_gslb h w);
  }

  pub hold-Triple :
      (g h : Gslb)
      → key_of h.meta ≡ key_of g.meta
      → Bears h.meta.finalizers
      → Triple observe IsGuarded (IsCurrent key g) (client.update_gslb h) (IsHolding key)
  hold-Triple g h n b = record {
    holds = λ w c.
        IsHolding-update g h (observe w) _ (client.update_gslb h w).0 c n b
          (laws.server.update_gslb h w);
  }

  pub IsEnded-update-Triple :
      (h : Gslb) → Triple observe IsGuarded IsEnded (client.update_gslb h) (λ _. IsEnded)
  IsEnded-update-Triple h = record {
    holds = λ w e.
        IsEnded-update h (observe w) _ (client.update_gslb h w).0 e (laws.server.update_gslb h w);
  }

  pub finalize-Triple :
      (g : Gslb) → Triple observe IsGuarded IsGuarded (provider.finalize g) (λ _. IsEnded)
  finalize-Triple g = record {
    holds = λ w c.
        IsGuarded-finalization (observe w) _ (provider.finalize g w).0 c
          (laws.edge.finalize_object g w) (laws.edge.finalize_IsFinalization g w);
  }

  pub IsEnded-finalize-Triple :
      (g : Gslb) → Triple observe IsGuarded IsEnded (provider.finalize g) (λ _. IsEnded)
  IsEnded-finalize-Triple g = record {
    holds = λ w e.
        IsEnded-finalization (observe w) _ (provider.finalize g w).0 e
          (laws.edge.finalize_IsFinalization g w);
  }

  pub delegation-Triple :
      (g : Gslb) → Triple observe IsGuarded IsHeld (provider.create_zone_delegation g) (λ _. IsHeld)
  delegation-Triple g = record {
    holds = λ w h.
        IsHeld-delegation (observe w) _ (provider.create_zone_delegation g w).0 h
          (laws.edge.delegation_object g w);
  }
