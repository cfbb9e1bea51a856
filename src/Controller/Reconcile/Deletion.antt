-- ===== src/Controller/Reconcile/Deletion.antt =====
-- Lemmas on the finalizer (controllers/gslb_controller.go).
use k8gb.Prelude.{
  ◌≡◌, inl, inr, sym, refl, arith, String, true, List, [], ◌∷◌, ◌++◌, eq_refl, Bool-cases,
}
use k8gb.Effect.{ok}
use k8gb.Effect.Laws.{pure-eq-ok}
use k8gb.Api.{Gslb}
use k8gb.Cluster.{Client}
use k8gb.Controller.Finalizers.{add_finalizer, contains, gslb_finalizer}
use k8gb.Controller.Reconcile.{ensure_finalizer}
use k8gb.Dns.{Provider}

pub contains-append_last : (list : List String) (s : String) → contains (list ++ s ∷ []) s ≡ true
unfolding contains
contains-append_last [] s = rw (eq_refl s) refl
contains-append_last (x ∷ xs) s = ground (arith, contains-append_last xs s)

-- The server keeps the finalizers that an update sends, as long as the object lives.
abbrev pub KeepsFinalizers : {W : Type 0} → Client W → Type 0
KeepsFinalizers {W} client =
    (g : Gslb) (w : W) (g' : Gslb) (w' : W)
    → client.update_gslb g w ≡ (ok g', w')
    → g'.meta.finalizers ≡ g.meta.finalizers

module _ {W : Type 0} (client : Client W) (provider : Provider W) where
  -- With an API server that keeps the finalizers of an update, a Gslb that went on to be published
  -- bears k8gb's finalizer.
  ensure_finalizer-contains :
      (gslb : Gslb) (w : W) {g' : Gslb} {w' : W}
      → KeepsFinalizers client
      → ensure_finalizer client provider gslb w ≡ (ok g', w')
      → contains g'.meta.finalizers gslb_finalizer ≡ true
  unfolding ensure_finalizer add_finalizer
  ensure_finalizer-contains gslb w keeps h =
      elim (Bool-cases (contains gslb.meta.finalizers gslb_finalizer)) [
        | inl e ↦ rw (sym (pure-eq-ok gslb w (rw e at h))) e
        | inr e ↦
            rw (keeps _ w _ _ (rw e at h))
              (contains-append_last gslb.meta.finalizers gslb_finalizer)
      ]
