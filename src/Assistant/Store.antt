-- ===== src/Assistant/Store.antt =====
-- Lemmas on `save_dns_endpoint` and `remove_endpoint` (controllers/providers/assistant/gslb.go).
use k8gb.Prelude.{◌≡◌, refl, sym, ap, ◌∙◌, inl, inr, String, true}
use k8gb.Prelude.Dict.{Dict}
use k8gb.Prelude.Int.{ℤ}
use k8gb.Effect.{ok, err, Error, is_not_found}
use k8gb.Effect.Laws.{handle-eq-ok, if-eq-ok, raise-ne-ok, run-eq-ok}
use k8gb.Api.{ObjectKey, key_of}
use k8gb.Assistant.{save_dns_endpoint, remove_endpoint}
use k8gb.Cluster.{Client, DnsClient, DnsEndpoint}

-- What the API server promises about DNSEndpoints: it gives an object by its own key, an object that was
-- created or updated is then read back, and a deleted one is not found any more.
pub record IsStore {W : Type 0} (client : Client W) : Type 0 where
  pub keyed :
      (key : ObjectKey) (w : W) (d : DnsEndpoint) (w' : W)
      → client.get_dns_endpoint key w ≡ (ok d, w')
      → key_of d.meta ≡ key
  pub created :
      (d : DnsEndpoint) (w w' : W)
      → client.create_dns_endpoint d w ≡ (ok tt, w')
      → (client.get_dns_endpoint (key_of d.meta) w').0 ≡ ok d
  pub updated :
      (d : DnsEndpoint) (w w' : W)
      → client.update_dns_endpoint d w ≡ (ok tt, w')
      → (client.get_dns_endpoint (key_of d.meta) w').0 ≡ ok d
  pub deleted :
      (d : DnsEndpoint) (w w' : W)
      → client.delete_dns_endpoint d w ≡ (ok tt, w')
      → (client.get_dns_endpoint (key_of d.meta) w').0 ≡ err Error.not_found
  pub absent :
      (key : ObjectKey) (w w' : W) (e : Error)
      → client.get_dns_endpoint key w ≡ (err e, w')
      → (client.get_dns_endpoint key w').0 ≡ err e

module _ {W : Type 0} (visit : Dict String → Dict String) (client : Client W)
    (dns : DnsClient W) where
  module _ (k8gb_namespace edge : String) (port : ℤ) (store : IsStore client) where
    -- With a lawful API server, a record set that was saved in its own namespace is read back with its
    -- records, labels and annotations, whether it was there before or not.
    pub save_dns_endpoint-stored :
        (i : DnsEndpoint) (w : W) {w' : W}
        → save_dns_endpoint visit client dns k8gb_namespace edge port i.meta.namespace i w
          ≡ (ok tt, w')
        → (d : DnsEndpoint) × ((client.get_dns_endpoint (key_of i.meta) w').0 ≡ ok d)
          × (d.endpoints ≡ i.endpoints)
          × (d.meta.labels ≡ i.meta.labels)
          × (d.meta.annotations ≡ i.meta.annotations)
    unfolding save_dns_endpoint
    save_dns_endpoint-stored i w h =
        elim (handle-eq-ok (client.get_dns_endpoint (key_of i.meta)) _ _ w h) [
          | inl (found, e, h1) ↦ (
            _,
            rw
                (store.keyed (key_of i.meta) w found _
                  (run-eq-ok (client.get_dns_endpoint (key_of i.meta)) w e))
                at (store.updated _ _ _ h1),
            refl,
            refl,
            refl,
          )
          | inr (e, _, h1) ↦ elim (if-eq-ok (is_not_found e) _ _ _ h1) [
            | inl (_, h2) ↦ (i, store.created i _ _ h2, refl, refl, refl)
            | inr (_, h2) ↦ absurd (raise-ne-ok e _ h2)
          ]
        ]

    -- With a lawful API server, a record set whose removal has succeeded is not there any more, whether
    -- it was there before or not.
    pub remove_endpoint-absent :
        (name : String) (w : W) {w' : W}
        → remove_endpoint visit client dns k8gb_namespace edge port name w ≡ (ok tt, w')
        → (e : Error) × ((client.get_dns_endpoint
              (record { name = name; namespace = k8gb_namespace })
              w').0
            ≡ err e)
          × (is_not_found e ≡ true)
    unfolding remove_endpoint
    remove_endpoint-absent name w h =
        let key : ObjectKey = record { name = name; namespace = k8gb_namespace } in
        elim (handle-eq-ok (client.get_dns_endpoint key) _ _ w h) [
          | inl (found, e, h1) ↦ (
            Error.not_found,
            rw (store.keyed key w found _ (run-eq-ok (client.get_dns_endpoint key) w e)) at
                (store.deleted found _ _ h1),
            refl,
          )
          | inr (e, e1, h1) ↦ elim (if-eq-ok (is_not_found e) _ _ _ h1) [
            | inl (n, h2) ↦ (
              e,
              ap (λ v. (client.get_dns_endpoint key v).0) (sym (ap (λ r. r.1) h2))
                  ∙ store.absent key w _ e (ap (λ r. (r, (client.get_dns_endpoint key w).1)) e1),
              n,
            )
            | inr (_, h2) ↦ absurd (raise-ne-ok e _ h2)
          ]
        ]
